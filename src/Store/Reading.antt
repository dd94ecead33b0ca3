-- ===== src/Store/Reading.antt =====
-- The reading of the XML documents of src/cpp/coqstore.cpp: inStream of CoqKeyStore, CoqFBlockStore,
-- CoqFInfoStore and CoqFilesStream. The parser and its tree, boost's property_tree, are a parameter;
-- numbers in a document are taken not to be negative. The warning on old documents is left out.
use elykseer_cpp.Base.{
  ℕ, Bool, true, false, Option, none, some, List, [], ◌∷◌, ◌++◌, if◌then◌else◌, str_eq, codes, pos,
}
use elykseer_cpp.Nchunks.{nchunks}
use elykseer_cpp.Assembly.{BlockInformation, KeyInformation}
use elykseer_cpp.Store.{
  Key, add, KeyStore, add_key, FBlockStore, FInfoStore, FileInformation, add_info, from_hex,
}

-- boost::property_tree: the children of a tree with their names, in their order (the attributes are
-- those of a child named <xmlattr>), the first child of a name, and the text or the number, of that
-- many bits, at a path, with a default. `read_xml` is called with no_comments and trim_whitespace;
-- `none` is a ptree_error.
pub record PropertyTree : Type 1 where
  pub Tree : Type 0
  pub read_xml : List ℕ → Option Tree
  pub entries : Tree → List (List ℕ × Tree)
  pub get_child : Tree → List ℕ → Option Tree
  pub get_text : Tree → List ℕ → List ℕ → List ℕ
  pub get_number : ℕ → Tree → List ℕ → ℕ → ℕ

module _ (pt : PropertyTree) (fromHex : List ℕ → List ℕ) where
  open pt use {Tree, read_xml, entries, get_child, get_text, get_number}

  -- The key of one record, if both hex texts are valid.
  unfoldable pub key_information : Tree → Option KeyInformation
  key_information t = elim (from_hex fromHex 256 (get_text t (codes "secret") [])) [
    | none ↦ none
    | some pkey ↦ elim (from_hex fromHex 128 (get_text t (codes "iv") [])) [
      | none ↦ none
      | some ivec ↦ some (record {
        ivec = ivec;
        pkey = pkey;
        localnchunks = nchunks (pos (get_number 31 t (codes "<xmlattr>.nchunks") 16));
        version = get_text t (codes "<xmlattr>.version") [];
      })
    ]
  ]

  -- One record of a key, with `ok` so far.
  unfoldable pub read_key : Tree → Bool × KeyStore → Bool × KeyStore
  unfolding key_information
  read_key t (ok, s) = elim (key_information t) [
    | none ↦ (false, s)
    | some ki ↦ elim (get_text t (codes "<xmlattr>.aid") []) [
      | [] ↦ (ok, s)
      | x ∷ xs ↦ (ok, (add_key s (x ∷ xs) ki).1)
    ]
  ]

  unfoldable pub read_key_records : List (List ℕ × Tree) → Bool × KeyStore → Bool × KeyStore
  unfolding read_key
  read_key_records [] st = st
  read_key_records ((name, t) ∷ ts) st =
      read_key_records ts (if str_eq name (codes "key") then read_key t st else st)

  unfoldable pub read_key_roots : List (List ℕ × Tree) → Bool × KeyStore → Bool × KeyStore
  unfolding read_key_records
  read_key_roots [] st = st
  read_key_roots ((name, t) ∷ ts) st =
      read_key_roots ts (if str_eq name (codes "keys") then read_key_records (entries t) st else st)

  -- CoqKeyStore::inStream
  unfoldable pub read_keys : List ℕ → KeyStore → Bool × KeyStore
  unfolding read_key_roots
  read_keys ins s = elim (read_xml ins) [
    | none ↦ (false, s)
    | some t ↦ read_key_roots (entries t) (true, s)
  ]

  -- The information of a file, from its entry.
  unfoldable pub file_information : Key → Tree → FileInformation
  file_information fhash t = record {
    fname = get_text t (codes "name") [];
    fhash = fhash;
    fsize = get_number 64 t (codes "size") 0;
    fowner = get_text t (codes "owner") [];
    fpermissions = get_number 32 t (codes "permissions") 0;
    fmodified = get_text t (codes "modified") [];
    fchecksum = get_text t (codes "checksum") [];
  }

  -- One block of a file: `none` if its checksum is not valid.
  unfoldable pub block_information : Tree → Option BlockInformation
  block_information t = elim (from_hex fromHex 256 (get_text t (codes "checksum") [])) [
    | none ↦ none
    | some sum ↦ some (record {
      blockid = get_number 31 t (codes "<xmlattr>.blockid") 0;
      bchecksum = some sum;
      blocksize = get_number 32 t (codes "<xmlattr>.blocksize") 0;
      filepos = get_number 64 t (codes "<xmlattr>.filepos") 0;
      blockaid = get_text t (codes "aid") [];
      blockapos = get_number 32 t (codes "<xmlattr>.apos") 0;
    })
  ]

  -- The loop over the blocks of a file, with `ok` and the blocks so far.
  unfoldable pub read_blocks :
      List (List ℕ × Tree) → Bool × List BlockInformation → Bool × List BlockInformation
  unfolding block_information
  read_blocks [] st = st
  read_blocks ((name, t) ∷ ts) (ok, bis) = read_blocks ts (
      if str_eq name (codes "fileblock")
      then elim (block_information t) [ none ↦ (false, bis) | some bi ↦ (ok, bis ++ bi ∷ []) ]
      else (ok, bis))

  -- `if (bis->size() > 0) { fblockstore->CoqStore::add(fhash, bis); }`
  unfoldable pub put_blocks : FBlockStore → Key → List BlockInformation → FBlockStore
  put_blocks s fhash [] = s
  put_blocks s fhash (bi ∷ bis) = (add s fhash (bi ∷ bis)).1

  -- The blocks of an entry, for a store of blocks.
  unfoldable pub read_file_blocks :
      Key → Tree → Bool × Option FBlockStore → Bool × Option FBlockStore
  unfolding read_blocks put_blocks
  read_file_blocks fhash t (ok, none) = (ok, none)
  read_file_blocks fhash t (ok, some s) = elim (get_child t (codes "fileblocks")) [
    | none ↦ (ok, some s)
    | some blocks ↦
        let (ok', bis) = read_blocks (entries blocks) (ok, []) in
        (ok', some (put_blocks s fhash bis))
  ]

  -- The information of an entry that has a name, for a store of file information.
  unfoldable pub read_file_info : Key → Tree → Option FInfoStore → Option FInfoStore
  unfolding file_information
  read_file_info fhash t none = none
  read_file_info fhash t (some s) = elim (get_child t (codes "name")) [
    | none ↦ some s
    | some _ ↦ some (add_info s fhash (file_information fhash t)).1
  ]

  -- What the reading of a document changes.
  pub record Files : Type 0 where
    pub ok : Bool
    pub finfostore : Option FInfoStore
    pub fblockstore : Option FBlockStore

  unfoldable pub read_file_entry : Tree → Files → Files
  unfolding read_file_info read_file_blocks
  read_file_entry t st = elim (get_text t (codes "<xmlattr>.fhash") []) [
    | [] ↦ st
    | x ∷ xs ↦
        let (ok, fb) = read_file_blocks (x ∷ xs) t (st.ok, st.fblockstore) in
        record { ok = ok; finfostore = read_file_info (x ∷ xs) t st.finfostore; fblockstore = fb }
  ]

  unfoldable pub read_file_entries : List (List ℕ × Tree) → Files → Files
  unfolding read_file_entry
  read_file_entries [] st = st
  read_file_entries ((name, t) ∷ ts) st =
      read_file_entries ts
        (if str_eq name (codes "fileinformation") then read_file_entry t st else st)

  unfoldable pub read_file_roots : List (List ℕ × Tree) → Files → Files
  unfolding read_file_entries
  read_file_roots [] st = st
  read_file_roots ((name, t) ∷ ts) st =
      read_file_roots ts
        (if str_eq name (codes "files") then read_file_entries (entries t) st else st)

  -- read_files_document, for either store or for both.
  unfoldable pub read_files_document : List ℕ → Option FInfoStore → Option FBlockStore → Files
  unfolding read_file_roots
  read_files_document ins fi fb = elim (read_xml ins) [
    | none ↦ record { ok = false; finfostore = fi; fblockstore = fb }
    | some t ↦ read_file_roots (entries t) (record { ok = true; finfostore = fi; fblockstore = fb })
  ]
