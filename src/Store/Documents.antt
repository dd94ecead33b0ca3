-- ===== src/Store/Documents.antt =====
-- The XML documents that the stores are written as: outStream of CoqKeyStore, CoqFBlockStore,
-- CoqFInfoStore and CoqFilesStream. The line with the program's name, version, host and time is a
-- parameter. A key without bytes, whose `toHex` throws, is `none`.
use elykseer_cpp.Base.{
  ℕ, Bool, true, not, Option, none, some, List, [], ◌∷◌, ◌++◌, if◌then◌else◌, codes, to_string,
}
use elykseer_cpp.Assembly.{BlockInformation, KeyInformation, format_version}
use elykseer_cpp.Store.{
  Key, find, contains, KeyStore, FBlockStore, FInfoStore, FileInformation, xml_escape,
}

infixl 5 ◌>>=◌
abbrev ◌>>=◌ {ℓ κ} : {A : Type ℓ} {B : Type κ} → Option A → (A → Option B) → Option B
◌>>=◌ m f = elim m [ none ↦ none | some a ↦ f a ]

abbrev newline : List ℕ
newline = 10 ∷ []

-- name="value"
abbrev attribute : List ℕ → List ℕ → List ℕ
attribute name value = name ++ 61 ∷ 34 ∷ (value ++ 34 ∷ [])

-- <name>value</name>
abbrev element : List ℕ → List ℕ → List ℕ
element name value = 60 ∷ (name ++ 62 ∷ (value ++ 60 ∷ 47 ∷ (name ++ 62 ∷ [])))

-- What a document says of the program that writes it.
pub record Origin : Type 0 where
  pub program : List ℕ
  pub version : List ℕ
  pub hostname : List ℕ
  pub timestamp : List ℕ

-- outputHeader
unfoldable pub output_header : Origin → List ℕ → List ℕ
output_header o ty =
    codes "<?xml "
    ++ attribute (codes "version") (codes "1.0")
    ++ codes " "
    ++ attribute (codes "encoding") (codes "UTF-8")
    ++ codes "?>"
    ++ newline
    ++ codes "<!-- "
    ++ o.program
    ++ codes " "
    ++ o.version
    ++ codes " on "
    ++ xml_escape o.hostname
    ++ codes " at "
    ++ o.timestamp
    ++ codes " -->"
    ++ newline
    ++ codes "<"
    ++ ty
    ++ codes ">"
    ++ newline

module _ (to_hex : List ℕ → List ℕ) where
  -- One key of CoqKeyStore::outStream.
  unfoldable pub key_entry : Key → KeyInformation → List ℕ
  key_entry aid ki =
      codes "<key "
      ++ attribute (codes "nchunks") (to_string ki.localnchunks)
      ++ codes " "
      ++ attribute (codes "version") (xml_escape ki.version)
      ++ codes " "
      ++ attribute (codes "aid") (xml_escape aid)
      ++ codes ">"
      ++ element (codes "secret") (to_hex ki.pkey)
      ++ element (codes "iv") (to_hex ki.ivec)
      ++ codes "</key>"
      ++ newline

  unfoldable pub key_entries : List (Key × KeyInformation) → List ℕ
  unfolding key_entry
  key_entries [] = []
  key_entries ((aid, ki) ∷ es) = key_entry aid ki ++ key_entries es

  -- CoqKeyStore::outStream
  unfoldable pub write_keys : Origin → KeyStore → List ℕ
  unfolding key_entries
  write_keys o s =
      output_header o (codes "keys") ++ key_entries s.entries ++ codes "</keys>" ++ newline

  -- One block of a file.
  unfoldable pub block_entry : BlockInformation → Option (List ℕ)
  block_entry bi = do
    sum ← bi.bchecksum
    some (
        codes "<fileblock "
        ++ attribute (codes "blockid") (to_string bi.blockid)
        ++ codes " "
        ++ attribute (codes "blocksize") (to_string bi.blocksize)
        ++ codes " "
        ++ attribute (codes "filepos") (to_string bi.filepos)
        ++ codes " "
        ++ attribute (codes "apos") (to_string bi.blockapos)
        ++ codes ">"
        ++ element (codes "aid") (xml_escape bi.blockaid)
        ++ element (codes "checksum") (to_hex sum)
        ++ codes "</fileblock>"
        ++ newline)

  unfoldable pub block_entries : List BlockInformation → Option (List ℕ)
  unfolding block_entry
  block_entries [] = some []
  block_entries (bi ∷ bis) = do x ← block_entry bi; xs ← block_entries bis; some (x ++ xs)

  -- The information of a file, empty for one that has none.
  unfoldable pub info_of : Option FInfoStore → Key → FileInformation
  info_of fi fhash =
      let unknown : FileInformation = record {
        fname = [];
        fhash = [];
        fsize = 0;
        fowner = [];
        fpermissions = 0;
        fmodified = [];
        fchecksum = [];
      } in
      elim fi [ none ↦ unknown | some s ↦ elim (find s fhash) [ none ↦ unknown | some i ↦ i ] ]

  unfoldable pub blocks_text : Option FBlockStore → Key → Option (List ℕ)
  unfolding block_entries
  blocks_text none fhash = some []
  blocks_text (some s) fhash = elim (find s fhash) [ none ↦ some [] | some bis ↦ block_entries bis ]

  -- write_entry of write_files_document
  unfoldable pub file_entry : Option FInfoStore → Option FBlockStore → Key → Option (List ℕ)
  unfolding info_of blocks_text
  file_entry fi fb fhash = do
    blocks ← blocks_text fb fhash
    let i = info_of fi fhash
    some (
        codes "<fileinformation "
        ++ attribute (codes "version") format_version
        ++ codes " "
        ++ attribute (codes "fhash") (xml_escape fhash)
        ++ codes ">"
        ++ newline
        ++ element (codes "name") (xml_escape i.fname)
        ++ newline
        ++ element (codes "size") (to_string i.fsize)
        ++ newline
        ++ element (codes "owner") (xml_escape i.fowner)
        ++ newline
        ++ element (codes "permissions") (to_string i.fpermissions)
        ++ newline
        ++ element (codes "modified") (xml_escape i.fmodified)
        ++ newline
        ++ element (codes "checksum") (xml_escape i.fchecksum)
        ++ newline
        ++ codes "<fileblocks>"
        ++ newline
        ++ blocks
        ++ codes "</fileblocks>"
        ++ newline
        ++ codes "</fileinformation>"
        ++ newline)

  unfoldable pub file_entries : Option FInfoStore → Option FBlockStore → List Key → Option (List ℕ)
  unfolding file_entry
  file_entries fi fb [] = some []
  file_entries fi fb (k ∷ ks) = do
    x ← file_entry fi fb k
    xs ← file_entries fi fb ks
    some (x ++ xs)

-- The hashes of the entries of a store, in its order.
unfoldable pub hashes : {V : Type 0} → List (Key × V) → List Key
hashes [] = []
hashes ((k, v) ∷ es) = k ∷ hashes es

-- `! fblockstore || ! fblockstore->contains(hash)`
unfoldable pub not_written : Option FBlockStore → Key → Bool
not_written none k = true
not_written (some s) k = not (contains s k)

unfoldable pub info_hashes : Option FBlockStore → List (Key × FileInformation) → List Key
unfolding not_written
info_hashes fb [] = []
info_hashes fb ((k, i) ∷ es) =
    let rest = info_hashes fb es in if not_written fb k then k ∷ rest else rest

-- The hashes for which write_files_document writes an entry: those with blocks, then those that have
-- only information.
unfoldable pub document_hashes : Option FInfoStore → Option FBlockStore → List Key
unfolding hashes info_hashes
document_hashes none none = []
document_hashes none (some b) = hashes b.entries
document_hashes (some i) none = info_hashes none i.entries
document_hashes (some i) (some b) = hashes b.entries ++ info_hashes (some b) i.entries

-- write_files_document
unfoldable pub write_files_document :
    (List ℕ → List ℕ) → Origin → Option FInfoStore → Option FBlockStore → Option (List ℕ)
unfolding output_header file_entries document_hashes
write_files_document to_hex o fi fb = do
  entries ← file_entries to_hex fi fb (document_hashes fi fb)
  some (output_header o (codes "files") ++ entries ++ codes "</files>" ++ newline)
