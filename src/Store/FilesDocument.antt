-- ===== src/Store/FilesDocument.antt =====
-- The document of the files, written and read back into a store of blocks.
use mathlib.Core.List.{append-nil}
use elykseer_cpp.Base.{
  ℕ, ◌≡◌, ◌≢◌, refl, sym, ◌∙◌, ap, subst, Bool, true, false, Option, none, some, List, [], ◌∷◌,
  ◌++◌, str_eq, codes, Bool-cases, inl, inr, if◌then◌else◌,
}
use elykseer_cpp.Assembly.{BlockInformation}
use elykseer_cpp.Store.{
  Key, FBlockStore, FInfoStore, FileInformation, add, find, find_in, contains, contains_in,
}
use elykseer_cpp.Store.Entries.{IsDistinct}
use elykseer_cpp.Store.Append.{
  append_one, assign-append, absent_before, find_in-middle, find_in-absent,
}
use elykseer_cpp.Store.Documents.{
  Origin, hashes, not_written, info_hashes, info_of, document_hashes, write_files_document,
}
use elykseer_cpp.Store.Reading.{
  PropertyTree, Files, put_blocks, read_file_blocks, read_file_info, read_file_entry,
  read_file_entries, read_files_document,
}
use elykseer_cpp.Store.Xml.{print, named, Represents}
use elykseer_cpp.Store.KeyNodes.{prolog}
use elykseer_cpp.Store.FileNodes.{
  AreBlocks, block_nodes, or_empty, file_attributes, file_children, file_node, file_nodes,
  files_node, write_files_document-print,
}
use elykseer_cpp.Store.FileBlocks.{read_blocks-back}

module _ (to_hex fromHex : List ℕ → List ℕ) where
  -- What the theorem asks of an entry: a hash, and blocks that are valid.
  pub record IsFile (fhash : Key) (bis : List BlockInformation) : Type 0 where
    pub named_hash : fhash ≢ []
    pub not_empty : bis ≢ []
    pub blocks : AreBlocks to_hex fromHex bis

  abbrev pub AllFiles : List (Key × List BlockInformation) → Type 0
  AllFiles [] = Unit {0}
  AllFiles ((k, bis) ∷ es) = IsFile k bis × AllFiles es

  abbrev pub AreFiles : FBlockStore → Type 0
  AreFiles fb = AllFiles fb.entries

  if_blocks :
      (b : Bool) (bis : List BlockInformation) (o : Option (List BlockInformation))
      → AreBlocks to_hex fromHex bis
      → AreBlocks to_hex fromHex (or_empty to_hex fromHex o)
      → AreBlocks to_hex fromHex (or_empty to_hex fromHex (if b then some bis else o))
  if_blocks true bis o h k = h
  if_blocks false bis o h k = k

  AllFiles-blocks :
      (es : List (Key × List BlockInformation))
      → AllFiles es
      → (k : Key) → AreBlocks to_hex fromHex (or_empty to_hex fromHex (find_in k es))
  unfolding find_in
  AllFiles-blocks [] v k = tt
  AllFiles-blocks ((k', bis) ∷ es) (f, v) k =
      if_blocks (str_eq k k') bis (find_in k es) f.blocks (AllFiles-blocks es v k)

  abbrev AllAbsent : FBlockStore → List Key → Type 0
  AllAbsent fb [] = Unit {0}
  AllAbsent fb (k ∷ ks) = (find fb k ≡ none) × AllAbsent fb ks

  info_hashes-AllAbsent :
      (fb : FBlockStore) (es : List (Key × FileInformation))
      → AllAbsent fb (info_hashes (some fb) es)
  unfolding info_hashes not_written find contains
  info_hashes-AllAbsent fb [] = tt
  info_hashes-AllAbsent fb ((k, i) ∷ es) = elim (Bool-cases (contains_in k fb.entries)) [
    | inl there ↦ rw there (info_hashes-AllAbsent fb es)
    | inr absent ↦ rw absent (find_in-absent k fb.entries absent, info_hashes-AllAbsent fb es)
  ]

  -- The hashes that only the store of file information has.
  abbrev others : Option FInfoStore → FBlockStore → List Key
  others none fb = []
  others (some i) fb = info_hashes (some fb) i.entries

  others-AllAbsent : (fi : Option FInfoStore) (fb : FBlockStore) → AllAbsent fb (others fi fb)
  others-AllAbsent none fb = tt
  others-AllAbsent (some i) fb = info_hashes-AllAbsent fb i.entries

  document_hashes-others :
      (fi : Option FInfoStore) (fb : FBlockStore)
      → document_hashes fi (some fb) ≡ hashes fb.entries ++ others fi fb
  unfolding document_hashes
  document_hashes-others none fb = sym (append-nil (hashes fb.entries))
  document_hashes-others (some i) fb = refl

  module _ (pt : PropertyTree) (r : Represents pt) where
    abbrev store_of : List (Key × List BlockInformation) → FBlockStore
    store_of es = record { entries = es }

    -- What has been read so far, into a store of blocks alone.
    abbrev so_far : FBlockStore → Files pt fromHex
    so_far s = record { ok = true; finfostore = none; fblockstore = some s }

    read_file_blocks-back :
        (fhash : Key) (i : FileInformation) (bis : List BlockInformation) (s : FBlockStore)
        → AreBlocks to_hex fromHex bis
        → read_file_blocks pt fromHex fhash
            (r.tree_of (file_node to_hex fromHex fhash i bis))
            (true, some s)
          ≡ (true, some (put_blocks pt fromHex s fhash bis))
    unfolding read_file_blocks str_eq
    read_file_blocks-back fhash i bis s v =
        rw
          (
            r.child true (codes "fileinformation") [] (file_attributes to_hex fromHex fhash)
                (file_children to_hex fromHex i bis) (codes "fileblocks") refl,
            read_file_blocks,
          )
          (rw (r.entries_children true (codes "fileblocks") [] (block_nodes to_hex fromHex bis))
            (rw (read_blocks-back to_hex fromHex pt r bis [] v) refl))

    read_file_entry-back :
        (fhash : Key) (i : FileInformation) (bis : List BlockInformation) (s : FBlockStore)
        → fhash ≢ []
        → AreBlocks to_hex fromHex bis
        → read_file_entry pt fromHex (r.tree_of (file_node to_hex fromHex fhash i bis)) (so_far s)
          ≡ so_far (put_blocks pt fromHex s fhash bis)
    unfolding read_file_entry read_file_info str_eq
    read_file_entry-back [] i bis s named_hash v = absurd (named_hash refl)
    read_file_entry-back (x ∷ xs) i bis s named_hash v =
        rw
          (
            r.text_attribute true (codes "fileinformation") []
                (file_attributes to_hex fromHex (x ∷ xs)) (file_children to_hex fromHex i bis)
                (codes "fhash") [],
            read_file_entry,
          )
          (rw (read_file_blocks-back (x ∷ xs) i bis s v) refl)

    -- An entry without blocks changes nothing, even without a hash.
    read_file_entry-without :
        (fhash : Key) (i : FileInformation) (s : FBlockStore)
        → read_file_entry pt fromHex (r.tree_of (file_node to_hex fromHex fhash i [])) (so_far s)
          ≡ so_far s
    unfolding read_file_entry put_blocks str_eq
    read_file_entry-without [] i s =
        rw
          (
            r.text_attribute true (codes "fileinformation") [] (file_attributes to_hex fromHex [])
                (file_children to_hex fromHex i []) (codes "fhash") [],
            read_file_entry,
          )
          refl
    read_file_entry-without (x ∷ xs) i s = read_file_entry-back (x ∷ xs) i [] s (λ e. cc) tt

    put_blocks-append :
        (done : List (Key × List BlockInformation)) (k : Key) (bis : List BlockInformation)
        → bis ≢ []
        → contains_in k done ≡ false
        → put_blocks pt fromHex (store_of done) k bis ≡ store_of (done ++ (k, bis) ∷ [])
    unfolding put_blocks add
    put_blocks-append done k [] h absent = absurd (h refl)
    put_blocks-append done k (bi ∷ bis) h absent =
        ap store_of (assign-append k (bi ∷ bis) done absent)

    module _ (fi : Option FInfoStore) (fb : FBlockStore) where
      abbrev trees : List Key → List (List ℕ × PropertyTree.Tree pt)
      trees ks = named r.tree_of (file_nodes to_hex fromHex fi fb ks)

      read_file_entries-absent :
          (ks : List Key) (s : FBlockStore)
          → AllAbsent fb ks
          → read_file_entries pt fromHex (trees ks) (so_far s) ≡ so_far s
      unfolding read_file_entries str_eq
      read_file_entries-absent [] s v = refl
      read_file_entries-absent (k ∷ ks) s (absent, v) = rw absent (
          ap (read_file_entries pt fromHex (trees ks))
            (read_file_entry-without k (info_of to_hex fi k) s)
          ∙ read_file_entries-absent ks s v)

      read_file_entries-back :
          (es done : List (Key × List BlockInformation)) (ks : List Key)
          → AllFiles es
          → fb.entries ≡ done ++ es
          → IsDistinct fb
          → AllAbsent fb ks
          → read_file_entries pt fromHex (trees (hashes es ++ ks)) (so_far (store_of done))
            ≡ so_far (store_of (done ++ es))
      unfolding read_file_entries hashes find str_eq
      read_file_entries-back [] done ks v e d a =
          read_file_entries-absent ks (store_of done) a
          ∙ ap (λ l. so_far (store_of l)) (sym (append-nil done))
      read_file_entries-back ((k, bis) ∷ es) done ks (f, v) e d a =
          let distinct : IsDistinct (store_of (done ++ (k, bis) ∷ es)) =
            subst (λ (l : List (Key × List BlockInformation)). IsDistinct (store_of l)) e d in
          let absent = absent_before done es k bis distinct in
          let found : find_in k fb.entries ≡ some bis =
            ap (find_in k) e ∙ find_in-middle done es k bis absent in
          rw found (
            ap (read_file_entries pt fromHex (trees (hashes es ++ ks))) (
              read_file_entry-back k (info_of to_hex fi k) bis (store_of done) f.named_hash f.blocks
              ∙ ap so_far (put_blocks-append done k bis f.not_empty absent))
            ∙ read_file_entries-back es (done ++ (k, bis) ∷ []) ks v
                (e ∙ sym (append_one done es (k, bis))) d a
            ∙ ap (λ l. so_far (store_of l)) (append_one done es (k, bis)))

    -- For a store of blocks without a hash twice, with a hash and blocks at each entry, whose numbers
    -- fit their types and whose checksums have hex texts that are converted back, whatever the store
    -- of file information has, and a parser of XML that reads the document as the element that it
    -- writes out: outStream of both stores gives a document, and reading it into an empty store of
    -- blocks gives the same blocks in the same order, and is a success.
    pub read_files_document-write_files_document :
        (o : Origin) (fi : Option FInfoStore) (fb : FBlockStore)
        → AreFiles fb
        → IsDistinct fb
        → PropertyTree.read_xml pt
            (prolog to_hex fromHex o ++ print (files_node to_hex fromHex fi fb) ++ 10 ∷ [])
          ≡ some (r.document (files_node to_hex fromHex fi fb))
        → (doc : List ℕ) × (write_files_document to_hex o fi (some fb) ≡ some doc)
          × (read_files_document pt fromHex doc none (some (record { entries = [] }))
              ≡ record { ok = true; finfostore = none; fblockstore = some fb })
    unfolding read_files_document find str_eq
    read_files_document-write_files_document o fi fb v d parsed = (
      prolog to_hex fromHex o ++ print (files_node to_hex fromHex fi fb) ++ 10 ∷ [],
      write_files_document-print to_hex fromHex fi fb (AllFiles-blocks fb.entries v) o,
      rw (parsed, read_files_document)
          (rw (r.entries_document (files_node to_hex fromHex fi fb)) (
            ap (λ l. read_file_entries pt fromHex l (so_far (store_of [])))
              (r.entries_children true (codes "files") []
                (file_nodes to_hex fromHex fi fb (document_hashes fi (some fb))))
            ∙ ap (λ ks. read_file_entries pt fromHex (trees fi fb ks) (so_far (store_of [])))
                (document_hashes-others fi fb)
            ∙ read_file_entries-back fi fb fb.entries [] (others fi fb) v refl d
                (others-AllAbsent fi fb))),
    )
