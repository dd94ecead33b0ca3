-- ===== src/Store/FileNodes.antt =====
-- The document of the files and their blocks as an XML element.
use mathlib.Core.List.{append_assoc}
use elykseer_cpp.Base.{
  ℕ, ◌<◌, ◌^◌, ◌≡◌, refl, ◌∙◌, ap, true, false, Option, none, some, List, [], ◌∷◌, ◌++◌, codes,
  to_string,
}
use elykseer_cpp.Assembly.{BlockInformation, format_version}
use elykseer_cpp.Store.{Key, find, FBlockStore, FInfoStore, FileInformation, xml_escape}
use elykseer_cpp.Store.Documents.{
  Origin, output_header, block_entry, block_entries, info_of, blocks_text, file_entry, file_entries,
  document_hashes, write_files_document,
}
use elykseer_cpp.Store.Xml.{Node, node, Nodes, nil, cons, print, print_children}
use elykseer_cpp.Store.KeyNodes.{escape-all_hex, escape-to_string, IsKeyText, leaf, prolog}

module _ (to_hex fromHex : List ℕ → List ℕ) where
  -- What the theorem asks of a block: numbers in the range of their types, and a checksum whose hex
  -- text is read back.
  pub record IsBlock (bi : BlockInformation) : Type 0 where
    pub sum : List ℕ
    pub sum_is : bi.bchecksum ≡ some sum
    pub sum_text : IsKeyText to_hex fromHex 256 sum
    pub id_fits : bi.blockid < 2 ^ 31
    pub size_fits : bi.blocksize < 2 ^ 32
    pub pos_fits : bi.filepos < 2 ^ 64
    pub apos_fits : bi.blockapos < 2 ^ 32

  abbrev pub AreBlocks : List BlockInformation → Type 0
  AreBlocks [] = Unit {0}
  AreBlocks (bi ∷ bis) = IsBlock bi × AreBlocks bis

  abbrev pub hex_of : Option (List ℕ) → List ℕ
  hex_of none = []
  hex_of (some k) = to_hex k

  abbrev pub block_attributes : BlockInformation → List (List ℕ × List ℕ)
  block_attributes bi =
      (codes "blockid", to_string bi.blockid)
      ∷ (codes "blocksize", to_string bi.blocksize)
      ∷ (codes "filepos", to_string bi.filepos)
      ∷ (codes "apos", to_string bi.blockapos)
      ∷ []

  abbrev pub block_children : BlockInformation → Nodes
  block_children bi =
      cons (leaf to_hex fromHex (codes "aid") bi.blockaid)
        (cons (leaf to_hex fromHex (codes "checksum") (hex_of bi.bchecksum)) nil)

  abbrev pub block_node : BlockInformation → Node
  block_node bi = node false (codes "fileblock") (block_attributes bi) [] (block_children bi)

  abbrev pub block_nodes : List BlockInformation → Nodes
  block_nodes [] = nil
  block_nodes (bi ∷ bis) = cons (block_node bi) (block_nodes bis)

  -- The blocks of a file in a store; none for a file that is not in it.
  abbrev pub or_empty : Option (List BlockInformation) → List BlockInformation
  or_empty none = []
  or_empty (some bis) = bis

  abbrev pub file_attributes : Key → List (List ℕ × List ℕ)
  file_attributes fhash = (codes "version", format_version) ∷ (codes "fhash", fhash) ∷ []

  abbrev pub file_children : FileInformation → List BlockInformation → Nodes
  file_children i bis = cons (leaf to_hex fromHex (codes "name") i.fname) (
      cons (leaf to_hex fromHex (codes "size") (to_string i.fsize)) (
        cons (leaf to_hex fromHex (codes "owner") i.fowner) (
          cons (leaf to_hex fromHex (codes "permissions") (to_string i.fpermissions)) (
            cons (leaf to_hex fromHex (codes "modified") i.fmodified) (
              cons (leaf to_hex fromHex (codes "checksum") i.fchecksum)
                (cons (node true (codes "fileblocks") [] [] (block_nodes bis)) nil))))))

  abbrev pub file_node : Key → FileInformation → List BlockInformation → Node
  file_node fhash i bis =
      node true (codes "fileinformation") (file_attributes fhash) [] (file_children i bis)

  abbrev pub file_nodes : Option FInfoStore → FBlockStore → List Key → Nodes
  file_nodes fi fb [] = nil
  file_nodes fi fb (k ∷ ks) =
      cons (file_node k (info_of to_hex fi k) (or_empty (find fb k))) (file_nodes fi fb ks)

  abbrev pub files_node : Option FInfoStore → FBlockStore → Node
  files_node fi fb =
      node true (codes "files") [] [] (file_nodes fi fb (document_hashes fi (some fb)))

  block_entry-print :
      (bi : BlockInformation)
      → IsBlock bi
      → block_entry to_hex bi ≡ some (print (block_node bi) ++ 10 ∷ [])
  unfolding block_entry print xml_escape
  block_entry-print bi k =
      let digits : xml_escape (hex_of bi.bchecksum) ≡ to_hex k.sum =
        ap (λ o. xml_escape (hex_of o)) k.sum_is
        ∙ escape-all_hex (to_hex k.sum) k.sum_text.digits in
      rw
        (
          digits,
          escape-to_string bi.blockid,
          escape-to_string bi.blocksize,
          escape-to_string bi.filepos,
          escape-to_string bi.blockapos,
          k.sum_is,
        )
        (ap some (simp append_assoc))

  block_entries-print :
      (bis : List BlockInformation)
      → AreBlocks bis
      → block_entries to_hex bis ≡ some (print_children true (block_nodes bis))
  unfolding block_entries print
  block_entries-print [] v = refl
  block_entries-print (bi ∷ bis) (k, v) =
      rw (block_entry-print bi k, block_entries)
        (rw (block_entries-print bis v) (ap some (simp append_assoc)))

  found_text :
      (found : Option (List BlockInformation))
      → AreBlocks (or_empty found)
      → (elim found [ none ↦ some [] | some bis ↦ block_entries to_hex bis ])
        ≡ some (print_children true (block_nodes (or_empty found)))
  unfolding print
  found_text none v = refl
  found_text (some bis) v = block_entries-print bis v

  module _ (fi : Option FInfoStore) (fb : FBlockStore)
      (valid : (k : Key) → AreBlocks (or_empty (find fb k))) where
    file_entry-print :
        (k : Key)
        → file_entry to_hex fi (some fb) k
          ≡ some (print (file_node k (info_of to_hex fi k) (or_empty (find fb k))) ++ 10 ∷ [])
    unfolding file_entry blocks_text print xml_escape
    file_entry-print k =
        rw (found_text (find fb k) (valid k), file_entry)
          (rw
            (
              escape-to_string (info_of to_hex fi k).fsize,
              escape-to_string (info_of to_hex fi k).fpermissions,
            )
            (ap some (simp append_assoc)))

    file_entries-print :
        (ks : List Key)
        → file_entries to_hex fi (some fb) ks ≡ some (print_children true (file_nodes fi fb ks))
    unfolding file_entries print
    file_entries-print [] = refl
    file_entries-print (k ∷ ks) =
        rw (file_entry-print k, file_entries)
          (rw (file_entries-print ks) (ap some (simp append_assoc)))

    pub write_files_document-print :
        (o : Origin)
        → write_files_document to_hex o fi (some fb)
          ≡ some (prolog to_hex fromHex o ++ print (files_node fi fb) ++ 10 ∷ [])
    unfolding write_files_document output_header prolog print xml_escape
    write_files_document-print o =
        rw (file_entries-print (document_hashes fi (some fb)), write_files_document)
          (ap some (simp append_assoc))
