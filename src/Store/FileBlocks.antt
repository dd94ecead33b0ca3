-- ===== src/Store/FileBlocks.antt =====
-- The blocks of a file, read back from the element that was written.
use mathlib.Core.List.{append-nil}
use elykseer_cpp.Base.{
  ℕ, ◌<◌, ◌^◌, ◌≡◌, refl, sym, ◌∙◌, ap, Bool, true, false, Option, some, List, [], ◌∷◌, ◌++◌,
  str_eq, codes,
}
use elykseer_cpp.Assembly.{BlockInformation}
use elykseer_cpp.Store.{from_hex}
use elykseer_cpp.Store.Append.{append_one}
use elykseer_cpp.Store.Reading.{PropertyTree, block_information, read_blocks}
use elykseer_cpp.Store.Xml.{named, Represents}
use elykseer_cpp.Store.KeyNodes.{from_hex-to_hex}
use elykseer_cpp.Store.FileNodes.{
  IsBlock, AreBlocks, block_attributes, block_children, block_node, block_nodes,
}

module _ (to_hex fromHex : List ℕ → List ℕ) (pt : PropertyTree) (r : Represents pt) where
  open pt use {Tree, get_text, get_number, get_child, entries}

  abbrev block_tree : BlockInformation → Tree
  block_tree bi = r.tree_of (block_node to_hex fromHex bi)

  number_blockid :
      (bi : BlockInformation)
      → bi.blockid < 2 ^ 31
      → get_number 31 (block_tree bi) (codes "<xmlattr>.blockid") 0 ≡ bi.blockid
  unfolding str_eq
  number_blockid bi h =
      r.number_attribute 31 bi.blockid 0 false (codes "fileblock") []
        (block_attributes to_hex fromHex bi) (block_children to_hex fromHex bi) (codes "blockid") h
        refl

  number_blocksize :
      (bi : BlockInformation)
      → bi.blocksize < 2 ^ 32
      → get_number 32 (block_tree bi) (codes "<xmlattr>.blocksize") 0 ≡ bi.blocksize
  unfolding str_eq
  number_blocksize bi h =
      r.number_attribute 32 bi.blocksize 0 false (codes "fileblock") []
        (block_attributes to_hex fromHex bi) (block_children to_hex fromHex bi) (codes "blocksize")
        h refl

  number_filepos :
      (bi : BlockInformation)
      → bi.filepos < 2 ^ 64
      → get_number 64 (block_tree bi) (codes "<xmlattr>.filepos") 0 ≡ bi.filepos
  unfolding str_eq
  number_filepos bi h =
      r.number_attribute 64 bi.filepos 0 false (codes "fileblock") []
        (block_attributes to_hex fromHex bi) (block_children to_hex fromHex bi) (codes "filepos") h
        refl

  number_apos :
      (bi : BlockInformation)
      → bi.blockapos < 2 ^ 32
      → get_number 32 (block_tree bi) (codes "<xmlattr>.apos") 0 ≡ bi.blockapos
  unfolding str_eq
  number_apos bi h =
      r.number_attribute 32 bi.blockapos 0 false (codes "fileblock") []
        (block_attributes to_hex fromHex bi) (block_children to_hex fromHex bi) (codes "apos") h
        refl

  text_block :
      (bi : BlockInformation)
      → IsBlock to_hex fromHex bi
      → (get_text (block_tree bi) (codes "aid") [] ≡ bi.blockaid)
        × (from_hex fromHex 256 (get_text (block_tree bi) (codes "checksum") []) ≡ bi.bchecksum)
  unfolding str_eq
  text_block bi k =
      let text : get_text (block_tree bi) (codes "checksum") [] ≡ to_hex k.sum =
        r.text_child false (codes "fileblock") [] (block_attributes to_hex fromHex bi)
          (block_children to_hex fromHex bi) (codes "checksum") [] refl
        ∙ rw k.sum_is refl in
      (
        r.text_child false (codes "fileblock") [] (block_attributes to_hex fromHex bi)
            (block_children to_hex fromHex bi) (codes "aid") [] refl,
        ap (from_hex fromHex 256) text
            ∙ from_hex-to_hex to_hex fromHex 256 k.sum k.sum_text
            ∙ sym k.sum_is,
      )

  block_information-back :
      (bi : BlockInformation)
      → IsBlock to_hex fromHex bi
      → block_information pt fromHex (block_tree bi) ≡ some bi
  unfolding block_information
  block_information-back bi k =
      let (aid, sum) = text_block bi k in
      rw (sum ∙ k.sum_is, block_information)
        (rw (number_blockid bi k.id_fits) (
          rw (number_blocksize bi k.size_fits) (
            rw (number_filepos bi k.pos_fits) (
              rw (number_apos bi k.apos_fits) (
                rw aid (
                  ap (λ (x : Option (List ℕ)). some (record bi { bchecksum = x }))
                    (sym k.sum_is)))))))

  pub read_blocks-back :
      (bis done : List BlockInformation)
      → AreBlocks to_hex fromHex bis
      → read_blocks pt fromHex (named r.tree_of (block_nodes to_hex fromHex bis)) (true, done)
        ≡ (true, done ++ bis)
  unfolding read_blocks str_eq from_hex
  read_blocks-back [] done v =
      ap (λ (l : List BlockInformation). let st : Bool × List BlockInformation = (true, l) in st)
        (sym (append-nil done))
  read_blocks-back (bi ∷ bis) done (k, v) =
      rw (block_information-back bi k, read_blocks)
        (read_blocks-back bis (done ++ bi ∷ []) v
          ∙ ap
              (λ (l : List BlockInformation).
                let st : Bool × List BlockInformation = (true, l) in st)
              (append_one done bis bi))
