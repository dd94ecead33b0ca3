-- ===== src/Store/Keys.antt =====
-- The document of a CoqKeyStore, written and read back.
use mathlib.Core.List.{append-nil}
use elykseer_cpp.Base.{
  ℕ, ◌≤◌, ◌<◌, ◌^◌, ◌≡◌, refl, sym, ◌∙◌, ap, subst, Bool, true, false, some, List, [], ◌∷◌, ◌++◌,
  arith, str_eq, codes, pos,
}
use elykseer_cpp.Nchunks.{nchunks, min_n, max_n}
use elykseer_cpp.Assembly.{KeyInformation}
use elykseer_cpp.Store.{Key, KeyStore, add_key, add, contains, contains_in, from_hex}
use elykseer_cpp.Store.Entries.{IsDistinct}
use elykseer_cpp.Store.Append.{append_one, assign-append, absent_before}
use elykseer_cpp.Store.Documents.{Origin, write_keys}
use elykseer_cpp.Store.Reading.{
  PropertyTree, key_information, read_key, read_key_records, read_keys,
}
use elykseer_cpp.Store.Xml.{print, named, Represents}
use elykseer_cpp.Store.KeyNodes.{
  from_hex-to_hex, key_nodes, key_attributes, key_children, key_node, keys_node, IsWritten,
  AllWritten, AllAreWritten, prolog, write_keys-print,
}

module _ (to_hex fromHex : List ℕ → List ℕ) where
  module _ (pt : PropertyTree) (r : Represents pt) where
    abbrev trees : List (Key × KeyInformation) → List (List ℕ × PropertyTree.Tree pt)
    trees es = named r.tree_of (key_nodes to_hex fromHex es)

    nchunks_same : (n : ℕ) → min_n ≤ n → n ≤ max_n → nchunks (pos n) ≡ n
    unfolding nchunks
    nchunks_same n lo hi = omega arith

    text_secret :
        (aid : Key) (ki : KeyInformation)
        → PropertyTree.get_text pt (r.tree_of (key_node to_hex fromHex aid ki)) (codes "secret") []
          ≡ to_hex ki.pkey
    unfolding str_eq
    text_secret aid ki =
        r.text_child false (codes "key") [] (key_attributes to_hex fromHex aid ki)
          (key_children to_hex fromHex ki) (codes "secret") [] refl

    text_iv :
        (aid : Key) (ki : KeyInformation)
        → PropertyTree.get_text pt (r.tree_of (key_node to_hex fromHex aid ki)) (codes "iv") []
          ≡ to_hex ki.ivec
    unfolding str_eq
    text_iv aid ki =
        r.text_child false (codes "key") [] (key_attributes to_hex fromHex aid ki)
          (key_children to_hex fromHex ki) (codes "iv") [] refl

    text_version :
        (aid : Key) (ki : KeyInformation)
        → PropertyTree.get_text pt
            (r.tree_of (key_node to_hex fromHex aid ki))
            (codes "<xmlattr>.version")
            []
          ≡ ki.version
    unfolding str_eq
    text_version aid ki =
        r.text_attribute false (codes "key") [] (key_attributes to_hex fromHex aid ki)
          (key_children to_hex fromHex ki) (codes "version") []

    text_aid :
        (aid : Key) (ki : KeyInformation)
        → PropertyTree.get_text pt
            (r.tree_of (key_node to_hex fromHex aid ki))
            (codes "<xmlattr>.aid")
            []
          ≡ aid
    unfolding str_eq
    text_aid aid ki =
        r.text_attribute false (codes "key") [] (key_attributes to_hex fromHex aid ki)
          (key_children to_hex fromHex ki) (codes "aid") []

    number_nchunks :
        (aid : Key) (ki : KeyInformation)
        → ki.localnchunks < 2 ^ 31
        → PropertyTree.get_number pt 31
            (r.tree_of (key_node to_hex fromHex aid ki))
            (codes "<xmlattr>.nchunks")
            16
          ≡ ki.localnchunks
    unfolding str_eq
    number_nchunks aid ki h =
        r.number_attribute 31 ki.localnchunks 16 false (codes "key") []
          (key_attributes to_hex fromHex aid ki) (key_children to_hex fromHex ki) (codes "nchunks")
          h refl

    key_information-back :
        (aid : Key) (ki : KeyInformation)
        → IsWritten to_hex fromHex aid ki
        → key_information pt fromHex (r.tree_of (key_node to_hex fromHex aid ki)) ≡ some ki
    unfolding key_information
    key_information-back aid ki k =
        let secret =
          ap (from_hex fromHex 256) (text_secret aid ki)
          ∙ from_hex-to_hex to_hex fromHex 256 ki.pkey k.pkey_text in
        let iv =
          ap (from_hex fromHex 128) (text_iv aid ki)
          ∙ from_hex-to_hex to_hex fromHex 128 ki.ivec k.ivec_text in
        let number =
          ap (λ n. nchunks (pos n)) (number_nchunks aid ki (omega (arith, k.at_most)))
          ∙ nchunks_same ki.localnchunks k.at_least k.at_most in
        rw (secret, key_information) (rw iv (rw (number, text_version aid ki) refl))

    read_key-back :
        (aid : Key) (ki : KeyInformation) (ok : Bool) (s : KeyStore)
        → IsWritten to_hex fromHex aid ki
        → read_key pt fromHex (r.tree_of (key_node to_hex fromHex aid ki)) (ok, s)
          ≡ (ok, (add_key s aid ki).1)
    unfolding read_key str_eq
    read_key-back [] ki ok s k = absurd (k.named_aid refl)
    read_key-back (x ∷ xs) ki ok s k =
        rw (key_information-back (x ∷ xs) ki k, read_key) (rw (text_aid (x ∷ xs) ki) refl)

    abbrev store_of : List (Key × KeyInformation) → KeyStore
    store_of es = record { entries = es }

    -- A key that is not there is put at the end.
    add_key-append :
        (aid : Key) (ki : KeyInformation) (es : List (Key × KeyInformation))
        → contains_in aid es ≡ false
        → (add_key (store_of es) aid ki).1 ≡ store_of (es ++ (aid, ki) ∷ [])
    unfolding add_key add contains
    add_key-append aid ki es h = rw (h, add_key) (ap store_of (assign-append aid ki es h))

    read_key_records-back :
        (es done : List (Key × KeyInformation))
        → AllWritten to_hex fromHex es
        → IsDistinct (store_of (done ++ es))
        → read_key_records pt fromHex (trees es) (true, store_of done)
          ≡ (true, store_of (done ++ es))
    unfolding read_key_records str_eq from_hex
    read_key_records-back [] done v d =
        ap
          (λ (l : List (Key × KeyInformation)). let st : Bool × KeyStore = (true, store_of l) in st)
          (sym (append-nil done))
    read_key_records-back ((aid, ki) ∷ es) done (k, v) d =
        ap (read_key_records pt fromHex (trees es)) (
          read_key-back aid ki true (store_of done) k
          ∙ ap (λ (s : KeyStore). let st : Bool × KeyStore = (true, s) in st)
              (add_key-append aid ki done (absent_before done es aid ki d)))
        ∙ subst
            (λ l.
              read_key_records pt fromHex (trees es) (true, store_of (done ++ (aid, ki) ∷ []))
              ≡ (true, store_of l))
            (append_one done es (aid, ki))
            (read_key_records-back es (done ++ (aid, ki) ∷ []) v
              (subst (λ l. IsDistinct (store_of l)) (sym (append_one done es (aid, ki))) d))

    -- For a store of keys without an empty aid and without an aid twice, with numbers of chunks in
    -- range and keys whose hex texts are of their length and are converted back, and a parser of XML
    -- that reads the document as the element that it writes out: reading what outStream wrote into
    -- an empty store gives the same entries in the same order, and is a success.
    pub read_keys-write_keys :
        (o : Origin) (s : KeyStore)
        → AllAreWritten to_hex fromHex s
        → IsDistinct s
        → PropertyTree.read_xml pt
            (prolog to_hex fromHex o ++ print (keys_node to_hex fromHex s) ++ 10 ∷ [])
          ≡ some (r.document (keys_node to_hex fromHex s))
        → read_keys pt fromHex (write_keys to_hex o s) (record { entries = [] }) ≡ (true, s)
    unfolding read_keys str_eq
    read_keys-write_keys o s v d parsed =
        let text : PropertyTree.read_xml pt (write_keys to_hex o s)
            ≡ some (r.document (keys_node to_hex fromHex s)) =
          ap (PropertyTree.read_xml pt) (write_keys-print to_hex fromHex o s v) ∙ parsed in
        rw (text, read_keys)
          (rw (r.entries_document (keys_node to_hex fromHex s)) (
            ap (λ l. read_key_records pt fromHex l (true, store_of []))
              (r.entries_children true (codes "keys") [] (key_nodes to_hex fromHex s.entries))
            ∙ read_key_records-back s.entries [] v d))
