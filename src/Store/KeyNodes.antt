-- ===== src/Store/KeyNodes.antt =====
-- The document of a CoqKeyStore as an XML element.
use mathlib.Core.List.{append_assoc}
use elykseer_cpp.Base.{
  ℕ, zero, suc, ◌+◌, ◌/◌, ◌%◌, ◌≤◌, ◌≡◌, ◌≢◌, refl, ◌∙◌, ap, ap₂, Bool, true, false, ◌&&◌, some,
  List, [], ◌∷◌, ◌++◌, arith, ◌==◌, ltb, codes, to_string, decimal, length, Bool-cases, inl, inr,
}
use elykseer_cpp.Nchunks.{min_n, max_n}
use elykseer_cpp.Assembly.{KeyInformation}
use elykseer_cpp.Store.{Key, KeyStore, escape_char, xml_escape, is_hex_digit, all_hex, from_hex}
use elykseer_cpp.Store.Documents.{Origin, output_header, key_entry, key_entries, write_keys}
use elykseer_cpp.Store.Xml.{Node, node, Nodes, nil, cons, print, print_children}

escape-hex_digit : (c : ℕ) → is_hex_digit c ≡ true → escape_char c ≡ c ∷ []
unfolding escape_char
escape-hex_digit c h = ground arith

and_true : (a b : Bool) → (a && b) ≡ true → (a ≡ true) × (b ≡ true)
and_true true b h = (refl, h)
and_true false b h = cc

-- Hex digits, and so decimal ones, need no escaping.
pub escape-all_hex : (s : List ℕ) → all_hex s ≡ true → xml_escape s ≡ s
unfolding xml_escape all_hex
escape-all_hex [] h = refl
escape-all_hex (c ∷ s) h =
    let (digit, digits) = and_true (is_hex_digit c) (all_hex s) h in
    rw (escape-hex_digit c digit, escape-all_hex s digits) refl

decimal-all_hex :
    (fuel n : ℕ) (acc : List ℕ) → all_hex acc ≡ true → all_hex (decimal fuel n acc) ≡ true
unfolding decimal all_hex
decimal-all_hex zero n acc h = h
decimal-all_hex (suc fuel) n acc h = elim (Bool-cases (ltb n 10)) [
  | inl small ↦
      let digit : is_hex_digit (48 + n) ≡ true = ground arith in
      rw (small, decimal) (rw (digit, h) refl)
  | inr large ↦
      let digit : is_hex_digit (48 + n % 10) ≡ true = ground arith in
      rw (large, decimal) (decimal-all_hex fuel (n / 10) ((48 + n % 10) ∷ acc) (rw (digit, h) refl))
]

pub escape-to_string : (n : ℕ) → xml_escape (to_string n) ≡ to_string n
unfolding to_string all_hex
escape-to_string n = escape-all_hex (to_string n) (decimal-all_hex (n + 1) n [] refl)

-- A key whose hex text is read back as the key.
pub record IsKeyText (to_hex fromHex : List ℕ → List ℕ) (bits : ℕ) (k : List ℕ) : Type 0 where
  pub hex_length : length (to_hex k) ≡ bits / 4
  pub digits : all_hex (to_hex k) ≡ true
  pub back : fromHex (to_hex k) ≡ k

pub from_hex-to_hex :
    (to_hex fromHex : List ℕ → List ℕ) (bits : ℕ) (k : List ℕ)
    → IsKeyText to_hex fromHex bits k
    → from_hex fromHex bits (to_hex k) ≡ some k
unfolding from_hex
from_hex-to_hex to_hex fromHex bits k t =
    let same : (length (to_hex k) == bits / 4) ≡ true = ground (arith, t.hex_length) in
    rw same (rw t.digits (rw t.back refl))

module _ (to_hex fromHex : List ℕ → List ℕ) where
  -- The elements of the document.
  abbrev pub leaf : List ℕ → List ℕ → Node
  leaf name value = node false name [] value nil

  abbrev pub key_attributes : Key → KeyInformation → List (List ℕ × List ℕ)
  key_attributes aid ki =
      (codes "nchunks", to_string ki.localnchunks)
      ∷ (codes "version", ki.version)
      ∷ (codes "aid", aid)
      ∷ []

  abbrev pub key_children : KeyInformation → Nodes
  key_children ki =
      cons (leaf (codes "secret") (to_hex ki.pkey)) (cons (leaf (codes "iv") (to_hex ki.ivec)) nil)

  abbrev pub key_node : Key → KeyInformation → Node
  key_node aid ki = node false (codes "key") (key_attributes aid ki) [] (key_children ki)

  abbrev pub key_nodes : List (Key × KeyInformation) → Nodes
  key_nodes [] = nil
  key_nodes ((aid, ki) ∷ es) = cons (key_node aid ki) (key_nodes es)

  abbrev pub keys_node : KeyStore → Node
  keys_node s = node true (codes "keys") [] [] (key_nodes s.entries)

  key_entry-print :
      (aid : Key) (ki : KeyInformation)
      → all_hex (to_hex ki.pkey) ≡ true
      → all_hex (to_hex ki.ivec) ≡ true
      → key_entry to_hex aid ki ≡ print (key_node aid ki) ++ 10 ∷ []
  unfolding key_entry print xml_escape
  key_entry-print aid ki p i =
      rw
        (
          escape-to_string ki.localnchunks,
          escape-all_hex (to_hex ki.pkey) p,
          escape-all_hex (to_hex ki.ivec) i,
        )
        (simp append_assoc)

  -- What the theorem asks of a key: a name, a number of chunks in range, and hex texts that are read
  -- back.
  pub record IsWritten (aid : Key) (ki : KeyInformation) : Type 0 where
    pub named_aid : aid ≢ []
    pub at_least : min_n ≤ ki.localnchunks
    pub at_most : ki.localnchunks ≤ max_n
    pub pkey_text : IsKeyText to_hex fromHex 256 ki.pkey
    pub ivec_text : IsKeyText to_hex fromHex 128 ki.ivec

  abbrev pub AllWritten : List (Key × KeyInformation) → Type 0
  AllWritten [] = Unit {0}
  AllWritten ((aid, ki) ∷ es) = IsWritten aid ki × AllWritten es

  abbrev pub AllAreWritten : KeyStore → Type 0
  AllAreWritten s = AllWritten s.entries

  key_entries-print :
      (es : List (Key × KeyInformation))
      → AllWritten es
      → key_entries to_hex es ≡ print_children true (key_nodes es)
  unfolding key_entries print
  key_entries-print [] v = refl
  key_entries-print ((aid, ki) ∷ es) (k, v) =
      ap₂ ◌++◌ (key_entry-print aid ki k.pkey_text.digits k.ivec_text.digits)
        (key_entries-print es v)
      ∙ simp append_assoc

  -- The lines before the root element.
  unfoldable pub prolog : Origin → List ℕ
  prolog o =
      codes "<?xml version=\"1.0\" encoding=\"UTF-8\"?>"
      ++ 10
        ∷ (codes "<!-- "
            ++ o.program
            ++ codes " "
            ++ o.version
            ++ codes " on "
            ++ xml_escape o.hostname
            ++ codes " at "
            ++ o.timestamp
            ++ codes " -->"
            ++ 10 ∷ [])

  pub write_keys-print :
      (o : Origin) (s : KeyStore)
      → AllWritten s.entries
      → write_keys to_hex o s ≡ prolog o ++ print (keys_node s) ++ 10 ∷ []
  unfolding write_keys output_header prolog print xml_escape
  write_keys-print o s v =
      ap (λ x. output_header o (codes "keys") ++ x ++ codes "</keys>" ++ 10 ∷ [])
        (key_entries-print s.entries v)
      ∙ simp append_assoc
