-- ===== src/Store/Escape.antt =====
-- xml_escape of src/cpp/coqstore.cpp, against the reading of XML's predefined entities.
use elykseer_cpp.Base.{
  ◌≡◌, refl, ap, Bool, true, false, Option, none, some, List, [], ◌∷◌, ◌++◌, ℕ, zero, suc, ◌<◌,
  ◌==◌, ◌&&◌, ◌||◌, not, arith, Bool-cases, inl, inr, codes, starts_with, drop, length,
}
use elykseer_cpp.Store.{escape_char, xml_escape}

-- The five predefined entities of XML, decoded: an independent reading of a text. The rounds are
-- bounded by the length of the text; a text with another entity has no reading.
unfoldable pub unescape : ℕ → List ℕ → Option (List ℕ)
unfolding starts_with
unescape zero s = none
unescape (suc fuel) [] = some []
unescape (suc fuel) (c ∷ s) = elim (c == 38) [
  | false ↦ elim (unescape fuel s) [ none ↦ none | some r ↦ some (c ∷ r) ]
  | true ↦ elim (starts_with s (codes "amp;")) [
    | true ↦ elim (unescape fuel (drop 4 s)) [ none ↦ none | some r ↦ some (38 ∷ r) ]
    | false ↦ elim (starts_with s (codes "lt;")) [
      | true ↦ elim (unescape fuel (drop 3 s)) [ none ↦ none | some r ↦ some (60 ∷ r) ]
      | false ↦ elim (starts_with s (codes "gt;")) [
        | true ↦ elim (unescape fuel (drop 3 s)) [ none ↦ none | some r ↦ some (62 ∷ r) ]
        | false ↦ elim (starts_with s (codes "quot;")) [
          | true ↦ elim (unescape fuel (drop 5 s)) [ none ↦ none | some r ↦ some (34 ∷ r) ]
          | false ↦ elim (starts_with s (codes "apos;")) [
            | true ↦ elim (unescape fuel (drop 5 s)) [ none ↦ none | some r ↦ some (39 ∷ r) ]
            | false ↦ none
          ]
        ]
      ]
    ]
  ]
]

-- No character that ends an element's text or an attribute's value.
abbrev markup : ℕ → Bool
markup c = c == 60 || c == 62 || c == 34 || c == 39

abbrev pub no_markup : List ℕ → Bool
no_markup [] = true
no_markup (c ∷ s) = not (markup c) && no_markup s

escape_other :
    (c : ℕ)
    → (c == 38) ≡ false
    → (c == 60) ≡ false
    → (c == 62) ≡ false
    → (c == 34) ≡ false
    → (c == 39) ≡ false
    → escape_char c ≡ c ∷ []
unfolding escape_char
escape_other c a b d e f = rw (a, escape_char) (rw (b, d, e, f) refl)

-- The cases of escape_char.
data Escaped (c : ℕ) : Type 0 where
  amp : c ≡ 38 → escape_char c ≡ codes "&amp;" → Escaped c
  lt : c ≡ 60 → escape_char c ≡ codes "&lt;" → Escaped c
  gt : c ≡ 62 → escape_char c ≡ codes "&gt;" → Escaped c
  quot : c ≡ 34 → escape_char c ≡ codes "&quot;" → Escaped c
  apos : c ≡ 39 → escape_char c ≡ codes "&apos;" → Escaped c
  other : (c == 38) ≡ false → markup c ≡ false → escape_char c ≡ c ∷ [] → Escaped c

escape_cases : (c : ℕ) → Escaped c
unfolding escape_char
escape_cases c = elim (Bool-cases (c == 38)) [
  | inl e ↦ let q : c ≡ 38 = ground arith in amp q (ap escape_char q)
  | inr n1 ↦ elim (Bool-cases (c == 60)) [
    | inl e ↦ let q : c ≡ 60 = ground arith in lt q (ap escape_char q)
    | inr n2 ↦ elim (Bool-cases (c == 62)) [
      | inl e ↦ let q : c ≡ 62 = ground arith in gt q (ap escape_char q)
      | inr n3 ↦ elim (Bool-cases (c == 34)) [
        | inl e ↦ let q : c ≡ 34 = ground arith in quot q (ap escape_char q)
        | inr n4 ↦ elim (Bool-cases (c == 39)) [
          | inl e ↦ let q : c ≡ 39 = ground arith in apos q (ap escape_char q)
          | inr n5 ↦ other n1 (rw (n2, n3, n4, n5) refl) (escape_other c n1 n2 n3 n4 n5)
        ]
      ]
    ]
  ]
]

abbrev push : ℕ → Option (List ℕ) → Option (List ℕ)
push c none = none
push c (some r) = some (c ∷ r)

unescape-escape_char :
    (c fuel : ℕ) (s r : List ℕ)
    → unescape fuel s ≡ some r
    → Escaped c
    → unescape (suc fuel) (escape_char c ++ s) ≡ some (c ∷ r)
unfolding unescape
unescape-escape_char c fuel s r h (amp q e) = rw (e, q) (rw (h, unescape) refl)
unescape-escape_char c fuel s r h (lt q e) = rw (e, q) (rw (h, unescape) refl)
unescape-escape_char c fuel s r h (gt q e) = rw (e, q) (rw (h, unescape) refl)
unescape-escape_char c fuel s r h (quot q e) = rw (e, q) (rw (h, unescape) refl)
unescape-escape_char c fuel s r h (apos q e) = rw (e, q) (rw (h, unescape) refl)
unescape-escape_char c fuel s r h (other n m e) = rw e (rw (n, unescape) (rw h refl))

unescape_nil : (fuel : ℕ) → unescape (suc fuel) [] ≡ some []
unfolding unescape
unescape_nil fuel = refl

-- Decoding the five predefined entities of an escaped text gives the text back, with one round for
-- each of its characters and one for its end.
pub unescape-xml_escape :
    (s : List ℕ) (fuel : ℕ) → length s < fuel → unescape fuel (xml_escape s) ≡ some s
unfolding xml_escape
unescape-xml_escape s zero h = absurd (omega arith)
unescape-xml_escape [] (suc fuel) h = unescape_nil fuel
unescape-xml_escape (c ∷ s) (suc fuel) h =
    unescape-escape_char c fuel (xml_escape s) s (unescape-xml_escape s fuel (omega arith))
      (escape_cases c)

no_markup-escape_char :
    (c : ℕ) (s : List ℕ) → no_markup s ≡ true → Escaped c → no_markup (escape_char c ++ s) ≡ true
no_markup-escape_char c s h (amp q e) = rw (e, h) refl
no_markup-escape_char c s h (lt q e) = rw (e, h) refl
no_markup-escape_char c s h (gt q e) = rw (e, h) refl
no_markup-escape_char c s h (quot q e) = rw (e, h) refl
no_markup-escape_char c s h (apos q e) = rw (e, h) refl
no_markup-escape_char c s h (other n m e) = rw (e, m, h) refl

-- An escaped text has none of the characters less-than, greater-than, quote and apostrophe.
pub no_markup-xml_escape : (s : List ℕ) → no_markup (xml_escape s) ≡ true
unfolding xml_escape
no_markup-xml_escape [] = refl
no_markup-xml_escape (c ∷ s) =
    no_markup-escape_char c (xml_escape s) (no_markup-xml_escape s) (escape_cases c)
