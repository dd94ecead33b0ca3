-- ===== src/Store/Hashes.antt =====
-- The hashes for which write_files_document writes an entry.
use elykseer_cpp.Base.{
  ◌≡◌, refl, sym, ◌∙◌, ap, ap₂, Bool, true, false, ◌||◌, not, Option, some, List, [], ◌∷◌, ◌++◌, ℕ,
  ◌+◌, arith, str_eq, str_eq→eq, Bool-cases, inl, inr,
}
use elykseer_cpp.Store.{Key, contains, contains_in, FBlockStore, FInfoStore, FileInformation}
use elykseer_cpp.Store.Documents.{hashes, not_written, info_hashes, document_hashes}
use elykseer_cpp.Store.Entries.{IsDistinct, IsDistinctEntries}

abbrev pub count_of : Bool → ℕ
count_of true = 1
count_of false = 0

-- How many times a hash is in a list.
abbrev pub times : Key → List Key → ℕ
times k [] = 0
times k (x ∷ xs) = count_of (str_eq k x) + times k xs

sum_assoc : (a b c : ℕ) {d : ℕ} → d ≡ b + c → a + d ≡ (a + b) + c
sum_assoc a b c h = omega arith

times-append : (k : Key) (xs ys : List Key) → times k (xs ++ ys) ≡ times k xs + times k ys
times-append k [] ys = omega arith
times-append k (x ∷ xs) ys =
    sum_assoc (count_of (str_eq k x)) (times k xs) (times k ys) (times-append k xs ys)

-- Two cases that exclude each other are counted together.
count_of_or : (a b : Bool) → (a ≡ true → b ≡ false) → count_of a + count_of b ≡ count_of (a || b)
count_of_or true true h = absurd (cc (h refl))
count_of_or true false h = refl
count_of_or false true h = refl
count_of_or false false h = refl

module _ {V : Type 0} (k x : Key) (es : List (Key × V)) (d : contains_in x es ≡ false) where
  -- The first of entries with distinct keys is counted with the others.
  count_of_first :
      count_of (str_eq k x) + count_of (contains_in k es)
      ≡ count_of (str_eq k x || contains_in k es)
  count_of_first =
      count_of_or (str_eq k x) (contains_in k es)
        (λ e. ap (λ y. contains_in y es) (str_eq→eq k x e) ∙ d)

times-hashes :
    {V : Type 0} (k : Key) (es : List (Key × V))
    → IsDistinctEntries es
    → times k (hashes es) ≡ count_of (contains_in k es)
unfolding hashes contains_in
times-hashes k [] d = refl
times-hashes k ((x, v) ∷ es) (d, ds) =
    ap (λ n. count_of (str_eq k x) + n) (times-hashes k es ds) ∙ count_of_first k x es d

-- The information of a file is not written on its own if the file has blocks.
times-info_hashes_written :
    (fb : Option FBlockStore) (k : Key) (es : List (Key × FileInformation))
    → not_written fb k ≡ false
    → times k (info_hashes fb es) ≡ 0
unfolding info_hashes
times-info_hashes_written fb k [] n = refl
times-info_hashes_written fb k ((x, i) ∷ es) n = elim (Bool-cases (not_written fb x)) [
  | inr w ↦ rw (w, info_hashes) (times-info_hashes_written fb k es n)
  | inl w ↦ elim (Bool-cases (str_eq k x)) [
    | inl e ↦
        let f : not_written fb k ≡ true = ap (not_written fb) (str_eq→eq k x e) ∙ w in absurd (cc)
    | inr e ↦
        rw (w, info_hashes)
          (rw e (ap (λ n. count_of false + n) (times-info_hashes_written fb k es n)))
  ]
]

-- It is written once if the file has none.
times-info_hashes :
    (fb : Option FBlockStore) (k : Key) (es : List (Key × FileInformation))
    → IsDistinctEntries es
    → not_written fb k ≡ true
    → times k (info_hashes fb es) ≡ count_of (contains_in k es)
unfolding info_hashes contains_in
times-info_hashes fb k [] d n = refl
times-info_hashes fb k ((x, i) ∷ es) (d, ds) n = elim (Bool-cases (not_written fb x)) [
  | inl w ↦
      rw (w, info_hashes)
        (ap (λ n. count_of (str_eq k x) + n) (times-info_hashes fb k es ds n)
          ∙ count_of_first k x es d)
  | inr w ↦ elim (Bool-cases (str_eq k x)) [
    | inl e ↦
        let f : not_written fb k ≡ false = ap (not_written fb) (str_eq→eq k x e) ∙ w in absurd (cc)
    | inr e ↦ rw (w, info_hashes) (rw e (times-info_hashes fb k es ds n))
  ]
]

plus_zero_left : (n : ℕ) → 0 + n ≡ n
plus_zero_left n = omega arith

-- For stores with distinct keys, the document of both has exactly one entry for a hash that one of
-- the stores has or both have, and none for any other.
pub document_hashes-once :
    (i : FInfoStore) (b : FBlockStore) (k : Key)
    → IsDistinct i
    → IsDistinct b
    → times k (document_hashes (some i) (some b)) ≡ count_of (contains b k || contains i k)
unfolding document_hashes contains not_written
document_hashes-once i b k di db = elim (Bool-cases (contains_in k b.entries)) [
  | inl c ↦
      times-append k (hashes b.entries) (info_hashes (some b) i.entries)
      ∙ ap₂ (λ m n. m + n) (times-hashes k b.entries db ∙ ap count_of c)
          (times-info_hashes_written (some b) k i.entries (ap not c))
      ∙ sym (ap (λ x. count_of (x || contains_in k i.entries)) c)
  | inr c ↦
      times-append k (hashes b.entries) (info_hashes (some b) i.entries)
      ∙ ap₂ (λ m n. m + n) (times-hashes k b.entries db ∙ ap count_of c)
          (times-info_hashes (some b) k i.entries di (ap not c))
      ∙ plus_zero_left (count_of (contains_in k i.entries))
      ∙ sym (ap (λ x. count_of (x || contains_in k i.entries)) c)
]
