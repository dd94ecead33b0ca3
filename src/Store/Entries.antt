-- ===== src/Store/Entries.antt =====
-- The entries of a CoqStore against the finite map that they stand for, and CoqKeyStore::add.
use elykseer_cpp.Base.{
  ◌≡◌, refl, sym, ◌∙◌, ap, ap₂, Bool, true, false, ◌||◌, Option, none, some, List, [], ◌∷◌, ℕ, zero,
  suc, ◌<◌, arith, str_eq, str_eq_refl, str_eq→eq, ne→str_eq, if◌then◌else◌, Bool-cases, inl, inr,
  Option-cases, ◌⊎◌, ◌↔◌, length, pos, leb,
}
use elykseer_cpp.Assembly.{KeyInformation}
use elykseer_cpp.Store.{
  Key, Store, find_in, find, contains_in, contains, assign, add, entry_at, at, size, KeyStore,
  add_key,
}

if_twice :
    {A : Type 0} (b : Bool) (x y z : A)
    → (if b then x else z) ≡ (if b then x else if b then y else z)
if_twice true x y z = refl
if_twice false x y z = refl

-- A text that equals one of two different texts does not equal the other.
str_eq_other : (k k' x : Key) → str_eq k x ≡ false → str_eq k' x ≡ true → str_eq k' k ≡ false
str_eq_other k k' x d e = ne→str_eq k' k (λ same.
    let kx : k ≡ x = sym same ∙ str_eq→eq k' x e in
    let t : str_eq k x ≡ true = ap (str_eq k) (sym kx) ∙ str_eq_refl k in absurd (cc))

pub str_eq_swap : (k x : Key) → str_eq k x ≡ false → str_eq x k ≡ false
str_eq_swap k x d =
    ne→str_eq x k
      (λ same. let t : str_eq k x ≡ true = ap (str_eq k) same ∙ str_eq_refl k in absurd (cc))

if_suc : (b : Bool) (n : ℕ) → suc (if b then n else suc n) ≡ (if b then suc n else suc (suc n))
if_suc true n = refl
if_suc false n = refl

module _ {V : Type 0} where
  find_in-assign :
      (k k' : Key) (v : V) (es : List (Key × V))
      → find_in k' (assign k v es) ≡ (if str_eq k' k then some v else find_in k' es)
  unfolding find_in assign
  find_in-assign k k' v [] = refl
  find_in-assign k k' v ((x, y) ∷ es) = elim (Bool-cases (str_eq k x)) [
    | inl e ↦
        let same = str_eq→eq k x e in
        rw (e, find_in) (rw (← same) (if_twice (str_eq k' k) (some v) (some y) (find_in k' es)))
    | inr e ↦ elim (Bool-cases (str_eq k' x)) [
      | inl f ↦ rw (e, find_in) (rw (f, str_eq_other k k' x e f) refl)
      | inr f ↦ rw (e, find_in) (rw f (find_in-assign k k' v es))
    ]
  ]

  -- After add, the key has the new value, and every other key has the value that it had or none.
  pub find-add :
      (s : Store V) (k k' : Key) (v : V)
      → find (add s k v).1 k' ≡ (if str_eq k' k then some v else find s k')
  unfolding find add
  find-add s k k' v = find_in-assign k k' v s.entries

  abbrev is_some : Option V → Bool
  is_some none = false
  is_some (some v) = true

  contains_in-find_in : (k : Key) (es : List (Key × V)) → contains_in k es ≡ is_some (find_in k es)
  unfolding contains_in find_in
  contains_in-find_in k [] = refl
  contains_in-find_in k ((x, y) ∷ es) = elim (Bool-cases (str_eq k x)) [
    | inl e ↦ rw (e, contains_in) refl
    | inr e ↦ rw (e, contains_in) (contains_in-find_in k es)
  ]

  pub contains-find : (s : Store V) (k : Key) → contains s k ≡ is_some (find s k)
  unfolding contains find
  contains-find s k = contains_in-find_in k s.entries

  -- No key twice.
  abbrev pub IsDistinctEntries : List (Key × V) → Type 0
  IsDistinctEntries [] = Unit {0}
  IsDistinctEntries ((k, v) ∷ es) = (contains_in k es ≡ false) × IsDistinctEntries es

  abbrev pub IsDistinct : Store V → Type 0
  IsDistinct s = IsDistinctEntries s.entries

  if_some : (b : Bool) (v : V) (o : Option V) → is_some (if b then some v else o) ≡ (b || is_some o)
  if_some true v o = refl
  if_some false v o = refl

  contains_in-assign :
      (k k' : Key) (v : V) (es : List (Key × V))
      → contains_in k' (assign k v es) ≡ (str_eq k' k || contains_in k' es)
  contains_in-assign k k' v es =
      rw
        (
          contains_in-find_in k' (assign k v es),
          find_in-assign k k' v es,
          contains_in-find_in k' es,
        )
        (if_some (str_eq k' k) v (find_in k' es))

  assign-IsDistinct :
      (k : Key) (v : V) (es : List (Key × V))
      → IsDistinctEntries es
      → IsDistinctEntries (assign k v es)
  unfolding assign contains_in
  assign-IsDistinct k v [] d = (refl, tt)
  assign-IsDistinct k v ((x, y) ∷ es) (d, ds) = elim (Bool-cases (str_eq k x)) [
    | inl e ↦ rw (e, assign) (d, ds)
    | inr e ↦
        rw (e, assign)
          (rw (contains_in-assign k x v es, str_eq_swap k x e) d, assign-IsDistinct k v es ds)
  ]

  length-assign :
      (k : Key) (v : V) (es : List (Key × V))
      → length (assign k v es) ≡ (if contains_in k es then length es else suc (length es))
  unfolding assign contains_in
  length-assign k v [] = refl
  length-assign k v ((x, y) ∷ es) = elim (Bool-cases (str_eq k x)) [
    | inl e ↦ rw (e, assign) refl
    | inr e ↦ rw (e, assign) (rw (length-assign k v es) (if_suc (contains_in k es) (length es)))
  ]

  -- On a store with distinct keys, add keeps the keys distinct, and adds one entry if the key was
  -- not there and none otherwise.
  pub add-size :
      (s : Store V) (k : Key) (v : V)
      → IsDistinct s
      → IsDistinct (add s k v).1
        × (size (add s k v).1 ≡ (if contains s k then size s else suc (size s)))
  unfolding add size contains
  add-size s k v d = (assign-IsDistinct k v s.entries d, length-assign k v s.entries)

  entry_eq :
      (x k : Key) (y v : V)
      → ◌≡◌ {A = Option (Key × V)} (some (x, y)) (some (k, v))
      → (x ≡ k) × (y ≡ v)
  entry_eq x k y v h = (cc, cc)

  entry_at-found :
      (es : List (Key × V)) (i : ℕ) (k : Key) (v : V)
      → IsDistinctEntries es
      → entry_at es i ≡ some (k, v)
      → find_in k es ≡ some v
  unfolding entry_at find_in
  entry_at-found [] i k v d h = absurd (cc)
  entry_at-found ((x, y) ∷ es) zero k v d h =
      let (kx, yv) = entry_eq x k y v h in rw (← kx, ← yv) (rw (str_eq_refl x) refl)
  entry_at-found ((x, y) ∷ es) (suc i) k v (d, ds) h =
      let found = entry_at-found es i k v ds h in
      elim (Bool-cases (str_eq k x)) [
        | inl e ↦
            let kx : k ≡ x = str_eq→eq k x e in
            let c : contains_in k es ≡ true = contains_in-find_in k es ∙ ap is_some found in
            let c' : contains_in k es ≡ false = ap (λ z. contains_in z es) kx ∙ d in absurd (cc)
        | inr e ↦ rw (e, find_in) found
      ]

  found_here : (y v : V) → some y ≡ some v → y ≡ v
  found_here y v h = cc

  found-entry_at :
      (es : List (Key × V)) (k : Key) (v : V)
      → find_in k es ≡ some v
      → (i : ℕ) × (i < length es) × (entry_at es i ≡ some (k, v))
  unfolding entry_at find_in
  found-entry_at [] k v h = absurd (cc)
  found-entry_at ((x, y) ∷ es) k v h = elim (Bool-cases (str_eq k x)) [
    | inl e ↦ (
      0,
      omega arith,
      ap₂ (λ (a : Key) (b : V). some (a, b)) (sym (str_eq→eq k x e))
          (found_here y v (rw (e, find_in) at h)),
    )
    | inr e ↦
        let (i, lt, at_i) = found-entry_at es k v (rw (e, find_in) at h) in
        (suc i, omega arith, at_i)
  ]

  -- On a store with distinct keys, a key has a value exactly if an index below the size enumerates
  -- that entry.
  pub find-at :
      (s : Store V) (k : Key) (v : V)
      → IsDistinct s
      → (find s k ≡ some v) ↔ ((i : ℕ) × (i < size s) × (at s (pos i) ≡ some (k, v)))
  unfolding at find size
  find-at s k v d = (
    (λ h.
        let (i, lt, at_i) = found-entry_at s.entries k v h in
        let inside : leb (length s.entries) i ≡ false = ground arith in (i, lt, rw inside at_i)),
    (λ (i, lt, h).
        let inside : leb (length s.entries) i ≡ false = ground arith in
        entry_at-found s.entries i k v d (rw inside at h)),
  )

module _ (s : KeyStore) (k : Key) where
  -- A key that is contained is found.
  not_there : contains s k ≡ true → ¬ (find s k ≡ none)
  not_there c n = let f : contains s k ≡ false = contains-find s k ∙ ap is_some n in absurd (cc)

  other :
      (v : KeyInformation) (k' : Key) (v' : KeyInformation)
      → contains s k ≡ false
      → find s k' ≡ some v'
      → (if str_eq k' k then some v else find s k') ≡ some v'
  other v k' v' c h = elim (Bool-cases (str_eq k' k)) [
    | inl e ↦
        let kk : k' ≡ k = str_eq→eq k' k e in
        let t : contains s k ≡ true = contains-find s k ∙ ap is_some (ap (find s) (sym kk) ∙ h) in
        absurd (cc)
    | inr e ↦ rw e h
  ]

absent : (s : KeyStore) (k : Key) → contains s k ≡ false → find s k ≡ none
absent s k c = elim (Option-cases (find s k)) [
  | inl n ↦ n
  | inr (v, f) ↦ let t : contains s k ≡ true = contains-find s k ∙ ap is_some f in absurd (cc)
]

-- Every key of `s` is in `s'`.
abbrev pub Keeps : KeyStore → KeyStore → Type 0
Keeps s s' = (k : Key) (v : KeyInformation) → find s k ≡ some v → find s' k ≡ some v

-- CoqKeyStore::add keeps every key that is there: if the aid has a key then nothing changes and the
-- result is false, else the aid gets the key and the result is true.
pub add_key-Keeps :
    (s : KeyStore) (k : Key) (v : KeyInformation)
    → Keeps s (add_key s k v).1
      × (((contains s k ≡ true) × (add_key s k v ≡ (false, s)))
          ⊎ ((find s k ≡ none) × ((add_key s k v).0 ≡ true) × (find (add_key s k v).1 k ≡ some v)))
unfolding add_key add
add_key-Keeps s k v = elim (Bool-cases (contains s k)) [
  | inl c ↦ ((λ k' v' h. rw (c, add_key) h), inl (c, rw (c, add_key) refl))
  | inr c ↦ (
    (λ k' v' h. rw (c, add_key) (rw (find-add s k k' v) (other s k v k' v' c h))),
    inr (
      absent s k c,
      rw (c, add_key) refl,
      rw (c, add_key) (rw (find-add s k k v) (rw (str_eq_refl k) refl)),
    ),
  )
]

-- A new aid gets its key.
pub add_key-new :
    (s : KeyStore) (k : Key) (v : KeyInformation)
    → find s k ≡ none
    → find (add_key s k v).1 k ≡ some v
add_key-new s k v n = elim (add_key-Keeps s k v).1 [
  | inl (c, _) ↦ absurd (not_there s k c n)
  | inr (_, _, e) ↦ e
]
