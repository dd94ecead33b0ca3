-- ===== src/Store/Append.antt =====
-- Entries that are put at the end of a store, one after the other, as a document is read.
use mathlib.Core.List.{append_assoc}
use elykseer_cpp.Base.{
  ◌≡◌, refl, ap, Bool, true, false, ◌||◌, some, none, List, [], ◌∷◌, ◌++◌, str_eq, str_eq_refl,
}
use elykseer_cpp.Store.{Key, contains_in, find_in, assign}
use elykseer_cpp.Store.Entries.{str_eq_swap, IsDistinct}

pub or_false : (a b : Bool) → (a || b) ≡ false → (a ≡ false) × (b ≡ false)
or_false true b h = cc
or_false false b h = (refl, h)

pub append_one : {A : Type 0} → (done es : List A) (e : A) → (done ++ e ∷ []) ++ es ≡ done ++ e ∷ es
append_one done es e = append_assoc done (e ∷ []) es

module _ {V : Type 0} where
  contains_in-middle :
      (k k' : Key) (v : V) (done es : List (Key × V))
      → contains_in k (done ++ (k', v) ∷ es) ≡ false
      → str_eq k k' ≡ false
  unfolding contains_in
  contains_in-middle k k' v [] es h = (or_false (str_eq k k') (contains_in k es) h).0
  contains_in-middle k k' v ((x, y) ∷ done) es h =
      contains_in-middle k k' v done es
        (or_false (str_eq k x) (contains_in k (done ++ (k', v) ∷ es)) h).1

  pub assign-append :
      (k : Key) (v : V) (es : List (Key × V))
      → contains_in k es ≡ false
      → assign k v es ≡ es ++ (k, v) ∷ []
  unfolding assign contains_in
  assign-append k v [] h = refl
  assign-append k v ((k', v') ∷ es) h =
      let (other, more) = or_false (str_eq k k') (contains_in k es) h in
      rw (other, assign) (ap (◌∷◌ (k', v')) (assign-append k v es more))

  -- In a store without a key twice, a key is not among the entries before it.
  pub absent_before :
      (done es : List (Key × V)) (k : Key) (v : V)
      → IsDistinct (record { entries = done ++ (k, v) ∷ es })
      → contains_in k done ≡ false
  unfolding contains_in
  absent_before [] es k v d = refl
  absent_before ((x, y) ∷ done) es k v (d, ds) =
      rw (str_eq_swap x k (contains_in-middle x k v done es d), absent_before done es k v ds) refl

  pub find_in-middle :
      (done es : List (Key × V)) (k : Key) (v : V)
      → contains_in k done ≡ false
      → find_in k (done ++ (k, v) ∷ es) ≡ some v
  unfolding find_in contains_in
  find_in-middle [] es k v h = rw (str_eq_refl k) refl
  find_in-middle ((x, y) ∷ done) es k v h =
      let (other, more) = or_false (str_eq k x) (contains_in k done) h in
      rw (other, find_in) (find_in-middle done es k v more)

  pub find_in-absent :
      (k : Key) (es : List (Key × V)) → contains_in k es ≡ false → find_in k es ≡ none
  unfolding find_in contains_in
  find_in-absent k [] h = refl
  find_in-absent k ((x, y) ∷ es) h =
      let (other, more) = or_false (str_eq k x) (contains_in k es) h in
      rw (other, find_in) (find_in-absent k es more)
