-- ===== src/Cipher/Pieces.antt =====
-- The pieces that the loop of encrypt_buffer and decrypt_buffer cuts the data into, and the same
-- calls of the cipher on a list of pieces.
use elykseer_cpp.Base.{
  ℕ, zero, suc, ◌+◌, ◌-◌, ◌≤◌, ◌<◌, min, ◌≡◌, refl, ap, ap₂, inl, inr, true, false, Option, none,
  some, List, [], ◌∷◌, ltb, arith, slice, Bool-cases, slice-cong, slice-injective_at,
}

unfoldable pub pieces : ℕ → ℕ → ℕ → ℕ → (ℕ → ℕ) → List (List ℕ)
pieces datasz zero dlen n m = []
pieces datasz (suc fuel) dlen n m = elim (ltb n dlen) [
  | false ↦ []
  | true ↦ slice m n (min (dlen - n) datasz) ∷ pieces datasz fuel dlen (n + min (dlen - n) datasz) m
]

unfoldable pub run_pieces :
    {C : Type 0}
    → (List ℕ → C → Option (List ℕ × C))
    → List (List ℕ)
    → C
    → Option (List (List ℕ) × C)
run_pieces process [] c = some ([], c)
run_pieces process (p ∷ ps) c = elim (process p c) [
  | none ↦ none
  | some (o, c') ↦ elim (run_pieces process ps c') [
    | none ↦ none
    | some (os, c'') ↦ some (o ∷ os, c'')
  ]
]

-- Memory that agrees from `n` to `dlen` has the same pieces.
pub pieces-cong :
    (datasz fuel dlen n : ℕ) (f g : ℕ → ℕ)
    → ((i : ℕ) → n ≤ i → i < dlen → f i ≡ g i)
    → pieces datasz fuel dlen n f ≡ pieces datasz fuel dlen n g
unfolding pieces
pieces-cong datasz zero dlen n f g h = refl
pieces-cong datasz (suc fuel) dlen n f g h = elim (Bool-cases (ltb n dlen)) [
  | inl more ↦
      rw (more, pieces)
        (ap₂ ◌∷◌ (slice-cong f g n _ (λ i lo hi. h i lo (ground arith)))
          (pieces-cong datasz fuel dlen _ f g (λ i lo hi. h i (omega arith) hi)))
  | inr done ↦ rw (done, pieces) refl
]

abbrev head_or : List (List ℕ) → List ℕ
head_or [] = []
head_or (x ∷ xs) = x

abbrev tail_or : List (List ℕ) → List (List ℕ)
tail_or [] = []
tail_or (x ∷ xs) = xs

-- And memory with the same pieces agrees there, if the fuel suffices.
pub pieces-injective :
    (datasz fuel dlen n : ℕ) (f g : ℕ → ℕ)
    → 0 < datasz
    → dlen < n + fuel
    → pieces datasz fuel dlen n f ≡ pieces datasz fuel dlen n g
    → (i : ℕ) → n ≤ i
    → i < dlen
    → f i ≡ g i
unfolding pieces
pieces-injective datasz zero dlen n f g pd enough e i lo hi = absurd (omega arith)
pieces-injective datasz (suc fuel) dlen n f g pd enough e i lo hi = elim (Bool-cases (ltb n dlen)) [
  | inr done ↦ absurd (ground arith)
  | inl more ↦
      let both = rw (more, pieces) at e in
      elim (Bool-cases (ltb i (n + min (dlen - n) datasz))) [
        | inl here ↦
            slice-injective_at f g n (min (dlen - n) datasz) i (ap head_or both) lo (ground arith)
        | inr later ↦
            pieces-injective datasz fuel dlen (n + min (dlen - n) datasz) f g pd (ground arith)
              (ap tail_or both) i (ground arith) hi
      ]
]
