-- ===== src/Base/Memory.antt =====
-- Blocks of memory and file contents: a length and the byte at each position. Reads of a range
-- (`slice`), `memcpy` (`blit`), and what the one finds after the other.
use Prim.Native.Nat.{ℕ, zero, suc, ◌+◌, ◌-◌, ◌≤◌, ◌<◌}
use mathlib.Core.Path.{◌≡◌, refl, ap, ap₂, ◌∙◌}
use mathlib.Core.Bool.{◌&&◌}
use mathlib.Core.Logic.{◌≢◌}
use mathlib.Core.List.{List, [], ◌∷◌}
use native.Mathlib.Omega.{arith}
use elykseer_cpp.Base.Tests.{ltb, leb, ◌==◌, if◌then◌else◌}
use elykseer_cpp.Base.Lists.{length, get_or}

-- Positions at `len` and above are not part of the block.
pub record Block : Type 0 where
  pub len : ℕ
  pub byte : ℕ → ℕ

-- `n` bytes from position `off`.
unfoldable pub slice : (ℕ → ℕ) → ℕ → ℕ → List ℕ
slice f off zero = []
slice f off (suc n) = f off ∷ slice f (off + 1) n

-- memcpy(f + p, g + q, n).
abbrev pub blit : (ℕ → ℕ) → ℕ → (ℕ → ℕ) → ℕ → ℕ → ℕ → ℕ
blit f p g q n i = if leb p i && ltb i (p + n) then g (q + (i - p)) else f i

-- f[p] = v.
abbrev pub poke : (ℕ → ℕ) → ℕ → ℕ → ℕ → ℕ
poke f p v i = if p == i then v else f i

-- The bytes of a list, by position.
abbrev pub of_list : List ℕ → ℕ → ℕ
of_list xs i = get_or xs i 0

pub length-slice : (f : ℕ → ℕ) (off n : ℕ) → length (slice f off n) ≡ n
unfolding slice
length-slice f off zero = refl
length-slice f off (suc n) = ap suc (length-slice f (off + 1) n)

zero_plus : (x : ℕ) → 0 + x ≡ x
zero_plus x = omega arith

one_plus : (x : ℕ) → 1 + x ≡ suc x
one_plus x = omega arith

plus_zero : (x : ℕ) → x ≡ x + 0
plus_zero x = omega arith

plus_suc : (x i : ℕ) → x + 1 + i ≡ x + suc i
plus_suc x i = omega arith

pub of_list-slice : (f : ℕ → ℕ) (off n i : ℕ) → i < n → of_list (slice f off n) i ≡ f (off + i)
unfolding slice
of_list-slice f off zero i h = elim h [ ]
of_list-slice f off (suc n) zero h = rw (← plus_zero off) refl
of_list-slice f off (suc n) (suc i) h =
    rw (← plus_suc off i) (of_list-slice f (off + 1) n i (omega arith))

-- Two blocks that agree on a range have the same slice there.
pub slice-cong :
    (f g : ℕ → ℕ) (off n : ℕ)
    → ((i : ℕ) → off ≤ i → i < off + n → f i ≡ g i)
    → slice f off n ≡ slice g off n
unfolding slice
slice-cong f g off zero h = refl
slice-cong f g off (suc n) h =
    ap₂ ◌∷◌ (h off (omega arith) (omega arith))
      (slice-cong f g (off + 1) n (λ i lo hi. h i (omega arith) (omega arith)))

-- A slice of a block moved to another offset.
pub slice-shift :
    (f g : ℕ → ℕ) (p q n : ℕ)
    → ((i : ℕ) → i < n → f (p + i) ≡ g (q + i))
    → slice f p n ≡ slice g q n
unfolding slice
slice-shift f g p q zero h = refl
slice-shift f g p q (suc n) h = ap₂ ◌∷◌ (rw (plus_zero p, plus_zero q) (h 0 (omega arith))) (
    slice-shift f g (p + 1) (q + 1) n
      (λ i hi. rw (plus_suc p i, plus_suc q i) (h (suc i) (omega arith))))

-- Equal slices agree at each position.
pub slice-injective :
    (f g : ℕ → ℕ) (p q n i : ℕ) → slice f p n ≡ slice g q n → i < n → f (p + i) ≡ g (q + i)
slice-injective f g p q n i e h =
    rw (← of_list-slice f p n i h, ← of_list-slice g q n i h) (ap (λ xs. of_list xs i) e)

pub slice-injective_at :
    (f g : ℕ → ℕ) (n k i : ℕ) → slice f n k ≡ slice g n k → n ≤ i → i < n + k → f i ≡ g i
slice-injective_at f g n k i e lo hi =
    let here : n + (i - n) ≡ i = omega arith in
    rw here at (slice-injective f g n n k (i - n) e (omega arith))

pub blit_inside :
    (f g : ℕ → ℕ) (p q n i : ℕ) → p ≤ i → i < p + n → blit f p g q n i ≡ g (q + (i - p))
blit_inside f g p q n i lo hi = ground arith

pub blit_outside :
    (f g : ℕ → ℕ) (p q n i : ℕ)
    → (i < p → blit f p g q n i ≡ f i) × (p + n ≤ i → blit f p g q n i ≡ f i)
blit_outside f g p q n i = (λ h. ground arith, λ h. ground arith)

-- A list is the slice of its own bytes.
pub slice-of_list : (xs : List ℕ) (k : ℕ) → length xs ≡ k → slice (of_list xs) 0 k ≡ xs
unfolding slice
slice-of_list [] zero h = refl
slice-of_list [] (suc k) h = absurd (omega arith)
slice-of_list (x ∷ xs) zero h = absurd (omega arith)
slice-of_list (x ∷ xs) (suc k) h = ap (◌∷◌ x) (
    slice-shift (of_list (x ∷ xs)) (of_list xs) 1 0 k (λ i hi. rw (one_plus i, zero_plus i) refl)
    ∙ slice-of_list xs k (omega arith))

pub poke_self : (f : ℕ → ℕ) (p v : ℕ) → poke f p v p ≡ v
poke_self f p v = ground arith

pub poke_ne : (f : ℕ → ℕ) (p v i : ℕ) → i ≢ p → poke f p v i ≡ f i
poke_ne f p v i h = ground arith
