-- ===== src/Nchunks/Range.antt =====
-- The range of the number of chunks, and the chunk ids that `sequence` enumerates.
use elykseer_cpp.Base.{ℕ, zero, suc, ◌+◌, ◌≤◌, ◌<◌, ◌≡◌, List, [], ◌∷◌, arith, ℤ, pos}
use elykseer_cpp.Nchunks.{nchunks, sequence_from, sequence}

-- The number of chunks is from 16 to 256, whatever number was asked for.
pub nchunks_range : (n : ℤ) → (16 ≤ nchunks n) × (nchunks n ≤ 256)
unfolding nchunks
nchunks_range n = (omega arith, omega arith)

pub nchunks_fixed : (n : ℕ) → 16 ≤ n → n ≤ 256 → nchunks (pos n) ≡ n
unfolding nchunks
nchunks_fixed n lo hi = omega arith

-- The numbers a, a + 1, ... , k of them.
abbrev pub count_up : ℕ → ℕ → List ℕ
count_up a zero = []
count_up a (suc k) = a ∷ count_up (a + 1) k

sequence_from-count_up :
    (fuel k num n : ℕ) → num + k ≡ n + 1 → k < fuel → sequence_from fuel num n ≡ count_up num k
unfolding sequence_from
sequence_from-count_up zero k num n e h = elim h [ ]
sequence_from-count_up (suc fuel) zero num n e h = ground arith
sequence_from-count_up (suc fuel) (suc k) num n e h =
    ground (arith, sequence_from-count_up fuel k (num + 1) n (omega arith) (omega arith))

-- The generator of the chunk ids ends, after the ids from 1 to the number of chunks in order.
pub sequence-count_up : (n : ℕ) → sequence n ≡ count_up 1 n
unfolding sequence
sequence-count_up n = sequence_from-count_up (n + 1) n 1 n (omega arith) (omega arith)
