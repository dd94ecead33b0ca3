-- ===== src/Nchunks.antt =====
-- src/cpp/nchunks.ixx and nchunks.cpp: the number of chunks of an assembly, held within its range.
pub mod Range
use elykseer_cpp.Base.{ℕ, zero, suc, ◌+◌, min, max, List, [], ◌∷◌, leb, if◌then◌else◌, ℤ, pos_part}

abbrev pub min_n : ℕ
min_n = 16

abbrev pub max_n : ℕ
max_n = 256

-- The constructor: min(max_n, max(min_n, n)); a negative n counts as any number below min_n.
unfoldable pub nchunks : ℤ → ℕ
nchunks n = min max_n (max min_n (pos_part n))

-- `while (num <= n) { co_yield num++; }`, with the rounds as fuel.
unfoldable pub sequence_from : ℕ → ℕ → ℕ → List ℕ
sequence_from zero num n = []
sequence_from (suc fuel) num n =
    let rest = sequence_from fuel (num + 1) n in if leb num n then num ∷ rest else []

-- The chunk ids 1 .. n.
unfoldable pub sequence : ℕ → List ℕ
unfolding sequence_from
sequence n = sequence_from (n + 1) 1 n
