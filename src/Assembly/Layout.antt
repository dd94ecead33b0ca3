-- ===== src/Assembly/Layout.antt =====
-- idx2apos: the logical indices of an assembly, striped over its chunks, against the positions.
use native.Mathlib.Nat.{
  add-zero, mod-lt, mod-eq_of_lt, div-eq_of_lt, div-add-mod', mul-add-mod_self_right,
  mul-add-div_right,
}
use elykseer_cpp.Base.{ℕ, ◌+◌, ◌-◌, ◌*◌, ◌/◌, ◌%◌, ◌<◌, ◌≡◌, sym, ◌∙◌, ap, arith}
use elykseer_cpp.Buffer.{tag_len}
use elykseer_cpp.Assembly.{chunksize, assemblysize, idx2apos}

-- The logical index at a position: the row in the chunk, then the chunk.
unfoldable pub apos2idx : ℕ → ℕ → ℕ
apos2idx p nc = p % chunksize * nc + p / chunksize

row_lt : (i nc k : ℕ) → 0 < nc → i < k * nc → i / nc < k
row_lt i nc k h lt = grind arith

split_mod : (k a b : ℕ) → b < k → (a * k + b) % k ≡ b
split_mod k a b h = mul-add-mod_self_right a k b ∙ mod-eq_of_lt h

split_div : (k a b : ℕ) → b < k → (a * k + b) / k ≡ a
split_div k a b h = mul-add-div_right {m = k} (omega arith) a b ∙ rw (div-eq_of_lt h) (omega arith)

-- Every logical index has a position in the assembly.
pub idx2apos-lt : (i nc : ℕ) → 0 < nc → i < assemblysize nc → idx2apos i nc < assemblysize nc
unfolding idx2apos
idx2apos-lt i nc h lt =
    let r = row_lt i nc chunksize h lt in let m = mod-lt i {m = nc} h in omega arith

-- For a logical index inside an assembly of at least one chunk, the index can be computed back from
-- its position: no two indices share a position.
pub apos2idx-idx2apos : (i nc : ℕ) → 0 < nc → i < assemblysize nc → apos2idx (idx2apos i nc) nc ≡ i
unfolding idx2apos apos2idx
apos2idx-idx2apos i nc h lt =
    let r = row_lt i nc chunksize h lt in
    rw (split_mod chunksize (i % nc) (i / nc) r, split_div chunksize (i % nc) (i / nc) r)
      (div-add-mod' i nc)

-- Every position inside an assembly of at least one chunk is the position of a logical index.
pub idx2apos-apos2idx : (p nc : ℕ) → 0 < nc → p < assemblysize nc → idx2apos (apos2idx p nc) nc ≡ p
unfolding idx2apos apos2idx
idx2apos-apos2idx p nc h lt =
    let r : p / chunksize < nc = omega arith in
    rw
      (
        split_mod nc (p % chunksize) (p / chunksize) r,
        split_div nc (p % chunksize) (p / chunksize) r,
      )
      (div-add-mod' p chunksize)

pub idx2apos-injective :
    (i j nc : ℕ)
    → 0 < nc
    → i < assemblysize nc
    → j < assemblysize nc
    → idx2apos i nc ≡ idx2apos j nc
    → i ≡ j
idx2apos-injective i j nc h li lj e =
    sym (apos2idx-idx2apos i nc h li) ∙ ap (λ p. apos2idx p nc) e ∙ apos2idx-idx2apos j nc h lj

-- A logical index that leaves the last 16 rows of an assembly free has its position before the last
-- 16 bytes, where the tag is.
pub idx2apos-before_tag :
    (i nc : ℕ)
    → 0 < nc
    → i + tag_len * nc < assemblysize nc
    → idx2apos i nc < assemblysize nc - tag_len
unfolding idx2apos
idx2apos-before_tag i nc h lt =
    let r = row_lt i nc (chunksize - tag_len) h (omega arith) in
    let m = mod-lt i {m = nc} h in omega arith

-- The index of the k-th row of the first chunk is the position k.
pub idx2apos-first_chunk : (k nc : ℕ) → 0 < nc → idx2apos (k * nc) nc ≡ k
unfolding idx2apos
idx2apos-first_chunk k nc h =
    let m : k * nc % nc ≡ 0 = rw add-zero at (split_mod nc k 0 h) in
    let d : k * nc / nc ≡ k = rw add-zero at (split_div nc k 0 h) in rw (m, d) (omega arith)
