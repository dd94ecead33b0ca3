-- ===== src/Assembly/Writable/Store.antt =====
-- The loop of CoqAssemblyPlainWritable::backup over the bytes of a block.
use elykseer_cpp.Base.{
  ℕ, zero, suc, ◌+◌, ◌^◌, ◌≤◌, ◌<◌, ◌≡◌, ◌≢◌, refl, ◌∙◌, some, ◌==◌, arith, add32, Block, poke,
  poke_self, poke_ne, Bool-cases, inl, inr,
}
use elykseer_cpp.Buffer.{at, set_at}
use elykseer_cpp.Assembly.{assemblysize, idx2apos}
use elykseer_cpp.Assembly.Layout.{idx2apos-lt, idx2apos-injective}
use elykseer_cpp.Assembly.Writable.{store_loop}

pub at-inside : (b : Block) (i : ℕ) → i < b.len → at b i ≡ some (b.byte i)
unfolding at
at-inside b i h = ground arith

pub set_at-inside :
    (b : Block) (i v : ℕ) → i < b.len → set_at b i v ≡ some (record b { byte = poke b.byte i v })
unfolding set_at
set_at-inside b i v h = ground arith

pub add32_small : (a b : ℕ) → a + b < 2 ^ 32 → add32 a b ≡ a + b
add32_small a b h = omega arith

-- What the rounds i, ... , i + left - 1 leave in the target.
pub record Stored (left i n apos offset : ℕ) (b t t' : Block) : Type 0 where
  pub len_kept : t'.len ≡ t.len
  pub written :
      (j : ℕ) → i ≤ j → j < i + left → t'.byte (idx2apos (j + apos) n) ≡ b.byte (j + offset)
  pub kept :
      (p : ℕ) → ((j : ℕ) → i ≤ j → j < i + left → p ≢ idx2apos (j + apos) n) → t'.byte p ≡ t.byte p

module _ (n apos offset : ℕ) (b : Block) (n_pos : 0 < n) (n_max : n ≤ 256)
    (b_max : b.len < 2 ^ 32) where
  store_loop-zero : (i : ℕ) (t : Block) → store_loop 0 i n apos offset b t ≡ some t
  unfolding store_loop
  store_loop-zero i t = refl

  store_step :
      (left i : ℕ) (t : Block)
      → t.len ≡ assemblysize n
      → apos + (i + suc left) ≤ assemblysize n
      → offset + (i + suc left) ≤ b.len
      → store_loop (suc left) i n apos offset b t
        ≡ store_loop left
            (i + 1)
            n
            apos
            offset
            b
            (record t { byte = poke t.byte (idx2apos (i + apos) n) (b.byte (i + offset)) })
  unfolding store_loop
  store_step left i t l ha ho =
      let room : idx2apos (i + apos) n < t.len =
        omega (arith, idx2apos-lt (i + apos) n n_pos (omega arith)) in
      rw
        (
          add32_small i offset (omega arith),
          add32_small i apos (omega arith),
          at-inside b (i + offset) (omega arith),
          set_at-inside t (idx2apos (i + apos) n) (b.byte (i + offset)) room,
        )
        refl

  -- The round i before the rounds after it: no later round writes where this one did.
  Stored-step :
      (left i : ℕ) (t t' : Block)
      → apos + (i + suc left) ≤ assemblysize n
      → Stored left
          (i + 1)
          n
          apos
          offset
          b
          (record t { byte = poke t.byte (idx2apos (i + apos) n) (b.byte (i + offset)) })
          t'
      → Stored (suc left) i n apos offset b t t'
  Stored-step left i t t' ha s = record {
    len_kept = s.len_kept;
    written = λ j lo hi. elim (Bool-cases (i == j)) [
      | inl same ↦
          let e : i ≡ j = ground arith in
          rw (← e) (
            s.kept (idx2apos (i + apos) n) (λ k lo' hi' c. absurd (
              omega (
                arith,
                idx2apos-injective (i + apos) (k + apos) n n_pos (omega arith) (omega arith) c,
              )))
            ∙ poke_self t.byte (idx2apos (i + apos) n) (b.byte (i + offset)))
      | inr other ↦ s.written j (ground arith) (omega arith)
    ];
    kept = λ p h.
        s.kept p (λ j lo hi. h j (omega arith) (omega arith))
        ∙ poke_ne t.byte (idx2apos (i + apos) n) _ p (h i (omega arith) (omega arith));
  }

  pub store_loop-Stored :
      (left i : ℕ) (t : Block)
      → t.len ≡ assemblysize n
      → apos + (i + left) ≤ assemblysize n
      → offset + (i + left) ≤ b.len
      → (t' : Block) × (store_loop left i n apos offset b t ≡ some t')
        × Stored left i n apos offset b t t'
  store_loop-Stored zero i t l ha ho = (
    t,
    store_loop-zero i t,
    record { len_kept = refl; written = λ j lo hi. absurd (omega arith); kept = λ p h. refl },
  )
  store_loop-Stored (suc left) i t l ha ho =
      let t1 : Block = record t {
        byte = poke t.byte (idx2apos (i + apos) n) (b.byte (i + offset));
      } in
      let (t', e, s) = store_loop-Stored left (i + 1) t1 l (omega arith) (omega arith) in
      (t', store_step left i t l ha ho ∙ e, Stored-step left i t t' ha s)
