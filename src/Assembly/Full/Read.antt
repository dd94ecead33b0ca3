-- ===== src/Assembly/Full/Read.antt =====
-- The loop of CoqAssemblyPlainFull::restore over the bytes of a block.
use elykseer_cpp.Base.{
  ℕ, zero, suc, ◌+◌, ◌≤◌, ◌<◌, ◌≡◌, refl, ◌∙◌, some, ◌==◌, arith, Block, poke, poke_self, poke_ne,
  Bool-cases, inl, inr,
}
use elykseer_cpp.Assembly.{assemblysize, idx2apos}
use elykseer_cpp.Assembly.Layout.{idx2apos-lt}
use elykseer_cpp.Assembly.Writable.Store.{at-inside, set_at-inside, add32_small}
use elykseer_cpp.Assembly.Full.{restore_loop}

-- What the rounds i, ... , i + left - 1 leave in the block.
pub record Gathered (left i n apos : ℕ) (src b b' : Block) : Type 0 where
  pub len_kept : b'.len ≡ b.len
  pub gathered : (j : ℕ) → i ≤ j → j < i + left → b'.byte j ≡ src.byte (idx2apos (j + apos) n)
  pub before : (j : ℕ) → j < i → b'.byte j ≡ b.byte j

module _ (n apos : ℕ) (src : Block) (n_pos : 0 < n) (n_max : n ≤ 256)
    (full : src.len ≡ assemblysize n) where
  restore_loop-zero : (i : ℕ) (b : Block) → restore_loop 0 i n apos src b ≡ some b
  unfolding restore_loop
  restore_loop-zero i b = refl

  restore_step :
      (left i : ℕ) (b : Block)
      → i < b.len
      → i + apos < assemblysize n
      → restore_loop (suc left) i n apos src b
        ≡ restore_loop left
            (i + 1)
            n
            apos
            src
            (record b { byte = poke b.byte i (src.byte (idx2apos (i + apos) n)) })
  unfolding restore_loop
  restore_step left i b hb ha =
      let room : idx2apos (i + apos) n < src.len =
        omega (arith, idx2apos-lt (i + apos) n n_pos ha) in
      rw
        (
          add32_small i apos (omega arith),
          at-inside src (idx2apos (i + apos) n) room,
          set_at-inside b i (src.byte (idx2apos (i + apos) n)) hb,
        )
        refl

  pub restore_loop-Gathered :
      (left i : ℕ) (b : Block)
      → b.len ≡ i + left
      → apos + (i + left) ≤ assemblysize n
      → (b' : Block) × (restore_loop left i n apos src b ≡ some b')
        × Gathered left i n apos src b b'
  restore_loop-Gathered zero i b l ha = (
    b,
    restore_loop-zero i b,
    record { len_kept = refl; gathered = λ j lo hi. absurd (omega arith); before = λ j h. refl },
  )
  restore_loop-Gathered (suc left) i b l ha =
      let v = src.byte (idx2apos (i + apos) n) in
      let b1 : Block = record b { byte = poke b.byte i v } in
      let (b', e, g) = restore_loop-Gathered left (i + 1) b1 (omega arith) (omega arith) in
      (
        b',
        restore_step left i b (omega arith) (omega arith) ∙ e,
        record {
          len_kept = g.len_kept;
          gathered = λ j lo hi. elim (Bool-cases (i == j)) [
            | inl same ↦
                let e : i ≡ j = ground arith in
                rw (← e) (g.before i (omega arith) ∙ poke_self b.byte i v)
            | inr other ↦ g.gathered j (ground arith) (omega arith)
          ];
          before = λ j h. g.before j (omega arith) ∙ poke_ne b.byte i v j (omega arith);
        },
      )
