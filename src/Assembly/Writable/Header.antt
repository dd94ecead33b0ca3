-- ===== src/Assembly/Writable/Header.antt =====
-- The loops of CoqAssemblyPlainWritable's constructor that write the random header.
use elykseer_cpp.Base.{
  ℕ, zero, suc, ◌+◌, ◌-◌, ◌*◌, ◌/◌, ◌%◌, ◌≤◌, ◌<◌, ◌≡◌, refl, sym, ◌∙◌, true, false, some, List,
  ltb, ◌==◌, arith, Block, of_list, poke, poke_self, poke_ne, Bool-cases, inl, inr,
}
use elykseer_cpp.Host.{World, draw, OnlyDraws}
use elykseer_cpp.Assembly.Writable.{header_bytes, header_loop}
use elykseer_cpp.Assembly.Writable.Store.{set_at-inside}

-- The rounds i, ... of the inner loop wrote the bytes of `r` below `h`.
record Filled (left i idx h : ℕ) (r : List ℕ) (b b' : Block) : Type 0 where
  pub len_kept : b'.len ≡ b.len
  pub filled : (p : ℕ) → idx + i ≤ p → p < idx + i + left → p < h → b'.byte p ≡ of_list r (p - idx)
  pub before : (p : ℕ) → p < idx + i → b'.byte p ≡ b.byte p
  pub after : (p : ℕ) → idx + i + left ≤ p → b'.byte p ≡ b.byte p
  pub beyond : (p : ℕ) → h ≤ p → b'.byte p ≡ b.byte p

module _ (idx h : ℕ) (r : List ℕ) where
  header_bytes-zero : (i : ℕ) (b : Block) → header_bytes 0 i idx h r b ≡ some b
  unfolding header_bytes
  header_bytes-zero i b = refl

  header_bytes-stop :
      (left i : ℕ) (b : Block) → ltb (idx + i) h ≡ false → header_bytes left i idx h r b ≡ some b
  unfolding header_bytes
  header_bytes-stop zero i b e = refl
  header_bytes-stop (suc left) i b e = rw (e, header_bytes) refl

  header_bytes-step :
      (left i : ℕ) (b : Block)
      → ltb (idx + i) h ≡ true
      → idx + i < b.len
      → header_bytes (suc left) i idx h r b
        ≡ header_bytes left
            (i + 1)
            idx
            h
            r
            (record b { byte = poke b.byte (idx + i) (of_list r i) })
  unfolding header_bytes
  header_bytes-step left i b e lt =
      rw (e, header_bytes) (rw (set_at-inside b (idx + i) (of_list r i) lt) refl)

  header_bytes-Filled :
      (left i : ℕ) (b : Block)
      → h ≤ b.len
      → (b' : Block) × (header_bytes left i idx h r b ≡ some b') × Filled left i idx h r b b'
  header_bytes-Filled zero i b le = (
    b,
    header_bytes-zero i b,
    record {
      len_kept = refl;
      filled = λ p lo hi lt. absurd (omega arith);
      before = λ p lt. refl;
      after = λ p lt. refl;
      beyond = λ p lt. refl;
    },
  )
  header_bytes-Filled (suc left) i b le = elim (Bool-cases (ltb (idx + i) h)) [
    | inr stop ↦ (
      b,
      header_bytes-stop (suc left) i b stop,
      record {
        len_kept = refl;
        filled = λ p lo hi lt. absurd (ground arith);
        before = λ p lt. refl;
        after = λ p lt. refl;
        beyond = λ p lt. refl;
      },
    )
    | inl more ↦
        let b1 : Block = record b { byte = poke b.byte (idx + i) (of_list r i) } in
        let (b', e, f) = header_bytes-Filled left (i + 1) b1 le in
        (
          b',
          header_bytes-step left i b more (ground arith) ∙ e,
          record {
            len_kept = f.len_kept;
            filled = λ p lo hi lt. elim (Bool-cases (p == idx + i)) [
              | inl same ↦
                  let e : p ≡ idx + i = ground arith in
                  let d : p - idx ≡ i = omega arith in
                  f.before p (omega arith) ∙ rw (d, e) (poke_self b.byte (idx + i) (of_list r i))
              | inr other ↦ f.filled p (ground arith) (omega arith) lt
            ];
            before = λ p lt. f.before p (omega arith) ∙ poke_ne b.byte (idx + i) _ p (omega arith);
            after = λ p lt. f.after p (omega arith) ∙ poke_ne b.byte (idx + i) _ p (omega arith);
            beyond = λ p lt. f.beyond p lt ∙ poke_ne b.byte (idx + i) _ p (ground arith);
          },
        )
  ]

-- The rounds of the outer loop from `idx` on, each with the next random number.
pub record Headed (idx h : ℕ) (w w' : World) (b b' : Block) : Type 0 where
  pub len_kept : b'.len ≡ b.len
  pub host : OnlyDraws w w'
  pub random_bytes :
      (p : ℕ)
      → idx ≤ p
      → p < h
      → b'.byte p ≡ of_list (w.random (w.draws + (p - idx) / 32)) ((p - idx) % 32)
  pub before : (p : ℕ) → p < idx → b'.byte p ≡ b.byte p
  pub beyond : (p : ℕ) → h ≤ p → b'.byte p ≡ b.byte p

OnlyDraws-refl : (w : World) → OnlyDraws w w
OnlyDraws-refl w = record {
  files_same = refl;
  mkdir_same = refl;
  write_same = refl;
  read_same = refl;
  room_same = refl;
  random_same = refl;
}

OnlyDraws-draw : (w w' : World) → OnlyDraws (draw w).1 w' → OnlyDraws w w'
OnlyDraws-draw w w' o = assumption o

draw_here :
    (f : ℕ → List ℕ) (d k : ℕ) → k < 32 → of_list (f (d + k / 32)) (k % 32) ≡ of_list (f d) k
draw_here f d k lt =
    let e : d + k / 32 ≡ d = omega arith in let m : k % 32 ≡ k = omega arith in rw (e, m) refl

draw_later :
    (f : ℕ → List ℕ) (d p idx : ℕ)
    → idx + 32 ≤ p
    → of_list (f (suc d + (p - (idx + 32)) / 32)) ((p - (idx + 32)) % 32)
      ≡ of_list (f (d + (p - idx) / 32)) ((p - idx) % 32)
draw_later f d p idx lo =
    let e : suc d + (p - (idx + 32)) / 32 ≡ d + (p - idx) / 32 = omega arith in
    let m : (p - (idx + 32)) % 32 ≡ (p - idx) % 32 = omega arith in rw (e, m) refl

module _ (h : ℕ) where
  header_loop-stop :
      (fuel idx : ℕ) (b : Block) (w : World)
      → ltb idx h ≡ false
      → header_loop (suc fuel) idx h b w ≡ some (b, w)
  unfolding header_loop
  header_loop-stop fuel idx b w e = rw (e, header_loop) refl

  header_loop-step :
      (fuel idx : ℕ) (b b' : Block) (w : World)
      → ltb idx h ≡ true
      → header_bytes 32 0 idx h (draw w).0 b ≡ some b'
      → header_loop (suc fuel) idx h b w ≡ header_loop fuel (idx + 32) h b' (draw w).1
  unfolding header_loop
  header_loop-step fuel idx b b' w e f = rw (e, header_loop) (rw f refl)

  pub header_loop-Headed :
      (fuel idx : ℕ) (b : Block) (w : World)
      → h ≤ b.len
      → idx ≤ h + 31
      → h + 31 < idx + 32 * fuel
      → (b' : Block) × (w' : World) × (header_loop fuel idx h b w ≡ some (b', w'))
        × Headed idx h w w' b b'
  header_loop-Headed zero idx b w le near enough = absurd (omega arith)
  header_loop-Headed (suc fuel) idx b w le near enough = elim (Bool-cases (ltb idx h)) [
    | inr stop ↦ (
      b,
      w,
      header_loop-stop fuel idx b w stop,
      record {
        len_kept = refl;
        host = OnlyDraws-refl w;
        random_bytes = λ p lo hi. absurd (ground arith);
        before = λ p lt. refl;
        beyond = λ p lt. refl;
      },
    )
    | inl more ↦
        let (b1, e1, f) = header_bytes-Filled idx h (draw w).0 32 0 b le in
        let (b', w', e2, g) =
          header_loop-Headed fuel (idx + 32) b1 (draw w).1 (omega (arith, f.len_kept))
            (ground arith) (omega arith) in
        (
          b',
          w',
          header_loop-step fuel idx b b1 w more e1 ∙ e2,
          record {
            len_kept = g.len_kept ∙ f.len_kept;
            host = OnlyDraws-draw w w' g.host;
            random_bytes = λ p lo hi. elim (Bool-cases (ltb p (idx + 32))) [
              | inl here ↦
                  g.before p (ground arith)
                  ∙ f.filled p (omega arith) (ground arith) hi
                  ∙ sym (draw_here w.random w.draws (p - idx) (ground arith))
              | inr later ↦
                  g.random_bytes p (ground arith) hi
                  ∙ draw_later w.random w.draws p idx (ground arith)
            ];
            before = λ p lt. g.before p (omega arith) ∙ f.before p (omega arith);
            beyond = λ p lt. g.beyond p lt ∙ f.beyond p lt;
          },
        )
  ]
