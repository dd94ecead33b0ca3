-- ===== src/Buffer/Copy.antt =====
-- copy_sz_pos of CoqBuffer and the memory of both buffers.
use elykseer_cpp.Base.{
  ℕ, ◌+◌, ◌≤◌, ◌<◌, ◌≡◌, refl, true, Option, some, ◌⊎◌, inl, inr, arith, ltb, ℤ, pos, negsuc, Block,
  blit, Bool-cases,
}
use elykseer_cpp.Buffer.{past_end, copy_pimpl, has_buffer}

-- The `n` bytes from `p` on were copied to `q`, all inside the two blocks.
pub record Copied (b t : Block) (pos0 sz pos1 : ℤ) (r : ℤ × Option Block) : Type 0 where
  pub p : ℕ
  pub n : ℕ
  pub q : ℕ
  pub from : pos0 ≡ pos p
  pub count : sz ≡ pos n
  pub to : pos1 ≡ pos q
  pub some_bytes : 0 < n
  pub in_source : p + n ≤ b.len
  pub in_target : q + n ≤ t.len
  pub result : r ≡ (pos n, some (record t { byte = blit t.byte q b.byte p n }))

-- Nothing is copied, and the result says so.
abbrev pub Refused : Block → ℤ × Option Block → Type 0
Refused t r = (r.1 ≡ some t) × ((r.0 ≡ pos 0) ⊎ (r.0 ≡ negsuc 0) ⊎ (r.0 ≡ negsuc 1))

copy_natural :
    (b t : Block) (p n q : ℕ)
    → Copied b t (pos p) (pos n) (pos q) (copy_pimpl b (pos p) (pos n) (some t) (pos q))
      ⊎ Refused t (copy_pimpl b (pos p) (pos n) (some t) (pos q))
unfolding copy_pimpl past_end
copy_natural b t p n q = elim (Bool-cases (ltb n 1)) [
  | inl empty ↦ inr (rw (empty, copy_pimpl) refl, inl (rw (empty, copy_pimpl) refl))
  | inr some_n ↦ elim (Bool-cases (past_end n p b.len)) [
    | inl past ↦
        inr (rw (some_n, past, copy_pimpl) refl, inr (inl (rw (some_n, past, copy_pimpl) refl)))
    | inr inside ↦ elim (Bool-cases (past_end n q t.len)) [
      | inl past ↦ inr (
        rw (some_n, inside, past, copy_pimpl) refl,
        inr (inr (rw (some_n, inside, past, copy_pimpl) refl)),
      )
      | inr room ↦
          let has : has_buffer t ≡ true = ground arith in
          inl (record {
            p = p;
            n = n;
            q = q;
            from = refl;
            count = refl;
            to = refl;
            some_bytes = ground arith;
            in_source = ground arith;
            in_target = ground arith;
            result = simp (some_n, inside, room, has, copy_pimpl) refl;
          })
    ]
  ]
]

-- Copying into a buffer that was not moved from: either a range of at least one byte that lies
-- inside both blocks is copied and its length is returned, or the target is unchanged and the
-- result is 0, -1 or -2.
pub copy_pimpl-Copied :
    (b t : Block) (pos0 sz pos1 : ℤ)
    → Copied b t pos0 sz pos1 (copy_pimpl b pos0 sz (some t) pos1)
      ⊎ Refused t (copy_pimpl b pos0 sz (some t) pos1)
unfolding copy_pimpl
copy_pimpl-Copied b t (pos p) (pos n) (pos q) = copy_natural b t p n q
copy_pimpl-Copied b t (pos p) (pos n) (negsuc q) = inr (refl, inl refl)
copy_pimpl-Copied b t (pos p) (negsuc n) pos1 = inr (refl, inl refl)
copy_pimpl-Copied b t (negsuc p) sz pos1 = inr (refl, inl refl)
