-- ===== src/Cipher/Loop.antt =====
-- The loop of encrypt_buffer and decrypt_buffer in place, against the same calls on the list of
-- pieces.
use elykseer_cpp.Base.{
  ℕ, zero, suc, ◌+◌, ◌-◌, ◌≤◌, ◌<◌, min, ◌≡◌, refl, sym, ◌∙◌, ap, ap₂, ◌⊎◌, inl, inr, true, false,
  Option, none, some, List, [], ◌∷◌, length, ltb, arith, slice, blit, of_list, Bool-cases,
  Option-cases, slice-cong, slice-shift, slice-of_list, length-slice, blit_inside, blit_outside,
}
use elykseer_cpp.Cipher.{crypt_loop}
use elykseer_cpp.Cipher.Pieces.{pieces, run_pieces, pieces-cong}

-- The slice at which a list was just written is that list.
plus_sub : (n i : ℕ) → 0 + i ≡ 0 + (n + i - n)
plus_sub n i = omega arith

pub slice-blit :
    (m : ℕ → ℕ) (n k : ℕ) (xs : List ℕ) → length xs ≡ k → slice (blit m n (of_list xs) 0 k) n k ≡ xs
slice-blit m n k xs h =
    slice-shift (blit m n (of_list xs) 0 k) (of_list xs) n 0 k (λ i hi.
      blit_inside m (of_list xs) n 0 k (n + i) (omega arith) (omega arith)
      ∙ ap (of_list xs) (sym (plus_sub n i)))
    ∙ slice-of_list xs k h

module _ {C : Type 0} (datasz : ℕ) (process : List ℕ → C → Option (List ℕ × C))
    (keeps : (p : List ℕ) (c : C) (o : List ℕ) (c' : C)
      → process p c ≡ some (o, c')
      → length o ≡ length p)
    (dlen : ℕ) where
  abbrev pub LoopAgrees : ℕ → ℕ → C → (ℕ → ℕ) → Type 0
  LoopAgrees fuel n c m =
      ((run_pieces process (pieces datasz fuel dlen n m) c ≡ none)
        × ((crypt_loop datasz process fuel dlen n c m).0 ≡ none))
      ⊎ ((os : List (List ℕ)) × (c' : C) × (run_pieces process (pieces datasz fuel dlen n m) c
            ≡ some (os, c'))
          × ((crypt_loop datasz process fuel dlen n c m).0 ≡ some c')
          × (pieces datasz fuel dlen n (crypt_loop datasz process fuel dlen n c m).1 ≡ os)
          × ((i : ℕ) → i < n → (crypt_loop datasz process fuel dlen n c m).1 i ≡ m i)
          × ((i : ℕ) → dlen ≤ i → (crypt_loop datasz process fuel dlen n c m).1 i ≡ m i))

  -- The bytes after the piece are those of the memory before.
  later_pieces :
      (fuel n k : ℕ) (m : ℕ → ℕ) (o : List ℕ)
      → pieces datasz fuel dlen (n + k) (blit m n (of_list o) 0 k)
        ≡ pieces datasz fuel dlen (n + k) m
  later_pieces fuel n k m o =
      pieces-cong datasz fuel dlen (n + k) _ m
        (λ i lo hi. (blit_outside m (of_list o) n 0 k i).1 lo)

  module _ (fuel n : ℕ) (c : C) (m : ℕ → ℕ) where
    pieces-more :
        ltb n dlen ≡ true
        → pieces datasz (suc fuel) dlen n m
          ≡ slice m n (min (dlen - n) datasz)
            ∷ pieces datasz fuel dlen (n + min (dlen - n) datasz) m
    unfolding pieces
    pieces-more more = rw (more, pieces) refl

    pieces-done : ltb n dlen ≡ false → pieces datasz (suc fuel) dlen n m ≡ []
    unfolding pieces
    pieces-done more = rw (more, pieces) refl

    crypt_loop-done :
        ltb n dlen ≡ false → crypt_loop datasz process (suc fuel) dlen n c m ≡ (some c, m)
    unfolding crypt_loop
    crypt_loop-done more = rw (more, crypt_loop) refl

    crypt_loop-none :
        ltb n dlen ≡ true
        → process (slice m n (min (dlen - n) datasz)) c ≡ none
        → crypt_loop datasz process (suc fuel) dlen n c m ≡ (none, m)
    unfolding crypt_loop
    crypt_loop-none more e = rw (more, crypt_loop) (rw e refl)

    crypt_loop-some :
        (o : List ℕ) (c' : C)
        → ltb n dlen ≡ true
        → process (slice m n (min (dlen - n) datasz)) c ≡ some (o, c')
        → crypt_loop datasz process (suc fuel) dlen n c m
          ≡ crypt_loop datasz process fuel dlen
              (n + min (dlen - n) datasz)
              c'
              (blit m n (of_list o) 0 (min (dlen - n) datasz))
    unfolding crypt_loop
    crypt_loop-some o c' more e = rw (more, crypt_loop) (rw e refl)

  run_pieces-nil : (c : C) → run_pieces process [] c ≡ some ([], c)
  unfolding run_pieces
  run_pieces-nil c = refl

  run_pieces-none :
      (p : List ℕ) (ps : List (List ℕ)) (c : C)
      → process p c ≡ none
      → run_pieces process (p ∷ ps) c ≡ none
  unfolding run_pieces
  run_pieces-none p ps c e = rw (e, run_pieces) refl

  run_pieces-fails :
      (p : List ℕ) (ps : List (List ℕ)) (c : C) (o : List ℕ) (c' : C)
      → process p c ≡ some (o, c')
      → run_pieces process ps c' ≡ none
      → run_pieces process (p ∷ ps) c ≡ none
  unfolding run_pieces
  run_pieces-fails p ps c o c' e r = rw (e, run_pieces) (rw r refl)

  run_pieces-some :
      (p : List ℕ) (ps : List (List ℕ)) (c : C) (o : List ℕ) (c' : C) (os : List (List ℕ)) (c'' : C)
      → process p c ≡ some (o, c')
      → run_pieces process ps c' ≡ some (os, c'')
      → run_pieces process (p ∷ ps) c ≡ some (o ∷ os, c'')
  unfolding run_pieces
  run_pieces-some p ps c o c' os c'' e r = rw (e, run_pieces) (rw r refl)

  -- One round in which the cipher processes the piece `o`, and the rounds after it.
  loop_step :
      (fuel n : ℕ) (c : C) (m : ℕ → ℕ) (o : List ℕ) (c' : C)
      → ltb n dlen ≡ true
      → process (slice m n (min (dlen - n) datasz)) c ≡ some (o, c')
      → LoopAgrees fuel
          (n + min (dlen - n) datasz)
          c'
          (blit m n (of_list o) 0 (min (dlen - n) datasz))
      → LoopAgrees (suc fuel) n c m
  loop_step fuel n c m o c' more done (inl (ran, looped)) = inl (
    rw (pieces-more fuel n c m more) (run_pieces-fails _ _ c o c' done (rw later_pieces at ran)),
    rw (crypt_loop-some fuel n c m o c' more done) looped,
  )
  loop_step fuel n c m o c' more done (inr (os, c'', ran, looped, cut, below, above)) =
      let k = min (dlen - n) datasz in
      let step = crypt_loop-some fuel n c m o c' more done in
      let written =
        slice-cong (crypt_loop datasz process (suc fuel) dlen n c m).1 (blit m n (of_list o) 0 k) n
          k (λ i lo hi. rw step (below i hi))
        ∙ slice-blit m n k o (keeps _ c o c' done ∙ length-slice m n k) in
      inr (
        o ∷ os,
        c'',
        rw (pieces-more fuel n c m more)
            (run_pieces-some _ _ c o c' os c'' done (rw later_pieces at ran)),
        rw step looped,
        pieces-more fuel n c _ more ∙ ap₂ ◌∷◌ written (rw step cut),
        (λ i lo. rw step (below i (omega arith) ∙ (blit_outside m (of_list o) n 0 k i).0 lo)),
        (λ i lo. rw step (above i lo ∙ (blit_outside m (of_list o) n 0 k i).1 (ground arith))),
      )

  -- If the fuel exceeds the bytes that are left, the loop succeeds exactly if the calls on the
  -- pieces do; then it ends in the same state, with their results in place of the pieces.
  pub crypt_loop-run :
      (fuel n : ℕ) (c : C) (m : ℕ → ℕ)
      → 0 < datasz
      → n ≤ dlen
      → dlen < n + fuel
      → LoopAgrees fuel n c m
  crypt_loop-run zero n c m pd le enough = absurd (omega arith)
  crypt_loop-run (suc fuel) n c m pd le enough = elim (Bool-cases (ltb n dlen)) [
    | inr end ↦
        let step = crypt_loop-done fuel n c m end in
        inr (
          [],
          c,
          rw (pieces-done fuel n c m end) (run_pieces-nil c),
          rw step refl,
          pieces-done fuel n c _ end,
          (λ i lo. rw step refl),
          (λ i lo. rw step refl),
        )
    | inl more ↦ elim (Option-cases (process (slice m n (min (dlen - n) datasz)) c)) [
      | inl e ↦ inl (
        rw (pieces-more fuel n c m more) (run_pieces-none _ _ c e),
        rw (crypt_loop-none fuel n c m more e) refl,
      )
      | inr ((o, c'), e) ↦
          loop_step fuel n c m o c' more e
            (crypt_loop-run fuel (n + min (dlen - n) datasz) c' _ pd (ground arith) (ground arith))
    ]
  ]
