-- ===== src/Restore/Requests.antt =====
-- process_read_blocks: what the file that is being restored holds after the results are written.
use elykseer_cpp.Base.{
  ℕ, ◌+◌, ◌-◌, ◌^◌, ◌≤◌, ◌<◌, ◌≡◌, refl, sym, ◌∙◌, ap, subst, true, Option, none, some, List, [],
  ◌∷◌, ◌++◌, arith, Block, slice, ◌==◌, pos, min, max, blit, add32, length, length-append,
  slice-shift, slice-cong, blit_inside, blit_outside,
}
use elykseer_cpp.Host.{File, fwrite, fseek, padded}
use elykseer_cpp.Buffer.{Buffer, plain, fileout_sz_pos}
use elykseer_cpp.Cipher.{Crypto}
use elykseer_cpp.Cache.{ReadQueueEntity, ReadQueueResult, add64}
use elykseer_cpp.Restore.{Restoring, write_result, process_read_blocks}
use elykseer_cpp.Restore.Results.{IsBlockOf, Answered, Answers}

abbrev pub All {ℓ κ} : {A : Type ℓ} → (A → Type κ) → List A → Type κ
All P [] = Unit
All P (x ∷ xs) = P x × All P xs

All-append {ℓ κ} :
    {A : Type ℓ} (P : A → Type κ) (xs ys : List A) → All P xs → All P ys → All P (xs ++ ys)
All-append P [] ys a b = b
All-append P (x ∷ xs) ys (a, as_) b = (a, All-append P xs ys as_ b)

-- The requests follow one another in the file, from `m` on.
abbrev pub Ascending : ℕ → List ReadQueueEntity → Type 0
Ascending m [] = Unit {0}
Ascending m (r ∷ rs) = (m ≤ r.fpos) × Ascending (r.fpos + r.rlen) rs

-- The bytes that the requests ask for.
abbrev pub total : List ReadQueueEntity → ℕ
total [] = 0
total (r ∷ rs) = r.rlen + total rs

abbrev Below : ℕ → ReadQueueEntity → Type 0
Below m r = r.fpos + r.rlen ≤ m

-- The file after a block was written to it at its position.
abbrev written : Restoring → ReadQueueEntity → Block → Restoring
written p r b = record p {
  tgt = record {
    content = record {
      len = max p.tgt.content.len (r.fpos + min b.len p.tgt.room);
      byte = blit (padded p.tgt.content) r.fpos b.byte 0 (min b.len p.tgt.room);
    };
    offset = r.fpos + min b.len p.tgt.room;
    room = p.tgt.room - min b.len p.tgt.room;
  };
  n_restored = add64 p.n_restored b.len;
  n_blocks_ok = add32 p.n_blocks_ok 1;
}

fileout-whole :
    (b : Block) (f : File)
    → 0 < b.len
    → fileout_sz_pos {s = plain} (record { pimpl = some b }) (pos 0) (pos b.len) f
      ≡ (pos b.len, (fwrite f b.byte 0 b.len).1)
unfolding fileout_sz_pos
fileout-whole b f h = ground arith

==_refl : (n : ℕ) → (n == n) ≡ true
==_refl n = ground arith

pub write_result-written :
    (x : ReadQueueResult) (p : Restoring) (b : Block)
    → x.rresult ≡ some (record { pimpl = some b })
    → 0 < b.len
    → write_result x p ≡ written p x.readrequest b
unfolding write_result fwrite
write_result-written x p b e h =
    rw (e, write_result)
      (rw (fileout-whole b (fseek p.tgt x.readrequest.fpos) h) (rw (==_refl b.len) refl))

pub write_result-none :
    (x : ReadQueueResult) (p : Restoring) → x.rresult ≡ none → write_result x p ≡ p
unfolding write_result
write_result-none x p e = rw (e, write_result) refl

module _ (cr : Crypto) where
  -- A file holds a block: bytes at the block's position that have its checksum in hex.
  pub record Held (content : Block) (r : ReadQueueEntity) : Type 0 where
    pub inside : r.fpos + r.rlen ≤ content.len
    pub given : List ℕ
    pub given_is : r.chksum ≡ some given
    pub hex_is : cr.to_hex (cr.sha3_256 (slice content.byte r.fpos r.rlen)) ≡ cr.to_hex given

  Held-written :
      (p : Restoring) (r : ReadQueueEntity) (b : Block)
      → IsBlockOf cr r b
      → r.rlen ≤ p.tgt.room
      → Held (written p r b).tgt.content r
  Held-written p r b k fits = record {
    inside = omega (arith, k.len_is);
    given = k.given;
    given_is = k.given_is;
    hex_is =
        ap (λ s. cr.to_hex (cr.sha3_256 s))
          (slice-shift (written p r b).tgt.content.byte b.byte r.fpos 0 r.rlen (λ i hi.
            blit_inside (padded p.tgt.content) b.byte r.fpos 0 (min b.len p.tgt.room) (r.fpos + i)
              (omega arith) (omega (arith, k.len_is))
            ∙ ap b.byte (omega arith)))
        ∙ k.hex_is;
  }

  padded_inside : (c : Block) (i : ℕ) → i < c.len → padded c i ≡ c.byte i
  padded_inside c i h = ground arith

  Held-kept :
      (p : Restoring) (r s : ReadQueueEntity) (b : Block)
      → s.fpos + s.rlen ≤ r.fpos
      → Held p.tgt.content s
      → Held (written p r b).tgt.content s
  Held-kept p r s b below k = record {
    inside = omega (arith, k.inside);
    given = k.given;
    given_is = k.given_is;
    hex_is =
        ap (λ x. cr.to_hex (cr.sha3_256 x))
          (slice-cong (written p r b).tgt.content.byte p.tgt.content.byte s.fpos s.rlen (λ i lo hi.
            (blit_outside (padded p.tgt.content) b.byte r.fpos 0 (min b.len p.tgt.room) i).0
              (omega arith)
            ∙ padded_inside p.tgt.content i (omega (arith, k.inside))))
        ∙ k.hex_is;
  }

  All-kept :
      (p : Restoring) (r : ReadQueueEntity) (b : Block) (m : ℕ) (past : List ReadQueueEntity)
      → m ≤ r.fpos
      → All (Below m) past
      → All (Held p.tgt.content) past
      → All (Held (written p r b).tgt.content) past
  All-kept p r b m [] le below k = tt
  All-kept p r b m (s ∷ past) le (lo, below) (k, ks) =
      (Held-kept p r s b (omega arith) k, All-kept p r b m past le below ks)

  -- What holds between the results: the requests of `past` are answered or given up, those of `todo`
  -- are to come. If every request of `past` was counted, the file holds all of their blocks.
  pub record State (past : List ReadQueueEntity) (p : Restoring) (todo : List ReadQueueEntity)
      : Type 0 where
    pub bound : ℕ
    pub counted : p.n_blocks_ok ≤ length past
    pub held : p.n_blocks_ok ≡ length past → All (Held p.tgt.content) past
    pub below : All (Below bound) past
    pub ascending : Ascending bound todo
    pub fits : total todo ≤ p.tgt.room
    pub few : length past + length todo < 2 ^ 32

  Below-le :
      (m n : ℕ) (past : List ReadQueueEntity) → m ≤ n → All (Below m) past → All (Below n) past
  Below-le m n [] h b = tt
  Below-le m n (r ∷ past) h (lo, b) = (omega arith, Below-le m n past h b)

  State-skip :
      (past todo : List ReadQueueEntity) (p : Restoring) (r : ReadQueueEntity)
      → State past p (r ∷ todo)
      → State (past ++ r ∷ []) p todo
  State-skip past todo p r s = record {
    bound = r.fpos + r.rlen;
    counted = omega (arith, s.counted, length-append past (r ∷ []));
    held = λ e. absurd (omega (arith, s.counted, length-append past (r ∷ [])));
    below =
        All-append (Below (r.fpos + r.rlen)) past (r ∷ [])
          (Below-le s.bound (r.fpos + r.rlen) past (omega (arith, s.ascending.0)) s.below)
          (omega arith, tt);
    ascending = s.ascending.1;
    fits = omega (arith, s.fits);
    few = omega (arith, s.few, length-append past (r ∷ []));
  }

  State-write :
      (past todo : List ReadQueueEntity) (p : Restoring) (r : ReadQueueEntity) (b : Block)
      → IsBlockOf cr r b
      → State past p (r ∷ todo)
      → State (past ++ r ∷ []) (written p r b) todo
  State-write past todo p r b k s =
      let one_more : (written p r b).n_blocks_ok ≡ p.n_blocks_ok + 1 =
        omega (arith, s.counted, s.few) in
      record {
        bound = r.fpos + r.rlen;
        counted = omega (arith, s.counted, one_more, length-append past (r ∷ []));
        held = λ e.
            All-append (Held (written p r b).tgt.content) past (r ∷ [])
              (All-kept p r b s.bound past s.ascending.0 s.below
                (s.held (omega (arith, one_more, length-append past (r ∷ [])))))
              (Held-written p r b k (omega (arith, s.fits)), tt);
        below =
            All-append (Below (r.fpos + r.rlen)) past (r ∷ [])
              (Below-le s.bound (r.fpos + r.rlen) past (omega (arith, s.ascending.0)) s.below)
              (omega arith, tt);
        ascending = s.ascending.1;
        fits = omega (arith, s.fits, k.len_is);
        few = omega (arith, s.few, length-append past (r ∷ []));
      }

  State-result :
      (past todo : List ReadQueueEntity) (p : Restoring) (x : ReadQueueResult)
      (res : Option (Buffer plain))
      → x.rresult ≡ res
      → Answered cr x.readrequest res
      → State past p (x.readrequest ∷ todo)
      → State (past ++ x.readrequest ∷ []) (write_result x p) todo
  State-result past todo p x none e a s =
      rw (write_result-none x p e) (State-skip past todo p x.readrequest s)
  State-result past todo p x (some buf) e (b, is, k) s =
      let some_bytes : 0 < b.len = omega (arith, k.len_is, k.some_bytes) in
      rw (write_result-written x p b (e ∙ ap some is) some_bytes)
        (State-write past todo p x.readrequest b k s)

  append_one :
      (past q : List ReadQueueEntity) (r : ReadQueueEntity) → (past ++ r ∷ []) ++ q ≡ past ++ r ∷ q
  append_one [] q r = refl
  append_one (s ∷ past) q r = ap (◌∷◌ s) (append_one past q r)

  append_nil : (past : List ReadQueueEntity) → past ≡ past ++ []
  append_nil [] = refl
  append_nil (s ∷ past) = ap (◌∷◌ s) (append_nil past)

  -- The results of a run of the queue `q`, written to the file.
  pub process_read_blocks-State :
      (q : List ReadQueueEntity) (xs : List ReadQueueResult) (past rest : List ReadQueueEntity)
      (p : Restoring)
      → Answers cr q xs
      → State past p (q ++ rest)
      → State (past ++ q) (process_read_blocks xs p) rest
  unfolding process_read_blocks
  process_read_blocks-State [] [] past rest p a s = subst (λ l. State l p rest) (append_nil past) s
  process_read_blocks-State (r ∷ q) [] past rest p a s =
      subst (λ l. State l p rest) (append_one past q r)
        (process_read_blocks-State q [] (past ++ r ∷ []) rest p tt
          (State-skip past (q ++ rest) p r s))
  process_read_blocks-State [] (x ∷ xs) past rest p a s = absurd a
  process_read_blocks-State (r ∷ q) (x ∷ xs) past rest p (same, a, as_) s =
      subst (λ l. State l (process_read_blocks xs (write_result x p)) rest) (append_one past q r)
        (process_read_blocks-State q xs (past ++ r ∷ []) rest (write_result x p) as_ (
          subst (λ y. State (past ++ y ∷ []) (write_result x p) (q ++ rest)) same
            (State-result past (q ++ rest) p x x.rresult refl
              (subst (λ y. Answered cr y x.rresult) (sym same) a)
              (subst (λ y. State past p (y ∷ q ++ rest)) (sym same) s))))

  write_result-n_blocks :
      (x : ReadQueueResult) (p : Restoring) → (write_result x p).n_blocks ≡ p.n_blocks
  unfolding write_result
  write_result-n_blocks x p = ground arith

  pub process_read_blocks-n_blocks :
      (xs : List ReadQueueResult) (p : Restoring) → (process_read_blocks xs p).n_blocks ≡ p.n_blocks
  unfolding process_read_blocks
  process_read_blocks-n_blocks [] p = refl
  process_read_blocks-n_blocks (x ∷ xs) p =
      process_read_blocks-n_blocks xs (write_result x p) ∙ write_result-n_blocks x p
