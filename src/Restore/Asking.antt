-- ===== src/Restore/Asking.antt =====
-- The queue of read requests while a file is restored: a block that is asked for, and a run of the
-- queue.
use elykseer_cpp.Base.{
  ℕ, ◌+◌, ◌<◌, ◌≡◌, refl, sym, ◌∙◌, ap, subst, true, false, Option, none, some, List, [], ◌∷◌, ◌++◌,
  arith, leb, add32, length, length-append, Bool-cases, List-cases, inl, inr,
}
use elykseer_cpp.Host.{World}
use elykseer_cpp.Cipher.{Crypto}
use elykseer_cpp.Assembly.{BlockInformation}
use elykseer_cpp.Cache.{Cache, ReadQueueEntity, ReadQueueResult}
use elykseer_cpp.Cache.Read.{enqueue_read_request, iterate_read_queue, run_read_requests}
use elykseer_cpp.Restore.{Restoring, process_read_blocks, process_queue, ask_block, read_request}
use elykseer_cpp.Restore.Results.{Answering, run_read_requests-Answering}
use elykseer_cpp.Restore.Requests.{State, process_read_blocks-State, process_read_blocks-n_blocks}

-- The requests for the blocks of a file, in their order.
abbrev pub requests : List BlockInformation → List ReadQueueEntity
requests [] = []
requests (bi ∷ bis) = read_request bi ∷ requests bis

pub append_assoc : (xs ys zs : List ReadQueueEntity) → (xs ++ ys) ++ zs ≡ xs ++ (ys ++ zs)
append_assoc [] ys zs = refl
append_assoc (x ∷ xs) ys zs = ap (◌∷◌ x) (append_assoc xs ys zs)

pub append_nil : (xs : List ReadQueueEntity) → xs ++ [] ≡ xs
append_nil [] = refl
append_nil (x ∷ xs) = ap (◌∷◌ x) (append_nil xs)

module _ (cr : Crypto) where
  -- The queue was run: its requests are answered or given up, and it is empty.
  abbrev pub Run :
      List ReadQueueEntity
      → List ReadQueueEntity
      → Cache
      → Restoring
      → Option (Restoring × Cache)
      → Type 0
  Run past rest c p none = Unit {0}
  Run past rest c p (some (p', c')) =
      State cr (past ++ c.readqueue) p' rest
      × (c'.readqueue ≡ [])
      × (c'.n_queuesz ≡ c.n_queuesz)
      × (p'.n_blocks ≡ p.n_blocks)

  abbrev processed : Restoring → Option (List ReadQueueResult × Cache) → Option (Restoring × Cache)
  processed p ran = elim ran [
    | none ↦ none
    | some (results, c') ↦ some (process_read_blocks results p, c')
  ]

  processed-Run :
      (past rest q : List ReadQueueEntity) (c c0 : Cache) (p : Restoring)
      (ran : Option (List ReadQueueResult × Cache))
      → c.readqueue ≡ q
      → c0.readqueue ≡ []
      → c0.n_queuesz ≡ c.n_queuesz
      → State cr past p (q ++ rest)
      → Answering cr c0 q ran
      → Run past rest c p (processed p ran)
  processed-Run past rest q c c0 p none cq e d s a = tt
  processed-Run past rest q c c0 p (some (results, c')) cq e d s (a, same) = (
    subst (λ l. State cr (past ++ l) (process_read_blocks results p) rest) (sym cq)
        (process_read_blocks-State cr q results past rest p a s),
    same.queue_same ∙ e,
    same.depth_same ∙ d,
    process_read_blocks-n_blocks cr results p,
  )

  started : Cache → Cache
  started c = record c {
    readqueue = [];
    stats = record c.stats { n_iterate_reads = add32 c.stats.n_iterate_reads 1 };
  }

  iterate-nil :
      (c : Cache) (w : World) → c.readqueue ≡ [] → iterate_read_queue cr c w ≡ some ([], c)
  unfolding iterate_read_queue
  iterate-nil c w e = simp (e, iterate_read_queue) refl

  iterate-cons :
      (c : Cache) (w : World) (r : ReadQueueEntity) (rs : List ReadQueueEntity)
      → c.readqueue ≡ r ∷ rs
      → iterate_read_queue cr c w ≡ run_read_requests cr (started c) (r ∷ rs) w
  unfolding iterate_read_queue started
  iterate-cons c w r rs e = simp (e, iterate_read_queue) refl

  process_queue-iterate :
      (c : Cache) (w : World) (p : Restoring)
      → process_queue cr c w p ≡ processed p (iterate_read_queue cr c w)
  unfolding process_queue
  process_queue-iterate c w p = refl

  pub process_queue-Run :
      (past rest : List ReadQueueEntity) (c : Cache) (w : World) (p : Restoring)
      → State cr past p (c.readqueue ++ rest)
      → Run past rest c p (process_queue cr c w p)
  unfolding started
  process_queue-Run past rest c w p s = elim (List-cases c.readqueue) [
    | inl e ↦
        subst (Run past rest c p)
          (sym (process_queue-iterate c w p ∙ ap (processed p) (iterate-nil c w e)))
          (processed-Run past rest [] c c p (some ([], c)) e e refl
            (subst (λ l. State cr past p (l ++ rest)) e s)
            (tt, record { queue_same = refl; depth_same = refl }))
    | inr (r, rs, e) ↦
        subst (Run past rest c p)
          (sym (process_queue-iterate c w p ∙ ap (processed p) (iterate-cons c w r rs e)))
          (processed-Run past rest (r ∷ rs) c (started c) p
            (run_read_requests cr (started c) (r ∷ rs) w) e refl refl
            (subst (λ l. State cr past p (l ++ rest)) e s)
            (run_read_requests-Answering cr (started c) (r ∷ rs) w))
  ]

  -- What holds between two blocks: `asked` are the requests so far.
  pub record Asked (asked : List ReadQueueEntity) (c : Cache) (p : Restoring)
      (rest : List ReadQueueEntity) : Type 0 where
    pub past : List ReadQueueEntity
    pub asked_is : asked ≡ past ++ c.readqueue
    pub state : State cr past p (c.readqueue ++ rest)
    pub n_blocks_is : p.n_blocks ≡ length asked
    pub depth_pos : 0 < c.n_queuesz

  abbrev pub AllAsked :
      List ReadQueueEntity → List ReadQueueEntity → Option (Restoring × Cache) → Type 0
  AllAsked asked rest none = Unit {0}
  AllAsked asked rest (some (p, c)) = Asked asked c p rest

  enqueue-room :
      (c : Cache) (r : ReadQueueEntity)
      → leb c.n_queuesz (length c.readqueue) ≡ false
      → (enqueue_read_request c r).0 ≡ true
  unfolding enqueue_read_request
  enqueue-room c r h = rw (h, enqueue_read_request) refl

  enqueue-full :
      (c : Cache) (r : ReadQueueEntity)
      → leb c.n_queuesz (length c.readqueue) ≡ true
      → enqueue_read_request c r ≡ (false, c)
  unfolding enqueue_read_request
  enqueue-full c r h = rw (h, enqueue_read_request) refl

  enqueue-Asked :
      (asked rest : List ReadQueueEntity) (c : Cache) (p : Restoring) (r : ReadQueueEntity)
      (past : List ReadQueueEntity)
      → leb c.n_queuesz (length c.readqueue) ≡ false
      → asked ≡ past ++ c.readqueue
      → State cr past p (c.readqueue ++ r ∷ rest)
      → p.n_blocks ≡ length asked + 1
      → 0 < c.n_queuesz
      → Asked (asked ++ r ∷ []) (enqueue_read_request c r).1 p rest
  unfolding enqueue_read_request
  enqueue-Asked asked rest c p r past room is s n d =
      rw (room, enqueue_read_request)
        (record {
          past = past;
          asked_is = ap (λ l. l ++ r ∷ []) is ∙ append_assoc past c.readqueue (r ∷ []);
          state = subst (State cr past p) (sym (append_assoc c.readqueue (r ∷ []) rest)) s;
          n_blocks_is = omega (arith, n, length-append asked (r ∷ []));
          depth_pos = d;
        })

  lt→leb : {a b : ℕ} → b < a → leb a b ≡ false
  lt→leb h = ground arith

  abbrev asked_again : ReadQueueEntity → Option (Restoring × Cache) → Option (Restoring × Cache)
  asked_again r ran = elim ran [
    | none ↦ none
    | some (p', c2) ↦ some (p', (enqueue_read_request c2 r).1)
  ]

  asked_again-AllAsked :
      (asked rest past : List ReadQueueEntity) (c : Cache) (p : Restoring) (r : ReadQueueEntity)
      (ran : Option (Restoring × Cache))
      → asked ≡ past ++ c.readqueue
      → p.n_blocks ≡ length asked + 1
      → 0 < c.n_queuesz
      → Run past (r ∷ rest) c p ran
      → AllAsked (asked ++ r ∷ []) rest (asked_again r ran)
  asked_again-AllAsked asked rest past c p r none is n d run = tt
  asked_again-AllAsked asked rest past c p r (some (p', c')) is n d (s, empty, depth, same) =
      enqueue-Asked asked rest c' p' r (past ++ c.readqueue)
        (lt→leb (omega (arith, depth, ap length empty)))
        (is ∙ sym (ap (λ l. (past ++ c.readqueue) ++ l) empty ∙ append_nil (past ++ c.readqueue)))
        (subst (λ l. State cr (past ++ c.readqueue) p' (l ++ r ∷ rest)) (sym empty) s) (same ∙ n)
        (omega (arith, depth))

  ask_block-full :
      (c : Cache) (r : ReadQueueEntity) (w : World) (p : Restoring)
      → leb c.n_queuesz (length c.readqueue) ≡ true
      → ask_block cr c r w p ≡ asked_again r (process_queue cr c w p)
  unfolding ask_block
  ask_block-full c r w p h = simp (enqueue-full c r h, ask_block) refl

  ask_block-room :
      (c : Cache) (r : ReadQueueEntity) (w : World) (p : Restoring)
      → leb c.n_queuesz (length c.readqueue) ≡ false
      → ask_block cr c r w p ≡ some (p, (enqueue_read_request c r).1)
  unfolding ask_block
  ask_block-room c r w p h = simp (enqueue-room c r h, ask_block) refl

  pub ask_block-AllAsked :
      (asked rest past : List ReadQueueEntity) (c : Cache) (r : ReadQueueEntity) (w : World)
      (p : Restoring)
      → asked ≡ past ++ c.readqueue
      → State cr past p (c.readqueue ++ r ∷ rest)
      → p.n_blocks ≡ length asked + 1
      → 0 < c.n_queuesz
      → AllAsked (asked ++ r ∷ []) rest (ask_block cr c r w p)
  ask_block-AllAsked asked rest past c r w p is s n d =
      elim (Bool-cases (leb c.n_queuesz (length c.readqueue))) [
        | inl full ↦ subst (AllAsked (asked ++ r ∷ []) rest) (sym (ask_block-full c r w p full)) (
            asked_again-AllAsked asked rest past c p r (process_queue cr c w p) is n d
              (process_queue-Run past (r ∷ rest) c w p s))
        | inr room ↦
            subst (AllAsked (asked ++ r ∷ []) rest) (sym (ask_block-room c r w p room))
              (enqueue-Asked asked rest c p r past room is s n d)
      ]
