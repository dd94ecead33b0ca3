-- ===== src/Cache/Progress.antt =====
-- What the write side of the cache has done between two moments: the blocks that were recorded, and
-- where the key of every assembly is.
use mathlib.Core.List.{append_assoc, append-nil}
use elykseer_cpp.Base.{
  ◌≡◌, refl, sym, ◌∙◌, ap, true, false, Option, none, some, List, [], ◌∷◌, ◌++◌, ℕ, ◌+◌, ◌<◌, ◌≤◌,
  length, length-append, arith, Block, slice, str_eq, if◌then◌else◌, inl, inr, ◌⊎◌, Bool-cases,
}
use elykseer_cpp.Cipher.{Crypto}
use elykseer_cpp.Assembly.{Assembly, writable, KeyInformation, BlockInformation}
use elykseer_cpp.Environment.{EnvironmentWritable}
use elykseer_cpp.Environment.Failed.{failed_times, failed_twice}
use elykseer_cpp.Store.{Key, KeyStore, FBlockStore, find, add_block}
use elykseer_cpp.Store.Entries.{Keeps}
use elykseer_cpp.Store.Blocks.{blocks_of, numbered, blocks_of-add_block}
use elykseer_cpp.Cache.{WriteQueueEntity}

-- The assemblies that a write environment failed to write; none if there is no environment.
abbrev pub failures : Option EnvironmentWritable → ℕ
failures none = 0
failures (some e) = e.n_failed

-- The aid is that of the assembly that is being written.
abbrev pub IsCurrent : List ℕ → Option EnvironmentWritable → Type 0
IsCurrent aid v =
    (e : EnvironmentWritable) × (a : Assembly writable) × (v ≡ some e)
    × (e.assembly ≡ some a)
    × (aid ≡ a.info.aid)

-- The assembly of the aid is still being written, or its key is stored, or a failure was counted.
abbrev pub IsAccounted : List ℕ → Option EnvironmentWritable → KeyStore → ℕ → Type 0
IsAccounted aid v ks fails =
    IsCurrent aid v ⊎ (((ki : KeyInformation) × (find ks aid ≡ some ki)) ⊎ (0 < fails))

module _ (cr : Crypto) where
  -- The blocks of one file for a list of requests, in their order: one for each request of the file
  -- that has a buffer, with its position, size and checksum, and an aid for which `P` holds.
  pub data Recorded (P : List ℕ → Type 0) (k : Key)
      : List WriteQueueEntity → List BlockInformation → Type 0 where
    nothing : Recorded P k [] []
    passed :
        {rs : List WriteQueueEntity} {bis : List BlockInformation} (r : WriteQueueEntity)
        → (r.buffer ≡ none) ⊎ (str_eq k (cr.to_hex r.fhash) ≡ false)
        → Recorded P k rs bis
        → Recorded P k (r ∷ rs) bis
    recorded :
        {rs : List WriteQueueEntity} {bis : List BlockInformation} (r : WriteQueueEntity)
        (bi : BlockInformation) (p : Block)
        → str_eq k (cr.to_hex r.fhash) ≡ true
        → r.buffer ≡ some (record { pimpl = some p })
        → bi.filepos ≡ r.fpos
        → bi.blocksize ≡ p.len
        → bi.bchecksum ≡ some (cr.sha3_256 (slice p.byte 0 p.len))
        → P bi.blockaid
        → Recorded P k rs bis
        → Recorded P k (r ∷ rs) (bi ∷ bis)

  Recorded-map :
      {P Q : List ℕ → Type 0} {k : Key} {rs : List WriteQueueEntity} {bis : List BlockInformation}
      → ((aid : List ℕ) → P aid → Q aid)
      → Recorded P k rs bis
      → Recorded Q k rs bis
  Recorded-map f nothing = nothing
  Recorded-map f (passed r n h) = passed r n (Recorded-map f h)
  Recorded-map f (recorded r bi p e b fp sz sum q h) =
      recorded r bi p e b fp sz sum (f bi.blockaid q) (Recorded-map f h)

  Recorded-append :
      {P : List ℕ → Type 0} {k : Key} {rs rs' : List WriteQueueEntity}
      {bis bis' : List BlockInformation}
      → Recorded P k rs bis
      → Recorded P k rs' bis'
      → Recorded P k (rs ++ rs') (bis ++ bis')
  Recorded-append nothing g = g
  Recorded-append (passed r n h) g = passed r n (Recorded-append h g)
  Recorded-append (recorded r bi p e b fp sz sum q h) g =
      recorded r bi p e b fp sz sum q (Recorded-append h g)

  -- From a write environment and stores to later ones, the requests `rs` were run.
  pub record Progress (v : Option EnvironmentWritable) (ks : KeyStore) (bs : FBlockStore)
      (rs : List WriteQueueEntity) (v' : Option EnvironmentWritable) (ks' : KeyStore)
      (bs' : FBlockStore) : Type 0 where
    -- no key is lost or replaced
    pub keeps : Keeps ks ks'
    pub fails : ℕ
    pub fails_max : fails ≤ length rs
    pub failed_is : failures v' ≡ failed_times fails (failures v)
    -- the assembly that was being written is, or has its key stored, or a failure was counted
    pub accounted : (aid : List ℕ) → IsCurrent aid v → IsAccounted aid v' ks' fails
    -- the blocks of every file are those that were there and those of the requests
    pub blocks :
        (k : Key)
        → (bis : List BlockInformation) × (blocks_of bs' k ≡ blocks_of bs k ++ bis)
          × Recorded (λ aid. IsAccounted aid v' ks' fails) k rs bis

  -- A block that is added to the blocks of the request's file.
  pub Recorded-one :
      {P : List ℕ → Type 0} (bs : FBlockStore) (r : WriteQueueEntity) (p : Block)
      (bi : BlockInformation)
      → r.buffer ≡ some (record { pimpl = some p })
      → bi.filepos ≡ r.fpos
      → bi.blocksize ≡ p.len
      → bi.bchecksum ≡ some (cr.sha3_256 (slice p.byte 0 p.len))
      → P bi.blockaid
      → (k : Key)
      → (bis : List BlockInformation) × (blocks_of (add_block bs (cr.to_hex r.fhash) bi).1 k
          ≡ blocks_of bs k ++ bis)
        × Recorded P k (r ∷ []) bis
  Recorded-one bs r p bi buf fp sz sum q k =
      let h = cr.to_hex r.fhash in
      elim (Bool-cases (str_eq k h)) [
        | inl e ↦ (
          numbered bs h bi ∷ [],
          blocks_of-add_block bs h k bi
              ∙ ap (λ b. blocks_of bs k ++ (if b then numbered bs h bi ∷ [] else [])) e,
          recorded r (numbered bs h bi) p e buf fp sz sum q nothing,
        )
        | inr e ↦ (
          [],
          blocks_of-add_block bs h k bi
              ∙ ap (λ b. blocks_of bs k ++ (if b then numbered bs h bi ∷ [] else [])) e,
          passed r (inr e) nothing,
        )
      ]

  pub Progress-refl :
      (v : Option EnvironmentWritable) (ks : KeyStore) (bs : FBlockStore)
      → Progress v ks bs [] v ks bs
  Progress-refl v ks bs = record {
    keeps = λ k x h. h;
    fails = 0;
    fails_max = omega arith;
    failed_is = refl;
    accounted = λ aid h. inl h;
    blocks = λ k. ([], sym (append-nil (blocks_of bs k)), nothing);
  }

  -- A request without a buffer only makes the write environment.
  pub Progress-idle :
      (v : Option EnvironmentWritable) (e : EnvironmentWritable) (ks : KeyStore) (bs : FBlockStore)
      (r : WriteQueueEntity)
      → r.buffer ≡ none
      → e.n_failed ≡ failures v
      → ((e0 : EnvironmentWritable) → v ≡ some e0 → e0 ≡ e)
      → Progress v ks bs (r ∷ []) (some e) ks bs
  Progress-idle v e ks bs r n failed had = record {
    keeps = λ k x h. h;
    fails = 0;
    fails_max = omega arith;
    failed_is = failed;
    accounted = λ aid (x, a, is, held, same).
        inl (e, a, refl, ap (λ y. y.assembly) (sym (had x is)) ∙ held, same);
    blocks = λ k. ([], sym (append-nil (blocks_of bs k)), passed r (inl n) nothing);
  }

  IsAccounted-later :
      {v v' : Option EnvironmentWritable} (ks ks' : KeyStore) (f g : ℕ) (aid : List ℕ)
      → Keeps ks ks'
      → ((x : List ℕ) → IsCurrent x v → IsAccounted x v' ks' g)
      → IsAccounted aid v ks f
      → IsAccounted aid v' ks' (f + g)
  IsAccounted-later ks ks' f g aid keeps later (inl now) = elim (later aid now) [
    | inl h ↦ inl h
    | inr (inl h) ↦ inr (inl h)
    | inr (inr h) ↦ inr (inr (omega arith))
  ]
  IsAccounted-later ks ks' f g aid keeps later (inr (inl (ki, h))) = inr (inl (ki, keeps aid ki h))
  IsAccounted-later ks ks' f g aid keeps later (inr (inr h)) = inr (inr (omega arith))

  IsAccounted-more :
      {v : Option EnvironmentWritable} (ks : KeyStore) (f g : ℕ) (aid : List ℕ)
      → IsAccounted aid v ks g
      → IsAccounted aid v ks (f + g)
  IsAccounted-more ks f g aid (inl h) = inl h
  IsAccounted-more ks f g aid (inr (inl h)) = inr (inl h)
  IsAccounted-more ks f g aid (inr (inr h)) = inr (inr (omega arith))

  -- What was done in two steps was done.
  pub Progress-trans :
      {v v1 v2 : Option EnvironmentWritable} {ks ks1 ks2 : KeyStore} {bs bs1 bs2 : FBlockStore}
      {rs rs' : List WriteQueueEntity}
      → Progress v ks bs rs v1 ks1 bs1
      → Progress v1 ks1 bs1 rs' v2 ks2 bs2
      → Progress v ks bs (rs ++ rs') v2 ks2 bs2
  Progress-trans {v} {v1} {v2} {ks} {ks1} {ks2} {bs} {bs1} {bs2} {rs} {rs'} p q = record {
    keeps = λ k x h. q.keeps k x (p.keeps k x h);
    fails = p.fails + q.fails;
    fails_max = omega (arith, p.fails_max, q.fails_max, length-append rs rs');
    failed_is = failed_twice p.fails q.fails (failures v) p.failed_is q.failed_is;
    accounted = λ aid h.
        IsAccounted-later ks1 ks2 p.fails q.fails aid q.keeps q.accounted (p.accounted aid h);
    blocks = λ k.
        let (bis, e, h) = p.blocks k in
        let (bis', e', h') = q.blocks k in
        (
          bis ++ bis',
          e' ∙ ap (λ l. l ++ bis') e ∙ append_assoc (blocks_of bs k) bis bis',
          Recorded-append
              (Recorded-map
                (λ aid x. IsAccounted-later ks1 ks2 p.fails q.fails aid q.keeps q.accounted x) h)
              (Recorded-map (λ aid x. IsAccounted-more ks2 p.fails q.fails aid x) h'),
        );
  }
