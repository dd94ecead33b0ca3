-- ===== src/Cache/Queue.antt =====
-- enqueue_read_request and enqueue_write_request: the queues and their depth.
use elykseer_cpp.Base.{
  ◌≡◌, refl, true, false, [], ◌∷◌, ◌++◌, ◌≤◌, ◌<◌, arith, length, leb, Bool-cases, inl, inr, ◌⊎◌,
  length-append,
}
use elykseer_cpp.Cache.{Cache, ReadQueueEntity, WriteQueueEntity}
use elykseer_cpp.Cache.Read.{enqueue_read_request}
use elykseer_cpp.Cache.Write.{enqueue_write_request}

-- Both queues are within the depth.
pub record IsBounded (c : Cache) : Type 0 where
  pub reads : length c.readqueue ≤ c.n_queuesz
  pub writes : length c.writequeue ≤ c.n_queuesz

-- With both queues within the depth, they stay so; a read request is refused with nothing changed
-- if the queue is full, and is put at its end otherwise.
pub enqueue_read_request-IsBounded :
    (c : Cache) (r : ReadQueueEntity)
    → IsBounded c
    → IsBounded (enqueue_read_request c r).1
      × (((c.n_queuesz ≤ length c.readqueue) × (enqueue_read_request c r ≡ (false, c)))
          ⊎ ((length c.readqueue < c.n_queuesz)
              × ((enqueue_read_request c r).0 ≡ true)
              × ((enqueue_read_request c r).1.readqueue ≡ c.readqueue ++ r ∷ [])))
unfolding enqueue_read_request
enqueue_read_request-IsBounded c r v = elim (Bool-cases (leb c.n_queuesz (length c.readqueue))) [
  | inl full ↦
      (rw (full, enqueue_read_request) v, inl (ground arith, rw (full, enqueue_read_request) refl))
  | inr room ↦
      let small : length c.readqueue < c.n_queuesz = ground arith in
      (
        rw (room, enqueue_read_request)
            (record {
              reads = omega (arith, length-append c.readqueue (r ∷ []));
              writes = v.writes;
            }),
        inr (small, rw (room, enqueue_read_request) refl, rw (room, enqueue_read_request) refl),
      )
]

-- With both queues within the depth, they stay so; a write request is refused with nothing changed
-- if the queue is full, and is put at its end otherwise.
pub enqueue_write_request-IsBounded :
    (c : Cache) (r : WriteQueueEntity)
    → IsBounded c
    → IsBounded (enqueue_write_request c r).1
      × (((c.n_queuesz ≤ length c.writequeue) × (enqueue_write_request c r ≡ (false, c)))
          ⊎ ((length c.writequeue < c.n_queuesz)
              × ((enqueue_write_request c r).0 ≡ true)
              × ((enqueue_write_request c r).1.writequeue ≡ c.writequeue ++ r ∷ [])))
unfolding enqueue_write_request
enqueue_write_request-IsBounded c r v = elim (Bool-cases (leb c.n_queuesz (length c.writequeue))) [
  | inl full ↦ (
    rw (full, enqueue_write_request) v,
    inl (ground arith, rw (full, enqueue_write_request) refl),
  )
  | inr room ↦
      let small : length c.writequeue < c.n_queuesz = ground arith in
      (
        rw (room, enqueue_write_request)
            (record {
              reads = v.reads;
              writes = omega (arith, length-append c.writequeue (r ∷ []));
            }),
        inr (small, rw (room, enqueue_write_request) refl, rw (room, enqueue_write_request) refl),
      )
]
