-- ===== src/Cache/Write.antt =====
-- The write side of CoqAssemblyCache: the queue of write requests, flush and close.
use elykseer_cpp.Base.{
  ℕ, Bool, true, false, Option, none, some, List, [], ◌∷◌, ◌++◌, leb, if◌then◌else◌, length, add32,
}
use elykseer_cpp.Host.{World}
use elykseer_cpp.Buffer.{Buffer, plain, buffer_len}
use elykseer_cpp.Cipher.{Crypto}
use elykseer_cpp.Assembly.{BlockInformation}
use elykseer_cpp.Store.{KeyStore, FBlockStore, add_key, add_block}
use elykseer_cpp.Environment.{
  EnvironmentWritable, AidKey, recreate_assembly, finalise_assembly, finalise_and_recreate_assembly,
  backup,
}
use elykseer_cpp.Cache.{Cache, WriteQueueEntity, add64}

-- The request is added at the end, unless the queue is full.
unfoldable pub enqueue_write_request : Cache → WriteQueueEntity → Bool × Cache
enqueue_write_request c r = if leb c.n_queuesz (length c.writequeue) then (false, c) else (
  true,
  record c {
    writequeue = c.writequeue ++ r ∷ [];
    stats = record c.stats { n_write_requests = add32 c.stats.n_write_requests 1 };
  },
)

-- `for (fb : ...) { _fblockstore->add(fb.first, fb.second); }`, and the same for the keys.
unfoldable pub add_blocks :
    Option FBlockStore → List (List ℕ × BlockInformation) → Option (Option FBlockStore)
add_blocks st [] = some st
add_blocks none (fb ∷ fbs) = none
add_blocks (some st) ((k, bi) ∷ fbs) = add_blocks (some (add_block st k bi).1) fbs

unfoldable pub add_keys : Option KeyStore → List AidKey → Option (Option KeyStore)
add_keys st [] = some st
add_keys none (k ∷ ks) = none
add_keys (some st) ((aid, ki) ∷ ks) = add_keys (some (add_key st aid ki).1) ks

-- `if (_keystore && okey) { _keystore->add(...); }`
unfoldable pub store_key : Option KeyStore → Option AidKey → Option KeyStore
store_key none okey = none
store_key (some st) none = some st
store_key (some st) (some (aid, ki)) = some (add_key st aid ki).1

module _ (cr : Crypto) where
  -- The write environment, made if there is none.
  unfoldable pub ensure_writeenv : Cache → World → Option (EnvironmentWritable × World)
  ensure_writeenv c w = elim c.writeenv [
    | some e ↦ some (e, w)
    | none ↦ recreate_assembly cr (record { config = c.config; assembly = none; n_failed = 0 }) w
  ]

  -- A write request that has a buffer.
  unfoldable pub write_buffer :
      Cache → EnvironmentWritable → WriteQueueEntity → Buffer plain → World → Option (Cache × World)
  unfolding add_blocks add_keys
  write_buffer c e r b w = elim (backup cr e (cr.to_hex r.fhash) r.fpos b (buffer_len b) w) [
    | none ↦ none
    | some ((fbs, kis), e', w') ↦ elim (add_blocks c.fblockstore fbs) [
      | none ↦ none
      | some bs ↦ elim (add_keys c.keystore kis) [
        | none ↦ none
        | some ks ↦ some (
          record c {
            writeenv = some e';
            fblockstore = bs;
            keystore = ks;
            stats = record c.stats { backup_bytes = add64 c.stats.backup_bytes (buffer_len b) };
          },
          w',
        )
      ]
    ]
  ]

  -- One round of run_write_requests.
  unfoldable pub run_write_request : Cache → WriteQueueEntity → World → Option (Cache × World)
  unfolding ensure_writeenv write_buffer
  run_write_request c r w = elim (ensure_writeenv c w) [
    | none ↦ none
    | some (e, w1) ↦ elim r.buffer [
      | none ↦ some (record c { writeenv = some e }, w1)
      | some b ↦ write_buffer c e r b w1
    ]
  ]

  -- run_write_requests, whose list of results is always empty.
  unfoldable pub run_write_requests : Cache → List WriteQueueEntity → World → Option (Cache × World)
  unfolding run_write_request
  run_write_requests c [] w = some (c, w)
  run_write_requests c (r ∷ rs) w = elim (run_write_request c r w) [
    | none ↦ none
    | some (c1, w1) ↦ run_write_requests c1 rs w1
  ]

  unfoldable pub iterate_write_queue : Cache → World → Option (Cache × World)
  unfolding run_write_requests
  iterate_write_queue c w = elim c.writequeue [
    | [] ↦ some (c, w)
    | r ∷ rs ↦
        run_write_requests
          (record c {
            writequeue = [];
            stats = record c.stats { n_iterate_writes = add32 c.stats.n_iterate_writes 1 };
          })
          (r ∷ rs) w
  ]

  -- flush: without a write environment it calls a method through the null pointer.
  unfoldable pub flush : Cache → World → Option (Cache × World)
  unfolding store_key
  flush c w = elim c.writeenv [
    | none ↦ none
    | some e ↦ elim (finalise_and_recreate_assembly cr e w) [
      | none ↦ none
      | some (okey, e', w') ↦ some (
        record c {
          writeenv = some e';
          keystore = store_key c.keystore okey;
          stats = record c.stats { n_assembly_finalised = add32 c.stats.n_assembly_finalised 1 };
        },
        w',
      )
    ]
  ]

  unfoldable pub close : Cache → World → Cache × World
  unfolding store_key
  close c w = elim c.writeenv [
    | none ↦ (c, w)
    | some e ↦
        let (okey, e', w') = finalise_assembly cr e w in
        (
          record c {
            writeenv = some e';
            keystore = store_key c.keystore okey;
            stats = record c.stats { n_assembly_finalised = add32 c.stats.n_assembly_finalised 1 };
          },
          w',
        )
  ]
