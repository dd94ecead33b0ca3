-- ===== src/Cache/Read.antt =====
-- The read side of CoqAssemblyCache: the restored assemblies, and the queue of read requests.
use elykseer_cpp.Base.{
  ℕ, Bool, true, false, Option, none, some, List, [], ◌∷◌, ◌++◌, leb, if◌then◌else◌, str_eq, length,
  add32, drop_last,
}
use elykseer_cpp.Host.{World}
use elykseer_cpp.Buffer.{Buffer, plain, buffer_len}
use elykseer_cpp.Cipher.{Crypto}
use elykseer_cpp.Assembly.{BlockInformation}
use elykseer_cpp.Assembly.Full.{restore}
use elykseer_cpp.Store.{find}
use elykseer_cpp.Environment.{EnvironmentReadable, restore_assembly}
use elykseer_cpp.Cache.{Cache, ReadQueueEntity, ReadQueueResult, add64}

-- match_aid
unfoldable pub match_aid : List ℕ → EnvironmentReadable → Bool
match_aid sel env = elim env.assembly [ none ↦ false | some a ↦ str_eq a.info.aid sel ]

-- The first environment that matches, and the others in their order.
unfoldable pub take_out :
    List ℕ → List EnvironmentReadable → Option (EnvironmentReadable × List EnvironmentReadable)
unfolding match_aid
take_out sel [] = none
take_out sel (e ∷ es) =
    let rest = take_out sel es in
    if match_aid sel e
    then some (e, es)
    else elim rest [ none ↦ none | some (x, xs) ↦ some (x, e ∷ xs) ]

-- `if (size >= n_readenvs && ! empty) pop_back(); push_front(env);`
unfoldable pub push_env :
    ℕ → EnvironmentReadable → List EnvironmentReadable → List EnvironmentReadable
push_env n env [] = env ∷ []
push_env n env (e ∷ es) = if leb n (length (e ∷ es)) then env ∷ drop_last (e ∷ es) else env ∷ e ∷ es

module _ (cr : Crypto) where
  unfoldable pub try_restore_assembly : Cache → List ℕ → World → Option EnvironmentReadable × Cache
  try_restore_assembly c sel w = elim c.keystore [
    | none ↦ (none, c)
    | some ks ↦ elim (find ks sel) [
      | none ↦ (none, c)
      | some ki ↦
          let (ok, env) =
            restore_assembly cr (record { config = c.config; assembly = none }) sel ki w in
          if ok
          then (
            some env,
            record c {
              stats = record c.stats { n_assembly_recalled = add32 c.stats.n_assembly_recalled 1 };
            },
          )
          else (none, c)
    ]
  ]

  unfoldable pub ensure_assembly : Cache → List ℕ → World → Option EnvironmentReadable × Cache
  unfolding take_out push_env try_restore_assembly
  ensure_assembly c sel w = elim (take_out sel c.readenvs) [
    | some (head, others) ↦ (some head, record c { readenvs = head ∷ others })
    | none ↦
        let (new_env, c1) = try_restore_assembly c sel w in
        elim new_env [
          | none ↦ (none, c1)
          | some env ↦ (some env, record c1 { readenvs = push_env c1.n_readenvs env c1.readenvs })
        ]
  ]

  -- The block information of a read request.
  abbrev pub block_of : ReadQueueEntity → BlockInformation
  block_of r = record {
    blockid = 1;
    bchecksum = r.chksum;
    blocksize = r.rlen;
    filepos = 0;
    blockaid = r.aid;
    blockapos = r.apos;
  }

  abbrev pub result_len : Option (Buffer plain) → ℕ
  result_len none = 0
  result_len (some b) = buffer_len b

  -- run_read_requests, with the results so far.
  unfoldable pub run_read_requests :
      Cache → List ReadQueueEntity → World → Option (List ReadQueueResult × Cache)
  unfolding ensure_assembly
  run_read_requests c [] w = some ([], c)
  run_read_requests c (r ∷ rs) w =
      let (renv, c1) = ensure_assembly c r.aid w in
      elim renv [
        | none ↦ some ([], c1)
        | some env ↦ elim env.assembly [
          | none ↦ some ([], c1)
          | some a ↦ elim (restore cr a (block_of r)) [
            | none ↦ none
            | some res ↦
                elim (run_read_requests
                  (record c1 {
                    stats = record c1.stats {
                      restored_bytes = add64 c1.stats.restored_bytes (result_len res);
                      n_read_requests = add32 c1.stats.n_read_requests 1;
                    };
                  })
                  rs w) [
                    | none ↦ none
                    | some (results, c2) ↦
                        some (record { readrequest = r; rresult = res } ∷ results, c2)
                  ]
          ]
        ]
      ]

  unfoldable pub iterate_read_queue : Cache → World → Option (List ReadQueueResult × Cache)
  unfolding run_read_requests
  iterate_read_queue c w = elim c.readqueue [
    | [] ↦ some ([], c)
    | r ∷ rs ↦
        run_read_requests
          (record c {
            readqueue = [];
            stats = record c.stats { n_iterate_reads = add32 c.stats.n_iterate_reads 1 };
          })
          (r ∷ rs) w
  ]

-- `_readqueue.size() >= n_queuesz`, else the request is added at the end.
unfoldable pub enqueue_read_request : Cache → ReadQueueEntity → Bool × Cache
enqueue_read_request c r = if leb c.n_queuesz (length c.readqueue) then (false, c) else (
  true,
  record c {
    readqueue = c.readqueue ++ r ∷ [];
    stats = record c.stats { n_iterate_reads = add32 c.stats.n_iterate_reads 1 };
  },
)
