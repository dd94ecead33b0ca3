-- ===== src/Cache/Returns.antt =====
-- The read requests of a cache are run to their end, without an exception.
use elykseer_cpp.Base.{
  ℕ, ◌+◌, ◌≤◌, ◌<◌, ◌≡◌, refl, sym, subst, Bool, true, false, Option, none, some, List, [], ◌∷◌,
  ◌⊎◌, arith, leb, length, drop_last, Bool-cases, Option-cases, List-cases, inl, inr, add32,
  if◌then◌else◌,
}
use elykseer_cpp.Host.{World}
use elykseer_cpp.Buffer.{Buffer, plain}
use elykseer_cpp.Cipher.{Crypto}
use elykseer_cpp.Assembly.{BlockInformation, Assembly, full, assemblysize}
use elykseer_cpp.Assembly.Full.{restore}
use elykseer_cpp.Assembly.Full.Restore.{restore-checked, restore_out_of_range}
use elykseer_cpp.Environment.{EnvironmentReadable, restore_assembly}
use elykseer_cpp.Store.{find}
use elykseer_cpp.Cache.{Cache, ReadQueueEntity, ReadQueueResult, add64}
use elykseer_cpp.Cache.Read.{
  match_aid, take_out, push_env, try_restore_assembly, ensure_assembly, block_of, result_len,
  run_read_requests, iterate_read_queue,
}
use elykseer_cpp.Cache.Whole.{IfSome, IsWhole, IsWholeEnv, restore_assembly-IsWholeEnv}

range_cases : (size p n : ℕ) → ((0 < size) × (p + size ≤ n)) ⊎ ((size ≡ 0) ⊎ (n < p + size))
range_cases size p n = elim (Bool-cases (leb size 0)) [
  | inl zero_size ↦ inr (inl (ground arith))
  | inr some_bytes ↦ elim (Bool-cases (leb (p + size) n)) [
    | inl fits ↦ inl (ground arith, ground arith)
    | inr over ↦ inr (inr (ground arith))
  ]
]

module _ (cr : Crypto) where
  restore_ends :
      (a : Assembly full) (bi : BlockInformation)
      → IsWhole a
      → (res : Option (Buffer plain)) × (restore cr a bi ≡ some res)
  restore_ends a bi k =
      elim (range_cases bi.blocksize bi.blockapos (assemblysize a.config.nchunks)) [
        | inl (some_bytes, fits) ↦
            let (b, e, l, g) =
              restore-checked cr a k.src bi k.held k.n_pos k.n_max k.len_is some_bytes fits in
            (_, e)
        | inr out ↦ (none, restore_out_of_range cr a k.src bi k.held k.n_pos k.n_max k.len_is out)
      ]

  abbrev pub AreWhole : List EnvironmentReadable → Type 0
  AreWhole [] = Unit {0}
  AreWhole (e ∷ es) = IsWholeEnv e × AreWhole es

  -- A cache of 1 to 256 chunks whose restored assemblies have all of their memory.
  pub record IsReadable (c : Cache) : Type 0 where
    pub n_pos : 0 < c.config.nchunks
    pub n_max : c.config.nchunks ≤ 256
    pub envs : AreWhole c.readenvs

  Parts : EnvironmentReadable × List EnvironmentReadable → Type 0
  Parts (x, xs) = IsWholeEnv x × AreWhole xs

  put_back :
      (e : EnvironmentReadable) (r : Option (EnvironmentReadable × List EnvironmentReadable))
      → IsWholeEnv e
      → IfSome Parts r
      → IfSome Parts (elim r [ none ↦ none | some (x, xs) ↦ some (x, e ∷ xs) ])
  unfolding Parts
  put_back e none k h = tt
  put_back e (some (x, xs)) k (h, hs) = (h, (k, hs))

  take_out-Parts :
      (sel : List ℕ) (es : List EnvironmentReadable) → AreWhole es → IfSome Parts (take_out sel es)
  unfolding take_out Parts
  take_out-Parts sel [] h = tt
  take_out-Parts sel (e ∷ es) (k, h) = elim (Bool-cases (match_aid sel e)) [
    | inl m ↦ rw (m, take_out) (k, h)
    | inr m ↦ rw (m, take_out) (put_back e (take_out sel es) k (take_out-Parts sel es h))
  ]

  drop_last-AreWhole :
      (e : EnvironmentReadable) (es : List EnvironmentReadable)
      → AreWhole (e ∷ es)
      → AreWhole (drop_last (e ∷ es))
  drop_last-AreWhole e [] h = tt
  drop_last-AreWhole e (x ∷ xs) (k, h) = (k, drop_last-AreWhole x xs h)

  push_env-AreWhole :
      (n : ℕ) (env : EnvironmentReadable) (es : List EnvironmentReadable)
      → IsWholeEnv env
      → AreWhole es
      → AreWhole (push_env n env es)
  unfolding push_env
  push_env-AreWhole n env [] k h = (k, tt)
  push_env-AreWhole n env (e ∷ es) k h = elim (Bool-cases (leb n (length (e ∷ es)))) [
    | inl m ↦ rw (m, push_env) (k, drop_last-AreWhole e es h)
    | inr m ↦ rw (m, push_env) (k, h)
  ]

  -- An environment is restored, and the cache is as it was but for its counters.
  record Restored (c : Cache) (r : Option EnvironmentReadable × Cache) : Type 0 where
    env : IfSome IsWholeEnv r.0
    envs_same : r.1.readenvs ≡ c.readenvs
    config_same : r.1.config ≡ c.config

  if_Restored :
      (c c' : Cache) (r : Bool × EnvironmentReadable)
      → IsWholeEnv r.1
      → c'.readenvs ≡ c.readenvs
      → c'.config ≡ c.config
      → Restored c (if r.0 then (some r.1, c') else (none, c))
  if_Restored c c' (true, e) h envs config = record {
    env = h;
    envs_same = envs;
    config_same = config;
  }
  if_Restored c c' (false, e) h envs config = record {
    env = tt;
    envs_same = refl;
    config_same = refl;
  }

  try_restore_assembly-Restored :
      (c : Cache) (sel : List ℕ) (w : World)
      → IsReadable c
      → Restored c (try_restore_assembly cr c sel w)
  unfolding try_restore_assembly
  try_restore_assembly-Restored c sel w k = elim (Option-cases c.keystore) [
    | inl e ↦
        simp (e, try_restore_assembly) (record { env = tt; envs_same = refl; config_same = refl })
    | inr (ks, e) ↦ elim (Option-cases (find ks sel)) [
      | inl f ↦
          simp (e, f, try_restore_assembly)
            (record { env = tt; envs_same = refl; config_same = refl })
      | inr (ki, f) ↦
          simp (e, f, try_restore_assembly)
            (if_Restored c _
              (restore_assembly cr (record { config = c.config; assembly = none }) sel ki w)
              (restore_assembly-IsWholeEnv cr c.config sel ki w k.n_pos k.n_max) refl refl)
    ]
  ]

  -- The environment that is returned has a whole assembly, and the cache stays readable.
  record EnsuredReadable (r : Option EnvironmentReadable × Cache) : Type 0 where
    env : IfSome IsWholeEnv r.0
    cache : IsReadable r.1

  then_pushed :
      (c : Cache) (r : Option EnvironmentReadable × Cache)
      → IsReadable c
      → Restored c r
      → EnsuredReadable (elim r.0 [
        | none ↦ (none, r.1)
        | some env ↦ (some env, record r.1 { readenvs = push_env r.1.n_readenvs env r.1.readenvs })
      ])
  then_pushed c (none, c1) k r = record {
    env = tt;
    cache = record {
      n_pos = subst (λ x. 0 < x.nchunks) (sym r.config_same) k.n_pos;
      n_max = subst (λ x. x.nchunks ≤ 256) (sym r.config_same) k.n_max;
      envs = subst AreWhole (sym r.envs_same) k.envs;
    };
  }
  then_pushed c (some e, c1) k r = record {
    env = r.env;
    cache = record {
      n_pos = subst (λ x. 0 < x.nchunks) (sym r.config_same) k.n_pos;
      n_max = subst (λ x. x.nchunks ≤ 256) (sym r.config_same) k.n_max;
      envs =
          push_env-AreWhole c1.n_readenvs e c1.readenvs r.env
            (subst AreWhole (sym r.envs_same) k.envs);
    };
  }

  ensure_assembly-EnsuredReadable :
      (c : Cache) (sel : List ℕ) (w : World)
      → IsReadable c
      → EnsuredReadable (ensure_assembly cr c sel w)
  unfolding ensure_assembly Parts
  ensure_assembly-EnsuredReadable c sel w k = elim (Option-cases (take_out sel c.readenvs)) [
    | inr ((x, xs), e) ↦
        let (whole, rest) : Parts (x, xs) =
          subst (IfSome Parts) e (take_out-Parts sel c.readenvs k.envs) in
        simp (e, ensure_assembly)
          (record {
            env = whole;
            cache = record { n_pos = k.n_pos; n_max = k.n_max; envs = (whole, rest) };
          })
    | inl e ↦
        simp (e, ensure_assembly)
          (then_pushed c (try_restore_assembly cr c sel w) k
            (try_restore_assembly-Restored c sel w k))
  ]

  -- A result is there, with a cache that is readable.
  abbrev pub Returns : {A : Type 0} → Option (A × Cache) → Type 0
  Returns none = ⊥
  Returns (some (a, c)) = IsReadable c

  then_result :
      (r : ReadQueueResult) (ran : Option (List ReadQueueResult × Cache))
      → Returns ran
      → Returns (elim ran as (λ x. Option (List ReadQueueResult × Cache)) [
        | none ↦ none
        | some (results, c2) ↦ some (r ∷ results, c2)
      ])
  then_result r none h = h
  then_result r (some (results, c2)) h = h

  run_read_requests-Returns :
      (rs : List ReadQueueEntity) (c : Cache) (w : World)
      → IsReadable c
      → Returns (run_read_requests cr c rs w)
  unfolding run_read_requests
  run_read_requests-Returns [] c w k = k
  run_read_requests-Returns (r ∷ rs) c w k =
      let ens = ensure_assembly-EnsuredReadable c r.aid w k in
      let c1 = (ensure_assembly cr c r.aid w).1 in
      elim (Option-cases (ensure_assembly cr c r.aid w).0) [
        | inl e ↦ simp (e, run_read_requests) ens.cache
        | inr (env, e) ↦
            let whole_env : IsWholeEnv env = subst (IfSome IsWholeEnv) e ens.env in
            elim (Option-cases env.assembly) [
              | inl f ↦ simp (e, f, run_read_requests) ens.cache
              | inr (a, f) ↦
                  let (res, q) =
                    restore_ends a (block_of cr r) (subst (IfSome IsWhole) f whole_env) in
                  simp (e, f, q, run_read_requests)
                    (then_result (record { readrequest = r; rresult = res }) _
                      (run_read_requests-Returns rs
                        (record c1 {
                          stats = record c1.stats {
                            restored_bytes = add64 c1.stats.restored_bytes (result_len cr res);
                            n_read_requests = add32 c1.stats.n_read_requests 1;
                          };
                        })
                        w
                        (record {
                          n_pos = ens.cache.n_pos;
                          n_max = ens.cache.n_max;
                          envs = ens.cache.envs;
                        })))
            ]
      ]

  -- iterate_read_queue answers the requests of a readable cache without an exception.
  pub iterate_read_queue-Returns :
      (c : Cache) (w : World) → IsReadable c → Returns (iterate_read_queue cr c w)
  unfolding iterate_read_queue
  iterate_read_queue-Returns c w k = elim (List-cases c.readqueue) [
    | inl e ↦ simp (e, iterate_read_queue) k
    | inr (r, rs, e) ↦
        simp (e, iterate_read_queue)
          (run_read_requests-Returns (r ∷ rs)
            (record c {
              readqueue = [];
              stats = record c.stats { n_iterate_reads = add32 c.stats.n_iterate_reads 1 };
            })
            w (record { n_pos = k.n_pos; n_max = k.n_max; envs = k.envs }))
  ]
