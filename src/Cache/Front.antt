-- ===== src/Cache/Front.antt =====
-- What a client of ensure_assembly relies on.
use elykseer_cpp.Base.{
  ◌≡◌, refl, sym, subst, ◌∙◌, ap, true, Option, none, some, List, [], ◌∷◌, ◌++◌, ℕ, ◌≤◌, arith,
  length, leb, Bool-cases, inl, inr, ◌⊎◌, drop_last, max, length-append,
}
use elykseer_cpp.Host.{World}
use elykseer_cpp.Cipher.{Crypto}
use elykseer_cpp.Environment.{EnvironmentReadable}
use elykseer_cpp.Cache.{Cache}
use elykseer_cpp.Cache.Read.{match_aid, take_out, push_env, ensure_assembly}
use elykseer_cpp.Cache.Ensure.{
  Ensured, moved, restored, failed, ensure_assembly-Ensured, length-push_env,
}

-- No more environments than the cache is made for, but always room for one.
abbrev pub IsWithin : Cache → Type 0
IsWithin c = length c.readenvs ≤ max c.n_readenvs 1

push_env-front :
    (n : ℕ) (x : EnvironmentReadable) (es : List EnvironmentReadable)
    → (rest : List EnvironmentReadable) × (push_env n x es ≡ x ∷ rest)
unfolding push_env
push_env-front n x [] = ([], refl)
push_env-front n x (e ∷ es) = elim (Bool-cases (leb n (length (e ∷ es)))) [
  | inl h ↦ (drop_last (e ∷ es), rw (h, push_env) refl)
  | inr h ↦ (e ∷ es, rw (h, push_env) refl)
]

length-middle :
    (xs ys : List EnvironmentReadable) (x : EnvironmentReadable)
    → length (xs ++ x ∷ ys) ≡ length (x ∷ xs ++ ys)
length-middle xs ys x = omega (arith, length-append xs (x ∷ ys), length-append xs ys)

module _ (cr : Crypto) (c : Cache) (sel : List ℕ) where
  -- Either nothing has changed and none is returned, or the one that is returned is in front.
  abbrev pub Front : Option EnvironmentReadable × Cache → Type 0
  Front r =
      IsWithin r.1
      × (((r.0 ≡ none) × (r.1 ≡ c))
          ⊎ ((env : EnvironmentReadable) × (rest : List EnvironmentReadable) × (r.0 ≡ some env)
              × (match_aid sel env ≡ true)
              × (r.1.readenvs ≡ env ∷ rest)))

  Front-found :
      (x : EnvironmentReadable) (xs : List EnvironmentReadable) (c1 : Cache)
      → match_aid sel x ≡ true
      → c1.readenvs ≡ x ∷ xs
      → IsWithin c1
      → Front (some x, c1)
  Front-found x xs c1 m e within = (within, inr (x, xs, refl, m, e))

  Ensured-Front :
      (r : Option EnvironmentReadable × Cache) → IsWithin c → Ensured cr c sel r → Front r
  Ensured-Front (none, c1) v (moved x xs t e) = absurd (cc)
  Ensured-Front (some y, c1) v (moved x xs t e) =
      let yx : x ≡ y = cc in
      let cx : c1 ≡ record c { readenvs = x ∷ xs } = cc in
      let size : length c.readenvs ≡ length (x ∷ xs) =
        ap length t.were
        ∙ length-middle t.before t.after x
        ∙ ap (λ z. length (x ∷ z)) (sym t.are) in
      Front-found y xs c1 (rw yx at t.matches) (ap (λ z. z.readenvs) cx ∙ ap (λ z. z ∷ xs) yx)
        (subst IsWithin (sym cx) (omega (arith, size)))
  Ensured-Front (none, c1) v (restored x m got envs n) = absurd (cc)
  Ensured-Front (some y, c1) v (restored x m got envs n) =
      let yx : x ≡ y = cc in
      let (rest, f) = push_env-front c.n_readenvs x c.readenvs in
      Front-found y rest c1 (rw yx at m) (envs ∙ f ∙ ap (λ z. z ∷ rest) yx)
        (omega (arith, n, ap length envs, length-push_env c.n_readenvs x c.readenvs v))
  Ensured-Front r v (failed e) = subst Front (sym e) (v, inl (refl, refl))

  -- With at most as many environments as the cache is made for (and room for one), the number stays
  -- so bounded; either no environment is returned and nothing has changed, so that none was
  -- evicted, or the one that is returned has the assembly that was asked for and is in front.
  pub ensure_assembly-Front : (w : World) → IsWithin c → Front (ensure_assembly cr c sel w)
  ensure_assembly-Front w v = Ensured-Front _ v (ensure_assembly-Ensured cr c sel w)

  ensure_found :
      (x : EnvironmentReadable) (rest : List EnvironmentReadable) (c1 : Cache) (w : World)
      → match_aid sel x ≡ true
      → c1.readenvs ≡ x ∷ rest
      → ensure_assembly cr c1 sel w ≡ (some x, c1)
  unfolding ensure_assembly take_out
  ensure_found x rest c1 w m e =
      simp (e, ensure_assembly, m, take_out)
        (ap (λ z. (some x, record c1 { readenvs = z })) (sym e))

  again :
      (w : World) (env : EnvironmentReadable) (r : Option EnvironmentReadable × Cache)
      → Front r
      → r.0 ≡ some env
      → ensure_assembly cr r.1 sel w ≡ (some env, r.1)
  again w env r (_, inl (n, _)) h = absurd (cc)
  again w env r (_, inr (x, rest, got, m, e)) h =
      let same : x ≡ env = cc in rw same at (ensure_found x rest r.1 w m e)

  -- With the number of environments bounded: if an environment is returned, then asking for the
  -- same assembly again, in any world, returns it and changes nothing.
  pub ensure_assembly_again :
      (w w' : World) (env : EnvironmentReadable)
      → IsWithin c
      → (ensure_assembly cr c sel w).0 ≡ some env
      → ensure_assembly cr (ensure_assembly cr c sel w).1 sel w'
        ≡ (some env, (ensure_assembly cr c sel w).1)
  ensure_assembly_again w w' env v h =
      again w' env (ensure_assembly cr c sel w) (ensure_assembly-Front w v) h
