-- ===== src/RunBackup/Closed.antt =====
-- CoqAssemblyCache::close at the end of lxrbackup: the key of the last assembly.
use elykseer_cpp.Base.{
  ◌<◌, ◌≡◌, refl, sym, ◌∙◌, ap, subst, Option, none, some, ◌⊎◌, inl, inr, Option-cases, add32,
}
use elykseer_cpp.Host.{World}
use elykseer_cpp.Cipher.{Crypto}
use elykseer_cpp.Assembly.{Assembly, writable, KeyInformation, header_len}
use elykseer_cpp.Environment.{EnvironmentWritable, finalise_assembly}
use elykseer_cpp.Environment.Failed.{finalise_assembly-Counted}
use elykseer_cpp.Store.{Key, KeyStore, find, add_key}
use elykseer_cpp.Store.Entries.{add_key-Keeps, add_key-new}
use elykseer_cpp.Cache.{Cache}
use elykseer_cpp.Cache.Write.{store_key, close}
use elykseer_cpp.Cache.Life.{finalise_assembly-none}
use elykseer_cpp.Cache.Progress.{failures}

add_key-found :
    (s : KeyStore) (k : Key) (v : KeyInformation)
    → (x : KeyInformation) × (find (add_key s k v).1 k ≡ some x)
add_key-found s k v = elim (Option-cases (find s k)) [
  | inl n ↦ (v, add_key-new s k v n)
  | inr (x, h) ↦ (x, (add_key-Keeps s k v).0 k x h)
]

stored :
    (st : Option KeyStore) (ks : KeyStore) (aid : Key) (ki : KeyInformation)
    → store_key st (some (aid, ki)) ≡ some ks
    → (x : KeyInformation) × (find ks aid ≡ some x)
unfolding store_key
stored none ks aid ki h = absurd (cc)
stored (some s) ks aid ki h =
    let same : (add_key s aid ki).1 ≡ ks = cc (h) in
    let (x, f) = add_key-found s aid ki in (x, ap (λ y. find y aid) (sym same) ∙ f)

module _ (cr : Crypto) (c : Cache) (e : EnvironmentWritable) (w : World)
    (held : c.writeenv ≡ some e) where
  close-writeenv : (close cr c w).0.writeenv ≡ some (finalise_assembly cr e w).1
  unfolding close
  close-writeenv = simp (held, close) refl

  close-keystore : (close cr c w).0.keystore ≡ store_key c.keystore (finalise_assembly cr e w).0
  unfolding close
  close-keystore = simp (held, close) refl

  -- close leaves no assembly that is being written.
  pub close-no_assembly :
      (e' : EnvironmentWritable) → (close cr c w).0.writeenv ≡ some e' → e'.assembly ≡ none
  close-no_assembly e' h =
      let same : (finalise_assembly cr e w).1 ≡ e' = cc (close-writeenv, h) in
      subst (λ (x : EnvironmentWritable). x.assembly ≡ none) same (finalise_assembly-none cr e w)

  -- The key of an assembly that has data is stored by close if no failure is counted after it.
  pub close-stored :
      (a : Assembly writable) (ks : KeyStore)
      → e.assembly ≡ some a
      → header_len e.config.nchunks < a.info.apos
      → (close cr c w).0.keystore ≡ some ks
      → failures (close cr c w).0.writeenv ≡ 0
      → ((ki : KeyInformation) × (find ks a.info.aid ≡ some ki)) ⊎ (add32 e.n_failed 1 ≡ 0)
  close-stored a ks current filled keys no_failure =
      elim ((finalise_assembly-Counted cr e a w current filled).2) [
        | inl (_, count) ↦ inr (sym count ∙ ap failures (sym close-writeenv) ∙ no_failure)
        | inr (ki, key, _) ↦ inl (
            stored c.keystore ks a.info.aid ki
              (ap (store_key c.keystore) (sym key) ∙ sym close-keystore ∙ keys))
      ]
