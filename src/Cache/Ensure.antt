-- ===== src/Cache/Ensure.antt =====
-- The ways that ensure_assembly takes, and the list of environments after each.
use elykseer_cpp.Base.{
  if◌then◌else◌, ◌≡◌, refl, sym, ◌∙◌, ap, ap₂, Bool, true, false, Option, none, some, List, [], ◌∷◌,
  ◌++◌, ℕ, ◌≤◌, arith, length, leb, Bool-cases, Option-cases, inl, inr, str_eq, str_eq_refl,
  length-drop_last, ◌⊎◌, max,
}
use elykseer_cpp.Host.{World}
use elykseer_cpp.Cipher.{Crypto}
use elykseer_cpp.Assembly.{
  Stage, Assembly, full, sealed, Configuration, KeyInformation, supported_format,
}
use elykseer_cpp.Cipher
use elykseer_cpp.Assembly.Full
use elykseer_cpp.Assembly.Chunks.{recall}
use elykseer_cpp.Environment.{EnvironmentReadable, restore_assembly}
use elykseer_cpp.Store.{find}
use elykseer_cpp.Cache.{Cache}
use elykseer_cpp.Cache.Read.{match_aid, take_out, push_env, try_restore_assembly, ensure_assembly}

-- What take_out finds: the first environment that matches, between those before and after it.
pub record TakenOut (sel : List ℕ) (es : List EnvironmentReadable) (x : EnvironmentReadable)
    (xs : List EnvironmentReadable) : Type 0 where
  pub before : List EnvironmentReadable
  pub after : List EnvironmentReadable
  pub were : es ≡ before ++ x ∷ after
  pub are : xs ≡ before ++ after
  pub matches : match_aid sel x ≡ true

pair_eq :
    (a b : EnvironmentReadable) (xs ys : List EnvironmentReadable)
    → ◌≡◌ {A = Option (EnvironmentReadable × List EnvironmentReadable)}
        (some (a, xs))
        (some (b, ys))
    → (a ≡ b) × (xs ≡ ys)
pair_eq a b xs ys h = (cc, cc)

take_out-TakenOut :
    (sel : List ℕ) (es : List EnvironmentReadable) (x : EnvironmentReadable)
    (xs : List EnvironmentReadable)
    → take_out sel es ≡ some (x, xs)
    → TakenOut sel es x xs
unfolding take_out
take_out-TakenOut sel [] x xs h = absurd (cc)
take_out-TakenOut sel (e ∷ es) x xs h = elim (Bool-cases (match_aid sel e)) [
  | inl m ↦
      let (ex, exs) = pair_eq e x es xs (rw (m, take_out) at h) in
      record {
        before = [];
        after = es;
        were = ap (λ z. z ∷ es) ex;
        are = sym exs;
        matches = rw ex at m;
      }
  | inr m ↦ elim (Option-cases (take_out sel es)) [
    | inl n ↦ absurd (cc (rw (m, n, take_out) at h))
    | inr ((y, ys), n) ↦
        let g = take_out-TakenOut sel es y ys n in
        let h1 = rw (m, n, take_out) at h in
        let (yx, yxs) = pair_eq y x (e ∷ ys) xs h1 in
        record {
          before = e ∷ g.before;
          after = g.after;
          were = ap (λ z. e ∷ z) (g.were ∙ ap (λ z. g.before ++ z ∷ g.after) yx);
          are = sym yxs ∙ ap (λ z. e ∷ z) g.are;
          matches = rw yx at g.matches;
        }
  ]
]

pub length-push_env :
    (n : ℕ) (env : EnvironmentReadable) (es : List EnvironmentReadable)
    → length es ≤ max n 1
    → length (push_env n env es) ≤ max n 1
unfolding push_env
length-push_env n env [] h = omega arith
length-push_env n env (e ∷ es) h = elim (Bool-cases (leb n (length (e ∷ es)))) [
  | inl no_room ↦ rw (no_room, push_env) (omega (arith, length-drop_last e es))
  | inr room ↦ rw (room, push_env) (ground arith)
]

abbrev aid_of : {k : Stage} → Option (Assembly k) → List ℕ
aid_of none = []
aid_of (some a) = a.info.aid

if_aid :
    (t : Bool) (a b : Assembly sealed)
    → (if t then some a else none) ≡ some b
    → a.info.aid ≡ b.info.aid
if_aid true a b h = ap aid_of h
if_aid false a b h = absurd (cc)

module _ (cr : Crypto) where
  decrypt-aid :
      (enc : Assembly sealed) (ki : KeyInformation) (a : Assembly full)
      → (Full.decrypt cr enc ki).0 ≡ some a
      → a.info.aid ≡ enc.info.aid
  unfolding Full.decrypt
  decrypt-aid enc ki a h = elim (Option-cases enc.buffer) [
    | inl n ↦ absurd (cc (rw (n, Full.decrypt) at h))
    | inr (buf, n) ↦ elim (Option-cases (Cipher.decrypt cr ki.ivec ki.pkey enc.info.aid buf).0) [
      | inl m ↦ absurd (cc (rw m at (rw (n, Full.decrypt) at h)))
      | inr (nb, m) ↦ sym (ap aid_of (rw m at (rw (n, Full.decrypt) at h)))
    ]
  ]

  recall-aid :
      (c : Configuration) (aid : List ℕ) (w : World) (enc : Assembly sealed)
      → recall cr c aid w ≡ some enc
      → enc.info.aid ≡ aid
  unfolding recall
  recall-aid c aid w enc h = sym (if_aid _ _ enc h)

  -- The ways that ensure_assembly takes.
  pub data Ensured (c : Cache) (sel : List ℕ) (r : Option EnvironmentReadable × Cache)
      : Type 0 where
    moved :
        (x : EnvironmentReadable) (xs : List EnvironmentReadable)
        → TakenOut sel c.readenvs x xs
        → r ≡ (some x, record c { readenvs = x ∷ xs })
        → Ensured c sel r
    restored :
        (x : EnvironmentReadable)
        → match_aid sel x ≡ true
        → r.0 ≡ some x
        → r.1.readenvs ≡ push_env c.n_readenvs x c.readenvs
        → r.1.n_readenvs ≡ c.n_readenvs
        → Ensured c sel r
    failed : r ≡ (none, c) → Ensured c sel r

  -- A restore that succeeds gives the assembly that was asked for.
  restore_assembly-aid :
      (e : EnvironmentReadable) (sel : List ℕ) (ki : KeyInformation) (w : World)
      → (restore_assembly cr e sel ki w).0 ≡ true
      → match_aid sel (restore_assembly cr e sel ki w).1 ≡ true
  unfolding restore_assembly match_aid
  restore_assembly-aid e sel ki w h = elim (Bool-cases (supported_format ki.version)) [
    | inr s ↦ absurd (cc (rw (s, restore_assembly) at h))
    | inl s ↦ elim (Option-cases (recall cr e.config sel w)) [
      | inl n ↦ absurd (cc (rw n at (rw (s, restore_assembly) at h)))
      | inr (enc, n) ↦ elim (Option-cases (Full.decrypt cr enc ki).0) [
        | inl m ↦ absurd (cc (rw m at (rw n at (rw (s, restore_assembly) at h))))
        | inr (a, m) ↦
            rw (s, restore_assembly)
              (rw (n, m)
                (ap (λ x. str_eq x sel) (decrypt-aid enc ki a m ∙ recall-aid e.config sel w enc n)
                  ∙ str_eq_refl sel))
      ]
    ]
  ]

  try_restore_assembly-cases :
      (c : Cache) (sel : List ℕ) (w : World)
      → (try_restore_assembly cr c sel w ≡ (none, c))
        ⊎ ((x : EnvironmentReadable) × ((try_restore_assembly cr c sel w).0 ≡ some x)
            × (match_aid sel x ≡ true)
            × ((try_restore_assembly cr c sel w).1.readenvs ≡ c.readenvs)
            × ((try_restore_assembly cr c sel w).1.n_readenvs ≡ c.n_readenvs))
  unfolding try_restore_assembly
  try_restore_assembly-cases c sel w = elim (Option-cases c.keystore) [
    | inl n ↦ inl (simp (n, try_restore_assembly) refl)
    | inr (ks, n) ↦ elim (Option-cases (find ks sel)) [
      | inl m ↦ inl (simp (n, try_restore_assembly, m) refl)
      | inr (ki, m) ↦
          let env : EnvironmentReadable = record { config = c.config; assembly = none } in
          elim (Bool-cases (restore_assembly cr env sel ki w).0) [
            | inr f ↦ inl (simp (n, try_restore_assembly, m, f) refl)
            | inl f ↦ inr (
              (restore_assembly cr env sel ki w).1,
              simp (n, try_restore_assembly, m, f) refl,
              restore_assembly-aid env sel ki w f,
              simp (n, try_restore_assembly, m, f) refl,
              simp (n, try_restore_assembly, m, f) refl,
            )
          ]
    ]
  ]

  pub ensure_assembly-Ensured :
      (c : Cache) (sel : List ℕ) (w : World) → Ensured c sel (ensure_assembly cr c sel w)
  unfolding ensure_assembly
  ensure_assembly-Ensured c sel w = elim (Option-cases (take_out sel c.readenvs)) [
    | inr ((x, xs), n) ↦
        moved x xs (take_out-TakenOut sel c.readenvs x xs n) (simp (n, ensure_assembly) refl)
    | inl n ↦ elim (try_restore_assembly-cases c sel w) [
      | inl f ↦ failed (simp (n, ensure_assembly, f) refl)
      | inr (x, got, m, same, size) ↦
          restored x m (rw (n, ensure_assembly) (rw got refl))
            (rw (n, ensure_assembly) (rw (got) (ap₂ (λ a b. push_env a x b) size same)))
            (rw (n, ensure_assembly) (rw got size))
    ]
  ]
