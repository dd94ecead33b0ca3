-- ===== src/Processor/Walk/Under.antt =====
-- The regular files under a directory, and the list of them in the order of the walk.
use elykseer_cpp.Base.{
  ℕ, zero, suc, ◌<◌, ◌≡◌, refl, sym, ap, ap₂, subst, true, false, Option, none, some, List, [], ◌∷◌,
  ◌++◌, arith, if◌then◌else◌, Bool-cases, ◌⊎◌, inl, inr,
}
use elykseer_cpp.Processor.Walk.{Entry, Directories, directory_files, directory_subdirs}
use elykseer_cpp.Processor.Walk.Listed.{
  Has, Has-append_left, Has-append_right, Has-append_split, HasFile, HasDirectory,
  directory_files-HasFile, HasFile-directory_files, directory_subdirs-HasDirectory,
  HasDirectory-directory_subdirs,
}

module _ (ds : Directories) where
  -- A regular file is under a directory, at any depth.
  pub data Under (p : List ℕ) : List ℕ → Type 0 where
    file :
        {fp : List ℕ} (es : List Entry)
        → ds.is_directory fp ≡ true
        → ds.entries fp ≡ some es
        → HasFile p es
        → Under p fp
    deeper :
        {fp : List ℕ} (es : List Entry) (sub : List ℕ)
        → ds.is_directory fp ≡ true
        → ds.entries fp ≡ some es
        → HasDirectory sub es
        → Under p sub
        → Under p fp

  -- Directories that can be listed, and whose nesting is bounded.
  pub record IsBounded (rank : List ℕ → ℕ) : Type 0 where
    pub listed :
        (fp : List ℕ) → ds.is_directory fp ≡ true → (es : List Entry) × (ds.entries fp ≡ some es)
    pub smaller :
        (fp : List ℕ) (es : List Entry) (sub : List ℕ)
        → ds.entries fp ≡ some es
        → HasDirectory sub es
        → rank sub < rank fp

  abbrev joined : List (List ℕ) → Option (List (List ℕ)) → Option (List (List ℕ))
  joined here rest = elim rest [ none ↦ none | some l ↦ some (here ++ l) ]

  abbrev pub combine : Option (List (List ℕ)) → Option (List (List ℕ)) → Option (List (List ℕ))
  combine none rest = none
  combine (some here) rest = joined here rest

  abbrev pub walks : (List ℕ → Option (List (List ℕ))) → List (List ℕ) → Option (List (List ℕ))
  walks walk_sub [] = some []
  walks walk_sub (p ∷ ps) = combine (walk_sub p) (walks walk_sub ps)

  abbrev pub walk_entries :
      (List ℕ → Option (List (List ℕ))) → Option (List Entry) → Option (List (List ℕ))
  walk_entries walk_sub none = none
  walk_entries walk_sub (some es) =
      joined (directory_files es) (walks walk_sub (directory_subdirs es))

  -- The files of a directory and then those of its directories, in their order.
  unfoldable pub walk : ℕ → List ℕ → Option (List (List ℕ))
  walk zero fp = none
  walk (suc fuel) fp =
      if ds.is_directory fp then walk_entries (walk fuel) (ds.entries fp) else some []

  abbrev Sub : List (List ℕ) → List ℕ → Type 0
  Sub ps p = (sub : List ℕ) × Has sub ps × Under p sub

  -- A list of exactly the files for which something holds.
  pub record Lists (P : List ℕ → Type 0) (r : Option (List (List ℕ))) : Type 0 where
    pub found : List (List ℕ)
    pub result : r ≡ some found
    pub sound : (p : List ℕ) → Has p found → P p
    pub complete : (p : List ℕ) → P p → Has p found

  put_first :
      (p q : List ℕ) (ps xs ys : List (List ℕ))
      → (Under p q → Has p xs)
      → (Sub ps p → Has p ys)
      → Sub (q ∷ ps) p
      → Has p (xs ++ ys)
  put_first p q ps xs ys f g (sub, inl e, u) =
      Has-append_left p xs ys (f (subst (λ s. Under p s) (sym e) u))
  put_first p q ps xs ys f g (sub, inr k, u) = Has-append_right p xs ys (g (sub, k, u))

  Lists-walks :
      (walk_sub : List ℕ → Option (List (List ℕ))) (ps : List (List ℕ))
      → ((sub : List ℕ) → Has sub ps → Lists (λ p. Under p sub) (walk_sub sub))
      → Lists (Sub ps) (walks walk_sub ps)
  Lists-walks walk_sub [] h = record {
    found = [];
    result = refl;
    sound = λ p x. absurd x;
    complete = λ p x. absurd x.1;
  }
  Lists-walks walk_sub (q ∷ ps) h =
      let here = h q (inl refl) in
      let rest = Lists-walks walk_sub ps (λ sub x. h sub (inr x)) in
      record {
        found = here.found ++ rest.found;
        result = ap₂ combine here.result rest.result;
        sound = λ p x.
            let both : Has p here.found ⊎ Has p rest.found =
              Has-append_split p here.found rest.found x in
            elim both [
              | inl y ↦ (q, inl refl, here.sound p y)
              | inr y ↦ let (sub, k, u) = rest.sound p y in (sub, inr k, u)
            ];
        complete =
            λ p x. put_first p q ps here.found rest.found (here.complete p) (rest.complete p) x;
      }

  walks-cong :
      (f g : List ℕ → Option (List (List ℕ))) (ps : List (List ℕ))
      → ((sub : List ℕ) → Has sub ps → f sub ≡ g sub)
      → walks f ps ≡ walks g ps
  walks-cong f g [] h = refl
  walks-cong f g (p ∷ ps) h =
      ap₂ combine (h p (inl refl)) (walks-cong f g ps (λ sub x. h sub (inr x)))

  not_a_directory : (fp p : List ℕ) → ds.is_directory fp ≡ false → Under p fp → Has p []
  not_a_directory fp p plain (file es d e h) = absurd (cc)
  not_a_directory fp p plain (deeper es sub d e h u) = absurd (cc)

  Under-listed :
      (fp p : List ℕ) (es : List Entry) (found : List (List ℕ))
      → ds.entries fp ≡ some es
      → (Sub (directory_subdirs es) p → Has p found)
      → Under p fp
      → Has p (directory_files es ++ found)
  Under-listed fp p es found e f (file es' d e' h) =
      let same : es' ≡ es = cc in
      Has-append_left p (directory_files es) found
        (HasFile-directory_files p es (subst (λ (x : List Entry). HasFile p x) same h))
  Under-listed fp p es found e f (deeper es' sub d e' h u) =
      let same : es' ≡ es = cc in
      Has-append_right p (directory_files es) found (
        f (
          sub,
          HasDirectory-directory_subdirs sub es
              (subst (λ (x : List Entry). HasDirectory sub x) same h),
          u,
        ))

  module _ (rank : List ℕ → ℕ) (bounded : IsBounded rank) where
    -- With more rounds of fuel than the rank, the walk does not depend on the fuel.
    pub walk-fuel : (f g : ℕ) (fp : List ℕ) → rank fp < f → rank fp < g → walk f fp ≡ walk g fp
    unfolding walk
    walk-fuel zero g fp a b = absurd (omega arith)
    walk-fuel (suc f) zero fp a b = absurd (omega arith)
    walk-fuel (suc f) (suc g) fp a b = elim (Bool-cases (ds.is_directory fp)) [
      | inr plain ↦ rw plain refl
      | inl dir ↦
          let (es, e) = bounded.listed fp dir in
          rw dir (
            rw e (
              ap (joined (directory_files es)) (
                walks-cong (walk f) (walk g) (directory_subdirs es) (λ sub x.
                  let less =
                    bounded.smaller fp es sub e (directory_subdirs-HasDirectory sub es x) in
                  walk-fuel f g sub (omega arith) (omega arith)))))
    ]

    -- With more rounds of fuel than the rank, the walk ends with exactly the files under a directory.
    pub Lists-walk :
        (fuel : ℕ) (fp : List ℕ) → rank fp < fuel → Lists (λ p. Under p fp) (walk fuel fp)
    unfolding walk
    Lists-walk zero fp h = absurd (omega arith)
    Lists-walk (suc fuel) fp h = elim (Bool-cases (ds.is_directory fp)) [
      | inr plain ↦ record {
        found = [];
        result = rw plain refl;
        sound = λ p x. absurd x;
        complete = λ p u. not_a_directory fp p plain u;
      }
      | inl dir ↦
          let (es, e) = bounded.listed fp dir in
          let subs = Lists-walks (walk fuel) (directory_subdirs es) (λ sub x.
            let less = bounded.smaller fp es sub e (directory_subdirs-HasDirectory sub es x) in
            Lists-walk fuel sub (omega arith)) in
          record {
            found = directory_files es ++ subs.found;
            result = rw dir (rw e (rw subs.result refl));
            sound = λ p x.
                let both : Has p (directory_files es) ⊎ Has p subs.found =
                  Has-append_split p (directory_files es) subs.found x in
                elim both [
                  | inl y ↦ file es dir e (directory_files-HasFile p es y)
                  | inr y ↦
                      let (sub, k, u) = subs.sound p y in
                      deeper es sub dir e (directory_subdirs-HasDirectory sub es k) u
                ];
            complete = λ p u. Under-listed fp p es subs.found e (subs.complete p) u;
          }
    ]
