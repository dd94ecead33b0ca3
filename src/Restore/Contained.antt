-- ===== src/Restore/Contained.antt =====
-- contained_target: a path that is restored to stays below the output directory.
use elykseer_cpp.Base.{
  ◌≡◌, ◌≢◌, refl, sym, ◌∙◌, ap, ap₂, Bool, true, false, ◌||◌, Option, some, List, [], ◌∷◌, ◌++◌, ℕ,
  codes, str_eq, str_eq_refl, str_eq→eq, Bool-cases, Option-cases, inl, inr,
}
use elykseer_cpp.Host.{FilePath}
use elykseer_cpp.Restore.{parts, kept_parts, strip_separator, strictly_below, contained_target}
use elykseer_cpp.Restore.Requests.{All}

-- An element that names an entry of its directory.
pub record IsName (part : List ℕ) : Type 0 where
  pub not_parent : part ≢ codes ".."
  pub not_here : part ≢ codes "."
  pub not_empty : part ≢ []

-- One of the elements is `..`.
abbrev pub has_parent : List (List ℕ) → Bool
has_parent [] = false
has_parent (part ∷ rest) = str_eq part (codes "..") || has_parent rest

str_eq_ne : (s t : List ℕ) → str_eq s t ≡ false → s ≢ t
str_eq_ne s t h e = cc (str_eq_refl s, ap (str_eq s) e)

or_false : (a b : Bool) → (a || b) ≡ false → (a ≡ false) × (b ≡ false)
or_false true b h = cc
or_false false b h = (refl, h)

kept_parts-IsName :
    (ps kept : List (List ℕ))
    → kept_parts ps ≡ some kept
    → All IsName kept × (has_parent ps ≡ false)
unfolding kept_parts
kept_parts-IsName [] [] h = (tt, refl)
kept_parts-IsName [] (k ∷ kept) h = absurd (cc)
kept_parts-IsName (part ∷ rest) kept h = elim (Bool-cases (str_eq part (codes ".."))) [
  | inl up ↦ absurd (cc (rw (up, kept_parts) at h))
  | inr e1 ↦ elim (Bool-cases (str_eq part [] || str_eq part (codes "."))) [
    | inl skip ↦
        let (names, below) =
          kept_parts-IsName rest kept (rw (skip) at (rw (e1, kept_parts) at h)) in
        (names, rw e1 below)
    | inr e2 ↦
        let (e3, e4) = or_false (str_eq part []) (str_eq part (codes ".")) e2 in
        elim (Option-cases (kept_parts rest)) [
          | inl bad ↦ absurd (cc (rw bad at (rw (e2) at (rw (e1, kept_parts) at h))))
          | inr (more, good) ↦
              let (names, below) = kept_parts-IsName rest more good in
              let whole : some (part ∷ more) ≡ some kept =
                rw good at (rw (e2) at (rw (e1, kept_parts) at h)) in
              let same : part ∷ more ≡ kept = cc in
              rw (← same) (
                (
                  record {
                    not_parent = str_eq_ne part (codes "..") e1;
                    not_here = str_eq_ne part (codes ".") e4;
                    not_empty = str_eq_ne part [] e3;
                  },
                  names,
                ),
                rw e1 below,
              )
        ]
  ]
]

strictly_below-append :
    (p q : FilePath)
    → strictly_below p q ≡ true
    → (x : List ℕ) × (rest : FilePath) × (q ≡ p ++ x ∷ rest)
unfolding strictly_below
strictly_below-append [] [] h = absurd (cc)
strictly_below-append [] (y ∷ q) h = (y, q, refl)
strictly_below-append (x ∷ p) [] h = absurd (cc)
strictly_below-append (x ∷ p) (y ∷ q) h = elim (Bool-cases (str_eq x y)) [
  | inl e ↦
      let (z, rest, below) = strictly_below-append p q (rw e at h) in
      (z, rest, ap₂ ◌∷◌ (sym (str_eq→eq x y e)) below)
  | inr e ↦ absurd (cc (rw e at h))
]

module _ (canonical : FilePath → Option FilePath) (base : FilePath) (fname : List ℕ) where
  -- A target below the output directory, by its name and by what the file system resolves it to.
  pub record IsContained (target : FilePath) : Type 0 where
    pub relative : FilePath
    pub target_is : target ≡ strip_separator base ++ relative
    pub names : All IsName relative
    pub no_parent : has_parent (parts [] fname) ≡ false
    pub cbase : FilePath
    pub ctarget : FilePath
    pub base_resolves : canonical base ≡ some cbase
    pub target_resolves : canonical target ≡ some ctarget
    pub first : List ℕ
    pub rest : FilePath
    pub below : ctarget ≡ strip_separator cbase ++ first ∷ rest

  -- If contained_target gives a target, then no element of the name is `..`; the target is the
  -- output directory, extended by elements that name entries; and what it resolves to, with the
  -- links that are there, is strictly below what the output directory resolves to.
  pub contained_target-IsContained :
      (target : FilePath) → contained_target canonical base fname ≡ some target → IsContained target
  unfolding contained_target
  contained_target-IsContained target h = elim (Option-cases (kept_parts (parts [] fname))) [
    | inl e ↦ absurd (cc (rw (e, contained_target) at h))
    | inr ([], e) ↦ absurd (cc (rw (e, contained_target) at h))
    | inr (p ∷ ps, e) ↦
        let (names, no_parent) = kept_parts-IsName (parts [] fname) (p ∷ ps) e in
        elim (Option-cases (canonical base)) [
          | inl e1 ↦ absurd (cc (rw e1 at (rw (e, contained_target) at h)))
          | inr (cbase, e1) ↦ elim (Option-cases (canonical (strip_separator base ++ p ∷ ps))) [
            | inl e2 ↦ absurd (cc (rw e2 at (rw e1 at (rw (e, contained_target) at h))))
            | inr (ctarget, e2) ↦
                elim (Bool-cases (strictly_below (strip_separator cbase) ctarget)) [
                  | inr out ↦
                      absurd (cc (rw out at (rw e2 at (rw e1 at (rw (e, contained_target) at h)))))
                  | inl inside ↦
                      let done : some (strip_separator base ++ p ∷ ps) ≡ some target =
                        rw inside at (rw e2 at (rw e1 at (rw (e, contained_target) at h))) in
                      let same : strip_separator base ++ p ∷ ps ≡ target = cc in
                      let (x, rest, below) =
                        strictly_below-append (strip_separator cbase) ctarget inside in
                      record {
                        relative = p ∷ ps;
                        target_is = sym same;
                        names = names;
                        no_parent = no_parent;
                        cbase = cbase;
                        ctarget = ctarget;
                        base_resolves = e1;
                        target_resolves = ap canonical (sym same) ∙ e2;
                        first = x;
                        rest = rest;
                        below = below;
                      }
                ]
          ]
        ]
  ]
