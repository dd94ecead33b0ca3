-- ===== src/Processor/Walk/Total.antt =====
-- recursive_backup against the list of the files under a directory.
use elykseer_cpp.Base.{
  ◌↔◌, ℕ, zero, suc, ◌<◌, ◌≡◌, refl, sym, ◌∙◌, ap, true, false, Option, none, some, List, [], ◌∷◌,
  ◌++◌, Bool-cases, Option-cases, inl, inr, arith,
}
use elykseer_cpp.Host.{World}
use elykseer_cpp.Cipher.{Crypto}
use elykseer_cpp.Assembly.{Configuration}
use elykseer_cpp.Store.{FileInformation}
use elykseer_cpp.Cache.{Cache}
use elykseer_cpp.Processor.{Files, file_backup}
use elykseer_cpp.Processor.Walk.{
  Entry, Directories, directory_files, directory_subdirs, backup_all, directory_backup, backup_dirs,
  recursive_backup,
}
use elykseer_cpp.Processor.Walk.Listed.{Has}
use elykseer_cpp.Processor.Walk.Under.{
  Under, IsBounded, combine, walks, walk_entries, walk, Lists-walk, walk-fuel,
}

abbrev then_do :
    Option (Cache × World) → (Cache → World → Option (Cache × World)) → Option (Cache × World)
then_do r f = elim r [ none ↦ none | some (c, w) ↦ f c w ]

then_none : (r : Option (Cache × World)) → then_do r (λ c w. none) ≡ none
then_none none = refl
then_none (some (c, w)) = refl

then_assoc :
    (r : Option (Option FileInformation × Cache × World))
    (f g : Cache → World → Option (Cache × World))
    → (elim r [ none ↦ none | some (i, c, w) ↦ then_do (f c w) g ])
      ≡ then_do (elim r [ none ↦ none | some (i, c, w) ↦ f c w ]) g
then_assoc none f g = refl
then_assoc (some (i, c, w)) f g = refl

module _ (cr : Crypto) (fs : Files) (ds : Directories) (config : Configuration) where
  -- file_backup for a list of paths, if there is one.
  abbrev on_all : Option (List (List ℕ)) → Cache → World → Option (Cache × World)
  on_all none c w = none
  on_all (some ps) c w = backup_all cr fs ds config ps c w

  backup_all-append :
      (xs ys : List (List ℕ)) (c : Cache) (w : World)
      → backup_all cr fs ds config (xs ++ ys) c w
        ≡ then_do (backup_all cr fs ds config xs c w) (backup_all cr fs ds config ys)
  unfolding backup_all
  backup_all-append [] ys c w = refl
  backup_all-append (x ∷ xs) ys c w =
      ap
        (λ (f : Cache → World → Option (Cache × World)). elim (file_backup cr fs config x c w) [
          | none ↦ none
          | some (i, c', w') ↦ f c' w'
        ])
        (λ i c' w'. backup_all-append xs ys c' w' i)
      ∙ then_assoc (file_backup cr fs config x c w) (backup_all cr fs ds config xs)
          (backup_all cr fs ds config ys)

  on_joined :
      (here : List (List ℕ)) (rest : Option (List (List ℕ))) (c : Cache) (w : World)
      → then_do (backup_all cr fs ds config here c w) (on_all rest)
        ≡ on_all (elim rest [ none ↦ none | some l ↦ some (here ++ l) ]) c w
  on_joined here none c w = then_none (backup_all cr fs ds config here c w)
  on_joined here (some l) c w = sym (backup_all-append here l c w)

  abbrev Backup : Type 0
  Backup = List ℕ → Cache → World → Option (Cache × World)

  then_cong :
      (r : Option (Cache × World)) (f g : Cache → World → Option (Cache × World))
      → ((c : Cache) (w : World) → f c w ≡ g c w)
      → then_do r f ≡ then_do r g
  then_cong none f g h = refl
  then_cong (some (c, w)) f g h = h c w

  backed_none : (c : Cache) (w : World) → some (c, w) ≡ backup_all cr fs ds config [] c w
  unfolding backup_all
  backed_none c w = refl

  backup_dirs-walks :
      (backup : Backup) (walk_sub : List ℕ → Option (List (List ℕ)))
      → ((p : List ℕ) (c : Cache) (w : World) → backup p c w ≡ on_all (walk_sub p) c w)
      → (ps : List (List ℕ)) (c : Cache) (w : World)
      → backup_dirs cr fs ds config backup ps c w ≡ on_all (walks ds walk_sub ps) c w
  unfolding backup_dirs
  backup_dirs-walks backup walk_sub h [] c w = backed_none c w
  backup_dirs-walks backup walk_sub h (p ∷ ps) c w = elim (Option-cases (walk_sub p)) [
    | inl e ↦
        ap (λ r. then_do r (backup_dirs cr fs ds config backup ps))
          (h p c w ∙ ap (λ r. on_all r c w) e)
        ∙ ap (λ r. on_all (combine ds r (walks ds walk_sub ps)) c w) (sym e)
    | inr (here, e) ↦
        ap (λ r. then_do r (backup_dirs cr fs ds config backup ps))
          (h p c w ∙ ap (λ r. on_all r c w) e)
        ∙ then_cong (backup_all cr fs ds config here c w) (backup_dirs cr fs ds config backup ps)
            (on_all (walks ds walk_sub ps)) (backup_dirs-walks backup walk_sub h ps)
        ∙ on_joined here (walks ds walk_sub ps) c w
        ∙ ap (λ r. on_all (combine ds r (walks ds walk_sub ps)) c w) (sym e)
  ]

  directory_backup-entries :
      (fp : List ℕ) (c : Cache) (w : World)
      → ds.is_directory fp ≡ true
      → directory_backup cr fs ds config fp c w ≡ (elim (ds.entries fp) [
        | none ↦ none
        | some es ↦ backup_all cr fs ds config (directory_files es) c w
      ])
  unfolding directory_backup
  directory_backup-entries fp c w dir = rw (dir, directory_backup) refl

  abbrev then_subdirs : ℕ → Option (List Entry) → Option (Cache × World) → Option (Cache × World)
  then_subdirs fuel es r = then_do r λ c w. elim es [
    | none ↦ none
    | some es' ↦
        backup_dirs cr fs ds config (recursive_backup cr fs ds config fuel) (directory_subdirs es')
          c w
  ]

  recursive_backup-subdirs :
      (fuel : ℕ) (fp : List ℕ) (c : Cache) (w : World)
      → ds.is_directory fp ≡ true
      → recursive_backup cr fs ds config (suc fuel) fp c w
        ≡ then_subdirs fuel (ds.entries fp) (directory_backup cr fs ds config fp c w)
  unfolding recursive_backup
  recursive_backup-subdirs fuel fp c w dir = rw (dir, recursive_backup) refl

  abbrev Walks : ℕ → Type 0
  Walks fuel =
      (fp : List ℕ) (c : Cache) (w : World)
      → recursive_backup cr fs ds config fuel fp c w ≡ on_all (walk ds fuel fp) c w

  entries-walk :
      (fuel : ℕ) (es : Option (List Entry)) (c : Cache) (w : World)
      → Walks fuel
      → then_subdirs fuel es (elim es [
        | none ↦ none
        | some es' ↦ backup_all cr fs ds config (directory_files es') c w
      ])
        ≡ on_all (walk_entries ds (walk ds fuel) es) c w
  entries-walk fuel none c w h = refl
  entries-walk fuel (some es) c w h =
      then_cong (backup_all cr fs ds config (directory_files es) c w)
        (backup_dirs cr fs ds config (recursive_backup cr fs ds config fuel) (directory_subdirs es))
        (on_all (walks ds (walk ds fuel) (directory_subdirs es)))
        (backup_dirs-walks (recursive_backup cr fs ds config fuel) (walk ds fuel) h
          (directory_subdirs es))
      ∙ on_joined (directory_files es) (walks ds (walk ds fuel) (directory_subdirs es)) c w

  walk-entries :
      (fuel : ℕ) (fp : List ℕ)
      → ds.is_directory fp ≡ true
      → walk ds (suc fuel) fp ≡ walk_entries ds (walk ds fuel) (ds.entries fp)
  unfolding walk
  walk-entries fuel fp dir = rw dir refl

  walk-plain :
      (fuel : ℕ) (fp : List ℕ) → ds.is_directory fp ≡ false → walk ds (suc fuel) fp ≡ some []
  unfolding walk
  walk-plain fuel fp plain = rw plain refl

  recursive_backup-plain :
      (fuel : ℕ) (fp : List ℕ) (c : Cache) (w : World)
      → ds.is_directory fp ≡ false
      → recursive_backup cr fs ds config (suc fuel) fp c w ≡ some (c, w)
  unfolding recursive_backup
  recursive_backup-plain fuel fp c w plain = rw (plain, recursive_backup) refl

  no_fuel :
      (fp : List ℕ) (c : Cache) (w : World)
      → recursive_backup cr fs ds config zero fp c w ≡ on_all (walk ds zero fp) c w
  unfolding walk recursive_backup
  no_fuel fp c w = refl

  -- The walk and the backup of what it finds, at once.
  recursive_backup-walk : (fuel : ℕ) → Walks fuel
  recursive_backup-walk zero fp c w = no_fuel fp c w
  recursive_backup-walk (suc fuel) fp c w = elim (Bool-cases (ds.is_directory fp)) [
    | inr plain ↦
        recursive_backup-plain fuel fp c w plain
        ∙ backed_none c w
        ∙ ap (λ r. on_all r c w) (sym (walk-plain fuel fp plain))
    | inl dir ↦
        recursive_backup-subdirs fuel fp c w dir
        ∙ ap (then_subdirs fuel (ds.entries fp)) (directory_backup-entries fp c w dir)
        ∙ entries-walk fuel (ds.entries fp) c w (recursive_backup-walk fuel)
        ∙ ap (λ r. on_all r c w) (sym (walk-entries fuel fp dir))
  ]

  -- For directories that can be listed, with a rank that falls from a directory to those in it, and
  -- more rounds of fuel than the rank: there is a list that has exactly the regular files under the
  -- directory, at any depth, such that recursive_backup is file_backup for each file of that list,
  -- in its order, whatever the cache and the host are.
  pub recursive_backup-Under :
      (rank : List ℕ → ℕ) (fp : List ℕ) (fuel : ℕ)
      → IsBounded ds rank
      → rank fp < fuel
      → (ps : List (List ℕ)) × ((p : List ℕ) → Has p ps ↔ Under ds p fp)
        × ((c : Cache) (w : World)
            → recursive_backup cr fs ds config fuel fp c w ≡ backup_all cr fs ds config ps c w)
  recursive_backup-Under rank fp fuel bounded enough =
      let k = Lists-walk ds rank bounded (suc (rank fp)) fp (omega arith) in
      (
        k.found,
        λ p. (k.sound p, k.complete p),
        λ c w.
            recursive_backup-walk fuel fp c w
            ∙ ap (λ r. on_all r c w)
                (walk-fuel ds rank bounded fuel (suc (rank fp)) fp enough (omega arith) ∙ k.result),
      )
