-- ===== src/Restore/Exit.antt =====
-- The loop over the files of lxrrestore, and its exit code.
use elykseer_cpp.Base.{
  ℕ, ◌+◌, ◌^◌, ◌≤◌, ◌<◌, ◌≡◌, ◌≢◌, refl, sym, ◌∙◌, ap, subst, Bool, true, false, Option, none, some,
  List, [], ◌∷◌, arith, Block, ◌==◌, length, if◌then◌else◌, Bool-cases, Option-cases, inl, inr,
}
use elykseer_cpp.Host.{World, FilePath, path_eq}
use elykseer_cpp.Host.Paths.{path_eq→eq}
use elykseer_cpp.Cipher.{Crypto}
use elykseer_cpp.Assembly.{BlockInformation, Configuration}
use elykseer_cpp.Store.{FBlockStore, Key, find, contains}
use elykseer_cpp.Store.Entries.{contains-find}
use elykseer_cpp.Cache.{Cache}
use elykseer_cpp.Processor.{file_hash}
use elykseer_cpp.Restore.{
  contained_target, restore_target, restore_file, prepare_files, restore_files, run_restore,
}
use elykseer_cpp.Restore.Requests.{All, Ascending, total, Held}
use elykseer_cpp.Restore.Asking.{requests}
use elykseer_cpp.Restore.Loop.{CanAsk, OnlyFiles, OnlyFiles-refl}
use elykseer_cpp.Restore.Kept.{IsNew, Outcome, restore_target-Outcome}

-- Every file that is there stays.
abbrev pub Extends : World → World → Type 0
Extends w w' = (q : FilePath) (b : Block) → w.files q ≡ some b → w'.files q ≡ some b

module _ (cr : Crypto) (canonical : FilePath → Option FilePath) (fclose_ok : FilePath → Bool)
    (fb : FBlockStore) (config : Configuration) (outputpath : FilePath) where
  -- The blocks of a file follow one another, and the device takes all of them.
  pub record IsSequential (w : World) (bis : List BlockInformation) : Type 0 where
    pub ascending : Ascending 0 (requests bis)
    pub few : length (requests bis) < 2 ^ 32
    pub fits : (fp : FilePath) → total (requests bis) ≤ w.room fp

  abbrev pub AllSequential : World → Type 0
  AllSequential w =
      (k : Key) (bis : List BlockInformation) → find fb k ≡ some bis → IsSequential w bis

  -- The file of this name stands below the output directory with every block that is known of it.
  pub record IsRestored (w : World) (fname : List ℕ) : Type 0 where
    pub bis : List BlockInformation
    pub known : find fb (file_hash cr fname config.my_id) ≡ some bis
    pub fp : FilePath
    pub target : contained_target canonical outputpath fname ≡ some fp
    pub content : Block
    pub present : w.files fp ≡ some content
    pub all_held : All (Held cr content) (requests bis)

  IsRestored-Extends :
      (w w' : World) (fname : List ℕ) → Extends w w' → IsRestored w fname → IsRestored w' fname
  IsRestored-Extends w w' fname e k = record {
    bis = k.bis;
    known = k.known;
    fp = k.fp;
    target = k.target;
    content = k.content;
    present = e k.fp k.content k.present;
    all_held = k.all_held;
  }

  IsSequential-OnlyFiles : (w w' : World) → OnlyFiles w w' → AllSequential w → AllSequential w'
  IsSequential-OnlyFiles w w' o s k bis e = record {
    ascending = (s k bis e).ascending;
    few = (s k bis e).few;
    fits = λ fp. subst (λ r. total (requests bis) ≤ r fp) (sym o.room_same) ((s k bis e).fits fp);
  }

  IsNew-Extends :
      (bis : List BlockInformation) (fp : FilePath) (w w' : World)
      → IsNew cr bis fp w w'
      → Extends w w'
  IsNew-Extends bis fp w w' n q b there = elim (Bool-cases (path_eq fp q)) [
    | inl e ↦ let same = path_eq→eq fp q e in absurd (cc (n.absent, ap w.files same))
    | inr e ↦ n.others q e ∙ there
  ]

  -- One file: what was there stays, and the file is restored if that is reported.
  abbrev OneFile : List ℕ → World → Option (Bool × Cache × World) → Type 0
  OneFile fname w none = Unit {0}
  OneFile fname w (some (ok, c, w')) =
      (ok ≡ true → IsRestored w' fname) × Extends w w' × OnlyFiles w w' × CanAsk c

  Outcome-OneFile :
      (fname : List ℕ) (bis : List BlockInformation) (fp : FilePath) (w : World)
      (r : Option (Bool × Cache × World))
      → contained_target canonical outputpath fname ≡ some fp
      → find fb (file_hash cr fname config.my_id) ≡ some bis
      → Outcome cr bis fp w r
      → OneFile fname w r
  Outcome-OneFile fname bis fp w none t f k = tt
  Outcome-OneFile fname bis fp w (some (true, c, w')) t f (n, o, a) = (
    λ e. record {
      bis = bis;
      known = f;
      fp = fp;
      target = t;
      content = n.content;
      present = n.present;
      all_held = n.all_held;
    },
    IsNew-Extends bis fp w w' n,
    o,
    a,
  )
  Outcome-OneFile fname bis fp w (some (false, c, w')) t f (same, o, a) =
      (λ e. absurd (cc), λ q b there. same q ∙ there, o, a)

  restore_file-OneFile :
      (fname : List ℕ) (bis : List BlockInformation) (c : Cache) (w : World)
      → find fb (file_hash cr fname config.my_id) ≡ some bis
      → CanAsk c
      → AllSequential w
      → OneFile fname w (restore_file cr canonical fclose_ok c fb config outputpath fname w)
  unfolding restore_file
  restore_file-OneFile fname bis c w f k s =
      elim (Option-cases (contained_target canonical outputpath fname)) [
        | inl out ↦
            rw (out, restore_file) (λ e. absurd (cc), λ q b there. there, OnlyFiles-refl w, k)
        | inr (fp, t) ↦
            let q = s (file_hash cr fname config.my_id) bis f in
            rw (t, restore_file)
              (rw f (
                Outcome-OneFile fname bis fp w (restore_target cr canonical fclose_ok c bis fp w) t
                  f
                  (restore_target-Outcome cr fclose_ok canonical bis fp w c k q.ascending
                    (q.fits fp) q.few)))
      ]

  -- The blocks of a name that was not emptied are known.
  abbrev IsKnown : List ℕ → Type 0
  IsKnown fname =
      fname ≢ []
      → (bis : List BlockInformation) × (find fb (file_hash cr fname config.my_id) ≡ some bis)

  abbrev pub IsDone : World → List ℕ → Type 0
  IsDone w fname = fname ≢ [] → IsRestored w fname

  -- The rest of the files: no failure is forgotten, and if there is none more, all are restored.
  abbrev Rest : ℕ → List (List ℕ) → World → Option (ℕ × Cache × World) → Type 0
  Rest failed fnames w none = Unit {0}
  Rest failed fnames w (some (n, c, w')) =
      (failed ≤ n) × Extends w w' × (n ≡ failed → All (IsDone w') fnames)

  abbrev more_files : ℕ → List (List ℕ) → Option (Bool × Cache × World) → Option (ℕ × Cache × World)
  more_files failed fnames r = elim r [
    | none ↦ none
    | some (ok, c', w') ↦
        restore_files cr canonical fclose_ok (if ok then failed else failed + 1) c' fb config
          outputpath fnames w'
  ]

  abbrev Goes : List (List ℕ) → Type 0
  Goes fnames =
      (failed : ℕ) (c : Cache) (w : World)
      → CanAsk c
      → AllSequential w
      → Rest failed fnames w
          (restore_files cr canonical fclose_ok failed c fb config outputpath fnames w)

  Rest-cons :
      (failed m : ℕ) (fname : List ℕ) (fnames : List (List ℕ)) (w w1 : World)
      (r : Option (ℕ × Cache × World))
      → failed ≤ m
      → (m ≡ failed → IsDone w1 fname)
      → Extends w w1
      → Rest m fnames w1 r
      → Rest failed (fname ∷ fnames) w r
  Rest-cons failed m fname fnames w w1 none le one e k = tt
  Rest-cons failed m fname fnames w w1 (some (n, c, w')) le one e (le', e', all) = (
    omega arith,
    λ q b there. e' q b (e q b there),
    λ same.
        (λ named. IsRestored-Extends w1 w' fname e' (one (omega arith) named), all (omega arith)),
  )

  more_files-Rest :
      (failed : ℕ) (fname : List ℕ) (fnames : List (List ℕ)) (w : World)
      (r : Option (Bool × Cache × World))
      → AllSequential w
      → Goes fnames
      → OneFile fname w r
      → Rest failed (fname ∷ fnames) w (more_files failed fnames r)
  more_files-Rest failed fname fnames w none s go k = tt
  more_files-Rest failed fname fnames w (some (true, c, w1)) s go (one, e, o, a) =
      Rest-cons failed failed fname fnames w w1 _ (omega arith) (λ same named. one refl) e
        (go failed c w1 a (IsSequential-OnlyFiles w w1 o s))
  more_files-Rest failed fname fnames w (some (false, c, w1)) s go (one, e, o, a) =
      Rest-cons failed (failed + 1) fname fnames w w1 _ (omega arith) (λ same. absurd (omega arith))
        e (go (failed + 1) c w1 a (IsSequential-OnlyFiles w w1 o s))

  restore_files-Rest : (fnames : List (List ℕ)) → All IsKnown fnames → Goes fnames
  unfolding restore_files
  restore_files-Rest [] known failed c w k s = (omega arith, λ q b there. there, λ same. tt)
  restore_files-Rest ([] ∷ fnames) (known, more) failed c w k s =
      Rest-cons failed failed [] fnames w w
        (restore_files cr canonical fclose_ok failed c fb config outputpath fnames w) (omega arith)
        (λ same named. absurd (named refl)) (λ q b there. there)
        (restore_files-Rest fnames more failed c w k s)
  restore_files-Rest ((x ∷ xs) ∷ fnames) (known, more) failed c w k s =
      let (bis, f) = known (λ e. cc) in
      more_files-Rest failed (x ∷ xs) fnames w
        (restore_file cr canonical fclose_ok c fb config outputpath (x ∷ xs) w) s
        (restore_files-Rest fnames more) (restore_file-OneFile (x ∷ xs) bis c w f k s)

  prepared : List (List ℕ) → ℕ × List (List ℕ)
  prepared = prepare_files cr fb config

  prepare_files-IsKnown :
      (fnames : List (List ℕ))
      → All IsKnown (prepared fnames).1 × ((prepared fnames).0 ≡ 0 → (prepared fnames).1 ≡ fnames)
  unfolding prepare_files prepared
  prepare_files-IsKnown [] = (tt, λ e. refl)
  prepare_files-IsKnown (fname ∷ fnames) =
      let (known, all) = prepare_files-IsKnown fnames in
      elim (Option-cases (find fb (file_hash cr fname config.my_id))) [
        | inl absent ↦
            let no : contains fb (file_hash cr fname config.my_id) ≡ false =
              contains-find fb (file_hash cr fname config.my_id) ∙ rw absent refl in
            rw (no, prepare_files)
              ((λ named. absurd (named refl), known), λ e. absurd (omega arith))
        | inr (bis, f) ↦
            let ok : contains fb (file_hash cr fname config.my_id) ≡ true =
              contains-find fb (file_hash cr fname config.my_id) ∙ rw f refl in
            rw (ok, prepare_files) ((λ named. (bis, f), known), λ e. ap (◌∷◌ fname) (all e))
      ]

  abbrev exits : Option (ℕ × Cache × World) → Option (ℕ × World)
  exits r = elim r [ none ↦ none | some (n, c, w') ↦ some (if n == 0 then 0 else 1, w') ]

  exits-Rest :
      (fnames : List (List ℕ)) (w w' : World) (pre : ℕ × List (List ℕ))
      (r : Option (ℕ × Cache × World))
      → All IsKnown pre.1
      → (pre.0 ≡ 0 → pre.1 ≡ fnames)
      → Rest pre.0 pre.1 w r
      → exits r ≡ some (0, w')
      → All (IsDone w') fnames × Extends w w'
  exits-Rest fnames w w' pre none known same k e = cc
  exits-Rest fnames w w' pre (some (n, c, w1)) known same (le, ext, all) e =
      let zero_failed : n ≡ 0 = ground arith in
      let world : w1 ≡ w' = ground arith in
      let none_failed : pre.0 ≡ 0 = omega arith in
      (
        subst (λ l. All (IsDone w') l) (same none_failed)
            (subst (λ x. All (IsDone x) pre.1) world (all (omega arith))),
        subst (Extends w) world ext,
      )

  -- For a cache without read requests and with a queue that is not of depth 0, and a store in which
  -- the blocks of each file follow one another, fewer than 2 ^ 32, with a device that takes all of
  -- their bytes: if lxrrestore exits with 0 and not for a dry run, then for every name on its list
  -- that is not empty there is a file below the output directory that has at the position of each
  -- of its blocks bytes with the block's checksum, in hex; and every file that was there before is
  -- there with its content.
  pub run_restore-IsDone :
      (fnames : List (List ℕ)) (c : Cache) (w w' : World)
      → CanAsk c
      → AllSequential w
      → run_restore cr canonical fclose_ok false c fb config outputpath fnames w ≡ some (0, w')
      → All (IsDone w') fnames × Extends w w'
  unfolding run_restore prepared
  run_restore-IsDone fnames c w w' k s e =
      let (known, same) = prepare_files-IsKnown fnames in
      exits-Rest fnames w w' (prepared fnames)
        (restore_files cr canonical fclose_ok (prepared fnames).0 c fb config outputpath
          (prepared fnames).1 w)
        known same (restore_files-Rest (prepared fnames).1 known (prepared fnames).0 c w k s) e
