-- ===== src/Tests.antt =====
-- Concrete inputs for the theorems: a cipher that keeps the text and has a constant tag, an empty
-- host, and an assembly of 16 chunks with a block of three bytes. The theorems on them are in the
-- child modules.
pub mod Archive
pub mod Units
pub mod Stores
pub mod FileBackup
pub mod Programs
pub mod Metadata
pub mod Walks
pub mod Backups
use elykseer_cpp.Base.{
  ◌≡◌, refl, sym, ◌∙◌, ap, Bool, true, false, Option, none, some, List, [], ◌∷◌, ◌++◌, ℕ, zero, suc,
  ◌^◌, ◌+◌, arith, take, str_eq, str_eq_refl, str_eq→eq, if◌then◌else◌, Bool-cases, inl, inr, Block,
  poke, length,
}
use elykseer_cpp.Host.{World}
use elykseer_cpp.Cipher.{Crypto}
use elykseer_cpp.Cipher.Pieces.{run_pieces}
use elykseer_cpp.Cipher.Laws.{IsGcm, seal, unseal}
use elykseer_cpp.Assembly.{Configuration, Assembly, writable, KeyInformation, mk_aid}
use elykseer_cpp.Assembly.Writable.Backup.{IsWritable}
use elykseer_cpp.Environment.{EnvironmentWritable, EnvironmentReadable}
use elykseer_cpp.Environment.Ready.{IsReady}

abbrev pub repeat : ℕ → ℕ → List ℕ
repeat zero x = []
repeat (suc n) x = x ∷ repeat n x

abbrev zero_tag : List ℕ
zero_tag = repeat 16 0

abbrev check_tag : List ℕ → Unit {0} → Option (Unit {0})
check_tag t d = if str_eq t zero_tag then some d else none

abbrev pub toy : Crypto
toy = record {
  sha3_256 = λ x. x;
  to_hex = λ x. take 64 (x ++ repeat 64 120);
  from_hex = λ x. x;
  datasz = 2 ^ 27;
  Encryptor = Unit {0};
  enc_new = λ _ _. tt;
  enc_aad = λ _ e. some e;
  enc_process = λ p e. some (p, e);
  enc_finish = λ e. some e;
  enc_tag = λ e. some zero_tag;
  Decryptor = Unit {0};
  dec_new = λ _ _. tt;
  dec_aad = λ _ d. some d;
  dec_tag = check_tag;
  dec_process = λ p d. some (p, d);
  dec_finish = λ d. some d;
}

run_pieces-same :
    (ps : List (List ℕ)) (e : Unit {0})
    → run_pieces (λ p (d : Unit {0}). some (p, d)) ps e ≡ some (ps, e)
unfolding run_pieces
run_pieces-same [] e = refl
run_pieces-same (p ∷ ps) e = rw (run_pieces-same ps e) refl

piece_same :
    (p o : List ℕ) (e e' : Unit {0})
    → ◌≡◌ {A = Option (List ℕ × Unit {0})} (some (p, e)) (some (o, e'))
    → length o ≡ length p
piece_same p o e e' h = let same : p ≡ o = cc in ap length (sym same)

tag_size : (t : List ℕ) → some zero_tag ≡ some t → length t ≡ 16
tag_size t h = let same : zero_tag ≡ t = cc in ap length (sym same)

sealed_same :
    (key nonce aad : List ℕ) (ps : List (List ℕ)) → seal toy key nonce aad ps ≡ some (ps, zero_tag)
sealed_same key nonce aad ps = rw (run_pieces-same ps tt) refl

opened_same :
    (key nonce aad : List ℕ) (cs : List (List ℕ)) → unseal toy key nonce aad zero_tag cs ≡ some cs
opened_same key nonce aad cs = rw (str_eq_refl zero_tag) (rw (run_pieces-same cs tt) refl)

tag_checked :
    (key nonce aad t : List ℕ) (ps cs : List (List ℕ))
    → unseal toy key nonce aad t cs ≡ some ps
    → (t ≡ zero_tag) × (cs ≡ ps)
tag_checked key nonce aad t ps cs h = elim (Bool-cases (str_eq t zero_tag)) [
  | inr bad ↦ absurd (cc (rw bad at h))
  | inl good ↦
      let h1 : some cs ≡ some ps = rw (run_pieces-same cs tt) at (rw good at h) in
      (str_eq→eq t zero_tag good, cc)
]

pair_parts :
    (ps cs : List (List ℕ)) (t t' : List ℕ)
    → ◌≡◌ {A = Option (List (List ℕ) × List ℕ)} (some (ps, t)) (some (cs, t'))
    → (ps ≡ cs) × (t ≡ t')
pair_parts ps cs t t' h = (cc, cc)

toy_opens :
    (key nonce aad : List ℕ) (ps cs : List (List ℕ)) (t : List ℕ)
    → seal toy key nonce aad ps ≡ some (cs, t)
    → unseal toy key nonce aad t cs ≡ some ps
toy_opens key nonce aad ps cs t h =
    let (c, z) = pair_parts ps cs zero_tag t (sym (sealed_same key nonce aad ps) ∙ h) in
    rw (← z, ← c) (opened_same key nonce aad ps)

toy_authentic :
    (key nonce aad : List ℕ) (ps cs : List (List ℕ)) (t : List ℕ)
    → length t ≡ 16
    → unseal toy key nonce aad t cs ≡ some ps
    → seal toy key nonce aad ps ≡ some (cs, t)
toy_authentic key nonce aad ps cs t l h =
    let (z, c) = tag_checked key nonce aad t ps cs h in rw (z, c) (sealed_same key nonce aad ps)

pub toy-IsGcm : IsGcm toy
toy-IsGcm = record {
  datasz_pos = omega arith;
  enc_length = λ p e o e' h. piece_same p o e e' h;
  dec_length = λ p d o d' h. piece_same p o d d' h;
  tag_length = λ e t h. tag_size t h;
  opens = toy_opens;
  authentic = toy_authentic;
}

abbrev pub config_16 : Configuration
config_16 = record { path_chunks = []; path_db = []; my_id = []; nchunks = 16 }

-- A host on which everything succeeds.
abbrev pub empty_host : World
empty_host = record {
  files = λ _. none;
  mkdir_ok = λ _. true;
  write_ok = λ _. true;
  read_ok = λ _. true;
  room = λ _. 2 ^ 30;
  random = λ _. [];
  draws = 0;
}

abbrev pub three_bytes : Block
three_bytes = record { len = 3; byte = λ i. i + 1 }

abbrev pub aid_x : List ℕ
aid_x = repeat 64 120

-- An assembly without data, and with the three bytes.
abbrev pub empty_memory : Block
empty_memory = record { len = 4194304; byte = λ _. 0 }

abbrev pub empty_assembly : Assembly writable
empty_assembly = record {
  config = config_16;
  info = record { nchunks = 16; apos = 0; aid = aid_x };
  buffer = some (record { pimpl = some empty_memory });
}

abbrev pub filled_memory : Block
filled_memory = record { len = 4194304; byte = poke (poke (poke (λ _. 0) 0 1) 262144 2) 524288 3 }

abbrev pub filled_assembly : Assembly writable
filled_assembly = record {
  config = config_16;
  info = record { nchunks = 16; apos = 3; aid = aid_x };
  buffer = some (record { pimpl = some filled_memory });
}

pub empty-IsWritable : IsWritable empty_assembly empty_memory
empty-IsWritable = record {
  held = refl;
  len_is = refl;
  same_n = refl;
  n_min = omega arith;
  n_max = omega arith;
  data_end = omega arith;
}

pub filled-IsWritable : IsWritable filled_assembly filled_memory
filled-IsWritable = record {
  held = refl;
  len_is = refl;
  same_n = refl;
  n_min = omega arith;
  n_max = omega arith;
  data_end = omega arith;
}

abbrev pub writer : Assembly writable → EnvironmentWritable
writer a = record { config = config_16; assembly = some a; n_failed = 0 }

abbrev pub reader : EnvironmentReadable
reader = record { config = config_16; assembly = none }

pub empty-IsReady : IsReady (writer empty_assembly) empty_assembly empty_memory
empty-IsReady = record {
  current = refl;
  same_config = refl;
  valid = empty-IsWritable;
  header = omega arith;
}
