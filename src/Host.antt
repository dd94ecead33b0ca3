-- ===== src/Host.antt =====
-- What the program sees of its host: C stdio files, the file system, and the system's random
-- numbers. A `World` is passed through the code that reads or changes it.
pub mod Paths
use elykseer_cpp.Base.{
  ℕ, suc, ◌+◌, ◌-◌, min, max, Bool, true, false, ◌&&◌, Option, some, List, [], ◌∷◌, ltb,
  if◌then◌else◌, str_eq, Block, blit, ◌≡◌,
}

-- An open `FILE`: what it holds, the position, and how many bytes the device still takes.
pub record File : Type 0 where
  pub content : Block
  pub offset : ℕ
  pub room : ℕ

abbrev pub empty_block : Block
empty_block = record { len = 0; byte = λ _. 0 }

-- The bytes of a file; a gap that a seek leaves reads as zeros.
abbrev pub padded : Block → ℕ → ℕ
padded b i = if ltb i b.len then b.byte i else 0

-- fwrite(g + q, 1, n, f): the bytes that found room, and the file after it.
unfoldable pub fwrite : File → (ℕ → ℕ) → ℕ → ℕ → ℕ × File
fwrite f g q n = (
  min n f.room,
  record {
    content = record {
      len = max f.content.len (f.offset + min n f.room);
      byte = blit (padded f.content) f.offset g q (min n f.room);
    };
    offset = f.offset + min n f.room;
    room = f.room - min n f.room;
  },
)

-- fread(dst + p, 1, n, f): the number of bytes read, the memory and the file after it.
unfoldable pub fread : File → (ℕ → ℕ) → ℕ → ℕ → ℕ × (ℕ → ℕ) × File
fread f dst p n =
    let k = min n (f.content.len - f.offset) in
    (k, blit dst p f.content.byte f.offset k, record f { offset = f.offset + k })

-- fseek(f, k, SEEK_SET).
abbrev pub fseek : File → ℕ → File
fseek f k = record f { offset = k }

-- A path by its elements, as `std::filesystem::path` compares them.
abbrev pub FilePath : Type 0
FilePath = List (List ℕ)

unfoldable pub path_eq : FilePath → FilePath → Bool
path_eq [] [] = true
path_eq (x ∷ p) (y ∷ q) = str_eq x y && path_eq p q
path_eq _ _ = false

-- The host answers every other `exists`, and removes every file that it is told to: the exceptions of
-- std::filesystem for a path that it cannot look at, as a link to itself, are not modelled.
pub record World : Type 0 where
  pub files : FilePath → Option Block
  -- whether directories can be made (and `exists` answers for them), and files opened for writing and
  -- for reading
  pub mkdir_ok : FilePath → Bool
  pub write_ok : FilePath → Bool
  pub read_ok : FilePath → Bool
  -- how many bytes a file opened for writing takes
  pub room : FilePath → ℕ
  -- the system's random numbers, 256 bits each, and how many were drawn
  pub random : ℕ → List ℕ
  pub draws : ℕ

abbrev pub put_file : World → FilePath → Block → World
put_file w p b = record w { files = λ q. if path_eq p q then some b else w.files q }

abbrev pub draw : World → List ℕ × World
draw w = (w.random w.draws, record w { draws = suc w.draws })

-- Only random numbers were drawn between two worlds.
pub record OnlyDraws (w w' : World) : Type 0 where
  pub files_same : w'.files ≡ w.files
  pub mkdir_same : w'.mkdir_ok ≡ w.mkdir_ok
  pub write_same : w'.write_ok ≡ w.write_ok
  pub read_same : w'.read_ok ≡ w.read_ok
  pub room_same : w'.room ≡ w.room
  pub random_same : w'.random ≡ w.random
