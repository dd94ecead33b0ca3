-- ===== src/Processor.antt =====
-- src/cpp/coqprocessor.cpp and coqfilesupport.cpp: the backup of one file. What the host tells of a
-- file, and the library's hash of a file, are parameters; a null pointer that is followed is `none`.
-- The walk over directories is in Walk.
pub mod Loop
pub mod Backup
pub mod Walk
use elykseer_cpp.Base.{
  ℕ, zero, suc, ◌+◌, ◌-◌, ◌*◌, ◌/◌, ◌%◌, min, Bool, true, false, Option, none, some, List, [], ◌∷◌,
  ◌++◌, ltb, if◌then◌else◌, str_eq, to_string, Block,
}
use elykseer_cpp.Host.{World, File, fseek, fread}
use elykseer_cpp.Buffer.{Buffer, plain, create_from}
use elykseer_cpp.Cipher.{Crypto}
use elykseer_cpp.Assembly.{Configuration}
use elykseer_cpp.Store.{FileInformation, FInfoStore, find, add_info}
use elykseer_cpp.Cache.{Cache, WriteQueueEntity}
use elykseer_cpp.Cache.Write.{enqueue_write_request, iterate_write_queue, close}

abbrev pub block_sz : ℕ
block_sz = 32768

-- What `stat` tells of a file: its size, the owner's number, the mode, and the time of the last
-- modification as text.
pub record FileStat : Type 0 where
  pub st_size : ℕ
  pub st_uid : ℕ
  pub st_mode : ℕ
  pub modified : List ℕ

-- The files of the host, by name.
pub record Files : Type 0 where
  pub exists : List ℕ → Bool
  pub stat : List ℕ → Option FileStat
  pub hash : List ℕ → List ℕ
  pub open_read : List ℕ → Option Block

-- 100 * ((mode >> 6) & 7) + 10 * ((mode >> 3) & 7) + (mode & 7)
unfoldable pub permissions : ℕ → ℕ
permissions mode = 100 * (mode / 64 % 8) + 10 * (mode / 8 % 8) + mode % 8

module _ (cr : Crypto) where
  -- CoqFilesupport::file_hash
  unfoldable pub file_hash : List ℕ → List ℕ → List ℕ
  file_hash fn my_id = cr.to_hex (cr.sha3_256 (fn ++ my_id))

  -- CoqFilesupport::get_file_information
  unfoldable pub get_file_information : Files → List ℕ → List ℕ → Option FileInformation
  unfolding file_hash permissions
  get_file_information fs fn my_id =
      if fs.exists fn
      then elim (fs.stat fn) [
        | none ↦ none
        | some st ↦ some (record {
          fname = fn;
          fhash = file_hash fn my_id;
          fsize = st.st_size;
          fowner = to_string st.st_uid;
          fpermissions = permissions st.st_mode;
          fmodified = st.modified;
          fchecksum = cr.to_hex (fs.hash fn);
        })
      ]
      else none

  -- A block of the file: fseek, fread into the array, and the request. The request has only the bytes
  -- that were read.
  unfoldable pub read_block : List ℕ → File → ℕ → ℕ → WriteQueueEntity × File
  read_block fhash f fpos sz =
      let (nread, m, f') = fread (fseek f fpos) (λ _. 0) 0 sz in
      (record { fhash = fhash; fpos = fpos; buffer = some (create_from {s = plain} nread m) }, f')

  -- `if (! enqueue) { iterate; enqueue; }`
  unfoldable pub put_request : Cache → WriteQueueEntity → World → Option (Cache × World)
  put_request c r w =
      let (taken, c1) = enqueue_write_request c r in
      if taken then some (c1, w) else elim (iterate_write_queue cr c1 w) [
        | none ↦ none
        | some (c2, w2) ↦ some ((enqueue_write_request c2 r).1, w2)
      ]

  -- `while (fpos < fsize)`; the fuel is one more than the rounds that are needed.
  unfoldable pub file_loop : ℕ → List ℕ → File → ℕ → ℕ → Cache → World → Option (Cache × World)
  unfolding read_block put_request
  file_loop zero fhash f fsize fpos c w = none
  file_loop (suc fuel) fhash f fsize fpos c w = elim (ltb fpos fsize) [
    | false ↦ some (c, w)
    | true ↦ elim (put_request c (read_block fhash f fpos (min (fsize - fpos) block_sz)).0 w) [
      | none ↦ none
      | some (c', w') ↦
          file_loop fuel fhash (read_block fhash f fpos (min (fsize - fpos) block_sz)).1 fsize
            (fpos + min (fsize - fpos) block_sz) c' w'
    ]
  ]

  -- Whether the store has the same checksum for the file.
  unfoldable pub unchanged : FInfoStore → FileInformation → Bool
  unchanged st fi = elim (find st fi.fhash) [
    | none ↦ false
    | some prev ↦ str_eq fi.fchecksum prev.fchecksum
  ]

  -- The end of file_backup: the rest of the queue, and the information of the file.
  unfoldable pub finish_file :
      FileInformation → Cache → World → Option (Option FileInformation × Cache × World)
  finish_file fi c w = elim (iterate_write_queue cr c w) [
    | none ↦ none
    | some (c1, w1) ↦ elim c1.finfostore [
      | none ↦ none
      | some st ↦ some (some fi, record c1 { finfostore = some (add_info st fi.fhash fi).1 }, w1)
    ]
  ]

  -- CoqProcessor::file_backup
  unfoldable pub file_backup :
      Files
      → Configuration
      → List ℕ
      → Cache
      → World
      → Option (Option FileInformation × Cache × World)
  unfolding get_file_information file_loop unchanged finish_file
  file_backup fs config fn c w = elim (get_file_information fs fn config.my_id) [
    | none ↦ some (none, c, w)
    | some fi ↦ elim c.finfostore [
      | none ↦ none
      | some st ↦ if unchanged st fi then some (none, c, w) else elim (fs.open_read fn) [
        | none ↦ some (none, c, w)
        | some content ↦
            elim (file_loop (suc fi.fsize) (cr.from_hex fi.fhash)
              (record { content = content; offset = 0; room = 0 }) fi.fsize 0 c w) [
                | none ↦ none
                | some (c1, w1) ↦ finish_file fi c1 w1
              ]
      ]
    ]
  ]

  -- CoqProcessor::close: the cache is closed, if there is one.
  unfoldable pub close_processor : Option Cache → World → Option Cache × World
  close_processor none w = (none, w)
  close_processor (some c) w = (some (close cr c w).0, (close cr c w).1)

  -- ~CoqProcessor: the cache is closed and given up.
  unfoldable pub destroy : Option Cache → World → Option Cache × World
  destroy none w = (none, w)
  destroy (some c) w = (none, (close cr c w).1)
