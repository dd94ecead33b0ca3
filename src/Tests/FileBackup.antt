-- ===== src/Tests/FileBackup.antt =====
-- The theorems on the backup of a file, at a file of three bytes.
use elykseer_cpp.Base.{◌≡◌, refl, true, false, none, some, [], ◌∷◌, arith, inr, to_string}
use elykseer_cpp.Cache.{Cache}
use elykseer_cpp.Store.{FileInformation, find, find_in}
use elykseer_cpp.Processor.{
  Files, permissions, file_hash, get_file_information, unchanged, put_request, file_backup,
}
use elykseer_cpp.Processor.Loop.{CanQueue, Put, put_request-Put}
use elykseer_cpp.Processor.Backup.{BackedUp, file_backup-BackedUp}
use elykseer_cpp.Tests.{toy, config_16, empty_host, three_bytes}
use elykseer_cpp.Tests.Archive.{writing_cache, writing-CanWrite, write_request}

abbrev filing_cache : Cache
filing_cache = record (writing_cache none) { finfostore = some (record { entries = [] }) }

filing-CanQueue : CanQueue filing_cache (record { entries = [] }) (record { entries = [] })
filing-CanQueue = record {
  can_write = record {
    n_min = writing-CanWrite.n_min;
    n_max = writing-CanWrite.n_max;
    keys = writing-CanWrite.keys;
    blocks = writing-CanWrite.blocks;
    env = writing-CanWrite.env;
  };
  depth_pos = omega arith;
  queue_runs = tt;
}

put_request-Put_example :
    Put toy filing_cache
      (record { entries = [] })
      (record { entries = [] })
      write_request
      (put_request toy filing_cache write_request empty_host)
put_request-Put_example =
    put_request-Put toy filing_cache (record { entries = [] }) (record { entries = [] })
      write_request empty_host filing-CanQueue (inr (three_bytes, refl, omega arith, omega arith))

abbrev pub one_file : Files
one_file = record {
  exists = λ _. true;
  stat = λ _. some (record { st_size = 3; st_uid = 0; st_mode = 420; modified = [] });
  hash = λ fn. fn;
  open_read = λ _. some three_bytes;
}

abbrev information : FileInformation
information = record {
  fname = 102 ∷ [];
  fhash = file_hash toy (102 ∷ []) [];
  fsize = 3;
  fowner = to_string 0;
  fpermissions = permissions 420;
  fmodified = [];
  fchecksum = toy.to_hex (102 ∷ []);
}

informed : get_file_information toy one_file (102 ∷ []) [] ≡ some information
unfolding get_file_information
informed = refl

never_seen : unchanged toy (record { entries = [] }) information ≡ false
unfolding unchanged find find_in
never_seen = refl

file_backup-BackedUp_example :
    BackedUp toy filing_cache
      (record { entries = [] })
      (record { entries = [] })
      three_bytes
      information
      (file_backup toy one_file config_16 (102 ∷ []) filing_cache empty_host)
file_backup-BackedUp_example =
    file_backup-BackedUp toy one_file config_16 (102 ∷ []) information (record { entries = [] })
      three_bytes filing_cache (record { entries = [] }) (record { entries = [] }) empty_host
      filing-CanQueue informed refl never_seen refl (omega arith)
