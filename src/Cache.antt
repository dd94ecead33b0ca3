-- ===== src/Cache.antt =====
-- src/cpp/coqassemblycache.ixx and coqassemblycache.cpp: the cache of restored assemblies, the queues
-- of requests, and the stores that it fills. Each operation holds its lock from start to end here;
-- a null pointer that is followed, or an exception, is `none`. `n_readenvs` and `n_queuesz` are not
-- negative, and keys (`Key256`) are their bytes.
pub mod Read
pub mod Write
pub mod Queue
pub mod Whole
pub mod Returns
pub mod Ensure
pub mod Front
pub mod Progress
pub mod Added
pub mod Placed
pub mod Batch
pub mod Life
pub mod Metrics
pub mod Archived
use elykseer_cpp.Base.{
  ℕ, zero, suc, ◌+◌, ◌%◌, ◌^◌, Bool, true, false, ◌&&◌, Option, none, some, List, [], ◌∷◌, ◌++◌,
  leb, if◌then◌else◌, str_eq, length, add32, drop_last,
}
use elykseer_cpp.Host.{World}
use elykseer_cpp.Buffer.{Buffer, plain, buffer_len}
use elykseer_cpp.Cipher.{Crypto}
use elykseer_cpp.Assembly.{Configuration, BlockInformation, Assembly, full, no_block}
use elykseer_cpp.Assembly.Full.{restore}
use elykseer_cpp.Store.{Store, find, KeyStore, FBlockStore, FInfoStore, add_key, add_block}
use elykseer_cpp.Environment.{
  EnvironmentReadable, EnvironmentWritable, AidKey, restore_assembly, recreate_assembly,
  finalise_assembly, finalise_and_recreate_assembly, backup,
}

pub record ReadQueueEntity : Type 0 where
  pub aid : List ℕ
  pub apos : ℕ
  pub rlen : ℕ
  pub fpos : ℕ
  pub chksum : Option (List ℕ)

pub record ReadQueueResult : Type 0 where
  pub readrequest : ReadQueueEntity
  pub rresult : Option (Buffer plain)

pub record WriteQueueEntity : Type 0 where
  pub fhash : List ℕ
  pub fpos : ℕ
  pub buffer : Option (Buffer plain)

-- The counters of the cache.
pub record Stats : Type 0 where
  pub backup_bytes : ℕ
  pub restored_bytes : ℕ
  pub n_read_requests : ℕ
  pub n_write_requests : ℕ
  pub n_iterate_reads : ℕ
  pub n_iterate_writes : ℕ
  pub n_assembly_finalised : ℕ
  pub n_assembly_recalled : ℕ

-- CoqAssemblyCache::pimpl; the stores are those that are shared with who registered them.
pub record Cache : Type 0 where
  pub config : Configuration
  pub readenvs : List EnvironmentReadable
  pub n_readenvs : ℕ
  pub writeenv : Option EnvironmentWritable
  pub n_queuesz : ℕ
  pub readqueue : List ReadQueueEntity
  pub writequeue : List WriteQueueEntity
  pub keystore : Option KeyStore
  pub fblockstore : Option FBlockStore
  pub finfostore : Option FInfoStore
  pub stats : Stats

abbrev pub add64 : ℕ → ℕ → ℕ
add64 a b = (a + b) % 2 ^ 64

-- CoqAssemblyCache(config, n_envs, depth)
unfoldable pub create : Configuration → ℕ → ℕ → Cache
create c n_envs depth = record {
  config = c;
  readenvs = [];
  n_readenvs = n_envs;
  writeenv = none;
  n_queuesz = depth;
  readqueue = [];
  writequeue = [];
  keystore = none;
  fblockstore = none;
  finfostore = none;
  stats = record {
    backup_bytes = 0;
    restored_bytes = 0;
    n_read_requests = 0;
    n_write_requests = 0;
    n_iterate_reads = 0;
    n_iterate_writes = 0;
    n_assembly_finalised = 0;
    n_assembly_recalled = 0;
  };
}

unfoldable pub register_key_store : Cache → KeyStore → Cache
register_key_store c s = record c { keystore = some s }

unfoldable pub register_fblock_store : Cache → FBlockStore → Cache
register_fblock_store c s = record c { fblockstore = some s }

unfoldable pub register_finfo_store : Cache → FInfoStore → Cache
register_finfo_store c s = record c { finfostore = some s }

abbrev pub get_key_store : Cache → Option KeyStore
get_key_store c = c.keystore

abbrev pub get_fblock_store : Cache → Option FBlockStore
get_fblock_store c = c.fblockstore

abbrev pub get_finfo_store : Cache → Option FInfoStore
get_finfo_store c = c.finfostore
