-- ===== src/Lib.antt =====
-- eLyKseeR (elykseer-cpp) backs files up into encrypted archives. A block of a file is placed in an
-- assembly, a buffer of 16 to 256 chunks of 2 ^ 18 bytes whose logical bytes are striped over its
-- chunks. A full assembly is sealed with AES-256-GCM under a fresh key and written to one file for each
-- chunk; to restore a block, the chunk files are recalled, the assembly is opened, and the block is
-- gathered and checked against its checksum. This library models that path and proves what it promises.
--
-- The parts, from the bottom, with the code of each (paths from the repository's root):
--   Base         shared names: native numbers, Boolean tests, lists, texts, and memory as a length and a
--                byte at each position
--   Host         C stdio, the file system and the random numbers, as a `World` that is passed along
--   Nchunks      src/cpp/nchunks.ixx, nchunks.cpp: the number of chunks and the ids 1 .. n
--   Buffer       src/cpp/coqbuffer.ixx, coqbuffer.cpp: memory buffers; one function for each method
--   Cipher       encrypt_buffer and decrypt_buffer of coqbuffer.cpp, over the interface of the library
--                elykseer-crypto (record Crypto); its documented behaviour is Cipher.Laws.IsGcm
--   Assembly     src/cpp/coqassembly.ixx, coqassembly.cpp, coqconfiguration.ixx: Layout is idx2apos,
--                Writable the constructor, backup and finish, Full restore, encrypt and decrypt, Chunks
--                chunk_path, extract and recall
--   Environment  src/cpp/coqenvironment.ixx, coqenvironment.cpp: when an assembly is finalised, and its
--                restoration
--   Store        src/cpp/coqstore.ixx, coqstore.cpp: the stores of keys, blocks and file information,
--                and the XML documents that are written; Reading reads them, over the tree of a parser
--                (record PropertyTree), and Xml is an element and what a parser makes of it
--   Cache        src/cpp/coqassemblycache.ixx, coqassemblycache.cpp: Read is the cache of restored
--                assemblies and the queue of read requests, Write the queue of write requests, flush
--                and close
--   Processor    src/cpp/coqprocessor.ixx, coqprocessor.cpp, coqfilesupport.ixx, coqfilesupport.cpp: the
--                backup of one file; what the host tells of a file is a parameter (record Files). Walk
--                is the backup of directories
--   FileControl  src/cpp/filectrl.ixx, filectrl.cpp: what is a file or a directory that can be read, over
--                what the host tells of a path (record FileSystem)
--   Options      src/cpp/cli/lxrbackup.cpp, lxrrestore.cpp, lxrverify.cpp: the options and the
--                configuration that is made of them
--   RunBackup    the rest of src/cpp/cli/lxrbackup.cpp, and encrypted_output of coqstore.cpp
--   Restore      the rest of src/cpp/cli/lxrrestore.cpp: Contained is where a file may go, Loop and
--                Kept are one file, Exit and Returns the whole list
--   Verify       the rest of src/cpp/cli/lxrverify.cpp
--   Tests        a concrete cipher, host and assembly, at which the theorems are applied
-- Each component's own module has its state and its operations, and the child modules have the
-- lemmas, named for what they show. RunBackup uses Processor, Options and Store; Restore and Verify
-- use Cache; Processor uses Cache; Cache uses Environment and Store; Environment uses Assembly;
-- Assembly uses Buffer and Cipher.
--
-- How the code is read. Numbers are natural numbers; 32-bit and 64-bit sums keep their
-- wrap-around (add32, add64). A null pointer that is followed, and an exception, is `none`; a
-- null pointer that is returned is an inner `none`. Methods that change their object return it.
-- Keys are their bytes; a hash, a hex form and the AES-GCM contexts are parameters. Loops with
-- a known number of rounds recurse on it; the others have fuel: crypt_loop one round more than
-- there are bytes, header_loop five rounds for at most 128 bytes in steps of 32, sequence_from
-- one round more than there are ids, file_loop one round more than there are bytes,
-- recursive_backup and file_list_recursive one round for each level of directories. Without
-- fuel a loop fails (sequence_from ends); each round advances by one at least, so that this is
-- not reached. The header and the store loops run on assemblies of at most 256 chunks, which is
-- 2 ^ 26 bytes at most, so that no index wraps around.
--
-- What is said of the write side of the cache rests on Cache.Progress: the requests that were run,
-- the blocks that were recorded for them, and where the key of every assembly is.
--
-- Not modelled: the messages on std::clog and std::cout, and the statistics of the programs;
-- getopt_long, whose result is a list of options; boost's parser of XML and GnuPG, which are
-- parameters; src/cpp/fsutils.cpp, os.cpp and appid.cpp, which only call the host or give constants;
-- src/cpp/liz.cpp, the text of the licence; src/cpp/generator.hpp, a copy of another library.
-- The host answers every `exists` and removes what it is told to; the exceptions of std::filesystem
-- for a path that it cannot look at are modelled for the directory of a restored file only (mkdir_ok).
-- Locks are held from start to end of each operation of the cache, so the model is sequential.
pub mod Base
pub mod Host
pub mod Nchunks
pub mod Buffer
pub mod Cipher
pub mod Assembly
pub mod Environment
pub mod Store
pub mod Cache
pub mod Processor
pub mod FileControl
pub mod Restore
pub mod Verify
pub mod Options
pub mod RunBackup
pub mod Tests
