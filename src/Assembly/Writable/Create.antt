-- ===== src/Assembly/Writable/Create.antt =====
-- The constructor of CoqAssemblyPlainWritable.
use elykseer_cpp.Base.{
  ℕ, ◌+◌, ◌-◌, ◌/◌, ◌%◌, ◌≤◌, ◌<◌, ◌≡◌, refl, some, List, [], arith, Block, of_list,
}
use elykseer_cpp.Host.{World, draw, OnlyDraws}
use elykseer_cpp.Buffer.{alloc, create}
use elykseer_cpp.Cipher.{Crypto}
use elykseer_cpp.Assembly.{Configuration, Assembly, writable, assemblysize, header_len, mk_aid}
use elykseer_cpp.Assembly.Writable.{create_aid, create_writable}
use elykseer_cpp.Assembly.Writable.Header.{header_loop-Headed}

-- A new assembly: the members that the constructor sets, and its memory.
pub record Created (c : Configuration) (w w' : World) (a : Assembly writable) (b : Block)
    : Type 0 where
  pub config_is : a.config ≡ c
  pub nchunks_is : a.info.nchunks ≡ c.nchunks
  pub apos_is : a.info.apos ≡ header_len c.nchunks
  pub buffer_is : a.buffer ≡ some (record { pimpl = some b })
  pub len_is : b.len ≡ assemblysize c.nchunks
  pub host : OnlyDraws w w'
  pub header_is :
      (p : ℕ) → p < header_len c.nchunks → b.byte p ≡ of_list (w.random (w.draws + p / 32)) (p % 32)
  pub rest_is : (p : ℕ) → header_len c.nchunks ≤ p → b.byte p ≡ 0

create_aid-Created :
    (c : Configuration) (aid : List ℕ) (w : World)
    → 16 ≤ c.nchunks
    → (a : Assembly writable) × (w' : World) × (b : Block) × (create_aid c aid w ≡ some (a, w'))
      × Created c w w' a b
unfolding create_aid create alloc
create_aid-Created c aid w lo =
    let zeros : Block = record { len = assemblysize c.nchunks; byte = λ _. 0 } in
    let (b, w', e, g) =
      header_loop-Headed (header_len c.nchunks) 5 0 zeros w (omega arith) (omega arith)
        (omega arith) in
    (
      record {
        config = c;
        info = record { nchunks = c.nchunks; apos = header_len c.nchunks; aid = aid };
        buffer = some (record { pimpl = some b });
      },
      w',
      b,
      rw e refl,
      record {
        config_is = refl;
        nchunks_is = refl;
        apos_is = refl;
        buffer_is = refl;
        len_is = g.len_kept;
        host = g.host;
        header_is =
            λ p lt. let z : p - 0 ≡ p = omega arith in rw z at (g.random_bytes p (omega arith) lt);
        rest_is = λ p le. g.beyond p le;
      },
    )

-- With at least 16 chunks, creation never throws: the new assembly has the configuration, no data,
-- and a memory of the size of its chunks that is random up to the header's length and zero behind
-- it; of the host only random numbers are used.
pub create_writable-Created :
    (cr : Crypto) (c : Configuration) (w : World)
    → 16 ≤ c.nchunks
    → (a : Assembly writable) × (w' : World) × (b : Block) × (create_writable cr c w ≡ some (a, w'))
      × Created c w w' a b
unfolding create_writable
create_writable-Created cr c w lo =
    let (a, w', b, e, k) = create_aid-Created c [] w lo in
    (
      record a { info = record a.info { aid = mk_aid cr c.my_id (cr.to_hex (draw w').0) } },
      (draw w').1,
      b,
      rw e refl,
      record {
        config_is = k.config_is;
        nchunks_is = k.nchunks_is;
        apos_is = k.apos_is;
        buffer_is = k.buffer_is;
        len_is = k.len_is;
        host = record {
          files_same = k.host.files_same;
          mkdir_same = k.host.mkdir_same;
          write_same = k.host.write_same;
          read_same = k.host.read_same;
          room_same = k.host.room_same;
          random_same = k.host.random_same;
        };
        header_is = k.header_is;
        rest_is = k.rest_is;
      },
    )
