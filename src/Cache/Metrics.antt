-- ===== src/Cache/Metrics.antt =====
-- CoqAssemblyCache::metrics: the counters, the sizes and the aids as named values.
use elykseer_cpp.Base.{
  ℕ, ◌%◌, ◌^◌, Bool, true, false, Option, none, some, List, [], ◌∷◌, ◌++◌, codes, length,
}
use elykseer_cpp.Environment.{EnvironmentReadable, EnvironmentWritable}
use elykseer_cpp.Cache.{Cache}

-- mvalue_t: a number of 64 or of 32 bits, or a text.
pub data MetricValue : Type 0 where
  big : ℕ → MetricValue
  small : ℕ → MetricValue
  text : List ℕ → MetricValue

abbrev pub Metric : Type 0
Metric = List ℕ × MetricValue

-- The conversion of a size to uint32_t.
abbrev pub size32 : {A : Type 0} → List A → ℕ
size32 xs = length xs % 2 ^ 32

-- The aids of the environments that hold an assembly, separated by ", ".
unfoldable pub read_aids : Bool → List EnvironmentReadable → List ℕ
read_aids first [] = []
read_aids first (e ∷ es) = elim e.assembly [
  | none ↦ read_aids first es
  | some a ↦ elim first [
    | true ↦ a.info.aid ++ read_aids false es
    | false ↦ codes ", " ++ a.info.aid ++ read_aids false es
  ]
]

unfoldable pub write_aid : Option EnvironmentWritable → List ℕ
write_aid none = []
write_aid (some e) = elim e.assembly [ none ↦ [] | some a ↦ a.info.aid ]

abbrev brackets : List ℕ → List ℕ
brackets s = 91 ∷ (s ++ 93 ∷ [])

unfoldable pub metrics : Cache → List Metric
unfolding read_aids write_aid
metrics c =
    (codes "backup_bytes", big c.stats.backup_bytes)
    ∷ (codes "restored_bytes", big c.stats.restored_bytes)
    ∷ (codes "n_read_requests", small c.stats.n_read_requests)
    ∷ (codes "n_write_requests", small c.stats.n_write_requests)
    ∷ (codes "n_iterate_reads", small c.stats.n_iterate_reads)
    ∷ (codes "n_iterate_writes", small c.stats.n_iterate_writes)
    ∷ (codes "n_read_environments", small (size32 c.readenvs))
    ∷ (codes "n_write_environments", small (elim c.writeenv [ none ↦ 0 | some e ↦ 1 ]))
    ∷ (codes "n_assembly_finalised", small c.stats.n_assembly_finalised)
    ∷ (codes "n_assembly_failed", small (elim c.writeenv [ none ↦ 0 | some e ↦ e.n_failed ]))
    ∷ (codes "n_assembly_recalled", small c.stats.n_assembly_recalled)
    ∷ (codes "len_read_queue", small (size32 c.readqueue))
    ∷ (codes "len_write_queue", small (size32 c.writequeue))
    ∷ (codes "read_aid_list", text (brackets (read_aids true c.readenvs)))
    ∷ (codes "write_aid_list", text (brackets (write_aid c.writeenv)))
    ∷ []
