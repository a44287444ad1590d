-- ===== src/Throughput/Records.antt =====
-- The decoders of analysis/throughput.py: from the generated records of one warp stream to launches.
pub mod Layout
pub mod Shape
pub mod Workgroups
use fabricperf.Prelude.{
  ℕ, zero, suc, ◌+◌, ◌-◌, ◌*◌, ◌/◌, min, max, Bool, true, false, not, ◌&&◌, ◌||◌, Option, none,
  some, List, [], ◌∷◌, ◌++◌, map, ltb, leb, eqb, if◌then◌else◌, length, get_elem?, take, drop, keep,
  range, enumerate,
}
use fabricperf.Prelude.Dict.{value_or}
use fabricperf.Prelude.Text.{codes}
use fabricperf.Prelude.Result.{Result, ok, raise, index_error, zero_division_error, ◌>>=◌, collect}

abbrev pub workgroups : ℕ
workgroups = 4

abbrev pub header_cells : ℕ
header_cells = 2

-- One generated record. A field that the trace's schema lacks is `none`, as `getattr` with a
-- default sees it.
pub record Slot : Type 0 where
  pub value : Option ℕ
  pub sequence : Option ℕ
  pub delta_ticks : Option ℕ

pub record Meta : Type 0 where
  pub total_arrivals : ℕ
  pub duration_ticks : ℕ

-- The decoded tuple `(workgroup, accepted, total_arrivals, duration_ticks, capacity)`.
pub record Launch : Type 0 where
  pub workgroup : ℕ
  pub accepted : List (ℕ × ℕ)
  pub total_arrivals : Option ℕ
  pub duration_ticks : Option ℕ
  pub capacity : ℕ

-- `xs[i]`
pub index {ℓ} : {A : Type ℓ} → List A → ℕ → Result A
index xs i = elim (get_elem? xs i) [
  | none ↦ raise index_error (codes "list index out of range")
  | some x ↦ ok x
]

pub first_warp_records {ℓ} : {A : Type ℓ} → List (List (List A)) → ℕ → List A
first_warp_records records workgroup = elim (get_elem? records workgroup) [
  | none ↦ []
  | some [] ↦ []
  | some (stream ∷ _) ↦ stream
]

abbrev is_nonempty {ℓ} : {A : Type ℓ} → List A → Bool
is_nonempty [] = false
is_nonempty (x ∷ xs) = true

unfoldable pub warp_record_streams {ℓ} : {A : Type ℓ} → List (List (List A)) → ℕ → List (ℕ × List A)
warp_record_streams records block_index = elim (get_elem? records block_index) [
  | none ↦ []
  | some block ↦ keep (λ s. is_nonempty s.1) (enumerate 0 block)
]

unfoldable pub workgroup_base_for_warp : ℕ → ℕ → ℕ → ℕ → ℕ
workgroup_base_for_warp block_index block_count warp_count warp_index =
    if eqb warp_index 0
    then block_index * workgroups
    else (block_count + (block_index * (warp_count - 1) + (warp_index - 1))) * workgroups

pub throughput_meta_record : Option (List (List (List Meta))) → ℕ → Option Meta
throughput_meta_record none workgroup = none
throughput_meta_record (some records) workgroup = elim (get_elem? records workgroup) [
  | none ↦ none
  | some [] ↦ none
  | some ([] ∷ _) ↦ none
  | some ((m ∷ _) ∷ _) ↦ some m
]

-- `sequence != 0 or delta_ticks != 0`
abbrev is_populated : Slot → Bool
is_populated r = not (eqb (value_or 0 r.sequence) 0) || not (eqb (value_or 0 r.delta_ticks) 0)

pub inferred_throughput_records : List Slot → List Slot
inferred_throughput_records = keep is_populated

-- `base if workgroup_base is None else workgroup_base`
abbrev pub base_or : ℕ → Option ℕ → ℕ
base_or d none = d
base_or d (some b) = b

abbrev pub cell : Slot → ℕ
cell r = value_or 0 r.value

-- One round of the loop over the workgroup slices.
unfoldable pub cell_slice : List Slot → ℕ → ℕ → ℕ → Result (List Launch)
unfolding index
cell_slice raw cells_per_workgroup base workgroup_id =
    let start = workgroup_id * cells_per_workgroup in
    do
      duration ← index raw start
      total ← index raw (start + 1)
      let capacity = cells_per_workgroup - header_cells
      let limit = min (cell total) capacity
      let payload = take limit (drop (start + header_cells) raw)
      if leb (cell total) 0
          then ok []
          else ok (
              record {
                workgroup = base + workgroup_id;
                accepted = enumerate 0 (map cell payload);
                total_arrivals = some (cell total);
                duration_ticks = some (cell duration);
                capacity = capacity;
              }
              ∷ [])

unfoldable pub throughput_workgroup_cell_records : List Slot → ℕ → Option ℕ → Result (List Launch)
throughput_workgroup_cell_records raw_cells block_index workgroup_base =
    let cells_per_workgroup = length raw_cells / workgroups in
    if ltb (length raw_cells) (workgroups * header_cells)
    then ok []
    else if leb cells_per_workgroup header_cells
    then ok []
    else collect
        (cell_slice raw_cells cells_per_workgroup
          (base_or (block_index * workgroups) workgroup_base))
        (range workgroups)

-- `(int(getattr(record, "sequence", i)), int(getattr(record, "delta_ticks", 0)))` over `enumerate`.
abbrev pub accepted_records : List Slot → List (ℕ × ℕ)
accepted_records rs =
    map (λ r. (value_or r.0 (r.1).sequence, value_or 0 (r.1).delta_ticks)) (enumerate 0 rs)

-- One round of the loop over the partitions.
pub partition_slice : List Slot → ℕ → ℕ → ℕ → Result (List Launch)
unfolding index
partition_slice raw partition_size base partition =
    let start = partition * partition_size in
    let decoded : Result (List Launch) = do
      header ← index raw start
      let total = value_or 0 header.sequence
      let capacity = partition_size - 1
      let accepted = accepted_records (take (min total capacity) (drop (start + 1) raw))
      if leb total 0
          then ok []
          else ok (
              record {
                workgroup = base + partition;
                accepted = accepted;
                total_arrivals = some total;
                duration_ticks = some (value_or 0 header.delta_ticks);
                capacity = capacity;
              }
              ∷ [])
    in if leb (length raw) start then ok [] else decoded

unfoldable pub throughput_partition_records : List Slot → ℕ → ℕ → Option ℕ → Result (List Launch)
throughput_partition_records [] block_index partitions workgroup_base = ok []
throughput_partition_records raw block_index partitions workgroup_base =
    if eqb partitions 0
    then raise zero_division_error (codes "integer division or modulo by zero")
    else collect
        (partition_slice raw (length raw / partitions)
          (base_or (block_index * partitions) workgroup_base))
        (range partitions)
