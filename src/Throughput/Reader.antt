-- ===== src/Throughput/Reader.antt =====
-- `read_throughput_root` of analysis/throughput.py: every stream of every result file of a trace
-- root, into aggregates and CSV rows. The generated reader and the rank pattern are parameters.
pub mod Rows
use mathlib.Core.Option
use fabricperf.Prelude.{
  ℕ, ◌+◌, ◌/◌, min, Bool, true, false, ◌&&◌, Option, none, some, List, [], ◌∷◌, ◌++◌, map, eqb,
  if◌then◌else◌, length, get_elem?, take, range, enumerate,
}
use fabricperf.Prelude.Keys.{nat_eq, list_eq, pair_eq}
use fabricperf.Prelude.Dict.{Dict, get, put, value_or, values}
use fabricperf.Prelude.Text.{Text, codes, show}
use fabricperf.Prelude.Result.{Result, ok, ◌>>=◌, fold}
use fabricperf.Modes.{Environ, throughput_partitions}
use fabricperf.Trace.{Dir, Root, iter_trace_dirs, bin_files, parse_rank}
use fabricperf.Throughput.Records.{
  Slot, Meta, Launch, warp_record_streams, workgroup_base_for_warp, throughput_meta_record,
  inferred_throughput_records, accepted_records, throughput_workgroup_cell_records,
  throughput_partition_records,
}
use fabricperf.Throughput.Aggregate.{ThroughputAggregate, new_aggregate, add_launch, bin_ns}

-- The sections of a parsed result file: blocks of warps of records.
pub record Parsed : Type 0 where
  pub throughput : Option (List (List (List Slot)))
  pub throughput_meta : Option (List (List (List Meta)))

pub record CsvRow : Type 0 where
  pub trace : Text
  pub rank : Text
  pub variant : Text
  pub result_file : Text
  pub workgroup : Text
  pub sequence : Text
  pub delta_ticks : Text
  pub bin_ns_field : Text
  pub bin_index : Text

abbrev pub Key : Type 0
Key = Text × (ℕ × ℕ)

pub record State : Type 0 where
  pub aggregates : Dict Key ThroughputAggregate
  pub csv_rows : List CsvRow

-- Where a launch was read: the trace, its rank, the variant and the file's name.
pub record Origin : Type 0 where
  pub trace_name : Text
  pub rank : ℕ
  pub variant : Text
  pub file_name : Text

abbrev pub row_of : Origin → ℕ → ℕ × ℕ → CsvRow
row_of o workgroup (sequence, delta) = record {
  trace = o.trace_name;
  rank = show o.rank;
  variant = o.variant;
  result_file = o.file_name;
  workgroup = show workgroup;
  sequence = show sequence;
  delta_ticks = show delta;
  bin_ns_field = show bin_ns;
  bin_index = show (delta / bin_ns);
}

-- `not accepted and not total_arrivals`
abbrev pub is_empty_launch : Launch → Bool
is_empty_launch l = eqb (length l.accepted) 0 && eqb (value_or 0 l.total_arrivals) 0

pub record_launch : Origin → State → Launch → State
record_launch o st l =
    let key : Key = (o.trace_name, (o.rank, l.workgroup)) in
    let old =
      value_or (new_aggregate o.trace_name o.rank o.variant l.workgroup) (get key st.aggregates) in
    let deltas = map (λ r. r.1) l.accepted in
    if is_empty_launch l then st else record {
      aggregates =
          put key (add_launch old deltas l.total_arrivals l.duration_ticks l.capacity)
            st.aggregates;
      csv_rows = st.csv_rows ++ map (row_of o l.workgroup) l.accepted;
    }

pub record_launches : Origin → State → List Launch → State
record_launches o st [] = st
record_launches o st (l ∷ ls) = record_launches o (record_launch o st l) ls

-- `hasattr(raw_slots[0], "value")` of a non-empty stream.
abbrev pub has_cells : List Slot → Bool
has_cells [] = false
has_cells (s ∷ _) = elim s.value [ none ↦ false | some _ ↦ true ]

abbrev pub legacy_launch : List Slot → ℕ → Launch
legacy_launch raw workgroup_base = record {
  workgroup = workgroup_base;
  accepted = accepted_records (inferred_throughput_records raw);
  total_arrivals = none;
  duration_ticks = none;
  capacity = length raw;
}

abbrev pub meta_launch : List Slot → ℕ → Meta → Launch
meta_launch raw workgroup_base m = record {
  workgroup = workgroup_base;
  accepted = accepted_records (take (min m.total_arrivals (length raw)) raw);
  total_arrivals = some m.total_arrivals;
  duration_ticks = some m.duration_ticks;
  capacity = length raw;
}

abbrev or_legacy : List Slot → ℕ → List Launch → List Launch
or_legacy raw workgroup_base [] = legacy_launch raw workgroup_base ∷ []
or_legacy raw workgroup_base (l ∷ ls) = l ∷ ls

-- The two-field layouts: with metadata, in partitions, or without any count.
pub two_field_launches : Option Meta → ℕ → ℕ → ℕ → ℕ → List Slot → Result (List Launch)
two_field_launches meta partitions block_index warp_index workgroup_base raw =
    let partitioned : Result (List Launch) = do
      launches ← throughput_partition_records raw block_index partitions (some workgroup_base)
      ok (or_legacy raw workgroup_base launches)
    in elim meta [
      | none ↦ partitioned
      | some m ↦
          if eqb warp_index 0 then ok (meta_launch raw workgroup_base m ∷ []) else partitioned
    ]

-- The launches of one warp stream.
pub stream_launches :
    Option (List (List (List Meta))) → ℕ → ℕ → ℕ → ℕ → ℕ × List Slot → Result (List Launch)
unfolding two_field_launches
stream_launches meta_records partitions block_index block_count warp_count (warp_index, raw) =
    let workgroup_base = workgroup_base_for_warp block_index block_count warp_count warp_index in
    if has_cells raw
    then throughput_workgroup_cell_records raw block_index (some workgroup_base)
    else two_field_launches (throughput_meta_record meta_records block_index) partitions block_index
        warp_index workgroup_base raw

-- One warp stream of a block.
pub read_stream :
    Origin → Parsed → ℕ → List (List (List Slot)) → ℕ → State → ℕ × List Slot → Result State
unfolding stream_launches record_launches record_launch
read_stream o parsed partitions records block_index st stream = do
  let warp_count = value_or 1 (Option.map length (get_elem? records block_index))
  launches ←
      stream_launches parsed.throughput_meta partitions block_index (length records) warp_count
        stream
  ok (record_launches o st launches)

pub read_block : Origin → Parsed → ℕ → List (List (List Slot)) → State → ℕ → Result State
unfolding read_stream
read_block o parsed partitions records st block_index =
    fold (read_stream o parsed partitions records block_index) st
      (warp_record_streams records block_index)

pub read_records : Origin → Parsed → ℕ → State → Option (List (List (List Slot))) → Result State
unfolding read_block
read_records o parsed partitions st none = ok st
read_records o parsed partitions st (some records) =
    fold (read_block o parsed partitions records) st (range (length records))

module _ {File : Type 0} (load_reader : Dir File → Result (File → Result Parsed))
    (match_rank : Text → Option ℕ) (variant : Text) where
  pub read_file : Text → ℕ → (File → Result Parsed) → ℕ → State → Text × File → Result State
  unfolding read_records
  read_file trace_name rank parse partitions st (file_name, file) = do
    parsed ← parse file
    let o : Origin = record {
      trace_name = trace_name;
      rank = rank;
      variant = variant;
      file_name = file_name;
    }
    read_records o parsed partitions st parsed.throughput

  pub read_dir : ℕ → State → Text × Dir File → Result State
  unfolding read_file
  read_dir partitions st (trace_name, trace_dir) = do
    parse ← load_reader trace_dir
    rank ← parse_rank match_rank trace_dir
    fold (read_file trace_name rank parse partitions) st (bin_files trace_dir)

  unfoldable pub read_throughput_root :
      Environ → Root File → Result (List ThroughputAggregate × List CsvRow)
  unfolding read_dir
  read_throughput_root env root = do
    partitions ← throughput_partitions env
    dirs ← iter_trace_dirs root
    st ← fold (read_dir partitions) (record { aggregates = []; csv_rows = [] }) dirs
    ok (values st.aggregates, st.csv_rows)
