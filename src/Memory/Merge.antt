-- ===== src/Memory/Merge.antt =====
-- The merge of analysis/memory.py: probe bytes into PM Sampling rows and the rewritten CSV files.
-- The generated reader, the rank pattern and floats are parameters; writing a file succeeds.
pub mod Columns
use Prim.Native.String.{String}
use fabricperf.Prelude.{
  ℕ, Bool, true, false, ◌||◌, Option, none, some, List, [], ◌∷◌, ◌++◌, map, if◌then◌else◌,
}
use fabricperf.Prelude.Int.{ℤ, pos, int_eq}
use fabricperf.Prelude.Keys.{nat_eq, list_eq, string_eq, pair_eq}
use fabricperf.Prelude.Dict.{Dict, get, put, value_or}
use fabricperf.Prelude.Text.{Text, codes, parse_int}
use fabricperf.Prelude.Result.{Result, ok, raise, value_error, file_not_found_error, ◌>>=◌, fold}
use fabricperf.Prelude.Float.{FloatOps}
use fabricperf.Trace.{Csv, Dir, Root, FileSystem, iter_trace_dirs, resolve_trace_root}
use fabricperf.Memory.Metrics.{
  Row, Metrics, field, parse_raw_metrics, format_raw_metrics, float_field, bps_from_bytes,
  number_field, LongFiles, write_long_metrics_csv,
}
use fabricperf.Memory.Probe.{
  ByLaunch, Parsed, ProbeByteRow, ProbeKey, read_bytes, write_bytes, read_probe_byte_stats,
  collect_probe_byte_stats_by_rank,
}

-- The raw metrics that the probe adds.
abbrev pub probe_metrics : ProbeByteRow → List (Text × Text)
probe_metrics probe =
    (codes "fabricperf_probe_backend", codes "neutrino_probe")
    ∷ (codes "probe_merge_key", codes "launch_index")
    ∷ (codes "probe_records", number_field probe.records)
    ∷ (codes "probe_ld_global_bytes", number_field probe.ld_global_bytes)
    ∷ (codes "probe_st_global_bytes", number_field probe.st_global_bytes)
    ∷ (codes "probe_cp_async_bytes", number_field probe.cp_async_bytes)
    ∷ (codes "probe_read_bytes", number_field (read_bytes probe))
    ∷ (codes "probe_write_bytes", number_field (write_bytes probe))
    ∷ []

-- Assignments in order.
abbrev pub put_all : List (Text × Text) → Metrics → Metrics
put_all [] d = d
put_all ((k, v) ∷ es) d = put_all es (put k v d)

abbrev pub set_all : List (String × Text) → Row → Row
set_all [] d = d
set_all ((k, v) ∷ es) d = set_all es (put k v d)

-- `int(row.get(name, "0") or "0")`, with 0 for its `ValueError`.
abbrev pub int_field : String → Row → ℤ
int_field name row = value_or (pos 0) (parse_int (value_or (codes "0") (get name row)))

-- What the analyzer writes: the wide rows under their field names, and the long files.
pub record Written : Type 0 where
  pub fieldnames : List String
  pub rows : List Row
  pub long : LongFiles

module _ (ops : FloatOps) where
  -- The wide columns that the probe overwrites.
  abbrev pub probe_columns : Row → ProbeByteRow → List (String × Text)
  probe_columns row probe =
      let duration_s = float_field ops (get "duration_s" row) in
      ("dram_read_Bps", bps_from_bytes ops (read_bytes probe) duration_s)
      ∷ ("dram_write_Bps", bps_from_bytes ops (write_bytes probe) duration_s)
      ∷ ("xbar_read_Bps", bps_from_bytes ops (read_bytes probe) duration_s)
      ∷ ("xbar_write_Bps", bps_from_bytes ops (write_bytes probe) duration_s)
      ∷ ("xbar_metric", codes "fabricperf_probe_read_bytes")
      ∷ ("xbar_value", number_field (read_bytes probe))
      ∷ []

  unfoldable pub merge_probe_bytes_into_row : Row → ProbeByteRow → Result Row
  unfolding parse_raw_metrics format_raw_metrics
  merge_probe_bytes_into_row row probe = do
    let (order, raw) = parse_raw_metrics (field "raw_metrics" row)
    text ← format_raw_metrics order (put_all (probe_metrics probe) raw)
    ok (put "raw_metrics" text (set_all (probe_columns row probe) row))

  abbrev pub merge_found : Row → Option ProbeByteRow → Result Row
  merge_found row none = ok row
  merge_found row (some probe) = merge_probe_bytes_into_row row probe

  abbrev pub merge_rows : (Row → Option ProbeByteRow) → List Row → Result (List Row)
  merge_rows probe_of [] = ok []
  merge_rows probe_of (row ∷ rows) = do
    merged ← merge_found row (probe_of row)
    rest ← merge_rows probe_of rows
    ok (merged ∷ rest)

  abbrev pub written : List String → List Row → Written
  written fieldnames rows = record {
    fieldnames = fieldnames;
    rows = map (λ row. map (λ name. (name, field name row)) fieldnames) rows;
    long = write_long_metrics_csv rows;
  }

  module _ {File : Type 0} (load_reader : Dir File → Result (File → Result Parsed))
      (match_rank : Text → Option ℕ) where
    abbrev pub rewrite_root : Root File → List String → List Row → Result (Option Written)
    rewrite_root root fieldnames [] = ok none
    rewrite_root root fieldnames (r ∷ rs) = do
      probe_by_rank ← collect_probe_byte_stats_by_rank load_reader match_rank root
      let probe_of : Row → Option ProbeByteRow =
          λ row. get (int_field "rank" row, int_field "launch_index" row) probe_by_rank
      merged ← merge_rows probe_of (r ∷ rs)
      ok (some (written fieldnames merged))

    unfoldable pub merge_existing_root_memory_csv : Root File → Result (Option Written)
    unfolding merge_probe_bytes_into_row
    merge_existing_root_memory_csv root = elim (root.self).csv [
      | none ↦ ok none
      | some csv ↦ rewrite_root root csv.fieldnames csv.rows
    ]

    abbrev pub launch_probe : Option ByLaunch → Row → Option ProbeByteRow
    launch_probe none row = none
    launch_probe (some by_launch) row = get (int_field "launch_index" row) by_launch

    -- The field names of the first CSV, and the rows of all.
    abbrev pub Merged : Type 0
    Merged = Option (List String) × List Row

    abbrev pub merge_csv : Dir File → Merged → Option Csv → Result Merged
    merge_csv d merged none = ok merged
    merge_csv d (fieldnames, rows) (some csv) = do
      probe_stats ← read_probe_byte_stats load_reader match_rank d
      more ← merge_rows (launch_probe probe_stats) csv.rows
      ok (some (value_or csv.fieldnames fieldnames), rows ++ more)

    abbrev pub merge_dir : Merged → Text × Dir File → Result Merged
    merge_dir merged (_, d) = merge_csv d merged d.csv

    abbrev pub write_merged : Merged → Option Written
    write_merged (none, rows) = none
    write_merged (some fieldnames, []) = none
    write_merged (some fieldnames, r ∷ rs) = some (written fieldnames (r ∷ rs))

    -- `except FileNotFoundError: return False`
    abbrev pub merge_items : Result (List (Text × Dir File)) → Result (Option Written)
    merge_items (raise file_not_found_error m) = ok none
    merge_items (raise kind m) = raise kind m
    merge_items (ok items) = do
      let start : Merged = (none, [])
      merged ← fold merge_dir start items
      ok (write_merged merged)

    abbrev pub or_items : Root File → Option Written → Result (Option Written)
    or_items root (some w) = ok (some w)
    or_items root none = merge_items (iter_trace_dirs root)

    unfoldable pub merge_one_pass_probe_output : Root File → Result (Option Written)
    unfolding merge_existing_root_memory_csv
    merge_one_pass_probe_output root =
        merge_existing_root_memory_csv root >>= λ existing. or_items root existing

    abbrev pub merged_roots : FileSystem File → List Text → Result (List (Text × Option Written))
    merged_roots fs [] = ok []
    merged_roots fs (raw ∷ raws) = do
      root ← resolve_trace_root fs raw
      merged ← merge_one_pass_probe_output (fs.open_root root)
      rest ← merged_roots fs raws
      ok ((root, merged) ∷ rest)

    abbrev pub any_merged : List (Text × Option Written) → Bool
    any_merged [] = false
    any_merged ((_, none) ∷ rs) = any_merged rs
    any_merged ((_, some w) ∷ rs) = true

    -- What is written below each root.
    unfoldable pub analyze_memory_roots :
        FileSystem File → List Text → Result (List (Text × Option Written))
    analyze_memory_roots fs raw_roots = do
      merged ← merged_roots fs raw_roots
      if any_merged merged
          then ok merged
          else raise value_error (codes "no FabricPerf memory PM/probe output found")
