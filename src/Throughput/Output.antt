-- ===== src/Throughput/Output.antt =====
-- The summary rows and the run over all roots of analysis/throughput.py; printing is left out.
pub mod Captured
use fabricperf.Prelude.{
  ℕ, Bool, true, false, ◌&&◌, ◌||◌, Option, none, some, List, [], ◌∷◌, ◌++◌, map, eqb, ltb, leb,
  if◌then◌else◌,
}
use fabricperf.Prelude.Int.{ℤ, pos, pos_part, neg_part}
use fabricperf.Prelude.Keys.{◌==◌, nat_eq, list_eq}
use fabricperf.Prelude.Text.{Text, codes, show}
use fabricperf.Prelude.Sort.{sort, text_le}
use fabricperf.Prelude.Float.{FloatOps}
use fabricperf.Prelude.Result.{Result, ok, raise, value_error, ◌>>=◌}
use fabricperf.Modes.{Environ}
use fabricperf.Trace.{Dir, FileSystem, resolve_trace_root}
use fabricperf.Throughput.Aggregate.{
  ThroughputAggregate, dropped_field, avg_pps, peak_bin_pps, bin_ns,
}
use fabricperf.Throughput.Reader.{Parsed, CsvRow, read_throughput_root}

-- The order of the key `(trace_name, rank, workgroup)`.
unfoldable pub aggregate_le : ThroughputAggregate → ThroughputAggregate → Bool
aggregate_le a b =
    if a.trace_name == b.trace_name
    then ltb a.rank b.rank || (eqb a.rank b.rank && leb a.workgroup b.workgroup)
    else text_le a.trace_name b.trace_name

-- `str(n)` of an integer.
abbrev pub show_int : ℤ → Text
show_int (pos n) = show n
show_int n = codes "-" ++ show (neg_part n)

module _ (ops : FloatOps) where
  unfoldable pub format_float : ops.Float → Text
  format_float x = if ops.is_integer x then show_int (ops.to_int x) else ops.fixed_two x

  unfoldable pub summary_row : ThroughputAggregate → List Text
  unfolding format_float
  summary_row a =
      a.trace_name
      ∷ show a.rank
      ∷ a.variant
      ∷ show a.workgroup
      ∷ show a.captured
      ∷ dropped_field a
      ∷ show a.duration_ticks
      ∷ format_float (avg_pps ops a)
      ∷ format_float (peak_bin_pps ops a)
      ∷ show bin_ns
      ∷ []

  unfoldable pub rows_for_throughput : List ThroughputAggregate → List (List Text)
  unfolding summary_row aggregate_le
  rows_for_throughput aggregates = map summary_row (sort aggregate_le aggregates)

-- The aggregates of all roots, and the CSV rows written below each root.
pub record Output : Type 0 where
  pub all_aggregates : List ThroughputAggregate
  pub written : List (Text × List CsvRow)

abbrev pub is_something : List ThroughputAggregate → Bool
is_something [] = false
is_something (_ ∷ _) = true

module _ {File : Type 0} (load_reader : Dir File → Result (File → Result Parsed))
    (match_rank : Text → Option ℕ) (variant : Text) where
  unfoldable pub read_roots : FileSystem File → Environ → Output → List Text → Result Output
  read_roots fs env out [] = ok out
  read_roots fs env out (raw ∷ raws) = do
    root ← resolve_trace_root fs raw
    (aggregates, csv_rows) ←
        read_throughput_root load_reader match_rank variant env (fs.open_root root)
    read_roots fs env
        (record {
          all_aggregates = out.all_aggregates ++ aggregates;
          written = out.written ++ (root, csv_rows) ∷ [];
        })
        raws

  unfoldable pub analyze_throughput_roots : FileSystem File → Environ → List Text → Result Output
  unfolding read_roots
  analyze_throughput_roots fs env raw_roots = do
    out ← read_roots fs env (record { all_aggregates = []; written = [] }) raw_roots
    if is_something out.all_aggregates
        then ok out
        else raise value_error (codes "no FabricPerf throughput output found")
