-- ===== src/Latency/Roots.antt =====
-- The run over all roots, `analyze_latency_roots` of analysis/latency.py; printing is left out.
pub mod Complete
use fabricperf.Prelude.{
  ℕ, Bool, ◌||◌, ◌&&◌, Option, none, some, List, [], ◌∷◌, ◌++◌, keep, ltb, leb, if◌then◌else◌,
}
use fabricperf.Prelude.Int.{ℤ}
use fabricperf.Prelude.Keys.{◌==◌, nat_eq, list_eq}
use fabricperf.Prelude.Text.{Text, codes, contains_text}
use fabricperf.Prelude.Sort.{sort, text_le}
use fabricperf.Prelude.Result.{Result, ok, raise, value_error, file_not_found_error, ◌>>=◌, fold}
use fabricperf.Trace.{Dir, FileSystem, resolve_trace_root, iter_trace_dirs}
use fabricperf.Latency.Compact.{Bytes, TraceHeader, TraceSection}
use fabricperf.Latency.Reader.{GeneratedReader, TraceStats, read_trace}

-- A trace without result files or without latency rows is passed over.
unfoldable pub append_stats : List TraceStats → Result TraceStats → Result (List TraceStats)
append_stats stats (ok s) = ok (stats ++ s ∷ [])
append_stats stats (raise file_not_found_error m) =
    if contains_text (codes "no result/*.bin files") m
    then ok stats
    else raise file_not_found_error m
append_stats stats (raise value_error m) =
    if contains_text (codes "no sr_latency records found") m then ok stats else raise value_error m
append_stats stats (raise kind m) = raise kind m

-- The order of the key `(trace_name, rank)`.
unfoldable pub stats_le : TraceStats → TraceStats → Bool
stats_le a b =
    if a.trace_name == b.trace_name then leb a.rank b.rank else text_le a.trace_name b.trace_name

-- The traces that `print_malformed_summary` names.
unfoldable pub malformed : List TraceStats → List TraceStats
malformed stats = keep (λ (s : TraceStats). ltb 0 s.skipped_malformed) stats

module _ (header_of : List ℤ → TraceHeader) (section_of : ℕ → ℕ → ℕ → TraceSection)
    (load_reader : Dir Bytes → Result GeneratedReader) (match_rank : Text → Option ℕ) where
  unfoldable pub read_dir : List TraceStats → Text × Dir Bytes → Result (List TraceStats)
  unfolding append_stats
  read_dir stats (trace_name, d) =
      append_stats stats (read_trace header_of section_of load_reader match_rank trace_name d)

  unfoldable pub read_root : FileSystem Bytes → List TraceStats → Text → Result (List TraceStats)
  unfolding read_dir
  read_root fs stats raw = do
    root ← resolve_trace_root fs raw
    dirs ← iter_trace_dirs (fs.open_root root)
    fold read_dir stats dirs

  abbrev pub nonempty : List TraceStats → Result (List TraceStats)
  nonempty [] = raise value_error (codes "no sr_latency records found under requested trace roots")
  nonempty (s ∷ stats) = ok (s ∷ stats)

  -- The statistics in the order of their table rows.
  unfoldable pub analyze_latency_roots : FileSystem Bytes → List Text → Result (List TraceStats)
  unfolding read_root stats_le
  analyze_latency_roots fs raw_roots = do
    stats ← fold (read_root fs) [] raw_roots
    found ← nonempty stats
    ok (sort stats_le found)
