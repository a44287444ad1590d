-- ===== src/Throughput/Output/Captured.antt =====
-- The rows of all roots that analysis/throughput.py writes, against the aggregates it prints.
use fabricperf.Prelude.{
  ℕ, ◌≡◌, refl, Bool, true, false, Option, List, [], ◌∷◌, ◌++◌, arith, length, sum_by,
  sum_by-append, if◌then◌else◌,
}
use mathlib.Core.Path.{subst}
use fabricperf.Prelude.Text.{Text}
use fabricperf.Prelude.Result.{Result, ok, raise, ErrorKind, bind-ok, ok_injective}
use fabricperf.Modes.{Environ}
use fabricperf.Trace.{Dir, FileSystem, resolve_trace_root}
use fabricperf.Throughput.Reader.{Parsed, CsvRow, read_throughput_root}
use fabricperf.Throughput.Reader.Rows.{captured_of, read_throughput_root_rows}
use fabricperf.Throughput.Output.{Output, is_something, read_roots, analyze_throughput_roots}

abbrev pub rows_at : Text × List CsvRow → ℕ
rows_at w = length w.1

abbrev IsComplete : Output → Type 0
IsComplete out = sum_by rows_at out.written ≡ sum_by captured_of out.all_aggregates

checked :
    (test : Bool) (kind : ErrorKind) (m : Text) {a b : Output}
    → (if test then ok a else raise kind m) ≡ ok b
    → a ≡ b
checked true kind m e = ok_injective e
checked false kind m e = absurd (cc)

module _ {File : Type 0} (load_reader : Dir File → Result (File → Result Parsed))
    (match_rank : Text → Option ℕ) (variant : Text) where
  read_roots-IsComplete :
      (fs : FileSystem File) (env : Environ) (out out' : Output) (raws : List Text)
      → IsComplete out
      → read_roots load_reader match_rank variant fs env out raws ≡ ok out'
      → IsComplete out'
  unfolding read_roots
  read_roots-IsComplete fs env out out' [] h e = subst IsComplete (ok_injective e) h
  read_roots-IsComplete fs env out out' (raw ∷ raws) h e =
      let (root, _, e₁) = bind-ok (resolve_trace_root fs raw) _ e in
      let (found, run, e₂) =
        bind-ok (read_throughput_root load_reader match_rank variant env (fs.open_root root)) _
          e₁ in
      let (_, _, _, _, rows) =
        read_throughput_root_rows load_reader match_rank variant env (fs.open_root root) found.0
          found.1 run in
      let next : Output = record {
        all_aggregates = out.all_aggregates ++ found.0;
        written = out.written ++ (root, found.1) ∷ [];
      } in
      read_roots-IsComplete fs env next out' raws
        (omega (
          arith,
          sum_by-append rows_at out.written ((root, found.1) ∷ []),
          sum_by-append captured_of out.all_aggregates found.0,
        ))
        e₂

  -- Over all roots, as many CSV rows are written as the printed aggregates captured arrivals.
  pub analyze_throughput_roots_rows :
      (fs : FileSystem File) (env : Environ) (raws : List Text) (out : Output)
      → analyze_throughput_roots load_reader match_rank variant fs env raws ≡ ok out
      → sum_by rows_at out.written ≡ sum_by captured_of out.all_aggregates
  unfolding analyze_throughput_roots
  analyze_throughput_roots_rows fs env raws out e =
      let start : Output = record { all_aggregates = []; written = [] } in
      let (found, run, done) =
        bind-ok (read_roots load_reader match_rank variant fs env start raws) _ e in
      subst IsComplete (checked (is_something found.all_aggregates) _ _ done)
        (read_roots-IsComplete fs env start found raws refl run)
