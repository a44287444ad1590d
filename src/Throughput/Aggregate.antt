-- ===== src/Throughput/Aggregate.antt =====
-- `ThroughputAggregate` of analysis/throughput.py: the running totals of one workgroup.
pub mod Totals
use fabricperf.Prelude.{
  ℕ, ◌+◌, ◌-◌, ◌*◌, ◌/◌, ◌^◌, min, max, Bool, true, false, ◌&&◌, Option, none, some, List, [], ◌∷◌,
  ◌++◌, map, ltb, leb, eqb, if◌then◌else◌, length, maximum,
}
use fabricperf.Prelude.Int.{pos}
use fabricperf.Prelude.Keys.{nat_eq}
use fabricperf.Prelude.Dict.{Dict, get, put, value_or, values}
use fabricperf.Prelude.Text.{Text, codes, show}
use fabricperf.Prelude.Float.{FloatOps}

abbrev pub bin_ns : ℕ
bin_ns = 8000

pub record ThroughputAggregate : Type 0 where
  pub trace_name : Text
  pub rank : ℕ
  pub variant : Text
  pub workgroup : ℕ
  pub captured : ℕ
  pub dropped : ℕ
  pub dropped_unknown : Bool
  pub duration_ticks : ℕ
  pub bin_counts : Dict ℕ ℕ

abbrev pub new_aggregate : Text → ℕ → Text → ℕ → ThroughputAggregate
new_aggregate trace_name rank variant workgroup = record {
  trace_name = trace_name;
  rank = rank;
  variant = variant;
  workgroup = workgroup;
  captured = 0;
  dropped = 0;
  dropped_unknown = false;
  duration_ticks = 0;
  bin_counts = [];
}

-- The loop `self.bin_counts[delta // THROUGHPUT_BIN_NS] += 1`.
unfoldable pub count_bins : List ℕ → Dict ℕ ℕ → Dict ℕ ℕ
count_bins [] bins = bins
count_bins (delta ∷ deltas) bins =
    let bin = delta / bin_ns in count_bins deltas (put bin (value_or 0 (get bin bins) + 1) bins)

-- The arrivals that the header counts beyond the capacity: `max(0, total - min(total, capacity))`.
abbrev pub excess : Option ℕ → ℕ → ℕ
excess none capacity = 0
excess (some total) capacity = max 0 (total - min total capacity)

-- Without a total, a full stream may have lost arrivals.
abbrev pub may_overflow : Option ℕ → ℕ → ℕ → Bool
may_overflow none captured capacity = leb capacity captured
may_overflow (some total) captured capacity = false

abbrev pub longest : List ℕ → ℕ
longest [] = 0
longest (delta ∷ deltas) = maximum delta deltas

-- The recorded duration if it is positive, else the largest delta, if there is one.
abbrev pub launch_ticks : List ℕ → Option ℕ → ℕ
launch_ticks deltas none = longest deltas
launch_ticks deltas (some ticks) = if ltb 0 ticks then ticks else longest deltas

unfoldable pub add_launch :
    ThroughputAggregate → List ℕ → Option ℕ → Option ℕ → ℕ → ThroughputAggregate
add_launch a deltas total_arrivals duration capacity = record a {
  captured = a.captured + length deltas;
  dropped = a.dropped + excess total_arrivals capacity;
  dropped_unknown =
      if may_overflow total_arrivals (length deltas) capacity then true else a.dropped_unknown;
  duration_ticks = a.duration_ticks + launch_ticks deltas duration;
  bin_counts = count_bins deltas a.bin_counts;
}

unfoldable pub dropped_field : ThroughputAggregate → Text
dropped_field a =
    if a.dropped_unknown && eqb a.dropped 0
    then codes "overflow"
    else if a.dropped_unknown
    then show a.dropped ++ codes "+"
    else show a.dropped

module _ (ops : FloatOps) where
  open ops use {Float, of_int, mul, div}

  unfoldable pub avg_pps : ThroughputAggregate → Float
  avg_pps a =
      if leb a.duration_ticks 0
      then of_int (pos 0)
      else div (mul (of_int (pos a.captured)) (of_int (pos (10 ^ 9))))
          (of_int (pos a.duration_ticks))

  abbrev pub peak : List ℕ → Float
  peak [] = of_int (pos 0)
  peak (n ∷ ns) =
      div (mul (of_int (pos (maximum n ns))) (of_int (pos (10 ^ 9)))) (of_int (pos bin_ns))

  unfoldable pub peak_bin_pps : ThroughputAggregate → Float
  peak_bin_pps a = peak (values a.bin_counts)
