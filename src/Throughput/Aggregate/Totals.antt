-- ===== src/Throughput/Aggregate/Totals.antt =====
-- What `add_launch` of analysis/throughput.py accumulates: arrivals, drops and bins.
use fabricperf.Prelude.{
  ℕ, ◌+◌, ◌-◌, ◌/◌, ◌≡◌, refl, ap, ◌∙◌, ◌||◌, min, Bool, false, Option, none, some, List, [], ◌∷◌,
  map, arith, eqb, length, keep, All, sum_by, length-map,
}
use fabricperf.Prelude.Keys.{nat_eq}
use fabricperf.Prelude.Dict.{Dict, get, put, value_or, part, sum_values, sum_values-put, get-put}
use fabricperf.Prelude.Text.{Text, show}
use fabricperf.Throughput.Records.{Launch}
use fabricperf.Throughput.Aggregate.{
  ThroughputAggregate, new_aggregate, bin_ns, count_bins, may_overflow, add_launch, dropped_field,
}

-- How many deltas fall into a bin.
abbrev pub in_bin : ℕ → List ℕ → ℕ
in_bin bin deltas = length (keep (λ d. eqb (d / bin_ns) bin) deltas)

-- The launches of one workgroup, added in turn.
abbrev pub add_launches : ThroughputAggregate → List Launch → ThroughputAggregate
add_launches a [] = a
add_launches a (l ∷ ls) =
    add_launches
      (add_launch a (map (λ r. r.1) l.accepted) l.total_arrivals l.duration_ticks l.capacity) ls

abbrev pub total_of : Launch → ℕ
total_of l = value_or 0 l.total_arrivals

-- The launch's header says how many arrivals there were, and the stream keeps what fits.
abbrev pub IsCounted : Launch → Type 0
IsCounted l = (t : ℕ) × (l.total_arrivals ≡ some t) × (length l.accepted ≡ min t l.capacity)

part-value : (o : Option ℕ) → part (λ n. n) o ≡ value_or 0 o
part-value none = refl
part-value (some n) = refl

pub sum-count_bins :
    (deltas : List ℕ) (bins : Dict ℕ ℕ)
    → sum_values (λ n. n) (count_bins deltas bins) ≡ sum_values (λ n. n) bins + length deltas
unfolding count_bins
sum-count_bins [] bins = omega arith
sum-count_bins (d ∷ deltas) bins =
    let b = d / bin_ns in
    let n = value_or 0 (get b bins) in
    omega (
      arith,
      sum-count_bins deltas (put b (n + 1) bins),
      sum_values-put (λ n. n) b (n + 1) bins,
      part-value (get b bins),
    )

pub get-count_bins :
    (bin : ℕ) (deltas : List ℕ) (bins : Dict ℕ ℕ)
    → value_or 0 (get bin (count_bins deltas bins)) ≡ value_or 0 (get bin bins) + in_bin bin deltas
unfolding count_bins
get-count_bins bin [] bins = omega arith
get-count_bins bin (d ∷ deltas) bins =
    let b = d / bin_ns in
    let n = value_or 0 (get b bins) in
    ground (arith, get-count_bins bin deltas (put b (n + 1) bins), get-put b bin (n + 1) bins)

step : ThroughputAggregate → Launch → ThroughputAggregate
step a l = add_launch a (map (λ r. r.1) l.accepted) l.total_arrivals l.duration_ticks l.capacity

step_counted :
    (a : ThroughputAggregate) (l : Launch)
    → IsCounted l
    → ((step a l).captured + (step a l).dropped ≡ a.captured + a.dropped + total_of l)
      × ((step a l).dropped_unknown ≡ a.dropped_unknown)
unfolding step add_launch
step_counted a l (t, e, k) = rw e (omega (arith, length-map (λ (r : ℕ × ℕ). r.1) l.accepted), refl)

-- If every launch has a total and keeps as many arrivals as fit, then captured and dropped
-- arrivals together grow by all arrivals that the headers count, and the overflow mark stays as it
-- was.
pub captured_dropped-add_launches :
    (a : ThroughputAggregate) (ls : List Launch)
    → All IsCounted ls
    → ((add_launches a ls).captured + (add_launches a ls).dropped
        ≡ a.captured + a.dropped + sum_by total_of ls)
      × ((add_launches a ls).dropped_unknown ≡ a.dropped_unknown)
unfolding step
captured_dropped-add_launches a [] h = (omega arith, refl)
captured_dropped-add_launches a (l ∷ ls) h =
    let (sums, mark) = step_counted a l h.0 in
    let (sums', mark') = captured_dropped-add_launches (step a l) ls h.1 in
    (omega arith, mark' ∙ mark)

-- A launch without a total whose stream is full.
abbrev pub is_marked : Launch → Bool
is_marked l = may_overflow l.total_arrivals (length l.accepted) l.capacity

abbrev pub any_marked : List Launch → Bool
any_marked [] = false
any_marked (l ∷ ls) = is_marked l || any_marked ls

step_mark :
    (a : ThroughputAggregate) (l : Launch)
    → (step a l).dropped_unknown ≡ (is_marked l || a.dropped_unknown)
unfolding step add_launch
step_mark a l = rw length-map (ground arith)

-- The overflow mark is set exactly if it was set before or some launch without a total is full.
pub dropped_unknown-add_launches :
    (a : ThroughputAggregate) (ls : List Launch)
    → (add_launches a ls).dropped_unknown ≡ (any_marked ls || a.dropped_unknown)
unfolding step
dropped_unknown-add_launches a [] = refl
dropped_unknown-add_launches a (l ∷ ls) =
    ground (arith, dropped_unknown-add_launches (step a l) ls, step_mark a l)

step_sum :
    (a : ThroughputAggregate) (l : Launch)
    → sum_values (λ n. n) a.bin_counts ≡ a.captured
    → sum_values (λ n. n) (step a l).bin_counts ≡ (step a l).captured
unfolding step add_launch
step_sum a l h = omega (arith, sum-count_bins (map (λ r. r.1) l.accepted) a.bin_counts)

step_bin :
    (bin : ℕ) (a : ThroughputAggregate) (l : Launch)
    → value_or 0 (get bin (step a l).bin_counts)
      ≡ value_or 0 (get bin a.bin_counts) + in_bin bin (map (λ r. r.1) l.accepted)
unfolding step add_launch
step_bin bin a l = get-count_bins bin (map (λ r. r.1) l.accepted) a.bin_counts

-- Every captured arrival is in one bin, the one of its delta: if the counts of the bins add up to the
-- captured arrivals, they still do after the launches, and each bin has grown by the arrivals that
-- fall into it.
pub bin_counts-add_launches :
    (a : ThroughputAggregate) (ls : List Launch)
    → sum_values (λ n. n) a.bin_counts ≡ a.captured
    → (sum_values (λ n. n) (add_launches a ls).bin_counts ≡ (add_launches a ls).captured)
      × ((bin : ℕ)
          → value_or 0 (get bin (add_launches a ls).bin_counts)
            ≡ value_or 0 (get bin a.bin_counts)
              + sum_by (λ (l : Launch). in_bin bin (map (λ r. r.1) l.accepted)) ls)
unfolding step
bin_counts-add_launches a [] h = (h, λ bin. omega arith)
bin_counts-add_launches a (l ∷ ls) h =
    let (sums, bins) = bin_counts-add_launches (step a l) ls (step_sum a l h) in
    (sums, λ bin. omega (arith, bins bin, step_bin bin a l))

-- Launches that are all counted report as dropped exactly the arrivals that were not captured.
pub dropped_field-add_launches :
    (trace : Text) (rank : ℕ) (variant : Text) (workgroup : ℕ) (ls : List Launch)
    → All IsCounted ls
    → dropped_field (add_launches (new_aggregate trace rank variant workgroup) ls)
      ≡ show (
          sum_by total_of ls
          - (add_launches (new_aggregate trace rank variant workgroup) ls).captured)
unfolding dropped_field
dropped_field-add_launches trace rank variant workgroup ls h =
    let a = new_aggregate trace rank variant workgroup in
    let (sums, mark) = captured_dropped-add_launches a ls h in rw mark (ap show (omega arith))
