-- ===== src/Mailbox/Summary.antt =====
-- The counts of analysis/mailbox_debug.py: `summarize_pair` and the counters and groups of
-- `analyze_root`. The means and medians of Python's `statistics` are parameters.
pub mod Counts
use fabricperf.Prelude.{
  ℕ, ◌+◌, ◌-◌, Bool, not, ◌&&◌, Option, none, some, List, [], ◌∷◌, ◌++◌, map, eqb, if◌then◌else◌,
  length, keep,
}
use fabricperf.Prelude.Int.{ℤ, pos, ◌-ℤ◌, neg_ℤ, ltb_ℤ, leb_ℤ, eqb_ℤ, int_eq}
use fabricperf.Prelude.Keys.{nat_eq, pair_eq}
use fabricperf.Prelude.Dict.{Dict, get, put, value_or}
use fabricperf.Mailbox.Reader.{DebugRecord}

pub record PairSummary (Float : Type 0) : Type 0 where
  pub total : ℕ
  pub invalid : ℕ
  pub positive : ℕ
  pub negative : ℕ
  pub huge : ℕ
  pub bounded_count : ℕ
  pub bounded_mean : Option Float
  pub bounded_p50 : Option Float
  pub min_latency : Option ℤ
  pub max_latency : Option ℤ

-- `sum(1 for x in xs if test(x))`
abbrev pub count {ℓ} : {A : Type ℓ} → (A → Bool) → List A → ℕ
count test xs = length (keep test xs)

abbrev pub is_bounded : ℤ → ℤ → Bool
is_bounded bound value = leb_ℤ (neg_ℤ bound) value && leb_ℤ value bound

abbrev pub above : ℤ → ℤ → Bool
above bound value = ltb_ℤ bound value

abbrev pub below : ℤ → ℤ → Bool
below bound value = ltb_ℤ value (neg_ℤ bound)

-- `min` and `max` of a list with a first element.
abbrev pub least : ℤ → List ℤ → ℤ
least a [] = a
least a (x ∷ xs) = least (if ltb_ℤ x a then x else a) xs

abbrev pub greatest : ℤ → List ℤ → ℤ
greatest a [] = a
greatest a (x ∷ xs) = greatest (if ltb_ℤ a x then x else a) xs

abbrev pub of_some {ℓ} : {A : Type ℓ} → (ℤ → List ℤ → A) → List ℤ → Option A
of_some f [] = none
of_some f (x ∷ xs) = some (f x xs)

module _ {Float : Type 0} (fmean median : List ℤ → Float) where
  unfoldable pub summarize_pair : List ℤ → ℕ → ℤ → ℤ → PairSummary Float
  summarize_pair values invalid bound huge_bound =
      let bounded = keep (is_bounded bound) values in
      record {
        total = length values + invalid;
        invalid = invalid;
        positive = count (above bound) values;
        negative = count (below bound) values;
        huge = count (above huge_bound) values;
        bounded_count = length bounded;
        bounded_mean = of_some (λ x xs. fmean (x ∷ xs)) bounded;
        bounded_p50 = of_some (λ x xs. median (x ∷ xs)) bounded;
        min_latency = of_some least values;
        max_latency = of_some greatest values;
      }

abbrev pub is_valid : DebugRecord → Bool
is_valid r = not r.invalid

-- The counters of the first table.
pub record Counters : Type 0 where
  pub records : ℕ
  pub valid : ℕ
  pub invalid : ℕ
  pub kind_mismatch : ℕ
  pub step_mismatch : ℕ
  pub recompute_mismatch : ℕ
  pub future_sender : ℕ
  pub zero_sender : ℕ
  pub pos_outliers : ℕ
  pub neg_outliers : ℕ
  pub huge_outliers : ℕ

unfoldable pub counters : List DebugRecord → ℤ → ℤ → Counters
counters records bound huge_bound =
    let valid = keep is_valid records in
    record {
      records = length records;
      valid = length valid;
      invalid = length records - length valid;
      kind_mismatch = count (λ (r : DebugRecord). not (eqb r.tag_kind 160)) records;
      step_mismatch = count (λ (r : DebugRecord). not (eqb r.tag_step r.step)) records;
      recompute_mismatch =
          count
            (λ (r : DebugRecord). not (eqb_ℤ (r.local_time -ℤ r.corrected_sender_time) r.latency))
            valid;
      future_sender = count (λ (r : DebugRecord). ltb_ℤ r.local_time r.corrected_sender_time) valid;
      zero_sender = count (λ (r : DebugRecord). eqb_ℤ r.sender_time (pos 0)) records;
      pos_outliers = count (λ (r : DebugRecord). above bound r.latency) valid;
      neg_outliers = count (λ (r : DebugRecord). below bound r.latency) valid;
      huge_outliers = count (λ (r : DebugRecord). above huge_bound r.latency) valid;
    }

abbrev pub Pair : Type 0
Pair = ℤ × ℕ

-- `by_pair` and `invalid_by_pair`
pub record Groups : Type 0 where
  pub by_pair : Dict Pair (List ℤ)
  pub invalid_by_pair : Dict Pair ℕ

abbrev pub group_record : Groups → DebugRecord → Groups
group_record g r =
    let key : Pair = (r.src, r.rank) in
    if r.invalid
    then record g {
      invalid_by_pair = put key (value_or 0 (get key g.invalid_by_pair) + 1) g.invalid_by_pair;
    }
    else record g {
      by_pair = put key (value_or [] (get key g.by_pair) ++ r.latency ∷ []) g.by_pair;
    }

abbrev pub group_records : Groups → List DebugRecord → Groups
group_records g [] = g
group_records g (r ∷ rs) = group_records (group_record g r) rs

-- The summary of one pair, for the groups of all records.
module _ {Float : Type 0} (fmean median : List ℤ → Float) where
  unfoldable pub pair_summary : Groups → Pair → ℤ → ℤ → PairSummary Float
  unfolding summarize_pair
  pair_summary g key bound huge_bound =
      summarize_pair fmean median (value_or [] (get key g.by_pair))
        (value_or 0 (get key g.invalid_by_pair)) bound huge_bound
