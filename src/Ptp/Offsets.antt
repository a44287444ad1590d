-- ===== src/Ptp/Offsets.antt =====
-- Pair offsets of analysis/ptp_alignment.py: `derive_root_relative_offsets` and the residuals.
pub mod Derived
pub mod Closure
pub mod Measured
use fabricperf.Prelude.{
  ℕ, ◌+◌, ◌-◌, ◌||◌, Bool, true, false, not, ◌&&◌, Option, none, some, List, [], ◌∷◌, ◌++◌, map,
  eqb, if◌then◌else◌, length, replicate, range, range_from, maximum, keep,
}
use mathlib.Core.List.{flatten}
use fabricperf.Prelude.Int.{ℤ, pos, ◌+ℤ◌, ◌-ℤ◌, neg_ℤ}
use fabricperf.Prelude.Keys.{Eq, nat_eq, pair_eq, ◌==◌}
use fabricperf.Prelude.Dict.{Dict, get, put, assign, value_or, values}

-- Offsets by ordered `(src, dst)` pair.
abbrev pub PairOffsets : Type 0
PairOffsets = Dict (ℕ × ℕ) (List ℤ)

-- `pair_offsets.get((src, dst), [])`
abbrev pub offsets_of : PairOffsets → ℕ → ℕ → List ℤ
offsets_of pair_offsets src dst = value_or [] (get (src, dst) pair_offsets)

abbrev pub is_empty {ℓ} : {A : Type ℓ} → List A → Bool
is_empty [] = true
is_empty (_ ∷ _) = false

-- `[first[i] + second[i] for i in range(count)]`, with `count` the lesser length.
abbrev pub sums : List ℤ → List ℤ → List ℤ
sums (x ∷ xs) (y ∷ ys) = (x +ℤ y) ∷ sums xs ys
sums _ _ = []

abbrev pub differences : List ℤ → List ℤ → List ℤ
differences (x ∷ xs) (y ∷ ys) = (x -ℤ y) ∷ differences xs ys
differences _ _ = []

-- The direct samples of `root` to `rank`, or else the negated inverse ones.
abbrev first_series : List ℤ → List ℤ → List ℤ
first_series [] inverse = map neg_ℤ inverse
first_series (x ∷ direct) inverse = x ∷ direct

abbrev pub measured : PairOffsets → ℕ → ℕ → List ℤ
measured pair_offsets root rank =
    first_series (offsets_of pair_offsets root rank) (offsets_of pair_offsets rank root)

-- The ranks that get a series of their own.
abbrev pub has_series : PairOffsets → ℕ → ℕ → Bool
has_series pair_offsets root rank =
    not (eqb rank root) && not (is_empty (measured pair_offsets root rank))

abbrev pub longest : List ℕ → ℕ
longest [] = 0
longest (n ∷ ns) = maximum n ns

abbrev pub measured_series : PairOffsets → ℕ → ℕ → Dict ℕ (List ℤ)
measured_series pair_offsets devices root =
    assign (has_series pair_offsets root) (measured pair_offsets root) (range devices) []

abbrev pub root_zeros : PairOffsets → ℕ → ℕ → List ℤ
root_zeros pair_offsets devices root =
    replicate (longest (map length (values (measured_series pair_offsets devices root)))) (pos 0)

-- `root_series`, with the root's own zeros put in last.
unfoldable pub root_series : PairOffsets → ℕ → ℕ → Dict ℕ (List ℤ)
root_series pair_offsets devices root =
    put root (root_zeros pair_offsets devices root) (measured_series pair_offsets devices root)

-- The pairs of the nested loop over `src` and `dst`.
abbrev pub pairs : ℕ → List (ℕ × ℕ)
pairs devices = flatten (map (λ src. map (λ dst. (src, dst)) (range devices)) (range devices))

abbrev pub series_at : Dict ℕ (List ℤ) → ℕ → List ℤ
series_at series rank = value_or [] (get rank series)

abbrev pub derived_at : Dict ℕ (List ℤ) → ℕ × ℕ → List ℤ
derived_at series (src, dst) = differences (series_at series dst) (series_at series src)

-- A rank without a series counts no samples, as an empty series does.
abbrev pub is_derived : Dict ℕ (List ℤ) → ℕ × ℕ → Bool
is_derived series (src, dst) = not (eqb src dst) && not (is_empty (derived_at series (src, dst)))

unfoldable pub derive_root_relative_offsets : PairOffsets → ℕ → ℕ → PairOffsets
unfolding root_series
derive_root_relative_offsets pair_offsets devices root =
    let series = root_series pair_offsets devices root in
    assign (is_derived series) (derived_at series) (pairs devices) []

unfoldable pub closure_residuals : PairOffsets → ℕ → ℕ → ℕ → List ℤ
closure_residuals pair_offsets src mid dst =
    differences (offsets_of pair_offsets src dst)
      (sums (offsets_of pair_offsets src mid) (offsets_of pair_offsets mid dst))

unfoldable pub reciprocal_residuals : PairOffsets → ℕ → ℕ → List ℤ
reciprocal_residuals pair_offsets first second =
    sums (offsets_of pair_offsets first second) (offsets_of pair_offsets second first)

-- `all_closure_summaries` and `all_reciprocal_summaries`, for a summary of a list of residuals.
module _ {S : Type 0} (summarize : List ℤ → S) where
  abbrev closure_row : PairOffsets → ℕ → ℕ → ℕ → List ℤ → List (ℕ × ℕ × ℕ × S)
  closure_row pair_offsets src mid dst rs =
      if eqb src mid || (eqb mid dst || (eqb src dst || is_empty rs))
      then []
      else (src, mid, dst, summarize rs) ∷ []

  unfoldable pub all_closure_summaries : PairOffsets → ℕ → List (ℕ × ℕ × ℕ × S)
  unfolding closure_residuals
  all_closure_summaries pair_offsets devices = flatten (
      map
        (λ src. flatten (
          map
            (λ mid. flatten (
              map
                (λ dst.
                  closure_row pair_offsets src mid dst (closure_residuals pair_offsets src mid dst))
                (range devices)))
            (range devices)))
        (range devices))

  abbrev reciprocal_row : ℕ → ℕ → List ℤ → List (ℕ × ℕ × S)
  reciprocal_row first second rs = if is_empty rs then [] else (first, second, summarize rs) ∷ []

  unfoldable pub all_reciprocal_summaries : PairOffsets → ℕ → List (ℕ × ℕ × S)
  unfolding reciprocal_residuals
  all_reciprocal_summaries pair_offsets devices = flatten (
      map
        (λ first. flatten (
          map
            (λ second. reciprocal_row first second (reciprocal_residuals pair_offsets first second))
            (range_from (first + 1) (devices - (first + 1)))))
        (range devices))
