-- ===== src/Ptp/Offsets/Measured.antt =====
-- Measured root samples survive `derive_root_relative_offsets` of analysis/ptp_alignment.py.
use fabricperf.Prelude.{
  ℕ, zero, suc, ◌≤◌, ◌<◌, ◌≡◌, ◌≢◌, refl, Bool, true, false, not, ◌&&◌, none, some, List, [], ◌∷◌,
  map, eqb, lt→ltb, if◌then◌else◌, length, replicate, maximum-le, All, arith,
}
use mathlib.Core.Path.{ap₂}
use fabricperf.Prelude.Int.{ℤ, pos, ◌-ℤ◌, -ℤ_parts, eq_of_parts}
use fabricperf.Prelude.Keys.{nat_eq, pair_eq}
use fabricperf.Prelude.Dict.{Dict, get, get-assign, All-get, value_or, values}
use fabricperf.Ptp.Offsets.{
  PairOffsets, offsets_of, is_empty, differences, measured, root_series, measured_series, longest,
  derived_at, derive_root_relative_offsets,
}
use fabricperf.Ptp.Offsets.Derived.{get-derive_root_relative_offsets, get-root_series, member-range}

minus_zero : (a : ℤ) → a -ℤ pos 0 ≡ a
minus_zero a = eq_of_parts (a -ℤ pos 0) a (omega (arith, -ℤ_parts a (pos 0)))

differences-replicate :
    (xs : List ℤ) (n : ℕ) → length xs ≤ n → differences xs (replicate n (pos 0)) ≡ xs
differences-replicate [] zero h = refl
differences-replicate [] (suc n) h = refl
differences-replicate (x ∷ xs) zero h = absurd (omega arith)
differences-replicate (x ∷ xs) (suc n) h =
    ap₂ ◌∷◌ (minus_zero x) (differences-replicate xs n (omega arith))

abbrev IsBelow : ℕ → ℕ × List ℤ → Type 0
IsBelow n e = length e.1 ≤ n

longest-le : (ns : List ℕ) → All (λ n. n ≤ longest ns) ns
longest-le [] = tt
longest-le (n ∷ ns) = maximum-le n ns

below : (n : ℕ) (d : Dict ℕ (List ℤ)) → All (λ k. k ≤ n) (map length (values d)) → All (IsBelow n) d
below n [] h = tt
below n (e ∷ d) h = (h.0, below n d h.1)

kept_if :
    (b : Bool) (xs : List ℤ)
    → b ≡ true
    → value_or [] (if b && not (is_empty xs) then some xs else none) ≡ xs
kept_if true [] h = refl
kept_if true (x ∷ xs) h = refl
kept_if false xs h = absurd (cc)

module _ (pair_offsets : PairOffsets) (devices root rank : ℕ) (h : rank < devices)
    (other : root ≢ rank) where
  apart : (eqb root rank ≡ false) × (eqb rank root ≡ false)
  apart =
      (ground (arith, λ (p : root ≡ rank). other p), ground (arith, λ (p : root ≡ rank). other p))

  measured_fits :
      (xs : List ℤ)
      → measured pair_offsets root rank ≡ xs
      → length xs ≤ longest (map length (values (measured_series pair_offsets devices root)))
  measured_fits [] q = omega arith
  measured_fits (x ∷ xs) q =
      let series = measured_series pair_offsets devices root in
      let bound = longest (map length (values series)) in
      let found : get rank series ≡ some (x ∷ xs) =
        rw (get-assign, member-range, lt→ltb rank devices h, apart.1, q) refl in
      All-get (IsBelow bound) rank (x ∷ xs) series
        (below bound series (longest-le (map length (values series)))) found

  -- The offsets derived from the root to another rank are the measured ones: the direct samples,
  -- or the negated inverse ones if there is no direct sample, if both are below the number of
  -- devices.
  pub offsets_of-derive_root_relative_offsets :
      root < devices
      → offsets_of (derive_root_relative_offsets pair_offsets devices root) root rank
        ≡ measured pair_offsets root rank
  offsets_of-derive_root_relative_offsets hr =
      let same : eqb root root ≡ true = ground arith in
      let (there, back) = apart in
      let fit = measured_fits (measured pair_offsets root rank) refl in
      let at : derived_at (root_series pair_offsets devices root) (root, rank)
          ≡ measured pair_offsets root rank =
        rw
          (
            get-root_series pair_offsets devices root root,
            get-root_series pair_offsets devices root rank,
            same,
            there,
            lt→ltb rank devices h,
          )
          (differences-replicate (measured pair_offsets root rank) _ fit) in
      rw
        (get-derive_root_relative_offsets, at, lt→ltb rank devices h, lt→ltb root devices hr, there)
        (kept_if true (measured pair_offsets root rank) refl)
