-- ===== src/Ptp/Offsets/Derived.antt =====
-- What `derive_root_relative_offsets` of analysis/ptp_alignment.py puts under each pair.
use fabricperf.Prelude.{
  ℕ, zero, suc, ◌+◌, ◌≡◌, refl, ◌∙◌, Bool, true, false, not, ◌&&◌, ◌||◌, none, some, List, [], ◌∷◌,
  ◌++◌, map, eqb, ltb, if◌then◌else◌, range, range_from, arith, Bool-cases, inl, inr,
}
use mathlib.Core.List.{flatten}
use fabricperf.Prelude.Int.{ℤ}
use fabricperf.Prelude.Keys.{nat_eq, pair_eq, member}
use fabricperf.Prelude.Dict.{get, get-put, get-assign, value_or}
use fabricperf.Ptp.Offsets.{
  PairOffsets, is_empty, differences, measured, root_series, root_zeros, pairs, series_at,
  derived_at, is_derived, derive_root_relative_offsets,
}

-- `k` is one of `start`, …, `start + n - 1`.
member-range_from :
    (k start n : ℕ) → member k (range_from start n) ≡ (not (ltb k start) && ltb k (start + n))
member-range_from k start zero = ground arith
member-range_from k start (suc n) = ground (arith, member-range_from k (start + 1) n)

pub member-range : (k n : ℕ) → member k (range n) ≡ ltb k n
member-range k n = member-range_from k 0 n ∙ ground arith

member-append :
    (k : ℕ × ℕ) (xs ys : List (ℕ × ℕ)) → member k (xs ++ ys) ≡ (member k xs || member k ys)
member-append k [] ys = refl
member-append k (x ∷ xs) ys = ground (arith, member-append k xs ys)

member-row :
    (src dst a : ℕ) (ns : List ℕ)
    → member (src, dst) (map {B = ℕ × ℕ} (λ b. (a, b)) ns) ≡ (eqb a src && member dst ns)
member-row src dst a [] = ground arith
member-row src dst a (n ∷ ns) = ground (arith, member-row src dst a ns)

member-rows :
    (src dst : ℕ) (ns ms : List ℕ)
    → member {K = ℕ × ℕ} (src, dst) (flatten (map (λ a. map (λ b. (a, b)) ms) ns))
      ≡ (member src ns && member dst ms)
unfolding flatten
member-rows src dst [] ms = refl
member-rows src dst (n ∷ ns) ms = ground (
  arith,
  member-append (src, dst) (map (λ b. (n, b)) ms) (flatten (map (λ a. map (λ b. (a, b)) ms) ns)),
  member-row src dst n ms,
  member-rows src dst ns ms,
)

member-pairs :
    (src dst devices : ℕ) → member (src, dst) (pairs devices) ≡ (ltb src devices && ltb dst devices)
member-pairs src dst devices =
    member-rows src dst (range devices) (range devices)
    ∙ rw (member-range src, member-range dst) refl

-- The loop over the pairs assigns each pair below the number of devices that the loop's body derives.
pub get-derive_root_relative_offsets :
    (pair_offsets : PairOffsets) (devices root src dst : ℕ)
    → get (src, dst) (derive_root_relative_offsets pair_offsets devices root) ≡ (
        if (ltb src devices && ltb dst devices)
          && is_derived (root_series pair_offsets devices root) (src, dst)
        then some (derived_at (root_series pair_offsets devices root) (src, dst))
        else none)
unfolding derive_root_relative_offsets get
get-derive_root_relative_offsets pair_offsets devices root src dst =
    let series = root_series pair_offsets devices root in
    get-assign (is_derived series) (derived_at series) (pairs devices) [] (src, dst)
    ∙ rw member-pairs refl

settled :
    (b : Bool) (xs : List ℤ)
    → value_or [] (if b && (true && not (is_empty xs)) then some xs else none)
      ≡ (if b then xs else [])
settled true [] = refl
settled false [] = refl
settled true (x ∷ xs) = refl
settled false (x ∷ xs) = refl

-- The root series of a rank: the measured samples, and zeros for the root.
pub get-root_series :
    (pair_offsets : PairOffsets) (devices root rank : ℕ)
    → series_at (root_series pair_offsets devices root) rank ≡ (
        if eqb root rank
        then root_zeros pair_offsets devices root
        else if ltb rank devices
        then measured pair_offsets root rank
        else [])
unfolding root_series get
get-root_series pair_offsets devices root rank = elim (Bool-cases (eqb root rank)) [
  | inl here ↦ rw (get-put, here) refl
  | inr there ↦
      let back : eqb rank root ≡ false = ground arith in
      rw (get-put, there, get-assign, member-range, back)
        (settled (ltb rank devices) (measured pair_offsets root rank))
]

-- The samples of a rank as the root measures them: zeros for the root itself, else the samples of the
-- pair in one direction or the other, and none for a rank that is no device.
abbrev pub samples_from_root : PairOffsets → ℕ → ℕ → ℕ → List ℤ
samples_from_root pair_offsets devices root rank =
    if eqb root rank
    then root_zeros pair_offsets devices root
    else if ltb rank devices
    then measured pair_offsets root rank
    else []

is_empty-differences :
    (xs ys : List ℤ) → not (is_empty (differences xs ys)) ≡ (not (is_empty xs) && not (is_empty ys))
is_empty-differences [] ys = refl
is_empty-differences (x ∷ xs) [] = refl
is_empty-differences (x ∷ xs) (y ∷ ys) = refl

-- The derived offsets of a pair are there exactly if both ranks are below the number of devices, they
-- differ and both have samples from the root; then they are the differences of the destination's
-- samples and the source's.
pub derive_root_relative_offsets_at :
    (pair_offsets : PairOffsets) (devices root src dst : ℕ)
    → get (src, dst) (derive_root_relative_offsets pair_offsets devices root) ≡ (
        if (ltb src devices && ltb dst devices)
          && (not (eqb src dst)
              && (not (is_empty (samples_from_root pair_offsets devices root dst))
                  && not (is_empty (samples_from_root pair_offsets devices root src))))
        then some (
            differences
              (samples_from_root pair_offsets devices root dst)
              (samples_from_root pair_offsets devices root src))
        else none)
derive_root_relative_offsets_at pair_offsets devices root src dst =
    get-derive_root_relative_offsets pair_offsets devices root src dst
    ∙ rw
        (
          get-root_series pair_offsets devices root src,
          get-root_series pair_offsets devices root dst,
          is_empty-differences (samples_from_root pair_offsets devices root dst)
              (samples_from_root pair_offsets devices root src),
        )
        refl
