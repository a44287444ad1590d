-- ===== src/Ptp/Offsets/Closure.antt =====
-- The residuals of derived offsets, analysis/ptp_alignment.py.
use fabricperf.Prelude.{
  ℕ, ◌≡◌, refl, Bool, true, false, ◌&&◌, none, some, List, [], ◌∷◌, ltb, if◌then◌else◌, All, arith,
  ◌⊎◌, inl, inr,
}
use fabricperf.Prelude.Int.{ℤ, pos, ◌+ℤ◌, ◌-ℤ◌, pos_part, neg_part, -ℤ_parts, +ℤ_parts, eq_of_parts}
use fabricperf.Prelude.Keys.{nat_eq, pair_eq}
use fabricperf.Prelude.Dict.{value_or}
use fabricperf.Ptp.Offsets.{
  PairOffsets, offsets_of, sums, differences, root_series, series_at, derived_at, is_derived,
  derive_root_relative_offsets, closure_residuals, reciprocal_residuals,
}
use fabricperf.Ptp.Offsets.Derived.{get-derive_root_relative_offsets}

abbrev pub IsZero : ℤ → Type 0
IsZero r = r ≡ pos 0

zero_of_parts : (a : ℤ) → pos_part a ≡ neg_part a → a ≡ pos 0
zero_of_parts a h = eq_of_parts a (pos 0) (omega arith)

closure_zero : (s m d : ℤ) → (d -ℤ s) -ℤ ((m -ℤ s) +ℤ (d -ℤ m)) ≡ pos 0
closure_zero s m d = zero_of_parts _ (
    omega (
      arith,
      -ℤ_parts d s,
      -ℤ_parts m s,
      -ℤ_parts d m,
      +ℤ_parts (m -ℤ s) (d -ℤ m),
      -ℤ_parts (d -ℤ s) ((m -ℤ s) +ℤ (d -ℤ m)),
    ))

reciprocal_zero : (a b : ℤ) → (b -ℤ a) +ℤ (a -ℤ b) ≡ pos 0
reciprocal_zero a b =
    zero_of_parts _ (omega (arith, -ℤ_parts a b, -ℤ_parts b a, +ℤ_parts (b -ℤ a) (a -ℤ b)))

guarded {ℓ} :
    {A : Type ℓ} (b : Bool) (xs : List A)
    → (value_or [] (if b then some xs else none) ≡ [])
      ⊎ (value_or [] (if b then some xs else none) ≡ xs)
guarded true xs = inr refl
guarded false xs = inl refl

-- Derived offsets are absent or the differences of two series.
abbrev IsPart : List ℤ → List ℤ → Type 0
IsPart xs ys = (xs ≡ []) ⊎ (xs ≡ ys)

closures-IsZero :
    (s m d : List ℤ)
    → All IsZero (differences (differences d s) (sums (differences m s) (differences d m)))
closures-IsZero [] m [] = tt
closures-IsZero [] m (z ∷ d) = tt
closures-IsZero (x ∷ s) m [] = tt
closures-IsZero (x ∷ s) [] (z ∷ d) = tt
closures-IsZero (x ∷ s) (y ∷ m) (z ∷ d) = (closure_zero x y z, closures-IsZero s m d)

reciprocals-IsZero : (a b : List ℤ) → All IsZero (sums (differences b a) (differences a b))
reciprocals-IsZero [] [] = tt
reciprocals-IsZero [] (y ∷ b) = tt
reciprocals-IsZero (x ∷ a) [] = tt
reciprocals-IsZero (x ∷ a) (y ∷ b) = (reciprocal_zero x y, reciprocals-IsZero a b)

differences_none : (xs : List ℤ) → differences xs [] ≡ []
differences_none [] = refl
differences_none (x ∷ xs) = refl

sums_none : (xs : List ℤ) → sums xs [] ≡ []
sums_none [] = refl
sums_none (x ∷ xs) = refl

module _ (pair_offsets : PairOffsets) (devices root : ℕ) where
  abbrev pub derived : PairOffsets
  derived = derive_root_relative_offsets pair_offsets devices root

  abbrev series : ℕ → List ℤ
  series = series_at (root_series pair_offsets devices root)

  derived-IsPart :
      (src dst : ℕ) → IsPart (offsets_of derived src dst) (differences (series dst) (series src))
  derived-IsPart src dst = rw get-derive_root_relative_offsets (
      guarded
        ((ltb src devices && ltb dst devices)
          && is_derived (root_series pair_offsets devices root) (src, dst))
        (derived_at (root_series pair_offsets devices root) (src, dst)))

  -- Derived offsets close: every residual of every triple is zero, whatever was measured.
  pub closure_residuals-derive_root_relative_offsets :
      (src mid dst : ℕ) → All IsZero (closure_residuals derived src mid dst)
  unfolding closure_residuals
  closure_residuals-derive_root_relative_offsets src mid dst = elim (derived-IsPart src dst) [
    | inl a ↦ rw a tt
    | inr a ↦ elim (derived-IsPart src mid) [
      | inl b ↦ rw (b, differences_none) tt
      | inr b ↦ elim (derived-IsPart mid dst) [
        | inl c ↦ rw (c, sums_none, differences_none) tt
        | inr c ↦ rw (a, b, c) (closures-IsZero (series src) (series mid) (series dst))
      ]
    ]
  ]

  -- Derived offsets are antisymmetric: every reciprocal residual is zero, whatever was measured.
  pub reciprocal_residuals-derive_root_relative_offsets :
      (first second : ℕ) → All IsZero (reciprocal_residuals derived first second)
  unfolding reciprocal_residuals
  reciprocal_residuals-derive_root_relative_offsets first second =
      elim (derived-IsPart first second) [
        | inl a ↦ rw a tt
        | inr a ↦ elim (derived-IsPart second first) [
          | inl b ↦ rw (b, sums_none) tt
          | inr b ↦ rw (a, b) (reciprocals-IsZero (series first) (series second))
        ]
      ]
