-- ===== src/Prelude/Dict.antt =====
-- Python's `dict` as an association list in insertion order: an assignment to a key that is there
-- replaces its value in place, one to a new key appends.
use fabricperf.Prelude.Tests.{if◌then◌else◌, Bool-cases}
use fabricperf.Prelude.Lists.{sum_by, All}
use fabricperf.Prelude.Keys.{member, Eq, ◌==◌}
use Prim.Native.Nat.{ℕ, ◌+◌}
use mathlib.Core.Path.{◌≡◌, refl, sym, subst}
use mathlib.Core.Logic.{inl, inr}
use mathlib.Core.Bool.{Bool, false, ◌&&◌, ◌||◌}
use mathlib.Core.Option.{Option, none, some}
use mathlib.Core.List.{List, [], ◌∷◌, map}
use native.Mathlib.Omega.{arith}

abbrev pub Dict {ℓ κ} : Type ℓ → Type κ → Type (ℓ ⊔ κ)
Dict K V = List (K × V)

module _ {ℓ κ} {K : Type ℓ} {V : Type κ} where
  abbrev pub keys : Dict K V → List K
  keys = map (λ e. e.0)

  abbrev pub values : Dict K V → List V
  values = map (λ e. e.1)

  -- `sum(f(v) for v in d.values())`
  abbrev pub sum_values : (V → ℕ) → Dict K V → ℕ
  sum_values f = sum_by (λ e. f e.1)

module _ {ℓ} {V : Type ℓ} where
  abbrev pub value_or : V → Option V → V
  value_or d none = d
  value_or d (some v) = v

  abbrev pub part : (V → ℕ) → Option V → ℕ
  part f none = 0
  part f (some v) = f v

module _ {ℓ κ} {K : Type ℓ} {V : Type κ} ⦃e : Eq K⦄ where
  -- `d.get(k)`
  unfoldable pub get : K → Dict K V → Option V
  get k [] = none
  get k ((j, v) ∷ d) = if j == k then some v else get k d

  -- `d[k] = v`
  unfoldable pub put : K → V → Dict K V → Dict K V
  put k v [] = (k, v) ∷ []
  put k v ((j, w) ∷ d) = if j == k then (j, v) ∷ d else (j, w) ∷ put k v d

  -- `d.pop(k, None)`
  unfoldable pub remove : K → Dict K V → Dict K V
  remove k [] = []
  remove k ((j, w) ∷ d) = if j == k then d else (j, w) ∷ remove k d

  -- `k in d`
  unfoldable pub has : K → Dict K V → Bool
  has k [] = false
  has k ((j, w) ∷ d) = j == k || has k d

  -- The keys of `d` are pairwise distinct.
  abbrev pub IsDict : Dict K V → Type 0
  IsDict [] = Unit
  IsDict ((j, w) ∷ d) = (has j d ≡ false) × IsDict d

  pub get-put :
      (k j : K) (v : V) (d : Dict K V) → get j (put k v d) ≡ (if k == j then some v else get j d)
  unfolding get put
  get-put k j v [] = refl
  get-put k j v ((i, w) ∷ d) =
      ground (arith, e.same_iff k j, e.same_iff i k, e.same_iff i j, get-put k j v d)

  pub get-put_self : (k : K) (v : V) (d : Dict K V) → get k (put k v d) ≡ some v
  get-put_self k v d = rw (get-put, (e.same_iff k k).1 refl)

  pub has-put : (k j : K) (v : V) (d : Dict K V) → has j (put k v d) ≡ (k == j || has j d)
  unfolding has put
  has-put k j v [] = refl
  has-put k j v ((i, w) ∷ d) =
      ground (arith, e.same_iff k j, e.same_iff i k, e.same_iff i j, has-put k j v d)

  pub put-IsDict : (k : K) (v : V) (d : Dict K V) → IsDict d → IsDict (put k v d)
  unfolding put has
  put-IsDict k v [] h = (refl, tt)
  put-IsDict k v ((i, w) ∷ d) h = elim (Bool-cases (i == k)) [
    | inl p ↦ rw p h
    | inr p ↦
        rw p (
          ground (arith, has-put k i v d, e.same_iff k i, e.same_iff i k, h.0),
          put-IsDict k v d h.1,
        )
  ]

  -- What an assignment adds to a sum over the values.
  pub sum_values-put :
      (f : V → ℕ) (k : K) (v : V) (d : Dict K V)
      → sum_values f (put k v d) + part f (get k d) ≡ sum_values f d + f v
  unfolding get put
  sum_values-put f k v [] = omega arith
  sum_values-put f k v ((i, w) ∷ d) = ground (arith, sum_values-put f k v d)

  -- A property of every entry survives an assignment that has it.
  pub All-put {μ} :
      (P : K × V → Type μ) (k : K) (v : V) (d : Dict K V) → P (k, v) → All P d → All P (put k v d)
  unfolding put
  All-put P k v [] p h = (p, tt)
  All-put P k v ((i, w) ∷ d) p h = elim (Bool-cases (i == k)) [
    | inl q ↦ rw q (subst (λ x. P (x, v)) (sym ((e.same_iff i k).0 q)) p, h.1)
    | inr q ↦ rw q (h.0, All-put P k v d p h.1)
  ]

  pub All-get {μ} :
      (P : K × V → Type μ) (k : K) (v : V) (d : Dict K V) → All P d → get k d ≡ some v → P (k, v)
  unfolding get
  All-get P k v [] h g = absurd (cc)
  All-get P k v ((i, w) ∷ d) h g = elim (Bool-cases (i == k)) [
    | inl q ↦
        let same : w ≡ v = ground arith in
        subst (λ x. P (x, v)) ((e.same_iff i k).0 q) (subst (λ x. P (i, x)) same h.0)
    | inr q ↦ All-get P k v d h.1 (ground arith)
  ]

  -- A loop that assigns `value k` to each key `k` of a list that passes a test.
  unfoldable pub assign : (K → Bool) → (K → V) → List K → Dict K V → Dict K V
  assign test value [] d = d
  assign test value (k ∷ ks) d = assign test value ks (if test k then put k (value k) d else d)

  pub get-assign :
      (test : K → Bool) (value : K → V) (ks : List K) (d : Dict K V) (k : K)
      → get k (assign test value ks d) ≡ (if member k ks && test k then some (value k) else get k d)
  unfolding assign
  get-assign test value [] d k = refl
  get-assign test value (j ∷ ks) d k = elim (Bool-cases (j == k)) [
    | inl here ↦
        let same = (e.same_iff j k).0 here in
        elim (Bool-cases (test k)) [
          | inl kept ↦
              rw
                (
                  get-assign test value ks (if test j then put j (value j) d else d) k,
                  same,
                  kept,
                  get-put_self,
                )
                (ground (arith, (e.same_iff k k).1 refl))
          | inr passed ↦
              rw
                (get-assign test value ks (if test j then put j (value j) d else d) k, same, passed)
                (ground arith)
        ]
    | inr there ↦ elim (Bool-cases (test j)) [
      | inl kept ↦
          rw
            (
              get-assign test value ks (if test j then put j (value j) d else d) k,
              there,
              kept,
              get-put,
              there,
            )
            refl
      | inr passed ↦
          rw (get-assign test value ks (if test j then put j (value j) d else d) k, there, passed)
            refl
    ]
  ]

  pub get-remove : (k j : K) (d : Dict K V) → (k == j) ≡ false → get j (remove k d) ≡ get j d
  unfolding get remove
  get-remove k j [] h = refl
  get-remove k j ((i, w) ∷ d) h =
      ground (arith, e.same_iff k j, e.same_iff i k, e.same_iff i j, get-remove k j d h)
