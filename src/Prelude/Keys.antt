-- ===== src/Prelude/Keys.antt =====
-- Keys of dictionaries: types with a Boolean equality.
use Prim.Native.Nat.{ℕ}
use Prim.Native.String.{String}
use mathlib.Core.Path.{◌≡◌, refl, ap₂}
use mathlib.Core.Logic.{◌↔◌}
use mathlib.Core.Bool.{Bool, true, false, ◌&&◌, ◌||◌}
use mathlib.Core.List.{List, [], ◌∷◌}
use native.Mathlib.Omega.{arith}
use text.Mathlib.Text.{◌==◌ as str_eq}
use text.Mathlib.TextEquality.{eq_iff}
use fabricperf.Prelude.Tests.{eqb, and_parts}

pub record Eq {ℓ} (A : Type ℓ) : Type ℓ where
  pub same : A → A → Bool
  pub same_iff : (a b : A) → (same a b ≡ true) ↔ (a ≡ b)

infix 50 ◌==◌
abbrev pub ◌==◌ {ℓ} : {A : Type ℓ} ⦃e : Eq A⦄ → A → A → Bool
◌==◌ ⦃e⦄ = e.same

pub eqb_iff : (a b : ℕ) → (eqb a b ≡ true) ↔ (a ≡ b)
eqb_iff a b = ground arith

instance abbrev pub nat_eq : Eq ℕ
nat_eq = record { same = eqb; same_iff = eqb_iff }

instance abbrev pub string_eq : Eq String
string_eq = record { same = str_eq; same_iff = eq_iff }

module _ {ℓ} {A : Type ℓ} ⦃e : Eq A⦄ where
  abbrev pub list_same : List A → List A → Bool
  list_same [] [] = true
  list_same (x ∷ xs) (y ∷ ys) = x == y && list_same xs ys
  list_same _ _ = false

  list_same-eq : (xs ys : List A) → list_same xs ys ≡ true → xs ≡ ys
  list_same-eq [] [] h = refl
  list_same-eq [] (y ∷ ys) h = ground arith
  list_same-eq (x ∷ xs) [] h = ground arith
  list_same-eq (x ∷ xs) (y ∷ ys) h =
      let (hx, hs) = and_parts (x == y) (list_same xs ys) h in
      ap₂ ◌∷◌ ((e.same_iff x y).0 hx) (list_same-eq xs ys hs)

  list_same_refl : (xs : List A) → list_same xs xs ≡ true
  list_same_refl [] = refl
  list_same_refl (x ∷ xs) = rw ((e.same_iff x x).1 refl, list_same_refl xs)

  pub list_same_iff : (xs ys : List A) → (list_same xs ys ≡ true) ↔ (xs ≡ ys)
  list_same_iff xs ys = (list_same-eq xs ys, λ p. rw p (list_same_refl ys))

instance abbrev pub list_eq {ℓ} : {A : Type ℓ} ⦃e : Eq A⦄ → Eq (List A)
list_eq = record { same = list_same; same_iff = list_same_iff }

module _ {ℓ κ} {A : Type ℓ} {B : Type κ} ⦃e : Eq A⦄ ⦃f : Eq B⦄ where
  abbrev pub pair_same : A × B → A × B → Bool
  pair_same (a, b) (c, d) = a == c && b == d

  pub pair_same_iff : (p q : A × B) → (pair_same p q ≡ true) ↔ (p ≡ q)
  pair_same_iff (a, b) (c, d) = (
    λ h.
        let (h₀, h₁) = and_parts (a == c) (b == d) h in
        λ i. ((e.same_iff a c).0 h₀ i, (f.same_iff b d).0 h₁ i),
    λ p. rw ((e.same_iff a c).1 (ap₀ p), (f.same_iff b d).1 (ap₁ p)),
  )
    where
      ap₀ : {p q : A × B} → p ≡ q → p.0 ≡ q.0
      ap₀ p i = (p i).0

      ap₁ : {p q : A × B} → p ≡ q → p.1 ≡ q.1
      ap₁ p i = (p i).1

instance abbrev pub pair_eq {ℓ κ} : {A : Type ℓ} {B : Type κ} ⦃e : Eq A⦄ ⦃f : Eq B⦄ → Eq (A × B)
pair_eq = record { same = pair_same; same_iff = pair_same_iff }

-- `k in ks`
module _ {ℓ} {K : Type ℓ} ⦃e : Eq K⦄ where
  abbrev pub member : K → List K → Bool
  member k [] = false
  member k (j ∷ ks) = j == k || member k ks
