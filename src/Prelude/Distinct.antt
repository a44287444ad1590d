-- ===== src/Prelude/Distinct.antt =====
-- Lists without repetition, as loops with a set `seen` make them.
use mathlib.Core.Path.{◌≡◌, refl, sym, subst, ap}
use mathlib.Core.Logic.{inl, inr, ◌↔◌}
use mathlib.Core.Bool.{Bool, true, false, not, ◌&&◌, ◌||◌}
use mathlib.Core.List.{List, [], ◌∷◌, ◌++◌}
use native.Mathlib.Omega.{arith}
use fabricperf.Prelude.Tests.{if◌then◌else◌, Bool-cases, and_parts}
use fabricperf.Prelude.Lists.{keep}
use fabricperf.Prelude.Keys.{Eq, ◌==◌, member}

module _ {ℓ} {A : Type ℓ} ⦃e : Eq A⦄ where
  -- The first occurrence of each element that is not in `seen`.
  unfoldable pub unseen : List A → List A → List A
  unseen seen [] = []
  unseen seen (x ∷ xs) = if member x seen then unseen seen xs else x ∷ unseen (x ∷ seen) xs

  abbrev pub IsDistinct : List A → Type 0
  IsDistinct [] = Unit
  IsDistinct (x ∷ xs) = (member x xs ≡ false) × IsDistinct xs

  pub member-unseen :
      (seen xs : List A) (a : A) → member a (unseen seen xs) ≡ (member a xs && not (member a seen))
  unfolding unseen
  member-unseen seen [] a = refl
  member-unseen seen (x ∷ xs) a = elim (Bool-cases (member x seen)) [
    | inl old ↦ elim (Bool-cases (x == a)) [
      | inl here ↦
          rw
            (
              old,
              member-unseen seen xs a,
              here,
              subst (λ y. member y seen ≡ true) ((e.same_iff x a).0 here) old,
            )
            (ground arith)
      | inr there ↦ rw (old, member-unseen seen xs a, there) refl
    ]
    | inr new ↦ elim (Bool-cases (x == a)) [
      | inl here ↦
          rw (new, here, subst (λ y. member y seen ≡ false) ((e.same_iff x a).0 here) new) refl
      | inr there ↦ rw (new, member-unseen (x ∷ seen) xs a, there) refl
    ]
  ]

  pub member-append : (a : A) (xs ys : List A) → member a (xs ++ ys) ≡ (member a xs || member a ys)
  member-append a [] ys = refl
  member-append a (x ∷ xs) ys = rw (member-append a xs ys) (ground arith)

  pub unseen-IsDistinct : (seen xs : List A) → IsDistinct (unseen seen xs)
  unfolding unseen
  unseen-IsDistinct seen [] = tt
  unseen-IsDistinct seen (x ∷ xs) = elim (Bool-cases (member x seen)) [
    | inl old ↦ rw old (unseen-IsDistinct seen xs)
    | inr new ↦ rw new (
      rw (member-unseen (x ∷ seen) xs x, (e.same_iff x x).1 refl) (ground arith),
      unseen-IsDistinct (x ∷ seen) xs,
    )
  ]

  pub member-keep :
      (p : A → Bool) (xs : List A) (a : A) → member a (keep p xs) ≡ (member a xs && p a)
  member-keep p [] a = refl
  member-keep p (x ∷ xs) a = elim (Bool-cases (x == a)) [
    | inl here ↦ elim (Bool-cases (p x)) [
      | inl passes ↦ rw (passes, here, sym (ap p ((e.same_iff x a).0 here)), passes) refl
      | inr fails ↦
          rw (fails, member-keep p xs a, here, sym (ap p ((e.same_iff x a).0 here)), fails)
            (ground arith)
    ]
    | inr there ↦ elim (Bool-cases (p x)) [
      | inl passes ↦ rw (passes, there, member-keep p xs a) refl
      | inr fails ↦ rw (fails, there, member-keep p xs a) refl
    ]
  ]

  pub keep-IsDistinct : (p : A → Bool) (xs : List A) → IsDistinct xs → IsDistinct (keep p xs)
  keep-IsDistinct p [] d = tt
  keep-IsDistinct p (x ∷ xs) d = elim (Bool-cases (p x)) [
    | inl passes ↦ rw passes (rw (member-keep p xs x, d.0) refl, keep-IsDistinct p xs d.1)
    | inr fails ↦ rw fails (keep-IsDistinct p xs d.1)
  ]

  -- `a` passes the test, stands in the list, and no other element of it passes.
  pub record IsOnly (p : A → Bool) (xs : List A) (a : A) : Type ℓ where
    pub there : member a xs ≡ true
    pub passes : p a ≡ true
    pub alone : (b : A) → member b xs ≡ true → p b ≡ true → b ≡ a

  -- A list without repetition whose elements are all `a` is the list of `a`.
  one_element :
      (xs : List A) (a : A)
      → IsDistinct xs
      → member a xs ≡ true
      → ((b : A) → member b xs ≡ true → b ≡ a)
      → xs ≡ a ∷ []
  one_element [] a d m h = absurd (ground arith)
  one_element (x ∷ []) a d m h = ap (λ y. y ∷ []) (h x (rw ((e.same_iff x x).1 refl) refl))
  one_element (x ∷ y ∷ xs) a d m h =
      let hx = h x (rw ((e.same_iff x x).1 refl) refl) in
      let hy = h y (rw ((e.same_iff y y).1 refl) (ground arith)) in
      let same = (e.same_iff y x).1 (cc) in absurd (ground (arith, d.0))

  -- A list without repetition that has the elements of `xs` that pass, and no others.
  same_members-IsOnly :
      (p : A → Bool) (xs ys : List A) (a : A)
      → IsDistinct ys
      → ((b : A) → member b ys ≡ (member b xs && p b))
      → (ys ≡ a ∷ []) ↔ IsOnly p xs a
  same_members-IsOnly p xs ys a d same = (
    λ kept.
        let found : (b : A) → (member b xs && p b) ≡ (a == b || false) =
          λ b. rw (sym (same b), kept) refl in
        let self = and_parts (member a xs) (p a) (rw (found a, (e.same_iff a a).1 refl) refl) in
        record {
          there = self.0;
          passes = self.1;
          alone =
              λ b there passes. sym ((e.same_iff a b).0 (ground (arith, found b, there, passes)));
        },
    λ only. one_element ys a d (rw (same a, only.there, only.passes) refl) λ b m.
        let parts = and_parts (member b xs) (p b) (rw (sym (same b)) m) in
        only.alone b parts.0 parts.1,
  )

  pub keep-IsOnly :
      (p : A → Bool) (xs : List A) (a : A) → IsDistinct xs → (keep p xs ≡ a ∷ []) ↔ IsOnly p xs a
  keep-IsOnly p xs a d =
      same_members-IsOnly p xs (keep p xs) a (keep-IsDistinct p xs d) (member-keep p xs)

  pub unseen-keep-IsOnly :
      (p : A → Bool) (xs : List A) (a : A) → (unseen [] (keep p xs) ≡ a ∷ []) ↔ IsOnly p xs a
  unseen-keep-IsOnly p xs a =
      same_members-IsOnly p xs (unseen [] (keep p xs)) a (unseen-IsDistinct [] (keep p xs))
        λ b. rw (member-unseen [] (keep p xs) b, member-keep p xs b) (ground arith)
