-- ===== src/Nccl/Hoist/Order.antt =====
-- Where the declarations stand after `hoist_generated_decls`.
use fabricperf.Prelude.{
  Bool, true, false, not, Option, none, some, List, [], ◌∷◌, ◌++◌, length, eqb, map, keep, All,
  All-imp, ◌≡◌, refl, sym, ap, subst, ◌∙◌, inl, inr, Bool-cases, arith, ◌⊎◌,
}
use mathlib.Core.Option
use fabricperf.Prelude.Keys.{nat_eq, list_eq, member, ◌==◌, Eq, list_same_iff}
use fabricperf.Prelude.Distinct.{IsDistinct, unseen, unseen-IsDistinct, member-unseen, member-keep}
use fabricperf.Prelude.Text.{Text, strip}
use fabricperf.Prelude.Lines.{splitlines_keepends, concat, concat-splitlines_keepends}
use fabricperf.Nccl.Hoist.{
  generated_decl_line, function_or_entry, hoist_lines, split_at_function, place,
  hoist_generated_decls,
}

-- How the lines `lines` of a module become the text `out`.
pub record IsHoisted (symbols lines : List Text) (out : Text) : Type 0 where
  -- The text is put together from these lines; `gap` is a blank line or nothing.
  pub before : List Text
  pub hoisted : List Text
  pub gap : List Text
  pub after : List Text
  pub joined : out ≡ concat (before ++ (hoisted ++ (gap ++ after)))
  pub blank : (gap ≡ []) ⊎ (gap ≡ (10 ∷ []) ∷ [])
  -- What is no declaration is kept, in order.
  pub kept : before ++ after ≡ keep (λ l. not (generated_decl_line symbols l)) lines
  -- The declarations of the lines, each once, and nothing else.
  pub declared : All (λ l. (generated_decl_line symbols l ≡ true) × (member l lines ≡ true)) hoisted
  pub distinct : IsDistinct (map strip hoisted)
  pub complete :
      (l : Text)
      → member l lines ≡ true
      → generated_decl_line symbols l ≡ true
      → member (strip l) (map strip hoisted) ≡ true
  -- No function stands before them.
  pub first : All (λ l. function_or_entry l ≡ false) before

module _ (symbols : List Text) where
  abbrev hoisted_of : List Text → List Text → List Text
  hoisted_of seen lines = (hoist_lines symbols seen lines).0

  abbrev kept_of : List Text → List Text → List Text
  kept_of seen lines = (hoist_lines symbols seen lines).1

  hoist_lines_kept :
      (lines seen : List Text)
      → kept_of seen lines ≡ keep (λ l. not (generated_decl_line symbols l)) lines
  unfolding hoist_lines
  hoist_lines_kept [] seen = refl
  hoist_lines_kept (line ∷ lines) seen = elim (Bool-cases (generated_decl_line symbols line)) [
    | inl generated ↦ rw generated (hoist_lines_kept lines _)
    | inr plain ↦ rw plain (ap (◌∷◌ line) (hoist_lines_kept lines _))
  ]

  -- The keys of the hoisted lines are those of the declarations that were not seen before.
  hoist_lines_keys :
      (seen lines : List Text)
      → map strip (hoisted_of seen lines)
        ≡ unseen seen (map strip (keep (generated_decl_line symbols) lines))
  unfolding hoist_lines unseen
  hoist_lines_keys seen [] = refl
  hoist_lines_keys seen (line ∷ lines) = elim (Bool-cases (generated_decl_line symbols line)) [
    | inl generated ↦ elim (Bool-cases (member (strip line) seen)) [
      | inl old ↦ rw (generated, old) (hoist_lines_keys seen lines)
      | inr new ↦
          rw (generated, new) (ap (◌∷◌ (strip line)) (hoist_lines_keys (strip line ∷ seen) lines))
    ]
    | inr plain ↦ rw plain (hoist_lines_keys seen lines)
  ]

  -- The declarations that stand in a list of lines.
  abbrev IsDeclaration : List Text → Text → Type 0
  IsDeclaration lines l = (generated_decl_line symbols l ≡ true) × (member l lines ≡ true)

  hoist_lines_declared :
      (seen lines : List Text) → All (IsDeclaration lines) (hoisted_of seen lines)
  unfolding hoist_lines
  hoist_lines_declared seen [] = tt
  hoist_lines_declared seen (line ∷ lines) =
      let here = (list_same_iff line line).1 refl in
      let weaken : (ls : List Text)
          → All (IsDeclaration lines) ls
          → All (IsDeclaration (line ∷ lines)) ls =
        All-imp (IsDeclaration lines) (IsDeclaration (line ∷ lines))
          λ l h. (h.0, ground (arith, h.1)) in
      elim (Bool-cases (generated_decl_line symbols line)) [
        | inl generated ↦ elim (Bool-cases (member (strip line) seen)) [
          | inl old ↦ rw (generated, old) (weaken _ (hoist_lines_declared seen lines))
          | inr new ↦
              rw (generated, new)
                (
                  (generated, rw here refl),
                  weaken _ (hoist_lines_declared (strip line ∷ seen) lines),
                )
        ]
        | inr plain ↦ rw plain (weaken _ (hoist_lines_declared seen lines))
      ]

member-map {ℓ κ} :
    {A : Type ℓ} {B : Type κ} ⦃e : Eq A⦄ ⦃e' : Eq B⦄ (f : A → B) (a : A) (xs : List A)
    → member a xs ≡ true
    → member (f a) (map f xs) ≡ true
member-map ⦃e⦄ ⦃e'⦄ f a [] h = absurd (cc)
member-map ⦃e⦄ ⦃e'⦄ f a (x ∷ xs) h = elim (Bool-cases (x == a)) [
  | inl here ↦ rw ((e'.same_iff (f x) (f a)).1 (ap f ((e.same_iff x a).0 here))) refl
  | inr there ↦ let rest = member-map f a xs (rw there at h) in rw rest (ground arith)
]

abbrev IsSplit : List Text → Option (List Text × List Text) → Type 0
IsSplit kept none = Unit
IsSplit kept (some (before, after)) =
    (before ++ after ≡ kept) × All (λ l. function_or_entry l ≡ false) before

IsSplit-cons :
    (line : Text) (kept : List Text) (split : Option (List Text × List Text))
    → function_or_entry line ≡ false
    → IsSplit kept split
    → IsSplit (line ∷ kept) (Option.map (λ (before, after). (line ∷ before, after)) split)
IsSplit-cons line kept none plain h = tt
IsSplit-cons line kept (some (before, after)) plain (joined, first) =
    (ap (◌∷◌ line) joined, (plain, first))

split_at_function-IsSplit : (kept : List Text) → IsSplit kept (split_at_function kept)
unfolding split_at_function
split_at_function-IsSplit [] = tt
split_at_function-IsSplit (line ∷ kept) = elim (Bool-cases (function_or_entry line)) [
  | inl function ↦ rw function (refl, tt)
  | inr plain ↦
      rw plain
        (IsSplit-cons line kept (split_at_function kept) plain (split_at_function-IsSplit kept))
]

module _ (symbols lines : List Text) where
  hoisted_complete :
      (l : Text)
      → member l lines ≡ true
      → generated_decl_line symbols l ≡ true
      → member (strip l) (map strip (hoisted_of symbols [] lines)) ≡ true
  hoisted_complete l there generated =
      let decls = keep (generated_decl_line symbols) lines in
      let kept : member l decls ≡ true =
        rw (member-keep (generated_decl_line symbols) lines l, there, generated) refl in
      rw
        (
          hoist_lines_keys symbols [] lines,
          member-unseen [] (map strip decls) (strip l),
          member-map strip l decls kept,
        )
        refl

  -- The parts of the result, where `before` and `after` are a split of the kept lines.
  parts-IsHoisted :
      (before gap after : List Text)
      → (gap ≡ []) ⊎ (gap ≡ (10 ∷ []) ∷ [])
      → before ++ after ≡ kept_of symbols [] lines
      → All (λ l. function_or_entry l ≡ false) before
      → IsHoisted symbols lines (concat (before ++ (hoisted_of symbols [] lines ++ (gap ++ after))))
  parts-IsHoisted before gap after blank joined first = record {
    before = before;
    hoisted = hoisted_of symbols [] lines;
    gap = gap;
    after = after;
    joined = refl;
    blank = blank;
    kept = joined ∙ hoist_lines_kept symbols lines [];
    declared = hoist_lines_declared symbols [] lines;
    distinct =
        subst IsDistinct (sym (hoist_lines_keys symbols [] lines))
          (unseen-IsDistinct [] (map strip (keep (generated_decl_line symbols) lines)));
    complete = hoisted_complete;
    first = first;
  }

  place-IsHoisted :
      (split : Option (List Text × List Text))
      → IsSplit (kept_of symbols [] lines) split
      → IsHoisted symbols lines
          (concat (place (hoisted_of symbols [] lines) (kept_of symbols [] lines) split))
  place-IsHoisted none h = parts-IsHoisted [] [] (kept_of symbols [] lines) (inl refl) refl tt
  place-IsHoisted (some (before, after)) (joined, first) =
      parts-IsHoisted before ((10 ∷ []) ∷ []) after (inr refl) joined first

no_element {ℓ} : {A : Type ℓ} (xs : List A) → eqb (length xs) 0 ≡ true → xs ≡ []
no_element [] h = refl
no_element (x ∷ xs) h = absurd (ground arith)

keep_all {ℓ} :
    {A : Type ℓ} (p : A → Bool) (xs : List A) → keep p xs ≡ [] → keep (λ x. not (p x)) xs ≡ xs
keep_all p [] h = refl
keep_all p (x ∷ xs) h = elim (Bool-cases (p x)) [
  | inl passes ↦ absurd (cc (rw passes at h))
  | inr fails ↦ rw fails (ap (◌∷◌ x) (keep_all p xs (rw fails at h)))
]

unseen-nil : (xs : List Text) → unseen [] xs ≡ [] → xs ≡ []
unfolding unseen
unseen-nil [] h = refl
unseen-nil (x ∷ xs) h = absurd (cc)

map-nil {ℓ κ} : {A : Type ℓ} {B : Type κ} (f : A → B) (xs : List A) → map f xs ≡ [] → xs ≡ []
map-nil f [] h = refl
map-nil f (x ∷ xs) h = absurd (cc)

-- Without a declaration to hoist every line is kept.
kept_everything :
    (symbols lines : List Text)
    → hoisted_of symbols [] lines ≡ []
    → kept_of symbols [] lines ≡ lines
kept_everything symbols lines h =
    let decls = keep (generated_decl_line symbols) lines in
    let keys : unseen [] (map strip decls) ≡ [] =
      sym (hoist_lines_keys symbols [] lines) ∙ ap (map strip) h in
    hoist_lines_kept symbols lines []
    ∙ keep_all (generated_decl_line symbols) lines
        (map-nil strip decls (unseen-nil (map strip decls) keys))

unchanged-IsHoisted :
    (symbols lines : List Text)
    → hoisted_of symbols [] lines ≡ []
    → IsHoisted symbols lines (concat lines)
unchanged-IsHoisted symbols lines h =
    subst (IsHoisted symbols lines)
      (ap (λ ls. concat (ls ++ kept_of symbols [] lines)) h
        ∙ ap concat (kept_everything symbols lines h))
      (parts-IsHoisted symbols lines [] [] (kept_of symbols [] lines) (inl refl) refl tt)

-- Hoisting keeps the other lines in order, puts every generated declaration, each text once, behind lines
-- without a function and before all others, and adds nothing but at most a blank line.
pub hoist_generated_decls-IsHoisted :
    (symbols : List Text) (ptx : Text)
    → IsHoisted symbols (splitlines_keepends ptx) (hoist_generated_decls symbols ptx)
unfolding hoist_generated_decls
hoist_generated_decls-IsHoisted symbols ptx =
    let lines = splitlines_keepends ptx in
    elim (Bool-cases (eqb (length (hoisted_of symbols [] lines)) 0)) [
      | inl nothing ↦ rw nothing (
          subst (IsHoisted symbols lines) (concat-splitlines_keepends ptx)
            (unchanged-IsHoisted symbols lines (no_element _ nothing)))
      | inr something ↦ rw something (
          place-IsHoisted symbols lines (split_at_function (kept_of symbols [] lines))
            (split_at_function-IsSplit (kept_of symbols [] lines)))
    ]
