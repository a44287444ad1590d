-- ===== src/Nccl/Table/Selection.antt =====
-- What `select_target` chooses, by an independent description of the choice.
use fabricperf.Prelude.{
  ℕ, Bool, true, false, ◌&&◌, Option, none, some, List, [], ◌∷◌, ◌++◌, length, keep, eqb, ◌≡◌, refl,
  sym, ap, subst, ◌∙◌, ◌↔◌, ◌⊎◌, inl, inr, Bool-cases, map-some, arith,
}
use fabricperf.Prelude.Keys.{nat_eq, list_eq}
use fabricperf.Prelude.Distinct.{
  unseen, unseen-IsDistinct, IsDistinct, IsOnly, keep-IsOnly, unseen-keep-IsOnly,
}
use fabricperf.Prelude.Text.{Text, codes, contains_text}
use fabricperf.Nccl.Table.{
  NcclDevFuncRule, NcclDevFuncTarget, default_rules, is_nonzero, only, return_only, is_descriptor,
  matches_of, local_devfuncs, immediates, infer_single_func_id, kernel_descriptor,
  devfunc_descriptor, descriptor_matches, rule_match, select_function, select_target,
}

-- A test on function names, and what a target that it finds is said to come from.
abbrev Criterion : Type 0
Criterion = (Text → Bool) × Text

abbrev has_descriptor : Option Text → Text → Bool
has_descriptor none name = false
has_descriptor (some descriptor) name = is_descriptor descriptor (devfunc_descriptor name)

abbrev rule_criteria : Text → List NcclDevFuncRule → List Criterion
rule_criteria kernel [] = []
rule_criteria kernel (rule ∷ rules) =
    (
      λ name.
          contains_text rule.kernel_substring kernel && contains_text rule.function_substring name,
      rule.description,
    )
    ∷ rule_criteria kernel rules

-- The criteria for a kernel, the first ones first.
abbrev pub criteria : Text → List Criterion
criteria kernel =
    (has_descriptor (kernel_descriptor kernel), codes "kernel-descriptor-match")
      ∷ rule_criteria kernel default_rules
    ++ (λ name. true, codes "single-local-devfunc") ∷ []

-- The function that the first criterion with exactly one function finds.
pub data Chosen (functions : List Text) : List Criterion → Text → Text → Type 0 where
  here :
      {c : Criterion} {cs : List Criterion} {f : Text}
      → IsOnly c.0 functions f
      → Chosen functions (c ∷ cs) f c.1
  next :
      {c : Criterion} {cs : List Criterion} {f source : Text}
      → ((g : Text) → ¬ IsOnly c.0 functions g)
      → Chosen functions cs f source
      → Chosen functions (c ∷ cs) f source

pick : List Criterion → List Text → Option (Text × Text)
pick [] functions = none
pick (c ∷ cs) functions = return_only c.1 (keep c.0 functions) (pick cs functions)

-- Exactly one element, or `return_only` goes on.
one_or_other :
    (xs : List Text)
    → ((f : Text) × (xs ≡ f ∷ []))
      ⊎ (((f : Text) → ¬ (xs ≡ f ∷ []))
          × ((source : Text) (later : Option (Text × Text)) → return_only source xs later ≡ later))
one_or_other [] = inr (λ f h. absurd (cc), λ source later. refl)
one_or_other (x ∷ []) = inl (x, refl)
one_or_other (x ∷ y ∷ xs) = inr (λ f h. absurd (cc), λ source later. refl)

module _ (functions : List Text) (distinct : IsDistinct functions) where
  pick→Chosen :
      (cs : List Criterion) (f source : Text)
      → pick cs functions ≡ some (f, source)
      → Chosen functions cs f source
  unfolding pick
  pick→Chosen [] f source h = absurd (cc)
  pick→Chosen (c ∷ cs) f source h = elim (one_or_other (keep c.0 functions)) [
    | inl (g, found) ↦
        let same : some (g, c.1) ≡ some (f, source) =
          sym (rw (return_only, found) refl ∙ refl) ∙ h in
        let name : g ≡ f = cc same in
        let label : c.1 ≡ source = cc same in
        subst (Chosen functions (c ∷ cs) f) label (
          here (subst (IsOnly c.0 functions) name ((keep-IsOnly c.0 functions g distinct).0 found)))
    | inr (nobody, later) ↦
        next (λ g is_only. nobody g ((keep-IsOnly c.0 functions g distinct).1 is_only))
          (pick→Chosen cs f source (sym (later c.1 (pick cs functions)) ∙ h))
  ]

  Chosen→pick :
      (cs : List Criterion) (f source : Text)
      → Chosen functions cs f source
      → pick cs functions ≡ some (f, source)
  unfolding pick
  Chosen→pick [] f source chosen = elim chosen [ ]
  Chosen→pick (c ∷ cs) f source (here is_only) =
      rw ((keep-IsOnly c.0 functions f distinct).1 is_only) refl
  Chosen→pick (c ∷ cs) f source (next nobody chosen) = elim (one_or_other (keep c.0 functions)) [
    | inl (g, found) ↦ absurd (nobody g ((keep-IsOnly c.0 functions g distinct).0 found))
    | inr (_, later) ↦ later c.1 (pick cs functions) ∙ Chosen→pick cs f source chosen
  ]

keep_nothing : (functions : List Text) → keep (λ name. false) functions ≡ []
keep_nothing [] = refl
keep_nothing (f ∷ functions) = keep_nothing functions

keep_everything : (functions : List Text) → keep (λ name. true) functions ≡ functions
keep_everything [] = refl
keep_everything (f ∷ functions) = ap (◌∷◌ f) (keep_everything functions)

matches_of_lem :
    (descriptor : Option Text) (functions : List Text)
    → matches_of descriptor functions ≡ keep (has_descriptor descriptor) functions
matches_of_lem none functions = sym (keep_nothing functions)
matches_of_lem (some d) functions = refl

rule_match-pick :
    (rules : List NcclDevFuncRule) (kernel : Text) (functions : List Text) (cs : List Criterion)
    → rule_match rules kernel functions (pick cs functions)
      ≡ pick (rule_criteria kernel rules ++ cs) functions
unfolding rule_match pick
rule_match-pick [] kernel functions cs = refl
rule_match-pick (rule ∷ rules) kernel functions cs =
    let rest = rule_match-pick rules kernel functions cs in
    elim (Bool-cases (contains_text rule.kernel_substring kernel)) [
      | inl named ↦ rw (named, rest) refl
      | inr other ↦ rw (other, rest, keep_nothing functions) refl
    ]

abbrev single : Criterion
single = (λ name. true, codes "single-local-devfunc")

select_function-pick :
    (kernel : Text) (functions : List Text)
    → select_function kernel functions ≡ pick (criteria kernel) functions
unfolding select_function descriptor_matches pick
select_function-pick kernel functions =
    let exact = matches_of_lem (kernel_descriptor kernel) functions in
    let alone : return_only single.1 functions none ≡ pick (single ∷ []) functions =
      ap (λ names. return_only single.1 names none) (sym (keep_everything functions)) in
    let rules = rule_match-pick default_rules kernel functions (single ∷ []) in
    ap
      (λ names.
        return_only (codes "kernel-descriptor-match") names
          (rule_match default_rules kernel functions (return_only single.1 functions none)))
      exact
    ∙ ap (return_only (codes "kernel-descriptor-match") _)
        (ap (rule_match default_rules kernel functions) alone ∙ rules)

pub local_devfuncs-IsDistinct : (ptx : Text) → IsDistinct (local_devfuncs ptx)
unfolding local_devfuncs
local_devfuncs-IsDistinct ptx = unseen-IsDistinct [] _

-- What is known of a target of a kernel in a module, whose wrapper is `entry`.
pub record IsTarget (kernel ptx entry : Text) (t : NcclDevFuncTarget) : Type 0 where
  pub named : t.kernel_name ≡ kernel
  pub numbered : t.function_id ≡ infer_single_func_id entry
  pub listed : t.candidates ≡ local_devfuncs ptx
  pub chosen : Chosen (local_devfuncs ptx) (criteria kernel) t.function_name t.source

Chosen-nonempty :
    (functions : List Text) (cs : List Criterion) (f source : Text)
    → Chosen functions cs f source
    → eqb (length functions) 0 ≡ false
Chosen-nonempty [] cs f source (here is_only) = absurd (cc is_only.there)
Chosen-nonempty [] (c ∷ cs) f source (next nobody chosen) = Chosen-nonempty [] cs f source chosen
Chosen-nonempty (g ∷ functions) cs f source chosen = ground arith

abbrev target_of : Text → Text → Text → Text × Text → NcclDevFuncTarget
target_of kernel ptx entry (f, source) = record {
  kernel_name = kernel;
  function_name = f;
  function_id = infer_single_func_id entry;
  source = source;
  candidates = local_devfuncs ptx;
}

select_target-some :
    (kernel ptx entry : Text) (t : NcclDevFuncTarget)
    → select_target kernel ptx entry ≡ some t
    → IsTarget kernel ptx entry t
unfolding select_target
select_target-some kernel ptx entry t h = elim (Bool-cases (eqb (length (local_devfuncs ptx)) 0)) [
  | inl empty ↦ absurd (cc (rw (select_target, empty) at h))
  | inr full ↦
      let some_found = rw (select_target, full) at h in
      let ((f, source), found, is_target) =
        map-some (target_of kernel ptx entry) (select_function kernel (local_devfuncs ptx))
          some_found in
      subst (IsTarget kernel ptx entry) is_target (record {
        named = refl;
        numbered = refl;
        listed = refl;
        chosen =
            pick→Chosen (local_devfuncs ptx) (local_devfuncs-IsDistinct ptx) (criteria kernel) f
              source (sym (select_function-pick kernel (local_devfuncs ptx)) ∙ found);
      })
]

-- `select_target` returns a target exactly if it carries the kernel's name, the inferred id and all local
-- functions, and its function is the one that the first applicable criterion finds alone: the kernel's
-- descriptor, then the rules, then being the only local function.
pub select_target-IsTarget :
    (kernel ptx entry : Text) (t : NcclDevFuncTarget)
    → (select_target kernel ptx entry ≡ some t) ↔ IsTarget kernel ptx entry t
unfolding select_target
select_target-IsTarget kernel ptx entry t = (
  select_target-some kernel ptx entry t,
  λ is_target.
      let distinct = local_devfuncs-IsDistinct ptx in
      let found =
        select_function-pick kernel (local_devfuncs ptx)
        ∙ Chosen→pick (local_devfuncs ptx) distinct (criteria kernel) t.function_name t.source
            is_target.chosen in
      rw (Chosen-nonempty (local_devfuncs ptx) (criteria kernel) _ _ is_target.chosen, found)
        (λ i. some (record {
          kernel_name = sym is_target.named i;
          function_name = t.function_name;
          function_id = sym is_target.numbered i;
          source = t.source;
          candidates = sym is_target.listed i;
        })),
)

only_lem {ℓ} : {A : Type ℓ} (xs : List A) (a : A) → (only xs ≡ some a) ↔ (xs ≡ a ∷ [])
only_lem [] a = (λ h. absurd (cc), λ h. absurd (cc))
only_lem (x ∷ []) a = (λ h. cc, λ h. cc)
only_lem (x ∷ y ∷ xs) a = (λ h. absurd (cc), λ h. absurd (cc))

-- An id is inferred from a wrapper exactly if it is the only nonzero immediate that it compares with.
pub infer_single_func_id-IsOnly :
    (entry : Text) (n : ℕ)
    → (infer_single_func_id entry ≡ some n) ↔ IsOnly is_nonzero (immediates entry) n
unfolding infer_single_func_id
infer_single_func_id-IsOnly entry n =
    let candidates = unseen [] (keep is_nonzero (immediates entry)) in
    let (one_found, found_one) = only_lem candidates n in
    let (kept, keeps) = unseen-keep-IsOnly is_nonzero (immediates entry) n in
    (λ h. kept (one_found h), λ h. found_one (keeps h))
