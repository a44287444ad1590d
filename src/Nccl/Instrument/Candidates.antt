-- ===== src/Nccl/Instrument/Candidates.antt =====
-- What the loop over the candidates leaves behind.
use fabricperf.Prelude.{
  ℕ, Bool, true, false, ◌||◌, ◌&&◌, none, List, [], ◌∷◌, ◌++◌, map, ◌≡◌, refl, sym, ap, subst, ◌∙◌,
  inl, inr, Bool-cases, arith,
}
use fabricperf.Prelude.Keys.{nat_eq, list_eq, ◌==◌, member, list_same_iff}
use fabricperf.Prelude.Dict.{Dict, values}
use fabricperf.Prelude.Distinct.{member-append}
use fabricperf.Prelude.Text.{Text}
use fabricperf.Prelude.Result.{Result, ok, raise, value_error, ◌>>=◌}
use fabricperf.Nccl.Toml.{Table}
use fabricperf.Nccl.Table.{NcclDevFuncTarget}
use fabricperf.Nccl.Shell.{is_memory_probe}
use fabricperf.Nccl.KernelInfo.{sorted_items}
use fabricperf.Nccl.Devfunc.{CudaProber}
use fabricperf.Nccl.Instrument.{
  Instrumented, instrument_selected_devfunc, candidate_names, Progress, after_instrumenting,
  after_skipping, after_candidate, candidates_loop, instrument_devfunc_candidates,
}

abbrev pub skipped_names : Progress → List Text
skipped_names p = map (λ s. s.0) p.skipped

left_of : {a b : Bool} → b ≡ false → (a || b) ≡ true → a ≡ true
left_of {a = true} h k = refl
left_of {a = false} h k = absurd (cc)

map-append :
    (xs ys : List (Text × Text))
    → map (λ s. s.0) (xs ++ ys) ≡ map (λ s. s.0) xs ++ map (λ s. s.0) ys
map-append [] ys = refl
map-append (x ∷ xs) ys = ap (◌∷◌ x.0) (map-append xs ys)

module _ (instrument : Text → Text → Result Instrumented) (target begin : Text) where
  -- The text `u` is `t` with the functions of the list instrumented, one after the other.
  abbrev pub Passes : Text → List Text → Text → Type 0
  Passes t [] u = t ≡ u
  Passes t (n ∷ ns) u = (i : Instrumented) × (instrument t n ≡ ok i) × Passes i.0 ns u

  Passes-append :
      (t u : Text) (ns : List Text) (n : Text) (i : Instrumented)
      → Passes t ns u
      → instrument u n ≡ ok i
      → Passes t (ns ++ n ∷ []) i.0
  Passes-append t u [] n i h e = (i, ap (λ s. instrument s n) h ∙ e, refl)
  Passes-append t u (m ∷ ns) n i (j, first, rest) e = (j, first, Passes-append j.0 u ns n i rest e)

  -- Each function that was seen is either instrumented or skipped, and the target is not skipped.
  pub record IsSettled (p : Progress) : Type 0 where
    pub passes : Passes begin p.instrumented p.ptx
    pub seen_iff :
        (n : Text) → member n p.seen ≡ (member n p.instrumented || member n (skipped_names p))
    pub disjoint : (n : Text) → (member n p.instrumented && member n (skipped_names p)) ≡ false
    pub target_kept : member target (skipped_names p) ≡ false

  -- The loop over `names` from `p` on: it has seen them all, or it raises what the instrumenting of a
  -- function raised, and a `ValueError` only of the target.
  abbrev pub Outcome : Progress → List Text → Result Progress → Type 0
  Outcome p names (ok q) =
      IsSettled q × ((n : Text) → member n q.seen ≡ (member n p.seen || member n names))
  Outcome p names (raise kind message) =
      (ptx : Text) × (name : Text) × (instrument ptx name ≡ raise kind message)
      × (kind ≡ value_error → name ≡ target)

  -- What was seen in the first round counts.
  Outcome-later :
      (p q : Progress) (name : Text) (names : List Text) (r : Result Progress)
      → ((n : Text) → member n q.seen ≡ (name == n || member n p.seen))
      → Outcome q names r
      → Outcome p (name ∷ names) r
  Outcome-later p q name names (ok t) seen (sorted, all) =
      (sorted, λ n. ground (arith, seen n, all n))
  Outcome-later p q name names (raise kind message) seen raised = raised

  -- A function that is not seen is in neither list.
  unseen_nowhere :
      (name n : Text) (p : Progress)
      → member name p.seen ≡ false
      → (name == n) ≡ true
      → IsSettled p
      → (member n p.instrumented ≡ false) × (member n (skipped_names p) ≡ false)
  unseen_nowhere name n p new same sorted =
      let here : member n p.seen ≡ false =
        subst (λ m. member m p.seen ≡ false) ((list_same_iff name n).0 same) new in
      (ground (arith, here, sorted.seen_iff n), ground (arith, here, sorted.seen_iff n))

  after_instrumenting-IsSettled :
      (name : Text) (p : Progress) (i : Instrumented)
      → instrument p.ptx name ≡ ok i
      → member name p.seen ≡ false
      → IsSettled p
      → IsSettled (after_instrumenting name p i)
  after_instrumenting-IsSettled name p i e new sorted = record {
    passes = Passes-append begin p.ptx p.instrumented name i sorted.passes e;
    seen_iff =
        λ n. rw (member-append n p.instrumented (name ∷ [])) (ground (arith, sorted.seen_iff n));
    disjoint = λ n. elim (Bool-cases (name == n)) [
      | inl same ↦
          let (done, passed) = unseen_nowhere name n p new same sorted in
          rw (member-append n p.instrumented (name ∷ []), done, passed) (ground arith)
      | inr other ↦
          rw (member-append n p.instrumented (name ∷ [])) (ground (arith, sorted.disjoint n, other))
    ];
    target_kept = sorted.target_kept;
  }

  skipped_names-after :
      (n name reason : Text) (p : Progress)
      → member n (skipped_names (after_skipping name p reason))
        ≡ (member n (skipped_names p) || (name == n || false))
  skipped_names-after n name reason p =
      ap (member n) (map-append p.skipped ((name, reason) ∷ []))
      ∙ member-append n (skipped_names p) (name ∷ [])

  after_skipping-IsSettled :
      (name reason : Text) (p : Progress)
      → member name p.seen ≡ false
      → (name == target) ≡ false
      → IsSettled p
      → IsSettled (after_skipping name p reason)
  after_skipping-IsSettled name reason p new not_target sorted = record {
    passes = sorted.passes;
    seen_iff = λ n. rw (skipped_names-after n name reason p) (ground (arith, sorted.seen_iff n));
    disjoint = λ n. elim (Bool-cases (name == n)) [
      | inl same ↦
          let (done, passed) = unseen_nowhere name n p new same sorted in
          rw (skipped_names-after n name reason p, done) refl
      | inr other ↦
          rw (skipped_names-after n name reason p) (ground (arith, sorted.disjoint n, other))
    ];
    target_kept =
        rw (skipped_names-after target name reason p)
          (ground (arith, sorted.target_kept, not_target));
  }

  -- One round on a function that was not seen.
  abbrev Round : Progress → Text → Result Progress → Type 0
  Round p name (ok q) =
      IsSettled q × ((n : Text) → member n q.seen ≡ (name == n || member n p.seen))
  Round p name (raise kind message) =
      (instrument p.ptx name ≡ raise kind message) × (kind ≡ value_error → name ≡ target)

  after_candidate-Round :
      (name : Text) (p : Progress) (r : Result Instrumented)
      → instrument p.ptx name ≡ r
      → member name p.seen ≡ false
      → IsSettled p
      → Round p name (after_candidate target name p r)
  after_candidate-Round name p (ok i) e new sorted =
      (after_instrumenting-IsSettled name p i e new sorted, λ n. refl)
  after_candidate-Round name p (raise value_error reason) e new sorted =
      elim (Bool-cases (name == target)) [
        | inl same ↦ rw same (e, λ v. (list_same_iff name target).0 same)
        | inr other ↦ rw other (after_skipping-IsSettled name reason p new other sorted, λ n. refl)
      ]
  after_candidate-Round name p (raise kind message) e new sorted = (e, λ v. absurd (cc))

  rounds-Outcome :
      (p : Progress) (name : Text) (names : List Text) (r : Result Progress)
      → Round p name r
      → ((q : Progress) → IsSettled q → Outcome q names (candidates_loop instrument target names q))
      → Outcome p (name ∷ names) (r >>= candidates_loop instrument target names)
  rounds-Outcome p name names (raise kind message) (e, only_target) rest =
      (p.ptx, name, e, only_target)
  rounds-Outcome p name names (ok q) (sorted, seen) rest =
      Outcome-later p q name names (candidates_loop instrument target names q) seen (rest q sorted)

  candidates_loop-Outcome :
      (names : List Text) (p : Progress)
      → IsSettled p
      → Outcome p names (candidates_loop instrument target names p)
  unfolding candidates_loop
  candidates_loop-Outcome [] p sorted = (sorted, λ n. ground arith)
  candidates_loop-Outcome (name ∷ names) p sorted = elim (Bool-cases (member name p.seen)) [
    | inl seen ↦ rw seen (
        Outcome-later p p name names (candidates_loop instrument target names p)
          (λ n. elim (Bool-cases (name == n)) [
            | inl same ↦
                rw (same, subst (λ m. member m p.seen ≡ true) ((list_same_iff name n).0 same) seen)
                  refl
            | inr other ↦ rw other refl
          ])
          (candidates_loop-Outcome names p sorted))
    | inr new ↦ rw new (
        rounds-Outcome p name names (after_candidate target name p (instrument p.ptx name))
          (after_candidate-Round name p (instrument p.ptx name) refl new sorted)
          (candidates_loop-Outcome names))
  ]

-- The candidates: the target, and for a memory probe every function of the table.
abbrev pub is_candidate : NcclDevFuncTarget → Dict ℕ Text → Bool → Text → Bool
is_candidate target local_mapping memory n =
    target.function_name == n || (memory && member n (values (sorted_items local_mapping)))

member-candidate_names :
    (target : NcclDevFuncTarget) (local_mapping : Dict ℕ Text) (memory : Bool) (n : Text)
    → member n (candidate_names target local_mapping memory)
      ≡ is_candidate target local_mapping memory n
unfolding candidate_names
member-candidate_names target local_mapping false n = ground arith
member-candidate_names target local_mapping true n =
    let names = values (sorted_items local_mapping) in
    elim (Bool-cases (member target.function_name names)) [
      | inl there ↦ elim (Bool-cases (target.function_name == n)) [
        | inl same ↦
            rw
              (
                there,
                same,
                subst (λ m. member m names ≡ true) ((list_same_iff target.function_name n).0 same)
                    there,
              )
              refl
        | inr other ↦ rw (there, other) refl
      ]
      | inr missing ↦ rw (missing, member-append n names (target.function_name ∷ [])) (ground arith)
    ]

-- What is known of the instrumented functions `p`.
pub record IsInstrumented (instrument : Text → Text → Result Instrumented) (ptx : Text)
    (target : NcclDevFuncTarget) (local_mapping : Dict ℕ Text) (memory : Bool) (p : Progress)
    : Type 0 where
  pub passes : Passes instrument target.function_name ptx ptx p.instrumented p.ptx
  pub covered :
      (n : Text)
      → (member n p.instrumented || member n (skipped_names p))
        ≡ is_candidate target local_mapping memory n
  pub disjoint : (n : Text) → (member n p.instrumented && member n (skipped_names p)) ≡ false
  pub target_done : member target.function_name p.instrumented ≡ true

-- The candidates are instrumented, or an error of one is raised: a `ValueError` only of the target's.
abbrev pub IsOutcome :
    CudaProber → Text → NcclDevFuncTarget → Dict ℕ Text → Table → Result Progress → Type 0
IsOutcome prober ptx target local_mapping raw_probe (ok p) =
    IsInstrumented (λ t name. instrument_selected_devfunc prober t name raw_probe) ptx target
      local_mapping (is_memory_probe raw_probe) p
IsOutcome prober ptx target local_mapping raw_probe (raise kind message) =
    (t : Text) × (name : Text) × (instrument_selected_devfunc prober t name raw_probe
      ≡ raise kind message)
    × (kind ≡ value_error → name ≡ target.function_name)

abbrev start : Text → Progress
start ptx = record { ptx = ptx; fallback_name = none; instrumented = []; skipped = []; seen = [] }

Outcome-IsOutcome :
    (prober : CudaProber) (ptx : Text) (target : NcclDevFuncTarget) (local_mapping : Dict ℕ Text)
    (raw_probe : Table) (r : Result Progress)
    → Outcome
        (λ t name. instrument_selected_devfunc prober t name raw_probe)
        target.function_name
        ptx
        (start ptx)
        (candidate_names target local_mapping (is_memory_probe raw_probe))
        r
    → IsOutcome prober ptx target local_mapping raw_probe r
Outcome-IsOutcome prober ptx target local_mapping raw_probe (raise kind message) raised = raised
Outcome-IsOutcome prober ptx target local_mapping raw_probe (ok p) (sorted, all) =
    let memory = is_memory_probe raw_probe in
    let covered : (n : Text)
        → (member n p.instrumented || member n (skipped_names p))
          ≡ is_candidate target local_mapping memory n =
      λ n. sym (sorted.seen_iff n) ∙ all n ∙ member-candidate_names target local_mapping memory n in
    let self = (list_same_iff target.function_name target.function_name).1 refl in
    record {
      passes = sorted.passes;
      covered = covered;
      disjoint = sorted.disjoint;
      target_done = left_of (sorted.target_kept) (covered target.function_name ∙ rw self refl);
    }

-- Instrumenting the candidates either instruments or skips each of them, not both, and instruments the
-- target, and the text is what instrumenting the instrumented ones, one after the other in their order,
-- makes of the given one, where a memory probe's candidates are the target and the functions of the table, and another
-- probe's the target; or it raises an error of one function, a `ValueError` only of the target.
pub instrument_devfunc_candidates-IsOutcome :
    (prober : CudaProber) (ptx : Text) (target : NcclDevFuncTarget) (local_mapping : Dict ℕ Text)
    (raw_probe : Table)
    → IsOutcome prober ptx target local_mapping raw_probe
        (instrument_devfunc_candidates prober ptx target local_mapping raw_probe)
unfolding instrument_devfunc_candidates
instrument_devfunc_candidates-IsOutcome prober ptx target local_mapping raw_probe =
    let names = candidate_names target local_mapping (is_memory_probe raw_probe) in
    let instrument : Text → Text → Result Instrumented =
      λ t name. instrument_selected_devfunc prober t name raw_probe in
    Outcome-IsOutcome prober ptx target local_mapping raw_probe
      (candidates_loop instrument target.function_name names (start ptx))
      (candidates_loop-Outcome instrument target.function_name ptx names (start ptx)
        (record { passes = refl; seen_iff = λ n. refl; disjoint = λ n. refl; target_kept = refl }))
