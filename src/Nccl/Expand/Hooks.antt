-- ===== src/Nccl/Expand/Hooks.antt =====
-- The probes of the expanded configuration: one for each receive load, and the others.
use fabricperf.Prelude.{
  ℕ, zero, suc, true, false, Option, some, List, [], ◌∷◌, ◌++◌, eqb, ◌+◌, ◌-◌, keep, ◌≡◌, ◌≢◌, refl,
  sym, subst, ap, eqb→eq, ◌∙◌, inl, inr, Bool-cases, ◌≤◌, ◌<◌, arith,
}
use fabricperf.Prelude.Int.{pos}
use fabricperf.Prelude.Keys.{nat_eq, list_eq, ◌==◌, list_same_iff}
use fabricperf.Prelude.Dict.{Dict, get, put, get-put, get-put_self}
use fabricperf.Prelude.Digits.{parse_int-show}
use fabricperf.Prelude.Text.{Text, codes, show, parse_int}
use fabricperf.Nccl.Toml.{
  Value, text, int, table, Table, entry, one_entry, entries, from_entries, entries-from_entries,
  item, set_item, as_table, table_at, item-set_item, item-set_item_other,
}
use fabricperf.Nccl.Shell.{latency_recv_probe, receive_load, latency_local_arrival_snippet}
use fabricperf.Nccl.Expand.{
  count_ptx_op, hook_name, hook, put_hooks, other_probe, expand_latency_local_devfunc_probe,
}

-- Two numbers that are written alike are the same.
pub show-injective : (m n : ℕ) → show m ≡ show n → m ≡ n
show-injective m n h =
    let same : some (pos m) ≡ some (pos n) =
      sym (parse_int-show m) ∙ ap parse_int h ∙ parse_int-show n in
    cc same

append-injective {ℓ} : {A : Type ℓ} (xs : List A) {ys zs : List A} → xs ++ ys ≡ xs ++ zs → ys ≡ zs
append-injective [] h = h
append-injective (x ∷ xs) h = append-injective xs (cc h)

append-longer {ℓ} : {A : Type ℓ} (xs : List A) (y : A) (ys : List A) → xs ≢ xs ++ (y ∷ ys)
append-longer [] y ys h = absurd (cc)
append-longer (x ∷ xs) y ys h = append-longer xs y ys (cc h)

abbrev numbered : ℕ → Text
numbered n = codes "_local_" ++ show n

hook_name-injective : (i j : ℕ) → hook_name i ≡ hook_name j → i ≡ j
unfolding hook_name
hook_name-injective i j h = elim (Bool-cases (eqb i 1)) [
  | inl first ↦ elim (Bool-cases (eqb j 1)) [
    | inl also ↦ ground (arith, first, also)
    | inr later ↦ absurd (append-longer latency_recv_probe _ _ (rw (hook_name, first, later) at h))
  ]
  | inr late ↦ elim (Bool-cases (eqb j 1)) [
    | inl first ↦
        absurd (append-longer latency_recv_probe _ _ (sym (rw (hook_name, late, first) at h)))
    | inr later ↦ show-injective i j (
        append-injective (codes "_local_")
          (append-injective latency_recv_probe (rw (hook_name, late, later) at h)))
  ]
]

hook_name_other : (i j : ℕ) → i ≢ j → (hook_name i == hook_name j) ≡ false
hook_name_other i j h = elim (Bool-cases (hook_name i == hook_name j)) [
  | inl same ↦
      absurd (h (hook_name-injective i j ((list_same_iff (hook_name i) (hook_name j)).0 same)))
  | inr other ↦ other
]

get-put_hooks_before :
    (j nth n : ℕ) (probes : Dict Text Value)
    → j < nth
    → get (hook_name j) (put_hooks nth n probes) ≡ get (hook_name j) probes
unfolding put_hooks
get-put_hooks_before j nth zero probes h = refl
get-put_hooks_before j nth (suc n) probes h =
    get-put_hooks_before j (nth + 1) n (put (hook_name nth) (hook nth) probes) (omega arith)
    ∙ get-put (hook_name nth) (hook_name j) (hook nth) probes
    ∙ rw (hook_name_other nth j (λ p. omega (arith, p))) refl

get-put_hooks :
    (nth n j : ℕ) (probes : Dict Text Value)
    → nth ≤ j
    → j < nth + n
    → get (hook_name j) (put_hooks nth n probes) ≡ some (hook j)
unfolding put_hooks
get-put_hooks nth zero j probes from to = absurd (omega arith)
get-put_hooks nth (suc n) j probes from to = elim (Bool-cases (eqb nth j)) [
  | inl here ↦
      let rest = put (hook_name nth) (hook nth) probes in
      subst (λ i. get (hook_name i) (put_hooks (nth + 1) n rest) ≡ some (hook i))
        (eqb→eq nth j here)
        (get-put_hooks_before nth (nth + 1) n rest (omega arith)
          ∙ get-put_self (hook_name nth) (hook nth) probes)
  | inr there ↦
      get-put_hooks (nth + 1) n j (put (hook_name nth) (hook nth) probes) (ground (arith, there))
        (omega arith)
]

get-put_hooks_other :
    (nth n : ℕ) (name : Text) (probes : Dict Text Value)
    → ((j : ℕ) → nth ≤ j → j < nth + n → (hook_name j == name) ≡ false)
    → get name (put_hooks nth n probes) ≡ get name probes
unfolding put_hooks
get-put_hooks_other nth zero name probes other = refl
get-put_hooks_other nth (suc n) name probes other =
    get-put_hooks_other (nth + 1) n name (put (hook_name nth) (hook nth) probes)
      (λ j from to. other j (omega arith) (omega arith))
    ∙ get-put (hook_name nth) name (hook nth) probes
    ∙ rw (other nth (omega arith) (omega arith)) refl

get-keep_other :
    (name : Text) (probes : Dict Text Value)
    → ((v : Value) → other_probe (name, v) ≡ true)
    → get name (keep other_probe probes) ≡ get name probes
unfolding get
get-keep_other name [] other = refl
get-keep_other name ((k, v) ∷ probes) other = elim (Bool-cases (k == name)) [
  | inl same ↦
      let kept : other_probe (k, v) ≡ true =
        subst (λ n. other_probe (n, v) ≡ true) (sym ((list_same_iff k name).0 same)) (other v) in
      rw (kept, same) refl
  | inr differs ↦ elim (Bool-cases (other_probe (k, v))) [
    | inl kept ↦ rw (kept, differs) (get-keep_other name probes other)
    | inr dropped ↦ rw (dropped, differs) (get-keep_other name probes other)
  ]
]

-- The probe `name` of a configuration.
abbrev pub probe_at : Text → Table → Option Value
probe_at name raw_probe = item name (table_at (codes "probe") raw_probe)

-- The probe of the `nth` receive load: it matches that load, counted from 1, and behind it
-- stands the arrival snippet of the load's index from 0.
abbrev pub receive_hook : ℕ → Value
receive_hook nth = table (
    entry (codes "level") (text (codes "thread")) (
      entry (codes "match")
        (table (entry (codes "op") (text receive_load) (one_entry (codes "nth") (int (pos nth)))))
        (one_entry (codes "after") (
          text (
            latency_local_arrival_snippet (codes "fplat_recv_" ++ show nth)
              (codes "L__fplat_recv_" ++ show nth ++ codes "_done") (nth - 1))))))

hook-receive_hook : (nth : ℕ) → hook nth ≡ receive_hook nth
unfolding hook
hook-receive_hook nth = refl

-- A configuration with a hook for each of `count` loads, else like another one.
pub record IsExpanded (count : ℕ) (raw_probe expanded : Table) : Type 0 where
  pub hooks :
      (nth : ℕ)
      → 1 ≤ nth
      → nth ≤ count
      → probe_at (hook_name nth) expanded ≡ some (receive_hook nth)
  pub distinct : (i j : ℕ) → hook_name i ≡ hook_name j → i ≡ j
  pub others :
      (name : Text)
      → ((v : Value) → other_probe (name, v) ≡ true)
      → ((nth : ℕ) → (hook_name nth == name) ≡ false)
      → probe_at name expanded ≡ probe_at name raw_probe
  pub rest : (key : Text) → (codes "probe" == key) ≡ false → item key expanded ≡ item key raw_probe

-- Expanding the local latency probe for a body with n receive loads gives a probe for each of the
-- loads 1 to n, of a name of its own, that matches that load and has the arrival snippet of its index from 0, and keeps every probe of another name than a receive probe's and every other key.
pub expand_latency_local-IsExpanded :
    (function_body : Text) (raw_probe : Table)
    → IsExpanded
        (count_ptx_op function_body receive_load)
        raw_probe
        (expand_latency_local_devfunc_probe function_body raw_probe)
unfolding expand_latency_local_devfunc_probe table_at item
expand_latency_local-IsExpanded function_body raw_probe =
    let count = count_ptx_op function_body receive_load in
    let kept = keep other_probe (entries (table_at (codes "probe") raw_probe)) in
    let probes = put_hooks 1 count kept in
    elim (Bool-cases (eqb count 0)) [
      | inl nothing ↦ rw nothing (record {
        hooks = λ nth from to. absurd (ground (arith, nothing, from, to));
        distinct = hook_name-injective;
        others = λ name other new. refl;
        rest = λ key other. refl;
      })
      | inr something ↦
          let expanded = set_item (codes "probe") (table (from_entries probes)) raw_probe in
          let placed : (name : Text) → probe_at name expanded ≡ get name probes = λ name.
            ap (λ v. item name (as_table v))
              (item-set_item (codes "probe") (table (from_entries probes)) raw_probe)
            ∙ ap (get name) (entries-from_entries probes) in
          rw something (record {
            hooks = λ nth from to.
                placed (hook_name nth)
                ∙ get-put_hooks 1 count nth kept from (omega (arith, to))
                ∙ ap some (hook-receive_hook nth);
            distinct = hook_name-injective;
            others = λ name other new.
                placed name
                ∙ get-put_hooks_other 1 count name kept (λ j from to. new j)
                ∙ get-keep_other name (entries (table_at (codes "probe") raw_probe)) other;
            rest = λ key other.
                item-set_item_other (codes "probe") key (table (from_entries probes)) raw_probe
                  other;
          })
    ]
