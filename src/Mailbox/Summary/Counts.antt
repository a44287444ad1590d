-- ===== src/Mailbox/Summary/Counts.antt =====
-- The counts of analysis/mailbox_debug.py add up.
use fabricperf.Prelude.{
  ℕ, ◌+◌, ◌≤◌, ◌≡◌, refl, List, [], ◌∷◌, arith, if◌then◌else◌, length, keep, length-keep,
  length-append, Bool-cases, inl, inr,
}
use fabricperf.Prelude.Int.{ℤ, pos, neg_ℤ_parts, ◌≤ℤ◌, int_eq}
use fabricperf.Prelude.Keys.{◌==◌, nat_eq, pair_eq}
use fabricperf.Prelude.Dict.{get, get-put, value_or}
use fabricperf.Mailbox.Reader.{DebugRecord}
use fabricperf.Mailbox.Summary.{
  Pair, Groups, count, is_bounded, above, below, summarize_pair, group_record, group_records,
  pair_summary,
}

fewer : (b c : ℤ) (vs : List ℤ) → b ≤ℤ c → count (above c) vs ≤ count (above b) vs
fewer b c [] h = omega arith
fewer b c (v ∷ vs) h =
    let one : (if above c v then 1 else 0) ≤ (if above b v then 1 else 0) = ground arith in
    omega (arith, length-keep (above c) v vs, length-keep (above b) v vs, fewer b c vs h)

-- The records that the groups hold for a pair.
abbrev size_at : Pair → Groups → ℕ
size_at key g = length (value_or [] (get key g.by_pair)) + value_or 0 (get key g.invalid_by_pair)

grouped_one :
    (key : Pair) (g : Groups) (r : DebugRecord)
    → size_at key (group_record g r) ≡ size_at key g + (if (r.src, r.rank) == key then 1 else 0)
grouped_one key g r = elim (Bool-cases ((r.src, r.rank) == key)) [
  | inl here ↦
      let same = (pair_eq.same_iff (r.src, r.rank) key).0 here in
      elim (Bool-cases r.invalid) [
        | inl bad ↦ rw (bad, here, get-put, here, same) (omega arith)
        | inr good ↦
            rw (good, here, get-put, here, same)
              (omega (arith, length-append (value_or [] (get key g.by_pair)) (r.latency ∷ [])))
      ]
  | inr there ↦ elim (Bool-cases r.invalid) [
    | inl bad ↦ rw (bad, there, get-put, there) (omega arith)
    | inr good ↦ rw (good, there, get-put, there) (omega arith)
  ]
]

grouped_size :
    (key : Pair) (g : Groups) (rs : List DebugRecord)
    → size_at key (group_records g rs)
      ≡ size_at key g + count (λ (r : DebugRecord). (r.src, r.rank) == key) rs
grouped_size key g [] = omega arith
grouped_size key g (r ∷ rs) = omega (
  arith,
  grouped_one key g r,
  grouped_size key (group_record g r) rs,
  length-keep (λ (r : DebugRecord). (r.src, r.rank) == key) r rs,
)

-- A value is counted once: as bounded, above or below.
one_count :
    (b v : ℤ)
    → pos 0 ≤ℤ b
    → (if is_bounded b v then 1 else 0)
        + (if above b v then 1 else 0)
        + (if below b v then 1 else 0)
      ≡ 1
one_count b v h = ground (arith, neg_ℤ_parts b)

three_counts :
    (b : ℤ) (vs : List ℤ)
    → pos 0 ≤ℤ b
    → length (keep (is_bounded b) vs) + count (above b) vs + count (below b) vs ≡ length vs
three_counts b [] h = refl
three_counts b (v ∷ vs) h = omega (
  arith,
  length-keep (is_bounded b) v vs,
  length-keep (above b) v vs,
  length-keep (below b) v vs,
  one_count b v h,
  three_counts b vs h,
)

module _ {Float : Type 0} (fmean median : List ℤ → Float) where
  -- The outliers above and below the bound, the bounded values and the invalid ones are together all
  -- of a pair's records, for a bound that is not negative; huge outliers are among those above if the
  -- huge bound is not less than the bound.
  pub summarize_pair_total :
      (values : List ℤ) (invalid : ℕ) (bound huge_bound : ℤ)
      → pos 0 ≤ℤ bound
      → bound ≤ℤ huge_bound
      → ((summarize_pair fmean median values invalid bound huge_bound).positive
            + (summarize_pair fmean median values invalid bound huge_bound).negative
            + (summarize_pair fmean median values invalid bound huge_bound).bounded_count
            + invalid
          ≡ (summarize_pair fmean median values invalid bound huge_bound).total)
        × ((summarize_pair fmean median values invalid bound huge_bound).huge
            ≤ (summarize_pair fmean median values invalid bound huge_bound).positive)
  unfolding summarize_pair
  summarize_pair_total values invalid bound huge_bound h k =
      (omega (arith, three_counts bound values h), fewer bound huge_bound values k)

  -- A pair's total is the number of the records of that source and rank, valid or not.
  pair_summary_total :
      (key : Pair) (rs : List DebugRecord) (bound huge_bound : ℤ)
      → (pair_summary fmean median
          (group_records (record { by_pair = []; invalid_by_pair = [] }) rs)
          key
          bound
          huge_bound).total
        ≡ count (λ (r : DebugRecord). (r.src, r.rank) == key) rs
  unfolding pair_summary summarize_pair get
  pair_summary_total key rs bound huge_bound =
      let none_yet : Groups = record { by_pair = []; invalid_by_pair = [] } in
      omega (arith, grouped_size key none_yet rs)
