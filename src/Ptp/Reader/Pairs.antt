-- ===== src/Ptp/Reader/Pairs.antt =====
-- Which records analysis/ptp_alignment.py accepts and how it groups them by pair.
use mathlib.Core.List.{append_assoc, append-nil, Perm}
use fabricperf.Prelude.{
  ℕ, ◌≡◌, ◌≢◌, ◌<◌, ◌≤◌, ltb, refl, sym, ◌∙◌, ap, Bool, true, false, ◌||◌, Option, List, [], ◌∷◌,
  ◌++◌, map, eqb, leb, arith, keep, All, enumerate, if◌then◌else◌, Bool-cases, inl, inr, ◌⊎◌,
}
use mathlib.Core.Path.{subst}
use fabricperf.Prelude.Int.{ℤ}
use fabricperf.Prelude.Keys.{◌==◌, nat_eq, pair_eq}
use fabricperf.Prelude.Dict.{get, get-put, value_or}
use fabricperf.Prelude.Sort.{sort, sort-perm, IsSorted, sort-IsSorted}
use fabricperf.Prelude.Text.{Text}
use fabricperf.Prelude.Result.{Result, ok, bind-ok, ok_injective, collect_all}
use fabricperf.Trace.{Dir, bin_files, parse_rank}
use fabricperf.Latency.Compact.{Bytes, TraceHeader, TraceSection}
use fabricperf.Ptp.Slots.{decode_ptp_slot}
use fabricperf.Ptp.Reader.{
  Parsed, PtpRow, PtpRecord, is_unwritten_ptp_record, record_of, records_of_row, parse_ptp_records,
  read_ptp_file, read_ptp_records, Entry, Grouped, group_record, group_records, entry_le, offset_of,
  sorted_offsets,
}

-- A record between two different ranks below the device count, that its slot decodes to.
abbrev pub IsPlaced : ℕ → ℕ → ℕ → PtpRecord → Type 0
IsPlaced devices samples_per_pair compact_dsts r =
    (r.src < devices)
    × (r.dst < devices)
    × (r.src ≢ r.dst)
    × (decode_ptp_slot r.slot_index samples_per_pair compact_dsts
        ≡ ok (r.src, r.dst, r.sample_index))

skipped :
    (skip : Bool) (next : Result (List PtpRecord)) (rs : List PtpRecord)
    → (if skip then ok [] else next) ≡ ok rs
    → (rs ≡ []) ⊎ (next ≡ ok rs)
skipped true next rs e = inl (sym (ok_injective e))
skipped false next rs e = inr e

module _ (devices samples_per_pair compact_dsts : ℕ) where
  record_of-IsPlaced :
      (trace : Text) (rank file_index slot_index : ℕ) (row : PtpRow) (src dst sample : ℕ)
      → decode_ptp_slot slot_index samples_per_pair compact_dsts ≡ ok (src, dst, sample)
      → All
          (IsPlaced devices samples_per_pair compact_dsts)
          (record_of trace rank file_index slot_index row devices (src, dst, sample))
  record_of-IsPlaced trace rank file_index slot_index row src dst sample h =
      elim (Bool-cases (leb devices src || (leb devices dst || eqb src dst))) [
        | inl skip ↦ rw skip tt
        | inr kept ↦ rw kept ((ground arith, ground arith, ground arith, h), tt)
      ]

  records_of_row-IsPlaced :
      (trace : Text) (rank file_index : ℕ) (entry : ℕ × PtpRow) (rs : List PtpRecord)
      → records_of_row trace rank devices samples_per_pair compact_dsts file_index entry ≡ ok rs
      → All (IsPlaced devices samples_per_pair compact_dsts) rs
  records_of_row-IsPlaced trace rank file_index (slot_index, row) rs e =
      elim (skipped (is_unwritten_ptp_record row) _ rs e) [
        | inl none_kept ↦ rw none_kept tt
        | inr kept ↦
            let ((src, dst, sample), decoded, made) =
              bind-ok (decode_ptp_slot slot_index samples_per_pair compact_dsts) _ kept in
            subst (All (IsPlaced devices samples_per_pair compact_dsts)) (ok_injective made)
              (record_of-IsPlaced trace rank file_index slot_index row src dst sample decoded)
      ]

  module _ (header_of : List ℤ → TraceHeader) (section_of : ℕ → ℕ → ℕ → TraceSection)
      (load_reader : Dir Bytes → Result (Bytes → Result Parsed))
      (match_rank : Text → Option ℕ) where
    read_ptp_file-IsPlaced :
        (trace : Text) (rank : ℕ) (parse : Bytes → Result Parsed) (file : ℕ × (Text × Bytes))
        (rs : List PtpRecord)
        → read_ptp_file header_of section_of load_reader match_rank trace rank devices
            samples_per_pair compact_dsts parse file
          ≡ ok rs
        → All (IsPlaced devices samples_per_pair compact_dsts) rs
    unfolding read_ptp_file
    read_ptp_file-IsPlaced trace rank parse (file_index, (name, file)) rs e =
        let (rows, _, e₁) = bind-ok (parse_ptp_records header_of section_of parse file) _ e in
        collect_all (IsPlaced devices samples_per_pair compact_dsts)
          (records_of_row trace rank devices samples_per_pair compact_dsts file_index)
          (records_of_row-IsPlaced trace rank file_index) (enumerate 0 rows) rs e₁

    -- Every record that is read has two different ranks below the device count, and is what the index
    -- of its slot decodes to.
    pub read_ptp_records-IsPlaced :
        (d : Text × Dir Bytes) (rs : List PtpRecord)
        → read_ptp_records header_of section_of load_reader match_rank devices samples_per_pair
            compact_dsts d
          ≡ ok rs
        → All (IsPlaced devices samples_per_pair compact_dsts) rs
    unfolding read_ptp_records
    read_ptp_records-IsPlaced (trace, d) rs e =
        let (rank, _, e₁) = bind-ok (parse_rank match_rank d) _ e in
        let (parse, _, e₂) = bind-ok (load_reader d) _ e₁ in
        collect_all (IsPlaced devices samples_per_pair compact_dsts)
          (read_ptp_file header_of section_of load_reader match_rank trace rank devices
            samples_per_pair compact_dsts parse)
          (read_ptp_file-IsPlaced trace rank parse) (enumerate 0 (bin_files d)) rs e₂

abbrev pub entry_of : PtpRecord → Entry
entry_of r = (r.file_index, r.sample_index, r.slot_index, r.offset)

abbrev pub is_of : ℕ × ℕ → PtpRecord → Bool
is_of pair r = (r.src, r.dst) == pair

group_record_at :
    (pair : ℕ × ℕ) (g : Grouped) (r : PtpRecord)
    → value_or [] (get pair (group_record g r)) ≡ (
        if is_of pair r
        then value_or [] (get pair g) ++ entry_of r ∷ []
        else value_or [] (get pair g))
group_record_at pair g r = elim (Bool-cases ((r.src, r.dst) == pair)) [
  | inl here ↦
      let same = (pair_eq.same_iff (r.src, r.dst) pair).0 here in rw (get-put, here, same) refl
  | inr there ↦ rw (get-put, there) refl
]

get-group_records :
    (pair : ℕ × ℕ) (g : Grouped) (rs : List PtpRecord)
    → value_or [] (get pair (group_records g rs))
      ≡ value_or [] (get pair g) ++ map entry_of (keep (is_of pair) rs)
get-group_records pair g [] = sym (append-nil (value_or [] (get pair g)))
get-group_records pair g (r ∷ rs) =
    get-group_records pair (group_record g r) rs ∙ elim (Bool-cases (is_of pair r)) [
      | inl here ↦ rw (group_record_at, here, append_assoc) refl
      | inr there ↦ rw (group_record_at, there) refl
    ]

get-sorted_offsets :
    (pair : ℕ × ℕ) (g : Grouped)
    → value_or [] (get pair (map sorted_offsets g))
      ≡ map offset_of (sort entry_le (value_or [] (get pair g)))
unfolding get sort
get-sorted_offsets pair [] = refl
get-sorted_offsets pair ((key, entries) ∷ g) = elim (Bool-cases (key == pair)) [
  | inl here ↦ rw here refl
  | inr there ↦ rw there (get-sorted_offsets pair g)
]

grouped_offsets :
    (pair : ℕ × ℕ) (rs : List PtpRecord)
    → value_or [] (get pair (map sorted_offsets (group_records [] rs)))
      ≡ map offset_of (sort entry_le (map entry_of (keep (is_of pair) rs)))
unfolding get
grouped_offsets pair rs =
    get-sorted_offsets pair (group_records [] rs)
    ∙ ap (λ es. map offset_of (sort entry_le es)) (get-group_records pair [] rs)

-- An entry comes before another by file, then by sample, then by slot.
abbrev pub Precedes : Entry → Entry → Type 0
Precedes (f, s, t, _) (f', s', t', _) = (f < f') ⊎ ((f ≡ f') × ((s < s') ⊎ ((s ≡ s') × (t ≤ t'))))

abbrev pub IsOrdered : List Entry → Type 0
IsOrdered [] = Unit
IsOrdered (x ∷ []) = Unit
IsOrdered (x ∷ y ∷ ys) = Precedes x y × IsOrdered (y ∷ ys)

entry_le-total : (x y : Entry) → entry_le x y ≡ false → entry_le y x ≡ true
entry_le-total (f, s, t, o) (f', s', t', o') h = ground arith

entry_le-Precedes : (x y : Entry) → entry_le x y ≡ true → Precedes x y
entry_le-Precedes (f, s, t, o) (f', s', t', o') h = elim (Bool-cases (ltb f f')) [
  | inl earlier ↦ inl (ground (arith, earlier))
  | inr file ↦ elim (Bool-cases (ltb s s')) [
    | inl earlier ↦ inr (ground (arith, file, h), inl (ground (arith, earlier)))
    | inr sample ↦ inr (
      ground (arith, file, h),
      inr (ground (arith, file, sample, h), ground (arith, file, sample, h)),
    )
  ]
]

IsSorted-IsOrdered : (es : List Entry) → IsSorted entry_le es → IsOrdered es
IsSorted-IsOrdered [] h = tt
IsSorted-IsOrdered (x ∷ []) h = tt
IsSorted-IsOrdered (x ∷ y ∷ es) h = (entry_le-Precedes x y h.0, IsSorted-IsOrdered (y ∷ es) h.1)

-- The offsets of a pair are those of the pair's records, each once, in the order of file, sample and
-- slot.
pub sorted_offsets-group_records :
    (pair : ℕ × ℕ) (rs : List PtpRecord)
    → (es : List Entry) × Perm es (map entry_of (keep (is_of pair) rs))
      × IsOrdered es
      × (value_or [] (get pair (map sorted_offsets (group_records [] rs))) ≡ map offset_of es)
sorted_offsets-group_records pair rs =
    let entries = map entry_of (keep (is_of pair) rs) in
    (
      sort entry_le entries,
      sort-perm entry_le entries,
      IsSorted-IsOrdered (sort entry_le entries) (sort-IsSorted entry_le entry_le-total entries),
      grouped_offsets pair rs,
    )
