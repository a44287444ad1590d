-- ===== src/Nccl/KernelInfo/Bounds.antt =====
-- What is in the table that is read: keys in range, each once and in order, with names.
use fabricperf.Prelude.{
  ℕ, Bool, true, false, ◌||◌, Option, none, some, List, [], ◌∷◌, map, All, length, eqb, leb,
  get_elem?, ◌≡◌, refl, inl, inr, Bool-cases, arith, ◌+◌,
}
use fabricperf.Prelude.Int.{ℤ, pos, negsuc, ltb_ℤ}
use fabricperf.Prelude.Keys.{nat_eq, list_eq, ◌==◌, Eq}
use fabricperf.Prelude.Dict.{Dict, IsDict, has, put-IsDict, All-put}
use fabricperf.Prelude.Sort.{insert, sort, sort-IsSorted, IsSorted, text_le}
use fabricperf.Prelude.Text.{Text, codes, strip, partition, parse_int}
use fabricperf.Prelude.Lines.{splitlines}
use fabricperf.Nccl.KernelInfo.{
  index_of, slice_int, add_index, add_entry, add_entries, item_le, sorted_items, is_line, int_at,
  read_counts, read_section, nccl_runtime_table_mapping_from_kernel_info,
}

module _ {ℓ κ} {K : Type ℓ} {V : Type κ} ⦃e : Eq K⦄ (le : K × V → K × V → Bool) where
  has-insert : (k j : K) (v : V) (d : Dict K V) → has j (insert le (k, v) d) ≡ (k == j || has j d)
  unfolding has insert
  has-insert k j v [] = refl
  has-insert k j v ((i, w) ∷ d) = elim (Bool-cases (le (k, v) (i, w))) [
    | inl h ↦ rw h refl
    | inr h ↦ rw (h, has-insert k j v d) (ground arith)
  ]

  insert-IsDict :
      (k : K) (v : V) (d : Dict K V) → has k d ≡ false → IsDict d → IsDict (insert le (k, v) d)
  unfolding has insert
  insert-IsDict k v [] n h = (refl, tt)
  insert-IsDict k v ((i, w) ∷ d) n h = elim (Bool-cases (le (k, v) (i, w))) [
    | inl p ↦ rw p (n, h)
    | inr p ↦ rw p (
      rw (has-insert k i v d) (ground (arith, e.same_iff k i, e.same_iff i k, n, h.0)),
      insert-IsDict k v d (ground (arith, n)) h.1,
    )
  ]

  has-sort : (j : K) (d : Dict K V) → has j (sort le d) ≡ has j d
  unfolding has sort
  has-sort j [] = refl
  has-sort j ((i, w) ∷ d) = rw (has-insert i j w (sort le d), has-sort j d) refl

  pub sort-IsDict : (d : Dict K V) → IsDict d → IsDict (sort le d)
  unfolding sort
  sort-IsDict [] h = tt
  sort-IsDict ((i, w) ∷ d) h =
      insert-IsDict i w (sort le d) (rw (has-sort i d) h.0) (sort-IsDict d h.1)

module _ {ℓ κ} {A : Type ℓ} (P : A → Type κ) (le : A → A → Bool) where
  All-insert : (x : A) (xs : List A) → P x → All P xs → All P (insert le x xs)
  unfolding insert
  All-insert x [] p h = (p, tt)
  All-insert x (y ∷ ys) p h = elim (Bool-cases (le x y)) [
    | inl q ↦ rw q (p, h)
    | inr q ↦ rw q (h.0, All-insert x ys p h.1)
  ]

  pub All-sort : (xs : List A) → All P xs → All P (sort le xs)
  unfolding sort
  All-sort [] h = tt
  All-sort (x ∷ xs) h = All-insert x (sort le xs) h.0 (All-sort xs h.1)

text_le_total : (s t : Text) → text_le s t ≡ false → text_le t s ≡ true
unfolding text_le
text_le_total [] t h = absurd (cc)
text_le_total (c ∷ s) [] h = refl
text_le_total (c ∷ s) (d ∷ t) h = ground (arith, text_le_total s t)

item_le_total : (a b : ℕ × Text) → item_le a b ≡ false → item_le b a ≡ true
unfolding item_le
item_le_total (i, s) (j, t) h = ground (arith, text_le_total s t)

-- An index below the declared count, and a name.
abbrev pub IsEntry : ℤ → ℕ × Text → Type 0
IsEntry table_count (index, name) =
    (ltb_ℤ (pos index) table_count ≡ true) × (eqb (length name) 0 ≡ false)

-- The entries of a table: each index once.
abbrev pub IsTable : ℤ → Dict ℕ Text → Type 0
IsTable table_count mapping = IsDict mapping × All (IsEntry table_count) mapping

add_index-IsTable :
    (table_count : ℤ) (index : Option ℤ) (name : Text) (mapping : Dict ℕ Text)
    → IsTable table_count mapping
    → IsTable table_count (add_index table_count index name mapping)
add_index-IsTable table_count none name mapping h = h
add_index-IsTable table_count (some (negsuc i)) name mapping h = h
add_index-IsTable table_count (some (pos i)) [] mapping h = h
add_index-IsTable table_count (some (pos i)) (c ∷ name) mapping h =
    elim (Bool-cases (ltb_ℤ (pos i) table_count)) [
      | inl below ↦ rw below (
        put-IsDict i (c ∷ name) mapping h.0,
        All-put (IsEntry table_count) i (c ∷ name) mapping (below, ground arith) h.1,
      )
      | inr above ↦ rw above h
    ]

add_entry-IsTable :
    (table_count : ℤ) (line : Text) (mapping : Dict ℕ Text)
    → IsTable table_count mapping
    → IsTable table_count (add_entry table_count line mapping)
unfolding add_entry
add_entry-IsTable table_count line mapping h =
    let (index_text, found, name) = partition b',' line in
    elim (Bool-cases found) [
      | inl comma ↦ rw comma (add_index-IsTable table_count (parse_int index_text) name mapping h)
      | inr plain ↦ rw plain h
    ]

add_entries-IsTable :
    (table_count : ℤ) (lines : List Text) (mapping : Dict ℕ Text)
    → IsTable table_count mapping
    → IsTable table_count (add_entries table_count lines mapping)
unfolding add_entries
add_entries-IsTable table_count [] mapping h = h
add_entries-IsTable table_count (line ∷ lines) mapping h =
    add_entries-IsTable table_count lines (add_entry table_count line mapping)
      (add_entry-IsTable table_count line mapping h)

-- The table of the count that the section declares, if it declares one.
abbrev pub IsDeclaredTable : Option ℤ → Dict ℕ Text → Type 0
IsDeclaredTable none mapping = mapping ≡ []
IsDeclaredTable (some table_count) mapping = IsTable table_count mapping × IsSorted item_le mapping

abbrev pub count_after : Option ℕ → List Text → Option ℤ
count_after none lines = none
count_after (some start) lines = int_at (start + 5) lines

-- The count that stands five lines below the section's name.
abbrev pub declared_count : Text → Option Text → Option ℤ
declared_count section none = none
declared_count section (some text) =
    let lines = map strip (splitlines text) in count_after (index_of section lines) lines

empty-IsDeclaredTable : (count : Option ℤ) → IsDeclaredTable count []
empty-IsDeclaredTable none = refl
empty-IsDeclaredTable (some c) = ((tt, tt), tt)

read_counts-IsDeclaredTable :
    (table_count n_entries : Option ℤ) (start : ℕ) (lines : List Text)
    → IsDeclaredTable table_count (read_counts table_count n_entries start lines)
unfolding sorted_items
read_counts-IsDeclaredTable none n_entries start lines = refl
read_counts-IsDeclaredTable (some c) none start lines = ((tt, tt), tt)
read_counts-IsDeclaredTable (some c) (some n) start lines =
    let mapping = add_entries c (slice_int start n lines) [] in
    let read : IsTable c mapping = add_entries-IsTable c (slice_int start n lines) [] (tt, tt) in
    (
      (sort-IsDict item_le mapping read.0, All-sort (IsEntry c) item_le mapping read.1),
      sort-IsSorted item_le item_le_total mapping,
    )

read_section-IsDeclaredTable :
    (start : Option ℕ) (lines : List Text)
    → IsDeclaredTable (count_after start lines) (read_section start lines)
read_section-IsDeclaredTable none lines = refl
read_section-IsDeclaredTable (some start) lines =
    let empty = empty-IsDeclaredTable (int_at (start + 5) lines) in
    elim (Bool-cases (leb (length lines) (start + 6))) [
      | inl short ↦ rw short empty
      | inr long ↦
          elim (Bool-cases (is_line (codes "ncclDevFuncTable") (get_elem? lines (start + 2)))) [
            | inl named ↦
                rw (long, named)
                  (read_counts-IsDeclaredTable (int_at (start + 5) lines) (int_at (start + 6) lines)
                    (start + 7) lines)
            | inr other ↦ rw (long, other) empty
          ]
    ]

-- The table that is read, whatever `kernel.info` holds, has each index once, in ascending order, below the
-- declared count, and with a name; without a declared count it is empty.
pub nccl_runtime_table_mapping-IsDeclaredTable :
    (section : Text) (info : Option Text)
    → IsDeclaredTable
        (declared_count section info)
        (nccl_runtime_table_mapping_from_kernel_info section info)
unfolding nccl_runtime_table_mapping_from_kernel_info
nccl_runtime_table_mapping-IsDeclaredTable section none = refl
nccl_runtime_table_mapping-IsDeclaredTable section (some text) =
    let lines = map strip (splitlines text) in
    read_section-IsDeclaredTable (index_of section lines) lines
