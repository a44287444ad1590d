-- ===== src/Nccl/KernelInfo/Printed.antt =====
-- The table that is read back from its own lines.
use fabricperf.Prelude.{
  ℕ, suc, true, false, some, List, [], ◌∷◌, ◌++◌, map, All, length, take, drop, get_elem?, ltb, eqb,
  leb, ◌≡◌, refl, sym, subst, ap, ◌∙◌, arith, ◌+◌, length-append, length-map, take-append,
}
use mathlib.Core.List.{append-nil, append_assoc}
use fabricperf.Prelude.Int.{pos}
use fabricperf.Prelude.Keys.{nat_eq, list_eq, ◌==◌, member, list_same_iff}
use fabricperf.Prelude.Dict.{Dict, has, put}
use fabricperf.Prelude.Digits.{AllDigits, show-AllDigits, parse_int-show}
use fabricperf.Prelude.Sort.{insert, sort}
use fabricperf.Prelude.Text.{Text, codes, strip, partition, show, is_digit}
use fabricperf.Prelude.Lines.{splitlines}
use fabricperf.Nccl.KernelInfo.{
  index_of, slice_int, add_entry, add_entries, item_le, sorted_items, is_line, int_of, read_counts,
  read_section, nccl_runtime_table_mapping_from_kernel_info,
}

-- `f"{index},{name}"`
abbrev pub entry_line : ℕ × Text → Text
entry_line (index, name) = show index ++ b',' ∷ name

-- The lines of the section for a table, after its name.
abbrev pub table_lines : Text → Text → Text → ℕ → Dict ℕ Text → List Text
table_lines a b c table_count table =
    a
    ∷ codes "ncclDevFuncTable"
    ∷ b
    ∷ c
    ∷ show table_count
    ∷ show (length table)
    ∷ map entry_line table

-- Indices that grow from `low` on, below the count, each with a name.
abbrev pub Ascends : ℕ → ℕ → Dict ℕ Text → Type 0
Ascends low table_count [] = Unit
Ascends low table_count ((index, name) ∷ table) =
    (leb low index ≡ true)
    × (ltb index table_count ≡ true)
    × (eqb (length name) 0 ≡ false)
    × Ascends (suc index) table_count table

partition_digits : (s t : Text) → AllDigits s → partition b',' (s ++ b',' ∷ t) ≡ (s, true, t)
unfolding partition is_digit
partition_digits [] t d = refl
partition_digits (c ∷ s) t d =
    let other : eqb c 44 ≡ false = ground (arith, d.0) in rw (other, partition_digits s t d.1) refl

add_entry-entry_line :
    (count index : ℕ) (name : Text) (mapping : Dict ℕ Text)
    → ltb index count ≡ true
    → eqb (length name) 0 ≡ false
    → add_entry (pos count) (entry_line (index, name)) mapping ≡ put index name mapping
unfolding add_entry
add_entry-entry_line count index [] mapping below named = absurd (ground arith)
add_entry-entry_line count index (c ∷ name) mapping below named =
    let below' : ltb (index + 0) (count + 0) ≡ true = ground (arith, below) in
    rw
      (
        partition_digits (show index) (c ∷ name) (show-AllDigits index),
        parse_int-show index,
        below',
      )
      refl

put-append : (k : ℕ) (v : Text) (d : Dict ℕ Text) → has k d ≡ false → put k v d ≡ d ++ (k, v) ∷ []
unfolding put has
put-append k v [] h = refl
put-append k v ((i, w) ∷ d) h =
    let other : (i == k) ≡ false = ground (arith, h) in
    rw other (ap (◌∷◌ (i, w)) (put-append k v d (ground (arith, h))))

-- No index of `mapping` reaches `low`.
abbrev Below : ℕ → Dict ℕ Text → Type 0
Below low = All (λ e. ltb e.0 low ≡ true)

Below-has :
    (low k : ℕ) (mapping : Dict ℕ Text)
    → Below low mapping
    → leb low k ≡ true
    → has k mapping ≡ false
unfolding has
Below-has low k [] b h = refl
Below-has low k ((i, w) ∷ mapping) b h =
    let rest = Below-has low k mapping b.1 h in ground (arith, rest, b.0, h)

Below-step :
    (low k : ℕ) (v : Text) (mapping : Dict ℕ Text)
    → Below low mapping
    → leb low k ≡ true
    → Below (suc k) (mapping ++ (k, v) ∷ [])
Below-step low k v [] b h = (ground arith, tt)
Below-step low k v ((i, w) ∷ mapping) b h =
    (ground (arith, b.0, h), Below-step low k v mapping b.1 h)

add_entries-entry_line :
    (low count : ℕ) (table mapping : Dict ℕ Text)
    → Below low mapping
    → Ascends low count table
    → add_entries (pos count) (map entry_line table) mapping ≡ mapping ++ table
unfolding add_entries
add_entries-entry_line low count [] mapping b a = sym (append-nil mapping)
add_entries-entry_line low count ((k, v) ∷ table) mapping b a =
    let (from, below, named, rest) = a in
    let here =
      add_entry-entry_line count k v mapping below named
      ∙ put-append k v mapping (Below-has low k mapping b from) in
    ap (add_entries (pos count) (map entry_line table)) here
    ∙ add_entries-entry_line (suc k) count table (mapping ++ (k, v) ∷ [])
        (Below-step low k v mapping b from) rest
    ∙ append_assoc mapping ((k, v) ∷ []) table

sort-Ascends :
    (low count : ℕ) (table : Dict ℕ Text) → Ascends low count table → sort item_le table ≡ table
unfolding sort item_le
sort-Ascends low count [] a = refl
sort-Ascends low count ((k, v) ∷ []) a = refl
sort-Ascends low count ((k, v) ∷ (j, w) ∷ table) (from, below, named, rest) =
    let first : ltb k j ≡ true = ground (arith, rest.0) in
    ap (insert item_le (k, v)) (sort-Ascends (suc k) count ((j, w) ∷ table) rest) ∙ rw first refl

index_of-append :
    (t : Text) (before after : List Text)
    → member t before ≡ false
    → index_of t (before ++ (t ∷ after)) ≡ some (length before)
unfolding index_of
index_of-append t [] after h = rw ((list_same_iff t t).1 refl) refl
index_of-append t (l ∷ before) after h =
    let other : (l == t) ≡ false = ground (arith, h) in
    rw (other, index_of-append t before after (ground (arith, h))) refl

drop-append_more {ℓ} :
    {A : Type ℓ} (xs ys : List A) (n : ℕ) → drop (length xs + n) (xs ++ ys) ≡ drop n ys
drop-append_more [] ys n = ap (λ k. drop k ys) (omega arith)
drop-append_more (x ∷ xs) ys n =
    let next : suc (length xs) + n ≡ suc (length xs + n) = omega arith in
    ap (λ k. drop k (x ∷ xs ++ ys)) next ∙ drop-append_more xs ys n

get_elem?-append_more {ℓ} :
    {A : Type ℓ} (xs ys : List A) (n : ℕ) → get_elem? (xs ++ ys) (length xs + n) ≡ get_elem? ys n
get_elem?-append_more [] ys n = ap (get_elem? ys) (omega arith)
get_elem?-append_more (x ∷ xs) ys n =
    let next : suc (length xs) + n ≡ suc (length xs + n) = omega arith in
    ap (get_elem? (x ∷ xs ++ ys)) next ∙ get_elem?-append_more xs ys n

read_counts-entry_line :
    (count : ℕ) (table : Dict ℕ Text) (start : ℕ) (lines after : List Text)
    → Ascends 0 count table
    → drop start lines ≡ map entry_line table ++ after
    → read_counts (some (pos count)) (some (pos (length table))) start lines ≡ table
unfolding slice_int sorted_items
read_counts-entry_line count table start lines after a h =
    let slice : take (length table) (drop start lines) ≡ map entry_line table =
      ap (take (length table)) h
      ∙ subst (λ n. take n (map entry_line table ++ after) ≡ map entry_line table)
          (length-map entry_line table) (take-append (map entry_line table) after) in
    ap (λ part. sort item_le (add_entries (pos count) part [])) slice
    ∙ ap (sort item_le) (add_entries-entry_line 0 count table [] tt a)
    ∙ sort-Ascends 0 count table a

-- A table is read back from its lines: if the stripped lines of the file hold the section of a table whose
-- indices ascend below the count and whose names are not empty, and the section's name stands in no
-- earlier line, the table is the result.
pub nccl_runtime_table_mapping-table_lines :
    (section a b c text : Text) (before after : List Text) (count : ℕ) (table : Dict ℕ Text)
    → Ascends 0 count table
    → member section before ≡ false
    → map strip (splitlines text) ≡ before ++ (section ∷ (table_lines a b c count table ++ after))
    → nccl_runtime_table_mapping_from_kernel_info section (some text) ≡ table
unfolding nccl_runtime_table_mapping_from_kernel_info
nccl_runtime_table_mapping-table_lines section a b c text before after count table ascends new h =
    let rest = section ∷ (table_lines a b c count table ++ after) in
    let lines = before ++ rest in
    let long : leb (length lines) (length before + 6) ≡ false =
      rw (length-append before rest) (ground arith) in
    let name = ap (is_line (codes "ncclDevFuncTable")) (get_elem?-append_more before rest 2) in
    let counts = ap int_of (get_elem?-append_more before rest 5) ∙ parse_int-show count in
    let entries = ap int_of (get_elem?-append_more before rest 6) ∙ parse_int-show (length table) in
    ap (λ ls. read_section (index_of section ls) ls) h
    ∙ ap (λ start. read_section start lines)
        (index_of-append section before (table_lines a b c count table ++ after) new)
    ∙ rw (long, name, counts, entries)
        (read_counts-entry_line count table (length before + 7) lines after ascends
          (drop-append_more before rest 7))
