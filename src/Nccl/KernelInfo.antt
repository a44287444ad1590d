-- ===== src/Nccl/KernelInfo.antt =====
-- The NCCL runtime table in `kernel.info`, and the number of the selected function: nccl/prober.py,
-- `nccl_runtime_table_mapping_from_kernel_info` and `selected_target_func_id`.
pub mod Bounds
pub mod Printed
use fabricperf.Prelude.{
  ℕ, zero, suc, Bool, true, false, ◌||◌, ◌&&◌, Option, none, some, List, [], ◌∷◌, map, keep, length,
  take, drop, get_elem?, leb, ltb, eqb, if◌then◌else◌, ◌-◌, ◌+◌,
}
use mathlib.Core.Option
use fabricperf.Prelude.Int.{ℤ, pos, negsuc, ltb_ℤ}
use fabricperf.Prelude.Keys.{◌==◌, nat_eq, list_eq}
use fabricperf.Prelude.Dict.{Dict, keys, put}
use fabricperf.Prelude.Sort.{sort, text_le}
use fabricperf.Prelude.Text.{Text, codes, strip, partition, parse_int}
use fabricperf.Prelude.Lines.{splitlines}
use fabricperf.Nccl.Table.{NcclDevFuncTarget, only}

-- `lines.index(line)`, with `none` for its `ValueError`.
unfoldable pub index_of : Text → List Text → Option ℕ
index_of t [] = none
index_of t (l ∷ lines) = if l == t then some 0 else Option.map suc (index_of t lines)

-- `lines[start:start + n]` where `start` is not negative: a negative end counts from the end.
unfoldable pub slice_int : ℕ → ℤ → List Text → List Text
slice_int start (pos n) lines = take n (drop start lines)
slice_int start (negsuc m) lines =
    if leb (suc m) start
    then []
    else take (length lines - (suc m - start) - start) (drop start lines)

-- One line of the table: `0 <= table_index < table_count and function_name`.
abbrev pub add_index : ℤ → Option ℤ → Text → Dict ℕ Text → Dict ℕ Text
add_index table_count (some (pos index)) (c ∷ name) mapping =
    if ltb_ℤ (pos index) table_count then put index (c ∷ name) mapping else mapping
add_index table_count index name mapping = mapping

unfoldable pub add_entry : ℤ → Text → Dict ℕ Text → Dict ℕ Text
unfolding partition parse_int put
add_entry table_count line mapping =
    let (index_text, found, function_name) = partition b',' line in
    if found then add_index table_count (parse_int index_text) function_name mapping else mapping

unfoldable pub add_entries : ℤ → List Text → Dict ℕ Text → Dict ℕ Text
unfolding add_entry
add_entries table_count [] mapping = mapping
add_entries table_count (line ∷ lines) mapping =
    add_entries table_count lines (add_entry table_count line mapping)

-- The order of the pairs `(index, name)`.
unfoldable pub item_le : ℕ × Text → ℕ × Text → Bool
unfolding text_le
item_le (i, a) (j, b) = ltb i j || (eqb i j && text_le a b)

-- `dict(sorted(mapping.items()))`
unfoldable pub sorted_items : Dict ℕ Text → Dict ℕ Text
unfolding sort item_le
sorted_items mapping = sort item_le mapping

abbrev pub is_line : Text → Option Text → Bool
is_line t none = false
is_line t (some line) = line == t

abbrev pub read_counts : Option ℤ → Option ℤ → ℕ → List Text → Dict ℕ Text
read_counts (some table_count) (some n_entries) start lines =
    sorted_items (add_entries table_count (slice_int start n_entries lines) [])
read_counts table_count n_entries start lines = []

abbrev pub int_of : Option Text → Option ℤ
int_of none = none
int_of (some line) = parse_int line

abbrev pub int_at : ℕ → List Text → Option ℤ
int_at i lines = int_of (get_elem? lines i)

-- From the line of the section on; `start` is its index.
abbrev pub read_section : Option ℕ → List Text → Dict ℕ Text
read_section none lines = []
read_section (some start) lines =
    if leb (length lines) (start + 6)
    then []
    else if is_line (codes "ncclDevFuncTable") (get_elem? lines (start + 2))
    then read_counts (int_at (start + 5) lines) (int_at (start + 6) lines) (start + 7) lines
    else []

-- The section's name is the CUDA prober's; there is no text if the file does not exist.
unfoldable pub nccl_runtime_table_mapping_from_kernel_info : Text → Option Text → Dict ℕ Text
unfolding index_of slice_int add_entries sorted_items parse_int strip splitlines
nccl_runtime_table_mapping_from_kernel_info section none = []
nccl_runtime_table_mapping_from_kernel_info section (some text) =
    let lines = map strip (splitlines text) in read_section (index_of section lines) lines

-- The only key of the table whose value is the target's function, without an id of the target.
unfoldable pub selected_target_func_id : NcclDevFuncTarget → Dict ℕ Text → Option ℕ
selected_target_func_id target local_mapping = elim target.function_id [
  | some function_id ↦ some function_id
  | none ↦ only (keys (keep (λ (id, name). name == target.function_name) local_mapping))
]
