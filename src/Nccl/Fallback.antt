-- ===== src/Nccl/Fallback.antt =====
-- The calls through the function table are replaced by direct calls: nccl/prober.py,
-- `find_indirect_call_end`, `nccl_direct_call_block`, `rewrite_table_fallback_to_direct_call` and
-- `rewrite_table_fallback_to_local_dispatch`.
pub mod Calls
use fabricperf.Prelude.{
  ℕ, zero, suc, Bool, true, false, not, ◌||◌, ◌&&◌, Option, none, some, List, [], ◌∷◌, ◌++◌, eqb,
  leb, ltb, ◌+◌, length, take, drop, if◌then◌else◌,
}
use mathlib.Core.Option
use mathlib.Core.List.{reverse}
use fabricperf.Prelude.Keys.{nat_eq, list_eq, ◌==◌}
use fabricperf.Prelude.Dict.{Dict}
use fabricperf.Prelude.Text.{
  Text, codes, strip, starts_with, contains_text, show, is_digit, is_space,
}
use fabricperf.Prelude.Regex.{Regex, many, literal, ◌⨾◌, group, some_of, match, Match, group_of}
use fabricperf.Prelude.Lines.{splitlines, unlines}
use fabricperf.Nccl.Redirect.{register}

-- The groups of the expressions: a destination, and one or two operands.
abbrev pub dst_group : ℕ
dst_group = 0

abbrev pub first_group : ℕ
first_group = 1

abbrev pub second_group : ℕ
second_group = 2

-- `opcode %dst,` at the start of a line
abbrev pub instruction : Text → Text → Regex
instruction opcode kind =
    many is_space
    ⨾ literal opcode
    ⨾ some_of is_space
    ⨾ group dst_group (register kind)
    ⨾ literal (codes ",")
    ⨾ many is_space

abbrev pub nccl_table_cvt_re : Regex
nccl_table_cvt_re =
    instruction (codes "cvt.u32.u16") (codes "%r")
    ⨾ group first_group (register (codes "%rs"))
    ⨾ literal (codes ";")

abbrev pub nccl_table_mul_re : Regex
nccl_table_mul_re =
    instruction (codes "mul.wide.u32") (codes "%rd")
    ⨾ group first_group (register (codes "%r"))
    ⨾ literal (codes ",")
    ⨾ many is_space
    ⨾ literal (codes "8;")

abbrev pub nccl_table_mov_re : Regex
nccl_table_mov_re =
    instruction (codes "mov.u64") (codes "%rd") ⨾ literal (codes "ncclDevFuncTable;")

abbrev pub nccl_table_add_re : Regex
nccl_table_add_re =
    instruction (codes "add.s64") (codes "%rd")
    ⨾ group first_group (register (codes "%rd"))
    ⨾ literal (codes ",")
    ⨾ many is_space
    ⨾ group second_group (register (codes "%rd"))
    ⨾ literal (codes ";")

abbrev pub nccl_table_ld_re : Regex
nccl_table_ld_re =
    instruction (codes "ld.global.u64") (codes "%rd")
    ⨾ literal (codes "[")
    ⨾ group first_group (register (codes "%rd"))
    ⨾ literal (codes "];")

-- A line that is one instruction of the load: its destination and operands.
pub record Operands : Type 0 where
  pub dst : Text
  pub first : Text
  pub second : Text

unfoldable pub operands_of : Regex → Text → Option Operands
unfolding match group_of is_space is_digit
operands_of re line =
    Option.map
      (λ m. record {
        dst = group_of dst_group m;
        first = group_of first_group m;
        second = group_of second_group m;
      })
      (match re line)

-- Five instructions that load an entry of the table: the register of the index, and that of the entry.
pub record Load : Type 0 where
  pub src : Text
  pub reg : Text

abbrev pub linked :
    Option Operands
    → Option Operands
    → Option Operands
    → Option Operands
    → Option Operands
    → Option Load
linked (some cvt) (some mul) (some mov) (some add) (some load) =
    if mul.first == cvt.dst
      && add.first == mov.dst
      && add.second == mul.dst
      && load.first == add.dst
    then some (record { src = cvt.first; reg = load.dst })
    else none
linked cvt mul mov add load = none

-- At the start of `lines`; with fewer than five lines there is no load.
unfoldable pub table_load : List Text → Option Load
unfolding operands_of
table_load (a ∷ b ∷ c ∷ d ∷ e ∷ behind) =
    linked (operands_of nccl_table_cvt_re a) (operands_of nccl_table_mul_re b)
      (operands_of nccl_table_mov_re c) (operands_of nccl_table_add_re d)
      (operands_of nccl_table_ld_re e)
table_load lines = none

-- `s.rstrip(",")`
unfoldable pub lstrip_commas : Text → Text
lstrip_commas [] = []
lstrip_commas (c ∷ s) = if eqb c b',' then lstrip_commas s else c ∷ s

unfoldable pub rstrip_commas : Text → Text
unfolding lstrip_commas
rstrip_commas s = reverse (lstrip_commas (reverse s))

-- The loop over at most `n` lines: how many lines stand before the end of the call.
unfoldable pub call_end : ℕ → Bool → Bool → Text → List Text → Option ℕ
unfolding strip starts_with rstrip_commas
call_end zero saw_call saw_target call_reg lines = none
call_end (suc n) saw_call saw_target call_reg [] = none
call_end (suc n) saw_call saw_target call_reg (line ∷ lines) =
    let stripped = strip line in
    let call = saw_call || starts_with stripped (codes "call") in
    let target = saw_target || (call && rstrip_commas stripped == call_reg) in
    let later = Option.map suc (call_end n call target call_reg lines) in
    if target && starts_with stripped (codes "}") then some 0 else later

-- The lines are those from `start_idx` on, and so is the index of the result.
unfoldable pub find_indirect_call_end : List Text → Text → Option ℕ
unfolding call_end
find_indirect_call_end lines call_reg = call_end 32 false false call_reg lines

unfoldable pub nccl_direct_call_block : Text → List Text
nccl_direct_call_block function_name =
    codes "{ //"
    ∷ codes ".reg .b32 temp_param_reg;"
    ∷ codes "call.uni "
    ∷ (function_name ++ codes ", ")
    ∷ codes "("
    ∷ codes ");"
    ∷ codes "} //"
    ∷ []

-- The lines that replace one call.
unfoldable pub replacement : ℕ → Text → ℕ → Text → List Text
unfolding show nccl_direct_call_block
replacement function_id function_name replacements src =
    let pred = codes "%fabricperf_ndft_p" ++ show replacements in
    let done = codes "$L__fabricperf_nccl_devfunc_done_" ++ show replacements in
    let call =
      codes "$L__fabricperf_nccl_devfunc_call_"
      ++ show replacements
      ++ codes "_"
      ++ show function_id in
    (codes "// begin FabricPerf static ncclDevFuncTable replacement"
      ∷ codes "{"
      ∷ (codes ".reg .pred " ++ pred ++ codes ";")
      ∷ (codes "setp.eq.s16 "
          ++ pred
          ++ codes ", "
          ++ src
          ++ codes ", "
          ++ show function_id
          ++ codes ";")
      ∷ (codes "@" ++ pred ++ codes " bra " ++ call ++ codes ";")
      ∷ codes "trap;"
      ∷ (codes "bra.uni " ++ done ++ codes ";")
      ∷ (call ++ codes ":")
      ∷ [])
    ++ nccl_direct_call_block function_name
    ++ ((codes "bra.uni " ++ done ++ codes ";")
        ∷ (done ++ codes ":")
        ∷ codes "}"
        ∷ codes "// end FabricPerf static ncclDevFuncTable replacement"
        ∷ [])

-- At the start of `lines`: the index register of a load and the number of lines up to the end of its
-- call.
abbrev pub call_behind : List Text → Option Load → Option (Text × ℕ)
call_behind lines none = none
call_behind lines (some load) =
    Option.map (λ call_end. (load.src, 5 + call_end + 1))
      (find_indirect_call_end (drop 5 lines) load.reg)

unfoldable pub table_call : List Text → Option (Text × ℕ)
unfolding table_load find_indirect_call_end
table_call lines = call_behind lines (table_load lines)

abbrev pub and_lines : List Text → Option (List Text × ℕ) → Option (List Text × ℕ)
and_lines lines none = none
and_lines lines (some (out, replacements)) = some (lines ++ out, replacements)

-- One round: the line is copied, or the call that starts there is replaced.
abbrev pub round :
    Text
    → Option (List Text × ℕ)
    → (Text → ℕ → Option (List Text × ℕ))
    → Option (Text × ℕ)
    → Option (List Text × ℕ)
round line rest after_call none = and_lines (line ∷ []) rest
round line rest after_call (some (src, n)) = after_call src n

-- The loop `while idx < len(lines)` on the lines from `idx` on, with `none` when the fuel is out.
unfoldable pub rewrite_loop : ℕ → ℕ → Text → ℕ → List Text → Option (List Text × ℕ)
unfolding table_call replacement
rewrite_loop fuel function_id function_name replacements [] = some ([], replacements)
rewrite_loop zero function_id function_name replacements (line ∷ lines) = none
rewrite_loop (suc fuel) function_id function_name replacements (line ∷ lines) =
    round line (rewrite_loop fuel function_id function_name replacements lines)
      (λ src n.
        and_lines (replacement function_id function_name replacements src)
          (rewrite_loop fuel function_id function_name (suc replacements) (drop n (line ∷ lines))))
      (table_call (line ∷ lines))

abbrev pub rewritten : Option (List Text × ℕ) → Option (Text × ℕ)
rewritten = Option.map (λ (out, replacements). (unlines out, replacements))

unfoldable pub rewrite_table_fallback_to_direct_call : Text → Option ℕ → Text → Option (Text × ℕ)
unfolding contains_text splitlines unlines rewrite_loop
rewrite_table_fallback_to_direct_call ptx none function_name = some (ptx, 0)
rewrite_table_fallback_to_direct_call ptx (some function_id) function_name =
    let lines = splitlines ptx in
    if not (contains_text (codes "ncclDevFuncTable") ptx)
    then some (ptx, 0)
    else rewritten (rewrite_loop (length lines) function_id function_name 0 lines)

-- `rewriter` is the CUDA prober's `rewrite_nccl_dev_func_table_fallback`.
unfoldable pub rewrite_table_fallback_to_local_dispatch :
    (Text → Dict ℕ Text → Text × ℕ) → Text → Dict ℕ Text → Text × ℕ
rewrite_table_fallback_to_local_dispatch rewriter ptx local_mapping =
    if eqb (length local_mapping) 0 then (ptx, 0) else rewriter ptx local_mapping
