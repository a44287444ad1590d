-- ===== src/Nccl/Table.antt =====
-- nccl/table.py: which local device function is instrumented for a kernel.
pub mod Selection
use fabricperf.Prelude.{
  ℕ, Bool, true, false, ◌||◌, ◌&&◌, Option, none, some, List, [], ◌∷◌, map, length, keep, leb, eqb,
  if◌then◌else◌, ◌-◌, ◌+◌, ◌*◌,
}
use mathlib.Core.Option
use fabricperf.Prelude.Keys.{◌==◌, nat_eq, list_eq, member}
use fabricperf.Prelude.Dict.{Dict, get, value_or}
use fabricperf.Prelude.Distinct.{unseen}
use fabricperf.Prelude.Text.{Text, codes, strip, lower, contains_text, is_digit, is_space}
use fabricperf.Prelude.Regex.{
  Regex, one, many, few, literal, optional, either, ◌⨾◌, group, text_end, line_start, some_of,
  is_word, Match, group_of, search, finditer,
}

-- The number of the group `name`, `index` or `descriptor`: each expression has one.
abbrev pub the_group : ℕ
the_group = 0

-- `[A-Za-z]`, `[A-Za-z_$]` and `[A-Za-z0-9_$]`
unfoldable pub is_letter : ℕ → Bool
is_letter c = (leb b'A' c && leb c b'Z') || (leb b'a' c && leb c b'z')

unfoldable pub symbol_start : ℕ → Bool
unfolding is_letter
symbol_start c = is_letter c || eqb c b'_' || eqb c b'$'

unfoldable pub symbol_char : ℕ → Bool
unfolding symbol_start is_digit
symbol_char c = symbol_start c || is_digit c

abbrev pub ptx_symbol_name : Regex
ptx_symbol_name = one symbol_start ⨾ many symbol_char

abbrev pub local_devfunc_re : Regex
local_devfunc_re =
    line_start
    ⨾ many is_space
    ⨾ literal (codes ".visible")
    ⨾ some_of is_space
    ⨾ literal (codes ".func")
    ⨾ some_of is_space
    ⨾ group the_group (ptx_symbol_name ⨾ literal (codes "ncclDevFunc_") ⨾ ptx_symbol_name)
    ⨾ many is_space
    ⨾ literal (codes "(")

abbrev pub set_eq_s16_imm_re : Regex
set_eq_s16_imm_re =
    line_start
    ⨾ many is_space
    ⨾ literal (codes "setp.eq.s16")
    ⨾ some_of is_space
    ⨾ literal (codes "%p")
    ⨾ some_of is_digit
    ⨾ literal (codes ",")
    ⨾ some_of is_space
    ⨾ literal (codes "%")
    ⨾ some_of is_word
    ⨾ literal (codes ",")
    ⨾ some_of is_space
    ⨾ group the_group (some_of is_digit)
    ⨾ literal (codes ";")

abbrev pub kernel_descriptor_re : Regex
kernel_descriptor_re =
    literal (codes "ncclDevKernel_")
    ⨾ group the_group (few is_word)
    ⨾ either (some_of is_digit ⨾ literal (codes "ncclDevKernelArgsStorage")) text_end

abbrev pub devfunc_descriptor_re : Regex
devfunc_descriptor_re =
    literal (codes "ncclDevFunc_")
    ⨾ group the_group (some_of is_word)
    ⨾ literal (codes "v")
    ⨾ text_end

pub record NcclDevFuncRule : Type 0 where
  pub kernel_substring : Text
  pub function_substring : Text
  pub description : Text

pub record NcclDevFuncTarget : Type 0 where
  pub kernel_name : Text
  pub function_name : Text
  pub function_id : Option ℕ
  pub source : Text
  pub candidates : List Text

abbrev pub default_rules : List NcclDevFuncRule
default_rules =
    record {
      kernel_substring = codes "ncclDevKernel_SendRecv";
      function_substring = codes "ncclDevFunc_SendRecv";
      description = codes "NCCL SendRecv wrapper dispatches to the SendRecv devFunc.";
    }
    ∷ []

-- `source` is the environment, or the dictionary that is given in its place.
unfoldable pub enabled : Dict Text Text → Bool
unfolding get strip lower
enabled source =
    let value = lower (strip (value_or [] (get (codes "FABRICPERF_NCCL_DEVFUNC") source))) in
    member value (codes "1" ∷ codes "true" ∷ codes "yes" ∷ codes "on" ∷ [])

unfoldable pub local_devfuncs : Text → List Text
unfolding finditer group_of unseen is_space symbol_start symbol_char
local_devfuncs ptx = unseen [] (map (group_of the_group) (finditer local_devfunc_re ptx))

-- `int` of a text of ASCII digits.
unfoldable pub digits_int : ℕ → Text → ℕ
digits_int acc [] = acc
digits_int acc (c ∷ s) = digits_int (acc * 10 + (c - b'0')) s

abbrev pub is_nonzero : ℕ → Bool
is_nonzero n = if eqb n 0 then false else true

-- The immediates that the wrapper compares with, in order.
unfoldable pub immediates : Text → List ℕ
unfolding finditer group_of digits_int is_space
immediates entry_ptx =
    map (λ m. digits_int 0 (group_of the_group m)) (finditer set_eq_s16_imm_re entry_ptx)

-- `next(iter(candidates))` if there is exactly one.
abbrev pub only {ℓ} : {A : Type ℓ} → List A → Option A
only [] = none
only (a ∷ []) = some a
only (a ∷ b ∷ rest) = none

unfoldable pub infer_single_func_id : Text → Option ℕ
unfolding immediates unseen
infer_single_func_id entry_ptx = only (unseen [] (keep is_nonzero (immediates entry_ptx)))

abbrev pub captured : Option (Text × Match) → Option Text
captured none = none
captured (some (before, m)) = some (group_of the_group m)

unfoldable pub kernel_descriptor : Text → Option Text
unfolding search group_of
kernel_descriptor kernel_name = captured (search kernel_descriptor_re kernel_name)

unfoldable pub devfunc_descriptor : Text → Option Text
unfolding search group_of
devfunc_descriptor function_name = captured (search devfunc_descriptor_re function_name)

abbrev pub is_descriptor : Text → Option Text → Bool
is_descriptor d none = false
is_descriptor d (some e) = e == d

abbrev pub matches_of : Option Text → List Text → List Text
matches_of none functions = []
matches_of (some descriptor) functions =
    keep (λ name. is_descriptor descriptor (devfunc_descriptor name)) functions

unfoldable pub descriptor_matches : Text → List Text → List Text
unfolding kernel_descriptor devfunc_descriptor
descriptor_matches kernel_name functions = matches_of (kernel_descriptor kernel_name) functions

-- `if len(matches) == 1`: the match and where it comes from, and what follows otherwise.
abbrev pub return_only : Text → List Text → Option (Text × Text) → Option (Text × Text)
return_only source [] otherwise = otherwise
return_only source (name ∷ []) otherwise = some (name, source)
return_only source (name ∷ other ∷ matches) otherwise = otherwise

-- The loop over the rules, and what follows it.
unfoldable pub rule_match :
    List NcclDevFuncRule → Text → List Text → Option (Text × Text) → Option (Text × Text)
unfolding contains_text
rule_match [] kernel_name functions otherwise = otherwise
rule_match (rule ∷ rules) kernel_name functions otherwise =
    let later = rule_match rules kernel_name functions otherwise in
    if contains_text rule.kernel_substring kernel_name
    then return_only rule.description (keep (contains_text rule.function_substring) functions) later
    else later

-- The function and its source.
unfoldable pub select_function : Text → List Text → Option (Text × Text)
unfolding descriptor_matches rule_match
select_function kernel_name functions =
    return_only (codes "kernel-descriptor-match") (descriptor_matches kernel_name functions) (
      rule_match default_rules kernel_name functions
        (return_only (codes "single-local-devfunc") functions none))

unfoldable pub select_target : Text → Text → Text → Option NcclDevFuncTarget
unfolding local_devfuncs infer_single_func_id select_function
select_target kernel_name ptx entry_ptx =
    let functions = local_devfuncs ptx in
    if eqb (length functions) 0
    then none
    else Option.map
        (λ (function_name, source). record {
          kernel_name = kernel_name;
          function_name = function_name;
          function_id = infer_single_func_id entry_ptx;
          source = source;
          candidates = functions;
        })
        (select_function kernel_name functions)
