-- ===== src/Nccl/Hoist.antt =====
-- The generated declarations are moved before the first function: nccl/prober.py,
-- `generated_decl_line` and `hoist_generated_decls`.
pub mod Order
use fabricperf.Prelude.{
  ℕ, Bool, true, false, not, ◌||◌, ◌&&◌, Option, none, some, List, [], ◌∷◌, ◌++◌, length, eqb,
  if◌then◌else◌,
}
use mathlib.Core.Option
use mathlib.Core.List.{reverse}
use fabricperf.Prelude.Keys.{nat_eq, list_eq, member}
use fabricperf.Prelude.Text.{Text, codes, strip, starts_with, is_digit, is_space}
use fabricperf.Prelude.Regex.{
  Regex, many, literal, optional, either, ◌⨾◌, word_boundary, some_of, match, search,
}
use fabricperf.Prelude.Lines.{splitlines_keepends, concat}

abbrev pub is_some {ℓ} : {A : Type ℓ} → Option A → Bool
is_some none = false
is_some (some a) = true

abbrev pub ptx_generated_symbol_re : Regex
ptx_generated_symbol_re =
    word_boundary
    ⨾ literal (codes "__neutrino_map_")
    ⨾ either (literal (codes "ptr")) (literal (codes "count"))
    ⨾ literal (codes "_")
    ⨾ some_of is_digit
    ⨾ word_boundary

abbrev pub ptx_function_or_entry_re : Regex
ptx_function_or_entry_re =
    many is_space
    ⨾ optional (literal (codes ".visible") ⨾ some_of is_space)
    ⨾ literal (codes ".")
    ⨾ either (literal (codes "func")) (literal (codes "entry"))
    ⨾ word_boundary

-- `rf"\b{re.escape(symbol_name)}\b"`
abbrev pub symbol_re : Text → Regex
symbol_re symbol_name = word_boundary ⨾ literal symbol_name ⨾ word_boundary

unfoldable pub names_symbol : List Text → Text → Bool
unfolding search
names_symbol [] stripped = false
names_symbol (symbol_name ∷ symbols) stripped =
    is_some (search (symbol_re symbol_name) stripped) || names_symbol symbols stripped

-- `symbols` are the keys of `raw_probe.get("symbol", {})`.
unfoldable pub generated_decl_line : List Text → Text → Bool
unfolding strip starts_with search names_symbol is_digit
generated_decl_line symbols line =
    let stripped = strip line in
    if not (starts_with (reverse stripped) (codes ";"))
    then false
    else if not (starts_with stripped (codes "."))
    then false
    else is_some (search ptx_generated_symbol_re stripped) || names_symbol symbols stripped

unfoldable pub function_or_entry : Text → Bool
unfolding match is_space
function_or_entry line = is_some (match ptx_function_or_entry_re line)

-- The loop over the lines: what is hoisted and what is kept.
unfoldable pub hoist_lines : List Text → List Text → List Text → List Text × List Text
unfolding generated_decl_line strip
hoist_lines symbols seen [] = ([], [])
hoist_lines symbols seen (line ∷ lines) =
    let key = strip line in
    let generated = generated_decl_line symbols line in
    let fresh = generated && not (member key seen) in
    let (hoisted, kept) = hoist_lines symbols (if fresh then key ∷ seen else seen) lines in
    (if fresh then line ∷ hoisted else hoisted, if generated then kept else line ∷ kept)

-- `kept[:insert_at]` and `kept[insert_at:]` at the first function or entry.
unfoldable pub split_at_function : List Text → Option (List Text × List Text)
unfolding function_or_entry
split_at_function [] = none
split_at_function (line ∷ kept) =
    let later = Option.map (λ (before, after). (line ∷ before, after)) (split_at_function kept) in
    if function_or_entry line then some ([], line ∷ kept) else later

abbrev pub place : List Text → List Text → Option (List Text × List Text) → List Text
place hoisted kept none = hoisted ++ kept
place hoisted kept (some (before, after)) = before ++ (hoisted ++ ((10 ∷ []) ∷ after))

unfoldable pub hoist_generated_decls : List Text → Text → Text
unfolding hoist_lines split_at_function splitlines_keepends concat
hoist_generated_decls symbols ptx =
    let (hoisted, kept) = hoist_lines symbols [] (splitlines_keepends ptx) in
    if eqb (length hoisted) 0 then ptx else concat (place hoisted kept (split_at_function kept))
