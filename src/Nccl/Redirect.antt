-- ===== src/Nccl/Redirect.antt =====
-- The direct path of a dispatch is redirected to the fallback call: nccl/prober.py,
-- `redirect_direct_dispatch_to_fallback`.
pub mod Kept
use fabricperf.Prelude.{
  ℕ, zero, suc, Bool, true, false, not, ◌||◌, ◌&&◌, Option, none, some, List, [], ◌∷◌, ◌++◌, eqb,
  ◌+◌, if◌then◌else◌,
}
use mathlib.Core.Option
use fabricperf.Prelude.Keys.{nat_eq, list_eq, ◌==◌}
use fabricperf.Prelude.Text.{Text, codes, strip, is_digit, is_space}
use fabricperf.Prelude.Regex.{
  Regex, many, literal, either, ◌⨾◌, group, some_of, is_other, match, Match, group_of,
}
use fabricperf.Prelude.Lines.{splitlines, unlines}
use fabricperf.Nccl.Table.{digits_int}

-- The groups of the expressions.
abbrev pub op_group : ℕ
op_group = 0

abbrev pub pred_group : ℕ
pred_group = 1

abbrev pub func_id_group : ℕ
func_id_group = 2

abbrev pub indent_group : ℕ
indent_group = 3

abbrev pub target_group : ℕ
target_group = 4

-- `%p\d+` and the like
abbrev pub register : Text → Regex
register kind = literal kind ⨾ some_of is_digit

abbrev pub nccl_direct_dispatch_set_re : Regex
nccl_direct_dispatch_set_re =
    many is_space
    ⨾ literal (codes "setp.")
    ⨾ group op_group (either (literal (codes "eq")) (literal (codes "ne")))
    ⨾ literal (codes ".s16")
    ⨾ some_of is_space
    ⨾ group pred_group (register (codes "%p"))
    ⨾ literal (codes ",")
    ⨾ some_of is_space
    ⨾ register (codes "%rs")
    ⨾ literal (codes ",")
    ⨾ many is_space
    ⨾ group func_id_group (some_of is_digit)
    ⨾ literal (codes ";")

abbrev pub nccl_predicated_bra_re : Regex
nccl_predicated_bra_re =
    group indent_group (many is_space)
    ⨾ literal (codes "@")
    ⨾ group pred_group (register (codes "%p"))
    ⨾ some_of is_space
    ⨾ literal (codes "bra")
    ⨾ some_of is_space
    ⨾ group target_group (some_of (is_other b';'))
    ⨾ literal (codes ";")

abbrev pub nccl_unconditional_bra_re : Regex
nccl_unconditional_bra_re =
    many is_space
    ⨾ literal (codes "bra.uni")
    ⨾ some_of is_space
    ⨾ group target_group (some_of (is_other b';'))
    ⨾ literal (codes ";")

-- The predicate of a dispatch on `function_id`, and whether its `op` is `eq`.
unfoldable pub dispatch_on : ℕ → Text → Option (Text × Bool)
unfolding match group_of digits_int is_space is_digit
dispatch_on function_id line = elim (match nccl_direct_dispatch_set_re line) [
  | none ↦ none
  | some m ↦
      if eqb (digits_int 0 (group_of func_id_group m)) function_id
      then some (group_of pred_group m, group_of op_group m == codes "eq")
      else none
]

pub record Branch : Type 0 where
  pub indent : Text
  pub pred : Text
  pub target : Text

unfoldable pub predicated_branch : Text → Option Branch
unfolding match group_of is_space is_digit is_other
predicated_branch line =
    Option.map
      (λ m. record {
        indent = group_of indent_group m;
        pred = group_of pred_group m;
        target = group_of target_group m;
      })
      (match nccl_predicated_bra_re line)

unfoldable pub unconditional_target : Text → Option Text
unfolding match group_of is_space is_other
unconditional_target line =
    Option.map (group_of target_group) (match nccl_unconditional_bra_re line)

-- What replaces a branch line.
abbrev pub old_line : Branch → Text → Text
old_line branch line = branch.indent ++ codes "// OLD: " ++ strip line ++ (10 ∷ [])

abbrev pub taken_line : Branch → Text → Text → Text
taken_line branch line fallback =
    old_line branch line
    ++ branch.indent
    ++ codes "@"
    ++ branch.pred
    ++ codes " bra "
    ++ fallback
    ++ codes ";"

abbrev pub always_line : Branch → Text → Text
always_line branch line =
    old_line branch line ++ branch.indent ++ codes "bra.uni " ++ branch.target ++ codes ";"

-- After `setp.eq`: the branch under the predicate goes where the branch on the next line goes.
abbrev pub redirect_eq : Text → Text → Option Branch → Option Text → Option Text
redirect_eq pred line (some branch) (some fallback) =
    if branch.pred == pred && not (branch.target == fallback)
    then some (taken_line branch line fallback)
    else none
redirect_eq pred line branch fallback = none

-- After `setp.ne`: the branch under the predicate is always taken.
abbrev pub redirect_ne : Text → Text → Option Branch → Option Text
redirect_ne pred line none = none
redirect_ne pred line (some branch) =
    if branch.pred == pred then some (always_line branch line) else none

-- The new text of a line, given what stands behind it; the last line has no next one.
unfoldable pub redirect_line : Bool → Text → Text → List Text → Option Text
unfolding predicated_branch unconditional_target strip
redirect_line false pred line behind = redirect_ne pred line (predicated_branch line)
redirect_line true pred line [] = none
redirect_line true pred line (next ∷ behind) =
    redirect_eq pred line (predicated_branch line) (unconditional_target next)

abbrev pub found_or : Option (ℕ × Text) → Option Text → Option (ℕ × Text)
found_or later none = later
found_or later (some text) = some (0, text)

-- The loop over at most `n` of the lines behind a dispatch: how many lines it skips, and the new text.
unfoldable pub find_branch : ℕ → Bool → Text → List Text → Option (ℕ × Text)
unfolding redirect_line
find_branch zero is_eq pred lines = none
find_branch (suc n) is_eq pred [] = none
find_branch (suc n) is_eq pred (line ∷ behind) =
    let later = Option.map (λ (skip, text). (suc skip, text)) (find_branch n is_eq pred behind) in
    found_or later (redirect_line is_eq pred line behind)

-- `out[i] = text`
unfoldable pub set_line : ℕ → Text → List Text → List Text
set_line i text [] = []
set_line zero text (line ∷ out) = text ∷ out
set_line (suc i) text (line ∷ out) = line ∷ set_line i text out

-- A dispatch at `idx` looks at the lines up to `idx + 79`.
abbrev pub redirect_one : ℕ → Option (Text × Bool) → List Text → Option (ℕ × Text)
redirect_one idx none behind = none
redirect_one idx (some (pred, is_eq)) behind =
    Option.map (λ (skip, text). (idx + 1 + skip, text)) (find_branch 79 is_eq pred behind)

abbrev pub apply_redirect : Option (ℕ × Text) → List Text × ℕ → List Text × ℕ
apply_redirect none state = state
apply_redirect (some (i, text)) (out, redirects) = (set_line i text out, redirects + 1)

-- The loop over the lines from `idx` on.
unfoldable pub redirect_loop : ℕ → ℕ → List Text → List Text × ℕ → List Text × ℕ
unfolding dispatch_on find_branch set_line
redirect_loop function_id idx [] state = state
redirect_loop function_id idx (line ∷ behind) state =
    redirect_loop function_id (idx + 1) behind
      (apply_redirect (redirect_one idx (dispatch_on function_id line) behind) state)

unfoldable pub redirect_direct_dispatch_to_fallback : Text → Option ℕ → Text × ℕ
unfolding redirect_loop splitlines unlines
redirect_direct_dispatch_to_fallback ptx none = (ptx, 0)
redirect_direct_dispatch_to_fallback ptx (some function_id) =
    let lines = splitlines ptx in
    let (out, redirects) = redirect_loop function_id 0 lines (lines, 0) in (unlines out, redirects)
