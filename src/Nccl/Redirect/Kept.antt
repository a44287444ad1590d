-- ===== src/Nccl/Redirect/Kept.antt =====
-- `redirect_direct_dispatch_to_fallback` changes branches of the dispatch only.
use fabricperf.Prelude.{
  ℕ, suc, Bool, true, false, Option, some, List, ◌+◌, length, get_elem?, ◌≡◌, ◌⊎◌, ◌<◌,
}
use fabricperf.Prelude.Keys.{nat_eq, list_eq, ◌==◌}
use fabricperf.Prelude.Text.{Text}
use fabricperf.Prelude.Lines.{unlines}
use fabricperf.Nccl.Redirect.{
  Branch, dispatch_on, predicated_branch, unconditional_target, taken_line, always_line,
}

-- The new text of a branch under `pred`, where `next` is the line behind it.
pub data NewText (pred line : Text) (next : Option Text) : Bool → Text → Type 0 where
  -- After `setp.eq` the branch goes where the next line branches to, which is elsewhere.
  taken :
      {branch : Branch} {n fallback : Text}
      → predicated_branch line ≡ some branch
      → branch.pred ≡ pred
      → next ≡ some n
      → unconditional_target n ≡ some fallback
      → (branch.target == fallback) ≡ false
      → NewText pred line next true (taken_line branch line fallback)
  -- After `setp.ne` the branch goes where it went, always.
  always :
      {branch : Branch}
      → predicated_branch line ≡ some branch
      → branch.pred ≡ pred
      → NewText pred line next false (always_line branch line)

-- The line that a dispatch finds among the `n` lines behind it.
pub record IsFound (n : ℕ) (is_eq : Bool) (pred : Text) (lines : List Text) (skip : ℕ) (text : Text)
    : Type 0 where
  pub near : skip < n
  pub line : Text
  pub there : get_elem? lines skip ≡ some line
  pub new : NewText pred line (get_elem? lines (suc skip)) is_eq text

-- Line `i` of `lines` is a branch behind a dispatch on the id, and its new text is `text`.
pub record IsRedirected (function_id : ℕ) (lines : List Text) (i : ℕ) (text : Text) : Type 0 where
  pub dispatch : ℕ
  pub before : dispatch < i
  pub near : i < dispatch + 80
  pub dispatch_line : Text
  pub dispatch_there : get_elem? lines dispatch ≡ some dispatch_line
  pub pred : Text
  pub is_eq : Bool
  pub dispatches : dispatch_on function_id dispatch_line ≡ some (pred, is_eq)
  pub line : Text
  pub there : get_elem? lines i ≡ some line
  pub new : NewText pred line (get_elem? lines (suc i)) is_eq text

-- Line `i` of `out`: as in `lines`, or redirected.
abbrev pub IsKept : ℕ → List Text → List Text → ℕ → Type 0
IsKept function_id lines out i =
    (get_elem? out i ≡ get_elem? lines i)
    ⊎ ((text : Text) × (get_elem? out i ≡ some text) × IsRedirected function_id lines i text)

module _ (function_id : ℕ) (lines : List Text) where
  -- The lines so far: as many as before, each kept or redirected.
  record IsSound (out : List Text) : Type 0 where
    size : length out ≡ length lines
    lines_kept : (i : ℕ) → IsKept function_id lines out i

-- What `redirect_direct_dispatch_to_fallback` does to the lines of a module.
pub record IsRedirection (function_id : ℕ) (lines : List Text) (text : Text) : Type 0 where
  pub out : List Text
  pub joined : text ≡ unlines out
  pub size : length out ≡ length lines
  pub lines_kept : (i : ℕ) → IsKept function_id lines out i
