-- ===== src/Prelude/Regex.antt =====
-- The regular expressions that the NCCL rewriters use, by backtracking in the order of Python's `re`.
-- A match is found in continuation-passing style: `run r prev s groups next` matches `r` at the start
-- of `s`, where `prev` is the character before, and goes on with `next` on what is left.
use Prim.Native.Nat.{ℕ, zero, suc, ◌-◌}
use mathlib.Core.Bool.{Bool, true, false, ◌&&◌, ◌||◌, not, xor}
use mathlib.Core.List.{List, [], ◌∷◌, ◌++◌}
use mathlib.Core.Option
use mathlib.Core.Option.{Option, none, some}
use fabricperf.Prelude.Tests.{leb, eqb, if◌then◌else◌}
use fabricperf.Prelude.Lists.{length, take}
use fabricperf.Prelude.Keys.{nat_eq}
use fabricperf.Prelude.Dict.{Dict, get, value_or}
use fabricperf.Prelude.Text.{Text, is_digit}

infixr 6 ◌⨾◌
pub data Regex : Type 0 where
  -- One character of a class.
  one : (ℕ → Bool) → Regex
  -- `[class]*`, as many as possible first, and `[class]+?`, as few as possible first.
  many few : (ℕ → Bool) → Regex
  literal : Text → Regex
  optional : Regex → Regex
  either ◌⨾◌ : Regex → Regex → Regex
  -- `(?P<name>...)`, with a number for the name.
  group : ℕ → Regex → Regex
  -- `$`, `\b`, `^`, and `^` of `(?m)`.
  text_end word_boundary text_start line_start : Regex

-- The classes `\w` and `[^c]`; `\d` is `is_digit` and `\s` is `is_space`.
unfoldable pub is_word : ℕ → Bool
unfolding is_digit
is_word c = is_digit c || (leb b'A' c && leb c b'Z') || (leb b'a' c && leb c b'z') || eqb c b'_'

unfoldable pub is_other : ℕ → ℕ → Bool
is_other c d = not (eqb c d)

abbrev pub Groups : Type 0
Groups = Dict ℕ Text

-- What a match captured, its text, and what stands after it.
pub record Match : Type 0 where
  pub groups : Groups
  pub matched : Text
  pub after : Text

-- `match.group(name)` of a group that took part in the match.
unfoldable pub group_of : ℕ → Match → Text
unfolding get
group_of name m = value_or [] (get name m.groups)

abbrev pub or_else {ℓ} : {A : Type ℓ} → Option A → Option A → Option A
or_else none later = later
or_else (some a) later = some a

abbrev pub Next : Type 0
Next = Option ℕ → Text → Groups → Option (Groups × Text)

unfoldable pub run_one : (ℕ → Bool) → Next → Option ℕ → Text → Groups → Option (Groups × Text)
run_one p next prev [] groups = none
run_one p next prev (c ∷ s) groups = if p c then next (some c) s groups else none

unfoldable pub run_many : (ℕ → Bool) → Next → Option ℕ → Text → Groups → Option (Groups × Text)
run_many p next prev [] groups = next prev [] groups
run_many p next prev (c ∷ s) groups =
    let longer = run_many p next (some c) s groups in
    if p c then or_else longer (next prev (c ∷ s) groups) else next prev (c ∷ s) groups

unfoldable pub run_few : (ℕ → Bool) → Next → Option ℕ → Text → Groups → Option (Groups × Text)
run_few p next prev [] groups = none
run_few p next prev (c ∷ s) groups =
    let longer = run_few p next (some c) s groups in
    if p c then or_else (next (some c) s groups) longer else none

unfoldable pub run_literal : Text → Next → Option ℕ → Text → Groups → Option (Groups × Text)
run_literal [] next prev s groups = next prev s groups
run_literal (d ∷ ds) next prev [] groups = none
run_literal (d ∷ ds) next prev (c ∷ s) groups =
    let rest = run_literal ds next (some c) s groups in if eqb c d then rest else none

unfoldable pub at_end : Text → Bool
at_end [] = true
at_end (c ∷ []) = eqb c 10
at_end (c ∷ d ∷ s) = false

abbrev pub char_is : (ℕ → Bool) → Option ℕ → Bool
char_is p none = false
char_is p (some c) = p c

abbrev pub first : Text → Option ℕ
first [] = none
first (c ∷ s) = some c

abbrev pub at_text_start : Option ℕ → Bool
at_text_start none = true
at_text_start (some c) = false

unfoldable pub at_line_start : Option ℕ → Bool
at_line_start none = true
at_line_start (some c) = eqb c 10

unfoldable pub run : Regex → Next → Option ℕ → Text → Groups → Option (Groups × Text)
unfolding run_one run_many run_few run_literal at_end at_line_start is_word xor
run (one p) next prev s groups = run_one p next prev s groups
run (many p) next prev s groups = run_many p next prev s groups
run (few p) next prev s groups = run_few p next prev s groups
run (literal t) next prev s groups = run_literal t next prev s groups
run (optional r) next prev s groups = or_else (run r next prev s groups) (next prev s groups)
run (either a b) next prev s groups = or_else (run a next prev s groups) (run b next prev s groups)
run (a ⨾ b) next prev s groups = run a (run b next) prev s groups
run (group name r) next prev s groups =
    run r (λ prev' s' groups'. next prev' s' ((name, take (length s - length s') s) ∷ groups')) prev
      s groups
run text_end next prev s groups = if at_end s then next prev s groups else none
run word_boundary next prev s groups =
    if xor (char_is is_word prev) (char_is is_word (first s)) then next prev s groups else none
run text_start next prev s groups = if at_text_start prev then next prev s groups else none
run line_start next prev s groups = if at_line_start prev then next prev s groups else none

-- `re.match` where `prev` stands before the text.
unfoldable pub match_after : Regex → Option ℕ → Text → Option Match
unfolding run
match_after r prev s =
    Option.map
      (λ found. record {
        groups = found.0;
        matched = take (length s - length found.1) s;
        after = found.1;
      })
      (run r (λ prev' s' groups. some (groups, s')) prev s [])

unfoldable pub match : Regex → Text → Option Match
unfolding match_after
match r = match_after r none

-- `re.search`: the text before the first match, and the match.
unfoldable pub search_after : Regex → Option ℕ → Text → Option (Text × Match)
unfolding match_after
search_after r prev [] = Option.map (λ m. ([], m)) (match_after r prev [])
search_after r prev (c ∷ s) =
    let later = Option.map (λ (before, m). (c ∷ before, m)) (search_after r (some c) s) in
    or_else (Option.map (λ m. ([], m)) (match_after r prev (c ∷ s))) later

unfoldable pub search : Regex → Text → Option (Text × Match)
unfolding search_after
search r = search_after r none

-- `re.finditer`, for expressions that match no empty text: after a match the search goes on behind
-- it, `skip` characters on.
unfoldable pub finditer_after : Regex → Option ℕ → ℕ → Text → List Match
unfolding match_after
finditer_after r prev skip [] = []
finditer_after r prev (suc skip) (c ∷ s) = finditer_after r (some c) skip s
finditer_after r prev zero (c ∷ s) = elim (match_after r prev (c ∷ s)) [
  | none ↦ finditer_after r (some c) zero s
  | some m ↦ m ∷ finditer_after r (some c) (length m.matched - 1) s
]

unfoldable pub finditer : Regex → Text → List Match
unfolding finditer_after
finditer r = finditer_after r none zero

-- `[class]+`
abbrev pub some_of : (ℕ → Bool) → Regex
some_of p = one p ⨾ many p

-- `re.sub` with `count=1`: the text, and whether a match was replaced.
unfoldable pub sub_once : Regex → (Match → Text) → Text → Text × Bool
unfolding search
sub_once r replacement s = elim (search r s) [
  | none ↦ (s, false)
  | some (before, m) ↦ (before ++ (replacement m ++ m.after), true)
]
