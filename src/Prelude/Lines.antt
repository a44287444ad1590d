-- ===== src/Prelude/Lines.antt =====
-- `str.splitlines` and the texts that are put together again from lines.
use Prim.Native.Nat.{ℕ}
use mathlib.Core.Path.{◌≡◌, refl, ap}
use mathlib.Core.Logic.{inl, inr}
use mathlib.Core.Bool.{Bool, ◌&&◌, ◌||◌}
use mathlib.Core.List.{List, [], ◌∷◌, ◌++◌, map}
use fabricperf.Prelude.Tests.{leb, eqb, if◌then◌else◌, Bool-cases, and_parts, eqb→eq}
use fabricperf.Prelude.Text.{Text, starts_with}

-- The characters that end a line for `splitlines`.
unfoldable pub is_break : ℕ → Bool
is_break c =
    (leb 10 c && leb c 13) || (leb 28 c && leb c 30) || eqb c 0x85 || eqb c 0x2028 || eqb c 0x2029

-- A line and the characters that end it.
abbrev pub Line : Type 0
Line = Text × Text

unfoldable pub onto_line : ℕ → List Line → List Line
onto_line c [] = (c ∷ [], []) ∷ []
onto_line c ((line, ending) ∷ rest) = (c ∷ line, ending) ∷ rest

-- A carriage return and a line feed end a line together.
unfoldable pub onto_feed : List Line → List Line
onto_feed [] = ([], 13 ∷ []) ∷ []
onto_feed ((line, ending) ∷ rest) = ([], 13 ∷ line ++ ending) ∷ rest

unfoldable pub lines_of : Text → List Line
unfolding is_break onto_line onto_feed starts_with
lines_of [] = []
lines_of (c ∷ s) =
    let rest = lines_of s in
    if eqb c 13 && starts_with s (10 ∷ [])
    then onto_feed rest
    else if is_break c
    then ([], c ∷ []) ∷ rest
    else onto_line c rest

-- `s.splitlines()` and `s.splitlines(keepends=True)`.
unfoldable pub splitlines : Text → List Text
unfolding lines_of
splitlines s = map (λ (line, ending). line) (lines_of s)

unfoldable pub splitlines_keepends : Text → List Text
unfolding lines_of
splitlines_keepends s = map (λ (line, ending). line ++ ending) (lines_of s)

-- `"".join(parts)`
unfoldable pub concat : List Text → Text
concat [] = []
concat (p ∷ ps) = p ++ concat ps

-- `"\n".join(lines) + "\n"`
unfoldable pub unlines : List Text → Text
unlines [] = 10 ∷ []
unlines (l ∷ []) = l ++ 10 ∷ []
unlines (l ∷ m ∷ ls) = l ++ 10 ∷ unlines (m ∷ ls)

abbrev with_ending : Line → Text
with_ending (line, ending) = line ++ ending

concat-onto_line :
    (c : ℕ) (rest : List Line)
    → concat (map with_ending (onto_line c rest)) ≡ c ∷ concat (map with_ending rest)
unfolding concat onto_line
concat-onto_line c [] = refl
concat-onto_line c (l ∷ rest) = refl

concat-onto_feed :
    (rest : List Line)
    → concat (map with_ending (onto_feed rest)) ≡ 13 ∷ concat (map with_ending rest)
unfolding concat onto_feed
concat-onto_feed [] = refl
concat-onto_feed (l ∷ rest) = refl

-- The lines of a text with their endings are the text.
pub concat-splitlines_keepends : (s : Text) → concat (splitlines_keepends s) ≡ s
unfolding concat splitlines_keepends lines_of
concat-splitlines_keepends [] = refl
concat-splitlines_keepends (c ∷ s) =
    let rest = concat-splitlines_keepends s in
    elim (Bool-cases (eqb c 13 && starts_with s (10 ∷ []))) [
      | inl feed ↦
          let return = (eqb→eq c 13 (and_parts (eqb c 13) _ feed).0) in
          rw feed (rw (concat-onto_feed (lines_of s), rest, return) refl)
      | inr other ↦ elim (Bool-cases (is_break c)) [
        | inl ends ↦ rw (other, ends) (ap (◌∷◌ c) rest)
        | inr inside ↦ rw (other, inside) (rw (concat-onto_line c (lines_of s), rest) refl)
      ]
    ]
