-- ===== src/Prelude/Text.antt =====
-- Texts as lists of code points, with the methods of `str` that the program calls.
use Prim.Native.Nat.{ℕ, zero, suc, ◌+◌, ◌-◌, ◌*◌, ◌/◌, ◌%◌, ◌≤◌, ◌<◌}
use mathlib.Core.Path.{◌≡◌, refl}
use mathlib.Core.Logic.{inl, inr}
use native.Mathlib.Omega.{arith}
use mathlib.Core.Option
use fabricperf.Prelude.Int.{ℤ, pos, sub_ℕ}
use Prim.Native.Char.{code}
use Prim.Native.String.{String}
use mathlib.Core.Bool.{Bool, true, false, ◌&&◌, ◌||◌}
use mathlib.Core.Option.{Option, none, some}
use mathlib.Core.List.{List, [], ◌∷◌, ◌++◌, map, reverse}
use fabricperf.Prelude.Lists.{length, drop}
use fabricperf.Prelude.Tests.{leb, ltb, eqb, if◌then◌else◌, Bool-cases}
use fabricperf.Prelude.Keys.{nat_eq, list_eq}

abbrev pub Text : Type 0
Text = List ℕ

-- The code points of a literal.
abbrev pub codes : String → Text
codes String.[] = []
codes (String.◌∷◌ c s) = code c ∷ codes s

-- `c.isspace()`
unfoldable pub is_space : ℕ → Bool
is_space c =
    (leb 9 c && leb c 13)
    || (leb 28 c && leb c 32)
    || eqb c 0x85
    || eqb c 0xa0
    || eqb c 0x1680
    || (leb 0x2000 c && leb c 0x200a)
    || eqb c 0x2028
    || eqb c 0x2029
    || eqb c 0x202f
    || eqb c 0x205f
    || eqb c 0x3000

unfoldable pub lstrip : Text → Text
unfolding is_space
lstrip [] = []
lstrip (c ∷ s) = if is_space c then lstrip s else c ∷ s

-- `s.strip()`
unfoldable pub strip : Text → Text
unfolding lstrip
strip s = reverse (lstrip (reverse (lstrip s)))

-- `s.lower()` on ASCII letters and the Kelvin sign, the only other code point with an ASCII lower
-- case. Other letters are left as they are, outside ASCII as their lower case would be.
unfoldable pub to_lower : ℕ → ℕ
to_lower c = if leb b'A' c && leb c b'Z' then c + 32 else if eqb c 0x212a then b'k' else c

unfoldable pub lower : Text → Text
unfolding to_lower
lower = map to_lower

-- `s.startswith(p)`
unfoldable pub starts_with : Text → Text → Bool
starts_with s [] = true
starts_with [] (p ∷ ps) = false
starts_with (c ∷ s) (p ∷ ps) = eqb c p && starts_with s ps

-- `p in s`
unfoldable pub contains_text : Text → Text → Bool
unfolding starts_with
contains_text p [] = starts_with [] p
contains_text p (c ∷ s) = starts_with (c ∷ s) p || contains_text p s

-- `s.split(sep)` for a one-character separator: never empty.
unfoldable pub split_rest : ℕ → Text → Text × List Text
split_rest sep [] = ([], [])
split_rest sep (c ∷ s) =
    let rest = split_rest sep s in if eqb c sep then ([], rest.0 ∷ rest.1) else (c ∷ rest.0, rest.1)

unfoldable pub split : ℕ → Text → List Text
unfolding split_rest
split sep s = let r = split_rest sep s in r.0 ∷ r.1

-- `sep.join(parts)` for a one-character separator.
unfoldable pub join : ℕ → List Text → Text
join sep [] = []
join sep (p ∷ []) = p
join sep (p ∷ q ∷ ps) = p ++ sep ∷ join sep (q ∷ ps)

-- `s.partition(sep)` for a one-character separator: the head, whether the separator was found, and
-- the tail.
unfoldable pub partition : ℕ → Text → Text × Bool × Text
partition sep [] = ([], false, [])
partition sep (c ∷ s) =
    let (head, found, tail) = partition sep s in
    if eqb c sep then ([], true, s) else (c ∷ head, found, tail)

-- `str(n)` for n ≥ 0, in decimal: the digits of `n` before `acc`. `n + 1` rounds are enough.
unfoldable pub digits_before : ℕ → ℕ → Text → Text
digits_before zero n acc = acc
digits_before (suc fuel) n acc =
    let rest = digits_before fuel (n / 10) ((48 + n % 10) ∷ acc) in
    if ltb n 10 then (48 + n) ∷ acc else rest

-- Any two counts of rounds above `n` give the same digits.
digits_before_enough :
    (f g n : ℕ) (acc : Text) → n < f → n < g → digits_before f n acc ≡ digits_before g n acc
unfolding digits_before
digits_before_enough zero g n acc h k = absurd (omega arith)
digits_before_enough (suc f) zero n acc h k = absurd (omega arith)
digits_before_enough (suc f) (suc g) n acc h k = elim (Bool-cases (ltb n 10)) [
  | inl small ↦ rw small refl
  | inr large ↦
      let tens : 10 ≤ n = ground arith in
      rw large (digits_before_enough f g (n / 10) ((48 + n % 10) ∷ acc) (omega arith) (omega arith))
]

unfoldable pub show : ℕ → Text
unfolding digits_before
show n = digits_before (n + 1) n []

unfoldable pub is_digit : ℕ → Bool
is_digit c = leb b'0' c && leb c b'9'

-- Decimal digits with single underscores between them; `seen` says whether a digit stands before.
unfoldable pub digits_value : Bool → ℕ → Text → Option ℕ
unfolding is_digit
digits_value seen acc [] = if seen then some acc else none
digits_value seen acc (c ∷ s) =
    let digit = digits_value true (acc * 10 + (c - 48)) s in
    let gap = digits_value false acc s in
    if is_digit c then digit else if eqb c b'_' && seen then gap else none

unfoldable pub signed_value : Text → Option ℤ
unfolding digits_value
signed_value [] = none
signed_value (c ∷ s) =
    if eqb c b'+'
    then Option.map pos (digits_value false 0 s)
    else if eqb c b'-'
    then Option.map (λ n. sub_ℕ 0 n) (digits_value false 0 s)
    else Option.map pos (digits_value false 0 (c ∷ s))

-- `int(s)`, with `none` for its `ValueError`; the digits are those of ASCII.
unfoldable pub parse_int : Text → Option ℤ
unfolding signed_value strip
parse_int s = signed_value (strip s)

-- `s.find(p)`, with `none` for -1.
unfoldable pub find_text : Text → Text → Option ℕ
unfolding starts_with
find_text p [] = if starts_with [] p then some 0 else none
find_text p (c ∷ s) =
    let later = Option.map suc (find_text p s) in if starts_with (c ∷ s) p then some 0 else later

-- `s.replace(old, new)` for an `old` of `n + 1` characters: after a match `skip` characters are passed
-- over.
unfoldable pub replace_from : Text → Text → ℕ → ℕ → Text → Text
unfolding starts_with
replace_from old new n skip [] = []
replace_from old new n (suc skip) (c ∷ s) = replace_from old new n skip s
replace_from old new n zero (c ∷ s) =
    let found = starts_with (c ∷ s) old in
    let rest = replace_from old new n (if found then n else zero) s in
    if found then new ++ rest else c ∷ rest

unfoldable pub replace : Text → Text → Text → Text
unfolding replace_from
replace old new s = replace_from old new (length old - 1) zero s

-- `s.replace(old, new, 1)`
unfoldable pub replace_once : Text → Text → Text → Text
unfolding starts_with
replace_once old new [] = if starts_with [] old then new else []
replace_once old new (c ∷ s) =
    let later = c ∷ replace_once old new s in
    if starts_with (c ∷ s) old then new ++ drop (length old) (c ∷ s) else later
