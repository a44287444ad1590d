-- ===== src/Memory/Merge/Columns.antt =====
-- What analysis/memory.py's `merge_probe_bytes_into_row` changes in a row.
use Prim.Native.String.{String}
use fabricperf.Prelude.{
  ◌≡◌, refl, sym, ◌∙◌, ap, Bool, true, false, ◌||◌, some, List, [], ◌∷◌, ◌++◌, arith, All,
  All-append, if◌then◌else◌, Bool-cases, inl, inr,
}
use fabricperf.Prelude.Keys.{◌==◌, member, nat_eq, list_eq, string_eq}
use fabricperf.Prelude.Dict.{get, put, has, keys, get-put, has-put}
use fabricperf.Prelude.Text.{Text, split, join, partition}
use fabricperf.Prelude.Result.{ok, collect}
use fabricperf.Prelude.Float.{FloatOps}
use fabricperf.Memory.Metrics.{
  Row, Metrics, field, parse_part, parse_parts, parse_raw_metrics, extend_order, piece, piece_of,
  format_raw_metrics, semicolon, equals,
}
use fabricperf.Memory.Probe.{ProbeByteRow}
use fabricperf.Memory.Merge.{
  probe_metrics, probe_columns, put_all, set_all, merge_probe_bytes_into_row,
}

or_true : (b : Bool) → (b || true) ≡ true
or_true true = refl
or_true false = refl

has-put_self : (k v : Text) (d : Metrics) → has k (put k v d) ≡ true
has-put_self k v d = rw (has-put, (list_eq.same_iff k k).1 refl) refl

-- Every key of an order has a value.
abbrev IsFilled : Metrics → List Text → Type 0
IsFilled metrics order = All (λ key. has key metrics ≡ true) order

IsFilled-put :
    (k v : Text) (metrics : Metrics) (order : List Text)
    → IsFilled metrics order
    → IsFilled (put k v metrics) order
IsFilled-put k v metrics [] h = tt
IsFilled-put k v metrics (key ∷ order) h =
    (ground (arith, has-put k key v metrics, h.0), IsFilled-put k v metrics order h.1)

parse_part-IsFilled :
    (s : List Text × Metrics) (part : Text)
    → IsFilled s.1 s.0
    → IsFilled (parse_part s part).1 (parse_part s part).0
unfolding parse_part
parse_part-IsFilled (order, metrics) [] h = h
parse_part-IsFilled (order, metrics) (c ∷ part) h =
    let (key, separator, value) = partition equals (c ∷ part) in
    let v = if separator then value else [] in
    let old = IsFilled-put key v metrics order h in
    elim (Bool-cases (has key metrics)) [
      | inl p ↦ rw p old
      | inr p ↦ rw p (
          All-append (λ k. has k (put key v metrics) ≡ true) order (key ∷ []) old
            (has-put_self key v metrics, tt))
    ]

parse_parts-IsFilled :
    (s : List Text × Metrics) (ps : List Text)
    → IsFilled s.1 s.0
    → IsFilled (parse_parts s ps).1 (parse_parts s ps).0
unfolding parse_parts
parse_parts-IsFilled s [] h = h
parse_parts-IsFilled s (p ∷ ps) h =
    parse_parts-IsFilled (parse_part s p) ps (parse_part-IsFilled s p h)

put_all-IsFilled :
    (es : List (Text × Text)) (metrics : Metrics) (order : List Text)
    → IsFilled metrics order
    → IsFilled (put_all es metrics) order
put_all-IsFilled [] metrics order h = h
put_all-IsFilled ((k, v) ∷ es) metrics order h =
    put_all-IsFilled es (put k v metrics) order (IsFilled-put k v metrics order h)

extend_order-IsFilled :
    (metrics : Metrics) (order ks : List Text)
    → IsFilled metrics order
    → IsFilled metrics ks
    → IsFilled metrics (extend_order order ks)
unfolding extend_order
extend_order-IsFilled metrics order [] h hk = h
extend_order-IsFilled metrics order (k ∷ ks) h hk = elim (Bool-cases (member k order)) [
  | inl p ↦ rw p (extend_order-IsFilled metrics order ks h hk.1)
  | inr p ↦ rw p (
      extend_order-IsFilled metrics (order ++ k ∷ []) ks
        (All-append (λ j. has j metrics ≡ true) order (k ∷ []) h (hk.0, tt)) hk.1)
]

IsFilled-weaken :
    (e : Text × Text) (d : Metrics) (order : List Text) → IsFilled d order → IsFilled (e ∷ d) order
unfolding has
IsFilled-weaken e d [] h = tt
IsFilled-weaken e d (k ∷ order) h = (rw (h.0) (or_true (e.0 == k)), IsFilled-weaken e d order h.1)

keys-IsFilled : (d : Metrics) → IsFilled d (keys d)
unfolding has
keys-IsFilled [] = tt
keys-IsFilled ((k, v) ∷ d) =
    (rw ((list_eq.same_iff k k).1 refl) refl, IsFilled-weaken (k, v) d (keys d) (keys-IsFilled d))

get_of_has : (k : Text) (d : Metrics) → has k d ≡ true → (v : Text) × (get k d ≡ some v)
unfolding has get
get_of_has k [] h = absurd (cc)
get_of_has k ((j, w) ∷ d) h = elim (Bool-cases (j == k)) [
  | inl p ↦ (w, rw p refl)
  | inr p ↦ let (v, q) = get_of_has k d (ap (λ b. b || has k d) (sym p) ∙ h) in (v, rw p q)
]

pieces_total :
    (metrics : Metrics) (order : List Text)
    → IsFilled metrics order
    → (ps : List Text) × (collect (piece_of metrics) order ≡ ok ps)
pieces_total metrics [] h = ([], refl)
pieces_total metrics (k ∷ order) h =
    let (v, q) = get_of_has k metrics h.0 in
    let (ps, r) = pieces_total metrics order h.1 in (piece k v ∷ ps, rw (q, r) refl)

format_total :
    (order : List Text) (metrics : Metrics)
    → IsFilled metrics order
    → (t : Text) × (format_raw_metrics order metrics ≡ ok t)
unfolding format_raw_metrics
format_total order metrics h =
    let (ps, q) =
      pieces_total metrics (extend_order order (keys metrics))
        (extend_order-IsFilled metrics order (keys metrics) h (keys-IsFilled metrics)) in
    (join semicolon ps, rw q refl)

-- The keys that assignments do not mention keep their values.
abbrev pub is_set : String → List (String × Text) → Bool
is_set name [] = false
is_set name ((k, v) ∷ es) = k == name || is_set name es

or_false : (a b : Bool) → (a || b) ≡ false → (a ≡ false) × (b ≡ false)
or_false false b h = (refl, h)
or_false true b h = absurd (cc)

get-set_all :
    (name : String) (es : List (String × Text)) (row : Row)
    → is_set name es ≡ false
    → get name (set_all es row) ≡ get name row
get-set_all name [] row h = refl
get-set_all name ((k, v) ∷ es) row h =
    let (other, rest) = or_false (k == name) (is_set name es) h in
    get-set_all name es (put k v row) rest ∙ rw (get-put, other) refl

columns_set :
    (ops : FloatOps) (row : Row) (probe : ProbeByteRow) (text : Text)
    → All
        (λ e.
          get e.0 (put "raw_metrics" text (set_all (probe_columns ops row probe) row)) ≡ some e.1)
        (probe_columns ops row probe)
columns_set ops row probe text = (
  rw (get-put, get-put, get-put, get-put, get-put, get-put, get-put) refl,
  (
    rw (get-put, get-put, get-put, get-put, get-put, get-put) refl,
    (
      rw (get-put, get-put, get-put, get-put, get-put) refl,
      (
        rw (get-put, get-put, get-put, get-put) refl,
        (rw (get-put, get-put, get-put) refl, (rw (get-put, get-put) refl, tt)),
      ),
    ),
  ),
)

module _ (ops : FloatOps) where
  -- Merging probe bytes into a row never raises, sets every probe column to its new value, and leaves
  -- every other column but `raw_metrics` as it is.
  pub merge_probe_bytes_into_row_total :
      (row : Row) (probe : ProbeByteRow)
      → (row' : Row) × (merge_probe_bytes_into_row ops row probe ≡ ok row')
        × ((name : String)
            → ("raw_metrics" == name) ≡ false
            → is_set name (probe_columns ops row probe) ≡ false
            → get name row' ≡ get name row)
        × All (λ e. get e.0 row' ≡ some e.1) (probe_columns ops row probe)
  unfolding merge_probe_bytes_into_row parse_raw_metrics
  merge_probe_bytes_into_row_total row probe =
      let raw = parse_raw_metrics (field "raw_metrics" row) in
      let (text, q) = format_total raw.0 (put_all (probe_metrics probe) raw.1) (
        put_all-IsFilled (probe_metrics probe) raw.1 raw.0
          (parse_parts-IsFilled ([], []) (split semicolon (field "raw_metrics" row)) tt)) in
      (
        put "raw_metrics" text (set_all (probe_columns ops row probe) row),
        rw q refl,
        λ name raw_other other.
            rw (get-put, raw_other) (get-set_all name (probe_columns ops row probe) row other),
        columns_set ops row probe text,
      )
