-- ===== src/Memory/Metrics.antt =====
-- The `raw_metrics` column and the numeric fields, analysis/common.py.
pub mod Long
use Prim.Native.String.{String}
use fabricperf.Prelude.{
  ℕ, Bool, true, false, not, ◌||◌, Option, none, some, List, [], ◌∷◌, ◌++◌, map, keep,
  if◌then◌else◌,
}
use fabricperf.Prelude.Int.{ℤ, pos}
use fabricperf.Prelude.Keys.{◌==◌, nat_eq, list_eq, string_eq, member}
use fabricperf.Prelude.Dict.{Dict, get, put, has, keys, value_or}
use fabricperf.Prelude.Text.{Text, codes, split, join, partition, show}
use fabricperf.Prelude.Result.{Result, ok, raise, key_error, ◌>>=◌, collect}
use fabricperf.Prelude.Float.{FloatOps}

-- A CSV row by column name, and the metrics of a `raw_metrics` field.
abbrev pub Row : Type 0
Row = Dict String Text

abbrev pub Metrics : Type 0
Metrics = Dict Text Text

abbrev pub semicolon : ℕ
semicolon = 59

abbrev pub equals : ℕ
equals = 61

-- `row.get(name, "")`
abbrev pub field : String → Row → Text
field name row = value_or [] (get name row)

-- One part of `raw.split(";")`.
unfoldable pub parse_part : List Text × Metrics → Text → List Text × Metrics
parse_part (order, metrics) [] = (order, metrics)
parse_part (order, metrics) (c ∷ part) =
    let (key, separator, value) = partition equals (c ∷ part) in
    (
      if has key metrics then order else order ++ key ∷ [],
      put key (if separator then value else []) metrics,
    )

unfoldable pub parse_parts : List Text × Metrics → List Text → List Text × Metrics
unfolding parse_part
parse_parts s [] = s
parse_parts s (p ∷ ps) = parse_parts (parse_part s p) ps

unfoldable pub parse_raw_metrics : Text → List Text × Metrics
unfolding parse_parts
parse_raw_metrics raw = parse_parts ([], []) (split semicolon raw)

-- `for key in values: if key not in order: order.append(key)`
unfoldable pub extend_order : List Text → List Text → List Text
extend_order order [] = order
extend_order order (key ∷ ks) =
    extend_order (if member key order then order else order ++ key ∷ []) ks

abbrev pub piece : Text → Text → Text
piece key [] = key
piece key (c ∷ value) = key ++ equals ∷ c ∷ value

-- `values[key]` raises on a key that is not there.
abbrev pub piece_found : Text → Option Text → Result (List Text)
piece_found key none = raise key_error key
piece_found key (some value) = ok (piece key value ∷ [])

abbrev pub piece_of : Metrics → Text → Result (List Text)
piece_of metrics key = piece_found key (get key metrics)

unfoldable pub format_raw_metrics : List Text → Metrics → Result Text
unfolding extend_order
format_raw_metrics order metrics = do
  pieces ← collect (piece_of metrics) (extend_order order (keys metrics))
  ok (join semicolon pieces)

abbrev pub exact_diagnostics : List Text
exact_diagnostics = map codes (
    "cupti_backend" ∷ "event_duration_s" ∷ "pm_samples_total" ∷ "pm_samples_populated"
    ∷ "pm_samples_completed" ∷ "pm_overflow" ∷ "pm_interval" ∷ "fabricperf_probe_backend"
    ∷ "probe_merge_key" ∷ "probe_records" ∷ [])

unfoldable pub is_diagnostic_raw_metric : Text → Bool
is_diagnostic_raw_metric metric = member metric exact_diagnostics

-- One row of the long form.
pub record LongRow : Type 0 where
  pub rank : Text
  pub device : Text
  pub launch_index : Text
  pub kernel : Text
  pub metric : Text
  pub value : Text

abbrev pub long_row : Row → Metrics → Text → LongRow
long_row row metrics metric = record {
  rank = field "rank" row;
  device = field "device" row;
  launch_index = field "launch_index" row;
  kernel = field "kernel" row;
  metric = metric;
  value = value_or [] (get metric metrics);
}

-- The rows written to `fabricperf_cupti_metrics.csv` and to `fabricperf_cupti_diagnose.csv`.
abbrev pub LongFiles : Type 0
LongFiles = List LongRow × List LongRow

unfoldable pub write_metric : Row → Metrics → LongFiles → Text → LongFiles
unfolding is_diagnostic_raw_metric
write_metric row metrics (written, diagnose) metric =
    if is_diagnostic_raw_metric metric
    then (written, diagnose ++ long_row row metrics metric ∷ [])
    else (written ++ long_row row metrics metric ∷ [], diagnose)

unfoldable pub write_metrics : Row → Metrics → LongFiles → List Text → LongFiles
unfolding write_metric
write_metrics row metrics files [] = files
write_metrics row metrics files (m ∷ ms) =
    write_metrics row metrics (write_metric row metrics files m) ms

unfoldable pub write_long_rows : LongFiles → List Row → LongFiles
unfolding write_metrics parse_raw_metrics
write_long_rows files [] = files
write_long_rows files (row ∷ rows) =
    let (order, metrics) = parse_raw_metrics (field "raw_metrics" row) in
    write_long_rows (write_metrics row metrics files order) rows

unfoldable pub write_long_metrics_csv : List Row → LongFiles
unfolding write_long_rows
write_long_metrics_csv rows = write_long_rows ([], []) rows

module _ (ops : FloatOps) where
  -- A blank field or one that does not parse is `None`.
  unfoldable pub float_field : Option Text → Option ops.Float
  float_field none = none
  float_field (some []) = none
  float_field (some (c ∷ raw)) = ops.parse (c ∷ raw)

  unfoldable pub bps_from_bytes : ℕ → Option ops.Float → Text
  bps_from_bytes byte_count none = []
  bps_from_bytes byte_count (some duration_s) =
      if ops.le duration_s (ops.of_int (pos 0))
      then []
      else ops.general_seventeen (ops.div (ops.of_int (pos byte_count)) duration_s)

-- `number_field` of an integer.
abbrev pub number_field : ℕ → Text
number_field n = show n
