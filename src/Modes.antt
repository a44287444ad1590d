-- ===== src/Modes.antt =====
-- The mode and partition selectors of analysis/common.py, over an environment given as a dictionary.
use fabricperf.Prelude.{ℕ, Bool, ◌||◌, Option, none, some, [], if◌then◌else◌}
use Prim.Native.String.{String}
use fabricperf.Prelude.Int.{ℤ, pos, eqb_ℤ}
use fabricperf.Prelude.Keys.{◌==◌, nat_eq, list_eq, string_eq}
use fabricperf.Prelude.Dict.{Dict, get, value_or}
use fabricperf.Prelude.Text.{Text, codes, strip, lower, parse_int}
use fabricperf.Prelude.Result.{Result, ok, raise, value_error, ◌>>=◌}

abbrev pub Environ : Type 0
Environ = Dict String Text

abbrev pub mode_env : String
mode_env = "FABRICPERF_MODE"

abbrev pub partitions_env : String
partitions_env = "FABRICPERF_THROUGHPUT_PARTITIONS"

abbrev pub latency_mode : Text
latency_mode = codes "latency"

abbrev pub memory_mode : Text
memory_mode = codes "memory"

abbrev pub throughput_mode : Text
throughput_mode = codes "throughput"

unfoldable pub is_valid_mode : Text → Bool
is_valid_mode mode = mode == latency_mode || mode == memory_mode || mode == throughput_mode

abbrev pub mode_message : Text
mode_message = codes "FABRICPERF_MODE must be one of: latency, memory, throughput"

abbrev pub analyzer_partitions_message : Text
analyzer_partitions_message = codes "FABRICPERF_THROUGHPUT_PARTITIONS must be 4"

unfoldable pub fabricperf_mode : Environ → Result Text
unfolding is_valid_mode
fabricperf_mode env =
    let mode = lower (strip (value_or latency_mode (get mode_env env))) in
    if is_valid_mode mode then ok mode else raise value_error mode_message

unfoldable pub throughput_variant : Environ → Result Text
unfolding fabricperf_mode
throughput_variant env = do
  mode ← fabricperf_mode env
  ok (if mode == throughput_mode then codes "gmem" else [])

-- The accepted value as a number: only 4 is valid.
unfoldable pub valid_partitions : Option ℤ → Result ℕ
valid_partitions none = raise value_error analyzer_partitions_message
valid_partitions (some value) =
    if eqb_ℤ value (pos 4) then ok 4 else raise value_error analyzer_partitions_message

unfoldable pub throughput_partitions : Environ → Result ℕ
unfolding valid_partitions
throughput_partitions env =
    valid_partitions (parse_int (strip (value_or (codes "4") (get partitions_env env))))
