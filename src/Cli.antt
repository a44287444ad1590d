-- ===== src/Cli.antt =====
-- The launcher's hooks before a run, cli.py: selection of modes and probes, the check of arguments and
-- the environment of the launched processes. `os.path.join` is a parameter.
pub mod Accepted
pub mod Launch
use Prim.Native.String.{String}
use fabricperf.Prelude.{
  ℕ, Bool, true, false, ◌&&◌, ◌||◌, Option, none, some, List, [], ◌∷◌, map, if◌then◌else◌,
}
use fabricperf.Prelude.Keys.{◌==◌, nat_eq, list_eq, string_eq, member}
use fabricperf.Prelude.Dict.{get, put, remove, value_or}
use fabricperf.Prelude.Text.{Text, codes, strip, lower}
use fabricperf.Prelude.Result.{Result, ok, raise, value_error, ◌>>=◌}
use fabricperf.Modes.{
  Environ, mode_env, partitions_env, latency_mode, memory_mode, throughput_mode, fabricperf_mode,
}

abbrev pub devfunc_env : String
devfunc_env = "FABRICPERF_NCCL_DEVFUNC"

abbrev pub deepep_env : String
deepep_env = "FABRICPERF_DEEPEP"

abbrev pub partitions_message : Text
partitions_message = codes "FABRICPERF_THROUGHPUT_PARTITIONS must be one of: 4"

-- `fabricperf_mode`, which stands in cli.py once more with the same body.
abbrev pub selected_mode : Environ → Result Text
selected_mode env = fabricperf_mode env

-- `throughput_partitions`: the text itself, which must be "4".
unfoldable pub requested_partitions : Environ → Result Text
requested_partitions env =
    let raw = strip (value_or (codes "4") (get partitions_env env)) in
    if raw == codes "4" then ok raw else raise value_error partitions_message

abbrev pub truthy : List Text
truthy = map codes ("1" ∷ "true" ∷ "yes" ∷ "on" ∷ [])

abbrev pub is_enabled : String → Environ → Bool
is_enabled name env = member (lower (strip (value_or [] (get name env)))) truthy

unfoldable pub nccl_devfunc_enabled : Environ → Bool
nccl_devfunc_enabled env = is_enabled devfunc_env env

unfoldable pub deepep_enabled : Environ → Bool
deepep_enabled env = is_enabled deepep_env env

unfoldable pub default_probe : (Text → Text → Text) → Environ → Text → Result Text
default_probe join_path env plugin_dir = do
  mode ← selected_mode env
  let filename =
      if mode == memory_mode
      then codes "memory.probe"
      else if mode == throughput_mode
      then codes "throughput.probe"
      else codes "latency.probe"
  ok (join_path plugin_dir filename)

-- The arguments that the hooks read.
pub record Args : Type 0 where
  pub no_probe : Bool
  pub app_replay : Bool

abbrev pub check_partitions : Text → Environ → Result Text
check_partitions mode env = if mode == throughput_mode then requested_partitions env else ok []

abbrev pub both_message : Text
both_message = codes "FABRICPERF_NCCL_DEVFUNC and FABRICPERF_DEEPEP cannot both be enabled"

abbrev pub no_probe_message : Text
no_probe_message =
    codes "FabricPerf requires a Neutrino probe; use FABRICPERF_MODE=memory for memory collection"

unfoldable pub validate_args : Environ → Args → Result {0} Unit
unfolding requested_partitions nccl_devfunc_enabled deepep_enabled
validate_args env args = do
  mode ← selected_mode env
  partitions ← check_partitions mode env
  if nccl_devfunc_enabled env && deepep_enabled env
      then raise value_error both_message
      else if args.no_probe
      then raise value_error no_probe_message
      else if args.app_replay
      then raise value_error (codes "FabricPerf no longer supports --app-replay")
      else ok tt

abbrev pub with_partitions : Environ → Result Environ
with_partitions env =
    requested_partitions env >>= λ partitions. ok (put partitions_env partitions env)

unfoldable pub configure_env : Environ → Result Environ
unfolding requested_partitions
configure_env env = do
  mode ← selected_mode env
  let named = put mode_env mode env
  if mode == throughput_mode then with_partitions named else ok (remove partitions_env named)
