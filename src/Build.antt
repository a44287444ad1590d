-- ===== src/Build.antt =====
-- The build of the runtime, build.py: `normalized_mode`, `build_plugin` and `main` after its arguments.
pub mod Success
use Prim.Native.String.{String}
use fabricperf.Prelude.{
  ℕ, Bool, true, false, ◌&&◌, Option, none, some, List, [], ◌∷◌, ◌++◌, if◌then◌else◌, eqb,
}
use fabricperf.Prelude.Int.{ℤ, pos, eqb_ℤ}
use fabricperf.Prelude.Keys.{◌==◌, nat_eq, list_eq, string_eq}
use fabricperf.Prelude.Dict.{get, put, remove, value_or}
use fabricperf.Prelude.Text.{Text, codes, strip, lower}
use fabricperf.Prelude.Result.{Result, ErrorKind, ok, raise, value_error, ◌>>=◌}
use fabricperf.Modes.{Environ, mode_env, memory_mode, is_valid_mode, mode_message}

abbrev pub cupti_env : String
cupti_env = "FABRICPERF_CUPTI"

-- What a command returns: its status and the error that it prints.
pub record Exit : Type 0 where
  pub status : ℕ
  pub error : Option Text

abbrev pub success : Exit
success = record { status = 0; error = none }

unfoldable pub fail : Text → Exit
fail message = record { status = 1; error = some message }

-- How a run of `make` ends: it may not start, or it leaves a status and files behind.
pub data MakeRun : Type 0 where
  not_found : MakeRun
  not_started : Text → MakeRun
  exited : ℤ → (Text → Bool) → MakeRun

-- `make` in a directory with an environment, and the operator `/` of paths.
pub record Tools : Type 0 where
  pub make : Text → Environ → MakeRun
  pub join_path : Text → Text → Text

unfoldable pub normalized_mode : Text → Result Text
unfolding strip lower is_valid_mode
normalized_mode raw_mode =
    let mode = lower (strip raw_mode) in
    if is_valid_mode mode then ok mode else raise value_error mode_message

-- `build_mode == MEMORY_MODE if cupti is None else cupti`
abbrev pub needs_cupti : Text → Option Bool → Bool
needs_cupti build_mode none = build_mode == memory_mode
needs_cupti build_mode (some cupti) = cupti

unfoldable pub make_env : Text → Bool → Environ → Environ
unfolding put remove
make_env build_mode cupti environ =
    let named = put mode_env build_mode environ in
    if cupti then put cupti_env (codes "1") named else remove cupti_env named

abbrev pub output_of : Tools → Text → Option Text → Text
output_of tools plugin_dir none =
    tools.join_path (tools.join_path plugin_dir (codes "build")) (codes "fabricperf_plugin.so")
output_of tools plugin_dir (some shared_object) = shared_object

-- The status's number is left out of the message.
unfoldable pub exit_of : Text → MakeRun → Exit
unfolding fail
exit_of output not_found = fail (codes "make not found while building FabricPerf")
exit_of output (not_started reason) = fail (codes "failed to build FabricPerf: " ++ reason)
exit_of output (exited status exists) =
    if eqb_ℤ status (pos 0)
    then if exists output
      then success
      else fail (codes "FabricPerf build did not produce " ++ output)
    else fail (codes "FabricPerf build failed with status ")

unfoldable pub build_plugin :
    Tools → Environ → Text → Option Text → Text → Option Bool → Result Exit
unfolding normalized_mode make_env exit_of
build_plugin tools environ plugin_dir shared_object mode cupti =
    normalized_mode mode >>= λ build_mode. ok (
      exit_of (output_of tools plugin_dir shared_object)
        (tools.make plugin_dir (make_env build_mode (needs_cupti build_mode cupti) environ)))

-- The options of the command.
pub record BuildArgs : Type 0 where
  pub plugin_dir : Text
  pub shared_object : Option Text
  pub mode : Text
  pub cupti : Bool
  pub no_cupti : Bool

abbrev pub cupti_option : BuildArgs → Option Bool
cupti_option args = if args.cupti then some true else if args.no_cupti then some false else none

-- A `ValueError` is printed.
abbrev pub caught : Result Exit → Result Exit
caught (ok exit) = ok exit
caught (raise value_error message) = ok (fail message)
caught (raise kind message) = raise kind message

unfoldable pub main : Tools → Environ → BuildArgs → Result Exit
unfolding build_plugin fail
main tools environ args =
    if args.cupti && args.no_cupti
    then ok (fail (codes "--cupti and --no-cupti cannot both be set"))
    else caught (
        build_plugin tools environ args.plugin_dir args.shared_object args.mode (cupti_option args))
