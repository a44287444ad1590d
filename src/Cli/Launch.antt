-- ===== src/Cli/Launch.antt =====
-- The launcher's hooks that start processes, cli.py: `prepare` and `post_run`.
pub mod Prepared
use Prim.Native.String.{String}
use fabricperf.Prelude.{
  ℕ, Bool, true, false, ◌&&◌, Option, none, some, List, [], ◌∷◌, ◌++◌, if◌then◌else◌,
}
use fabricperf.Prelude.Int.{ℤ, pos, eqb_ℤ}
use fabricperf.Prelude.Keys.{◌==◌, nat_eq, list_eq, string_eq}
use fabricperf.Prelude.Dict.{put}
use fabricperf.Prelude.Text.{Text, codes}
use fabricperf.Prelude.Result.{
  Result, ErrorKind, ok, raise, import_error, os_error, file_not_found_error, ◌>>=◌,
}
use fabricperf.Modes.{
  Environ, mode_env, partitions_env, memory_mode, throughput_mode, fabricperf_mode,
}
use fabricperf.Build.{Exit, fail, Tools, build_plugin}
use fabricperf.Cli.{both_message, nccl_devfunc_enabled, deepep_enabled, requested_partitions}

abbrev pub prober_env : String
prober_env = "NEUTRINO_PROBING_PY"

pub record Plugin : Type 0 where
  pub dir : Text
  pub shared_object : Text
  pub analyzer : Text

-- The prober of the plugin that the environment asks for.
unfoldable pub with_prober : Tools → Plugin → Environ → Environ
unfolding nccl_devfunc_enabled deepep_enabled put
with_prober tools plugin env =
    let prober : Text → Text =
      λ part. tools.join_path (tools.join_path plugin.dir part) (codes "prober.py") in
    if nccl_devfunc_enabled env
    then put prober_env (prober (codes "nccl")) env
    else if deepep_enabled env
    then put prober_env (prober (codes "deepep")) env
    else env

-- The module `build.py` is loaded, or an error of its import is printed.
abbrev pub build_with : Result {0} Unit → Result Exit → Result Exit
build_with (ok loaded) build = build
build_with (raise import_error message) build = ok (fail message)
build_with (raise os_error message) build = ok (fail message)
build_with (raise file_not_found_error message) build = ok (fail message)
build_with (raise kind message) build = raise kind message

abbrev pub prepare_mode :
    Tools → Environ → Result {0} Unit → Plugin → Environ → Result Text → Environ × Result Exit
prepare_mode tools environ load plugin env (raise kind message) = (env, raise kind message)
prepare_mode tools environ load plugin env (ok mode) =
    if nccl_devfunc_enabled env && deepep_enabled env then (env, ok (fail both_message)) else (
      with_prober tools plugin env,
      build_with load (
          build_plugin tools environ plugin.dir (some plugin.shared_object) mode
            (some (mode == memory_mode))),
    )

-- `environ` is the launcher's own environment, `load` what loading `build.py` returns; `env` is
-- changed.
unfoldable pub prepare :
    Tools → Environ → Result {0} Unit → Plugin → Environ → Environ × Result Exit
unfolding nccl_devfunc_enabled deepep_enabled with_prober build_plugin fail
prepare tools environ load plugin env =
    prepare_mode tools environ load plugin env (fabricperf_mode env)

abbrev pub analyzer_env : Text → Environ → Result Environ
analyzer_env mode environ =
    let named = put mode_env mode environ in
    if mode == throughput_mode
    then requested_partitions named >>= (λ partitions. ok (put partitions_env partitions named))
    else ok named

-- The warning about the analyzer, if any; the status's number is left out.
abbrev pub warning_of : Result ℤ → Result (Option Text)
warning_of (ok status) =
    if eqb_ℤ status (pos 0)
    then ok none
    else ok (some (codes "FabricPerf analysis exited with status "))
warning_of (raise os_error message) =
    ok (some (codes "FabricPerf analysis failed to start: " ++ message))
warning_of (raise file_not_found_error message) =
    ok (some (codes "FabricPerf analysis failed to start: " ++ message))
warning_of (raise kind message) = raise kind message

-- `run` starts a command with an environment and returns its status.
unfoldable pub post_run :
    (List Text → Environ → Result ℤ) → Environ → Plugin → Text → Text → Result (Option Text)
unfolding requested_partitions
post_run run environ plugin tracedir python = fabricperf_mode environ >>= λ mode.
    analyzer_env mode environ >>= λ env.
    warning_of (run (python ∷ plugin.analyzer ∷ tracedir ∷ []) env)
