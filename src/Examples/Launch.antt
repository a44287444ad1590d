-- ===== src/Examples/Launch.antt =====
-- The theorems on the launcher, the build and the dispatch at concrete inputs.
use fabricperf.Prelude.{true, false, ◌&&◌, none, [], ◌∷◌, ◌++◌, ◌≡◌, refl}
use fabricperf.Prelude.Int.{pos}
use fabricperf.Prelude.Keys.{◌==◌, nat_eq, list_eq, string_eq}
use fabricperf.Prelude.Dict.{IsDict, has, get, value_or}
use fabricperf.Prelude.Text.{Text, codes, lower, strip}
use fabricperf.Prelude.Result.{Result, ok, raise, key_error}
use fabricperf.Modes.{Environ, mode_env, memory_mode, fabricperf_mode}
use fabricperf.Build.{Exit, Tools, exited, normalized_mode, output_of, build_plugin}
use fabricperf.Build.Success.{IsBuild, build_plugin_total}
use fabricperf.Cli.{nccl_devfunc_enabled, deepep_enabled}
use fabricperf.Cli.Launch.{Plugin, with_prober, prepare}
use fabricperf.Cli.Launch.Prepared.{IsPrepared, prepare_total}
use fabricperf.Analyze.{main}

abbrev tools : Tools
tools = record {
  make = λ dir env. exited (pos 0) (λ path. true);
  join_path = λ dir part. dir ++ codes "/" ++ part;
}

abbrev memory_environ : Environ
memory_environ = (mode_env, codes "memory") ∷ ("PATH", codes "/bin") ∷ []

memory_IsDict : IsDict memory_environ
unfolding has
memory_IsDict = (refl, (refl, tt))

mode_in_capitals : normalized_mode (codes " MEMORY") ≡ ok memory_mode
unfolding normalized_mode
mode_in_capitals = refl

build_plugin_total_example :
    (exit : Exit) × (build_plugin tools memory_environ (codes "plugin") none (codes " MEMORY") none
      ≡ ok exit)
    × IsBuild tools memory_environ
        (codes "plugin")
        (output_of tools (codes "plugin") none)
        memory_mode
        (value_or (memory_mode == memory_mode) none)
        exit
build_plugin_total_example =
    build_plugin_total tools memory_environ (codes "plugin") none (codes " MEMORY") memory_mode none
      mode_in_capitals memory_IsDict

abbrev plugin : Plugin
plugin = record {
  dir = codes "plugin";
  shared_object = codes "plugin/fabricperf.so";
  analyzer = codes "plugin/analyze.py";
}

abbrev devfunc_environ : Environ
devfunc_environ = (mode_env, codes "memory") ∷ ("FABRICPERF_NCCL_DEVFUNC", codes "1") ∷ []

devfunc_mode : fabricperf_mode devfunc_environ ≡ ok memory_mode
unfolding fabricperf_mode lower strip get
devfunc_mode = refl

devfunc_alone : (nccl_devfunc_enabled devfunc_environ && deepep_enabled devfunc_environ) ≡ false
unfolding nccl_devfunc_enabled deepep_enabled lower strip get
devfunc_alone = refl

sets_the_prober :
    with_prober tools plugin devfunc_environ
    ≡ devfunc_environ ++ (("NEUTRINO_PROBING_PY", codes "plugin/nccl/prober.py") ∷ [])
unfolding with_prober lower strip get
sets_the_prober = refl

prepare_total_example :
    (exit : Exit) × (prepared : Environ) × (prepare tools memory_environ
        (ok tt)
        plugin
        devfunc_environ
      ≡ (prepared, ok exit))
    × IsPrepared tools plugin devfunc_environ prepared
    × IsBuild tools memory_environ plugin.dir plugin.shared_object memory_mode
        (memory_mode == memory_mode)
        exit
prepare_total_example =
    prepare_total tools memory_environ devfunc_environ plugin memory_mode devfunc_mode devfunc_alone
      memory_IsDict

abbrev no_rows : Result {0} Unit
no_rows = raise key_error (codes "sr_latency")

abbrev no_memory : Result {0} Unit
no_memory = ok tt

abbrev of_variant : Text → Result {0} Unit
of_variant variant = ok tt

prints_the_error : main [] no_memory of_variant no_rows ≡ ok 1
unfolding main get lower strip
prints_the_error = refl
