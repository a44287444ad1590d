-- ===== src/Examples/Cli.antt =====
-- Concrete runs of the launcher's hooks, cli.py.
use fabricperf.Prelude.{◌≡◌, refl, [], ◌∷◌}
use fabricperf.Prelude.Keys.{string_eq}
use fabricperf.Prelude.Dict.{get, put, remove}
use fabricperf.Prelude.Text.{Text, codes, lower, strip}
use fabricperf.Prelude.Result.{ok}
use fabricperf.Modes.{
  Environ, mode_env, partitions_env, throughput_mode, fabricperf_mode, throughput_partitions,
}
use fabricperf.Cli.{configure_env}
use fabricperf.Cli.Accepted.{configure_env_accepted}

abbrev given : Environ
given = ("HOME", codes "/root") ∷ (mode_env, codes " Throughput") ∷ []

abbrev configured : Environ
configured =
    ("HOME", codes "/root") ∷ (mode_env, codes "throughput") ∷ (partitions_env, codes "4") ∷ []

configure_env_run : configure_env given ≡ ok configured
unfolding configure_env get put remove lower strip fabricperf_mode
configure_env_run = refl

configure_env_accepted_example :
    (mode : Text) × (fabricperf_mode given ≡ ok mode)
    × (fabricperf_mode configured ≡ ok mode)
    × (mode ≡ throughput_mode → throughput_partitions configured ≡ ok 4)
configure_env_accepted_example = configure_env_accepted given configured configure_env_run
