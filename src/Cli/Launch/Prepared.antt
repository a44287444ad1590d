-- ===== src/Cli/Launch/Prepared.antt =====
-- What `prepare` of cli.py sets and builds.
use fabricperf.Prelude.{true, false, ◌&&◌, some, ◌≡◌, refl, ap, ◌∙◌, inl, inr, sym, Bool-cases}
use Prim.Native.String.{String}
use fabricperf.Prelude.Keys.{◌==◌, nat_eq, list_eq, string_eq}
use fabricperf.Prelude.Dict.{IsDict, get, put, get-put, get-put_self}
use fabricperf.Prelude.Text.{Text, codes, strip, lower}
use fabricperf.Prelude.Result.{ok}
use fabricperf.Modes.{Environ, is_valid_mode, memory_mode, fabricperf_mode}
use fabricperf.Build.{Exit, Tools, normalized_mode}
use fabricperf.Build.Success.{IsBuild, build_plugin_total}
use fabricperf.Cli.{nccl_devfunc_enabled, deepep_enabled}
use fabricperf.Cli.Accepted.{valid_cases, mode_valid}
use fabricperf.Cli.Launch.{Plugin, prober_env, with_prober, prepare_mode, prepare}

-- A mode that the launcher read is one that the build takes as it is.
normalized_mode_valid : (mode : Text) → is_valid_mode mode ≡ true → normalized_mode mode ≡ ok mode
unfolding normalized_mode is_valid_mode lower strip
normalized_mode_valid mode h = elim (valid_cases mode h) [
  | inl p ↦ rw p refl
  | inr (inl p) ↦ rw p refl
  | inr (inr p) ↦ rw p refl
]

-- The launch environment after `prepare`: the prober is that of the part of the plugin that is asked
-- for, and every other variable is as it was.
pub record IsPrepared (tools : Tools) (plugin : Plugin) (env prepared : Environ) : Type 0 where
  pub devfunc_prober :
      nccl_devfunc_enabled env ≡ true
      → get prober_env prepared
        ≡ some (tools.join_path (tools.join_path plugin.dir (codes "nccl")) (codes "prober.py"))
  pub deepep_prober :
      deepep_enabled env ≡ true
      → get prober_env prepared
        ≡ some (tools.join_path (tools.join_path plugin.dir (codes "deepep")) (codes "prober.py"))
  pub no_prober : nccl_devfunc_enabled env ≡ false → deepep_enabled env ≡ false → prepared ≡ env
  pub others : (k : String) → (prober_env == k) ≡ false → get k prepared ≡ get k env

with_prober-IsPrepared :
    (tools : Tools) (plugin : Plugin) (env : Environ)
    → (nccl_devfunc_enabled env && deepep_enabled env) ≡ false
    → IsPrepared tools plugin env (with_prober tools plugin env)
unfolding with_prober
with_prober-IsPrepared tools plugin env exclusive =
    let prober : Text → Text =
      λ part. tools.join_path (tools.join_path plugin.dir part) (codes "prober.py") in
    let put_prober : (part : Text) (k : String)
        → (prober_env == k) ≡ false
        → get k (put prober_env (prober part) env) ≡ get k env =
      λ part k other. get-put prober_env k (prober part) env ∙ rw other refl in
    elim (Bool-cases (nccl_devfunc_enabled env)) [
      | inl devfunc ↦ rw devfunc (record {
        devfunc_prober = λ on. get-put_self prober_env (prober (codes "nccl")) env;
        deepep_prober = λ on. absurd (cc (rw (devfunc, on) at exclusive));
        no_prober = λ off. absurd (cc (sym devfunc ∙ off));
        others = put_prober (codes "nccl");
      })
      | inr without ↦ elim (Bool-cases (deepep_enabled env)) [
        | inl deepep ↦
            rw (without, deepep)
              (record {
                devfunc_prober = λ on. absurd (cc (sym without ∙ on));
                deepep_prober = λ on. get-put_self prober_env (prober (codes "deepep")) env;
                no_prober = λ off off'. absurd (cc (sym deepep ∙ off'));
                others = put_prober (codes "deepep");
              })
        | inr neither ↦
            rw (without, neither)
              (record {
                devfunc_prober = λ on. absurd (cc (sym without ∙ on));
                deepep_prober = λ on. absurd (cc (sym neither ∙ on));
                no_prober = λ off off'. refl;
                others = λ k other. refl;
              })
      ]
    ]

-- If the launch environment has a valid mode and does not ask for two probers, the launcher's own
-- environment repeats no name and `build.py` loads, then `prepare` sets the prober of the NCCL or the DeepEP part,
-- if one of them is asked for, and no other variable of the launch environment, and builds the plugin's
-- shared object in that mode, with CUPTI exactly in memory mode; its status is 0 exactly if the build's
-- `make` ends with status 0 and the shared object is there.
pub prepare_total :
    (tools : Tools) (environ env : Environ) (plugin : Plugin) (mode : Text)
    → fabricperf_mode env ≡ ok mode
    → (nccl_devfunc_enabled env && deepep_enabled env) ≡ false
    → IsDict environ
    → (exit : Exit) × (prepared : Environ) × (prepare tools environ (ok tt) plugin env
        ≡ (prepared, ok exit))
      × IsPrepared tools plugin env prepared
      × IsBuild tools environ plugin.dir plugin.shared_object mode (mode == memory_mode) exit
unfolding prepare
prepare_total tools environ env plugin mode read exclusive dict =
    let (exit, built, is_build) =
      build_plugin_total tools environ plugin.dir (some plugin.shared_object) mode mode
        (some (mode == memory_mode)) (normalized_mode_valid mode (mode_valid env mode read)) dict in
    (
      exit,
      with_prober tools plugin env,
      ap (prepare_mode tools environ (ok tt) plugin env) read
          ∙ rw exclusive (ap (λ r. (with_prober tools plugin env, r)) built),
      with_prober-IsPrepared tools plugin env exclusive,
      is_build,
    )
