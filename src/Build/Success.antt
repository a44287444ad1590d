-- ===== src/Build/Success.antt =====
-- When a build succeeds, and what `make` is told.
use fabricperf.Prelude.{
  Bool, true, false, Option, none, some, [], ◌∷◌, if◌then◌else◌, ◌≡◌, refl, sym, subst, ◌∙◌, ◌↔◌,
  inl, inr, Bool-cases, arith,
}
use Prim.Native.String.{String}
use fabricperf.Prelude.Int.{ℤ, pos, eqb_ℤ, eqb_ℤ_iff}
use fabricperf.Prelude.Keys.{◌==◌, Eq, nat_eq, list_eq, string_eq}
use fabricperf.Prelude.Dict.{
  Dict, IsDict, get, put, remove, has, get-remove, get-put, get-put_self, put-IsDict, value_or,
}
use fabricperf.Prelude.Text.{Text, codes}
use fabricperf.Prelude.Result.{ok}
use fabricperf.Modes.{Environ, mode_env, memory_mode}
use fabricperf.Build.{
  cupti_env, Exit, fail, MakeRun, not_found, not_started, exited, Tools, normalized_mode,
  needs_cupti, make_env, output_of, exit_of, build_plugin,
}

-- `make` ran to its end with status 0, and the output is there.
pub data IsBuilt (output : Text) : MakeRun → Type 0 where
  built : {exists : Text → Bool} → exists output ≡ true → IsBuilt output (exited (pos 0) exists)

built-exit_of :
    (output : Text) (status : ℤ) (exists : Text → Bool)
    → IsBuilt output (exited status exists)
    → (exit_of output (exited status exists)).status ≡ 0
unfolding exit_of
built-exit_of output status exists (built there) = rw there refl

has-get {ℓ κ} :
    {K : Type ℓ} {V : Type κ} ⦃e : Eq K⦄ (k : K) (d : Dict K V) → has k d ≡ false → get k d ≡ none
unfolding has get
has-get k [] h = refl
has-get k ((j, w) ∷ d) h = elim (Bool-cases (j == k)) [
  | inl same ↦ absurd (ground (arith, h, same))
  | inr other ↦ rw other (has-get k d (ground (arith, h)))
]

exited-IsBuilt :
    (output : Text) (status : ℤ) (exists : Text → Bool)
    → (exit_of output (exited status exists)).status ≡ 0
    → IsBuilt output (exited status exists)
unfolding exit_of fail
exited-IsBuilt output status exists h = elim (Bool-cases (eqb_ℤ status (pos 0))) [
  | inl zero ↦ elim (Bool-cases (exists output)) [
    | inl there ↦
        subst (λ s. IsBuilt output (exited s exists)) (sym ((eqb_ℤ_iff status (pos 0)).0 zero))
          (built there)
    | inr missing ↦
        let one : 1 ≡ 0 = rw (exit_of, zero, missing) at h in absurd (omega (arith, one))
  ]
  | inr nonzero ↦ let one : 1 ≡ 0 = rw (exit_of, nonzero) at h in absurd (omega (arith, one))
]

exit_of-IsBuilt :
    (output : Text) (run : MakeRun) → ((exit_of output run).status ≡ 0) ↔ IsBuilt output run
unfolding exit_of fail
exit_of-IsBuilt output not_found = (λ h. absurd (omega (arith, h)), λ b. elim b [ ])
exit_of-IsBuilt output (not_started reason) = (λ h. absurd (omega (arith, h)), λ b. elim b [ ])
exit_of-IsBuilt output (exited status exists) =
    (exited-IsBuilt output status exists, built-exit_of output status exists)

get-remove_self {ℓ κ} :
    {K : Type ℓ} {V : Type κ} ⦃e : Eq K⦄ (k : K) (d : Dict K V)
    → IsDict d
    → get k (remove k d) ≡ none
unfolding get remove has
get-remove_self ⦃e⦄ k [] h = refl
get-remove_self ⦃e⦄ k ((j, w) ∷ d) h = elim (Bool-cases (j == k)) [
  | inl same ↦ rw same (has-get k d (subst (λ i. has i d ≡ false) ((e.same_iff j k).0 same) h.0))
  | inr other ↦ rw other (rw other (get-remove_self k d h.1))
]

-- A build that ran: what `make` was told, and when the command's status is 0.
pub record IsBuild (tools : Tools) (environ : Environ) (plugin_dir output build_mode : Text)
    (cupti : Bool) (exit : Exit) : Type 0 where
  pub env : Environ
  pub status_iff : (exit.status ≡ 0) ↔ IsBuilt output (tools.make plugin_dir env)
  pub mode_told : get mode_env env ≡ some build_mode
  pub cupti_told : get cupti_env env ≡ (if cupti then some (codes "1") else none)
  pub others_told :
      (k : String) → (mode_env == k) ≡ false → (cupti_env == k) ≡ false → get k env ≡ get k environ

needs_cupti-value_or :
    (build_mode : Text) (cupti : Option Bool)
    → needs_cupti build_mode cupti ≡ value_or (build_mode == memory_mode) cupti
needs_cupti-value_or build_mode none = refl
needs_cupti-value_or build_mode (some cupti) = refl

make_env-mode :
    (build_mode : Text) (cupti : Bool) (environ : Environ)
    → get mode_env (make_env build_mode cupti environ) ≡ some build_mode
unfolding make_env
make_env-mode build_mode true environ =
    get-put cupti_env mode_env (codes "1") (put mode_env build_mode environ)
    ∙ get-put_self mode_env build_mode environ
make_env-mode build_mode false environ =
    get-remove cupti_env mode_env (put mode_env build_mode environ) refl
    ∙ get-put_self mode_env build_mode environ

make_env-cupti :
    (build_mode : Text) (cupti : Bool) (environ : Environ)
    → IsDict environ
    → get cupti_env (make_env build_mode cupti environ) ≡ (if cupti then some (codes "1") else none)
unfolding make_env
make_env-cupti build_mode true environ dict =
    get-put_self cupti_env (codes "1") (put mode_env build_mode environ)
make_env-cupti build_mode false environ dict =
    get-remove_self cupti_env (put mode_env build_mode environ)
      (put-IsDict mode_env build_mode environ dict)

make_env-other :
    (build_mode : Text) (cupti : Bool) (environ : Environ) (k : String)
    → (mode_env == k) ≡ false
    → (cupti_env == k) ≡ false
    → get k (make_env build_mode cupti environ) ≡ get k environ
unfolding make_env
make_env-other build_mode true environ k not_mode not_cupti =
    get-put cupti_env k (codes "1") (put mode_env build_mode environ)
    ∙ rw not_cupti (get-put mode_env k build_mode environ ∙ rw not_mode refl)
make_env-other build_mode false environ k not_mode not_cupti =
    get-remove cupti_env k (put mode_env build_mode environ) not_cupti
    ∙ get-put mode_env k build_mode environ
    ∙ rw not_mode refl

-- With a valid mode and an environment without repeated names a build returns a status, which is 0
-- exactly if `make` ends with status 0 and the output is there. `make` runs in the directory of the
-- plugin with the mode, with CUPTI as it is asked for, or else exactly in memory mode, and with all
-- other variables of the environment.
pub build_plugin_total :
    (tools : Tools) (environ : Environ) (plugin_dir : Text) (shared_object : Option Text)
    (mode build_mode : Text) (cupti : Option Bool)
    → normalized_mode mode ≡ ok build_mode
    → IsDict environ
    → (exit : Exit) × (build_plugin tools environ plugin_dir shared_object mode cupti ≡ ok exit)
      × IsBuild tools environ plugin_dir
          (output_of tools plugin_dir shared_object)
          build_mode
          (value_or (build_mode == memory_mode) cupti)
          exit
unfolding build_plugin
build_plugin_total tools environ plugin_dir shared_object mode build_mode cupti valid dict =
    let asked = value_or (build_mode == memory_mode) cupti in
    let told = make_env build_mode asked environ in
    let output = output_of tools plugin_dir shared_object in
    (
      exit_of output (tools.make plugin_dir told),
      rw (valid, needs_cupti-value_or build_mode cupti) refl,
      record {
        env = told;
        status_iff = exit_of-IsBuilt output (tools.make plugin_dir told);
        mode_told = make_env-mode build_mode asked environ;
        cupti_told = make_env-cupti build_mode asked environ dict;
        others_told = make_env-other build_mode asked environ;
      },
    )
