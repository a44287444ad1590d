-- ===== src/Cli/Accepted.antt =====
-- The environment that cli.py configures is one that the analyzers of analysis/common.py accept.
use fabricperf.Prelude.{
  ◌≡◌, refl, sym, ◌∙◌, ap, Bool, true, false, some, ◌⊎◌, inl, inr, Bool-cases, if◌then◌else◌,
}
use mathlib.Core.Path.{subst}
use mathlib.Core.Bool.{false≢true}
use fabricperf.Prelude.Keys.{◌==◌, nat_eq, list_eq, string_eq}
use fabricperf.Prelude.Dict.{get, put, remove, get-put, get-put_self, get-remove, value_or}
use fabricperf.Prelude.Text.{Text, codes, strip, lower, parse_int}
use fabricperf.Prelude.Result.{ok, raise, ErrorKind, bind-ok, ok_injective}
use fabricperf.Modes.{
  Environ, mode_env, partitions_env, latency_mode, memory_mode, throughput_mode, fabricperf_mode,
  is_valid_mode, throughput_partitions,
}
use fabricperf.Cli.{configure_env, requested_partitions, with_partitions}

pub valid_cases :
    (mode : Text)
    → is_valid_mode mode ≡ true
    → (mode ≡ latency_mode) ⊎ ((mode ≡ memory_mode) ⊎ (mode ≡ throughput_mode))
unfolding is_valid_mode
valid_cases mode h = elim (Bool-cases (mode == latency_mode)) [
  | inl p ↦ inl ((list_eq.same_iff mode latency_mode).0 p)
  | inr p ↦ elim (Bool-cases (mode == memory_mode)) [
    | inl q ↦ inr (inl ((list_eq.same_iff mode memory_mode).0 q))
    | inr q ↦ elim (Bool-cases (mode == throughput_mode)) [
      | inl r ↦ inr (inr ((list_eq.same_iff mode throughput_mode).0 r))
      | inr r ↦ absurd (false≢true (sym (rw (p, q, r) refl) ∙ h))
    ]
  ]
]

-- A valid mode is read back from an environment that has it.
mode_of_valid :
    (env : Environ) (mode : Text)
    → is_valid_mode mode ≡ true
    → get mode_env env ≡ some mode
    → fabricperf_mode env ≡ ok mode
unfolding fabricperf_mode is_valid_mode lower strip
mode_of_valid env mode h g = elim (valid_cases mode h) [
  | inl p ↦ rw (g, p) refl
  | inr (inl p) ↦ rw (g, p) refl
  | inr (inr p) ↦ rw (g, p) refl
]

kept :
    (test : Bool) (mode : Text) (m : Text) (kind : ErrorKind) {a : Text}
    → (if test then ok a else raise kind m) ≡ ok mode
    → (test ≡ true) × (a ≡ mode)
kept true mode m kind h = (refl, ok_injective h)
kept false mode m kind h = absurd (cc)

pub mode_valid :
    (env : Environ) (mode : Text) → fabricperf_mode env ≡ ok mode → is_valid_mode mode ≡ true
unfolding fabricperf_mode
mode_valid env mode h =
    let (valid, same) =
      kept (is_valid_mode (lower (strip (value_or latency_mode (get mode_env env))))) mode _ _ h in
    subst (λ m. is_valid_mode m ≡ true) same valid

partitions_four : (env : Environ) (p : Text) → requested_partitions env ≡ ok p → p ≡ codes "4"
unfolding requested_partitions
partitions_four env p h =
    let raw = strip (value_or (codes "4") (get partitions_env env)) in
    let (four, same) = kept (raw == codes "4") p _ _ h in
    sym same ∙ (list_eq.same_iff raw (codes "4")).0 four

four_read :
    (env : Environ) → get partitions_env env ≡ some (codes "4") → throughput_partitions env ≡ ok 4
unfolding throughput_partitions parse_int
four_read env g = rw g refl

mode_read :
    (env : Environ) (mode : Text)
    → fabricperf_mode env ≡ ok mode
    → (env' : Environ) → get mode_env env' ≡ some mode
    → fabricperf_mode env' ≡ ok mode
mode_read env mode h env' g = mode_of_valid env' mode (mode_valid env mode h) g

-- What the launcher configures, the analyzer reads back: from the configured environment the analyzer
-- gets the mode that the launcher read, and in throughput mode it accepts the partitions as 4.
pub configure_env_accepted :
    (env env' : Environ)
    → configure_env env ≡ ok env'
    → (mode : Text) × (fabricperf_mode env ≡ ok mode)
      × (fabricperf_mode env' ≡ ok mode)
      × (mode ≡ throughput_mode → throughput_partitions env' ≡ ok 4)
unfolding configure_env
configure_env_accepted env env' h =
    let (mode, m, rest) = bind-ok (fabricperf_mode env) _ h in
    let named = put mode_env mode env in
    elim (Bool-cases (mode == throughput_mode)) [
      | inl yes_mode ↦
          let (p, found, done) =
            bind-ok (requested_partitions named) (λ p. ok (put partitions_env p named))
              (ap (λ b. if b then with_partitions named else ok (remove partitions_env named))
                  (sym yes_mode)
                ∙ rest) in
          let four = partitions_four named p found in
          let same = ok_injective done in
          (
            mode,
            m,
            mode_read env mode m env' (rw⁻¹ same (rw (get-put, get-put_self) refl)),
            λ _. four_read env' (rw⁻¹ same (rw (get-put_self, four) refl)),
          )
      | inr other ↦
          let same = ok_injective (
            ap (λ b. if b then with_partitions named else ok (remove partitions_env named))
              (sym other)
            ∙ rest) in
          (
            mode,
            m,
            mode_read env mode m env'
                (rw⁻¹ same (rw (get-remove partitions_env mode_env named refl, get-put_self) refl)),
            λ p. absurd (false≢true (sym other ∙ (list_eq.same_iff mode throughput_mode).1 p)),
          )
    ]
