-- ===== src/Analyze.antt =====
-- The dispatch of the analyzers, analyze.py, `main` after its arguments.
pub mod Status
use fabricperf.Prelude.{ℕ, ◌||◌, if◌then◌else◌}
use fabricperf.Prelude.Keys.{◌==◌, nat_eq, list_eq}
use fabricperf.Prelude.Text.{Text}
use fabricperf.Prelude.Result.{
  Result, ErrorKind, ok, raise, value_error, file_not_found_error, os_error, key_error,
  import_error, ◌>>=◌,
}
use fabricperf.Modes.{
  Environ, latency_mode, memory_mode, throughput_mode, fabricperf_mode, throughput_variant,
}

-- What an analyzer returns after its output: 0.
abbrev pub returned {ℓ} : {A : Type ℓ} → Result A → Result ℕ
returned r = r >>= λ output. ok 0

-- The errors that are printed end with status 1.
abbrev pub printed : Result ℕ → Result ℕ
printed (ok status) = ok status
printed (raise value_error message) = ok 1
printed (raise file_not_found_error message) = ok 1
printed (raise os_error message) = ok 1
printed (raise key_error message) = ok 1
printed (raise import_error message) = ok 1
printed (raise kind message) = raise kind message

-- The analyzers are given by what they return for the trace roots.
abbrev pub selected {ℓ κ μ} :
    {A : Type ℓ} {B : Type κ} {C : Type μ}
    → Environ
    → Result A
    → (Text → Result B)
    → Result C
    → Text
    → Result ℕ
selected environ memory throughput latency mode =
    if mode == memory_mode
    then returned memory
    else if mode == throughput_mode
    then returned (throughput_variant environ >>= throughput)
    else returned latency

unfoldable pub main {ℓ κ μ} :
    {A : Type ℓ} {B : Type κ} {C : Type μ}
    → Environ
    → Result A
    → (Text → Result B)
    → Result C
    → Result ℕ
unfolding fabricperf_mode throughput_variant
main environ memory throughput latency =
    printed (fabricperf_mode environ >>= selected environ memory throughput latency)
