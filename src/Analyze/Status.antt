-- ===== src/Analyze/Status.antt =====
-- The status of `analyze.py`.
use fabricperf.Prelude.{ℕ, Bool, true, false, ◌≡◌, ◌⊎◌}
use fabricperf.Prelude.Keys.{nat_eq, list_eq}
use fabricperf.Prelude.Text.{Text, codes}
use fabricperf.Prelude.Result.{
  Result, ErrorKind, ok, raise, value_error, file_not_found_error, os_error, key_error,
  import_error,
}
use fabricperf.Modes.{Environ, latency_mode, memory_mode, throughput_mode, fabricperf_mode}

abbrev pub is_caught : ErrorKind → Bool
is_caught value_error = true
is_caught file_not_found_error = true
is_caught os_error = true
is_caught key_error = true
is_caught import_error = true
is_caught kind = false

-- The status of a run that comes to `r`: 0 if it returned, 1 for an error that is printed, and no
-- status for another error.
abbrev pub HasStatus {ℓ} : {A : Type ℓ} → Result A → Result ℕ → Type 0
HasStatus (ok a) s = s ≡ ok 0
HasStatus (raise kind message) s =
    ((is_caught kind ≡ true) × (s ≡ ok 1)) ⊎ ((is_caught kind ≡ false) × (s ≡ raise kind message))

module _ {ℓ κ μ} {A : Type ℓ} {B : Type κ} {C : Type μ} (environ : Environ) (memory : Result A)
    (throughput : Text → Result B) (latency : Result C) where
  -- Each valid mode runs its analyzer, which is the throughput analyzer with the variant `gmem`, and a
  -- status is that of the analyzer's run; an invalid mode ends the run with its error.
  pub record IsDispatch (status : Result ℕ) : Type 0 where
    pub memory_run : fabricperf_mode environ ≡ ok memory_mode → HasStatus memory status
    pub throughput_run :
        fabricperf_mode environ ≡ ok throughput_mode → HasStatus (throughput (codes "gmem")) status
    pub latency_run : fabricperf_mode environ ≡ ok latency_mode → HasStatus latency status
    pub no_mode :
        (kind : ErrorKind) (message : Text)
        → fabricperf_mode environ ≡ raise kind message
        → HasStatus {A = Text} (raise kind message) status
