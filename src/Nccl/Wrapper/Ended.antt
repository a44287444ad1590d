-- ===== src/Nccl/Wrapper/Ended.antt =====
-- How a run of the wrapper ends.
use fabricperf.Prelude.{false, Option, none, some, ◌++◌, ◌≡◌, ◌⊎◌}
use fabricperf.Prelude.Int.{ℤ, pos, eqb_ℤ}
use fabricperf.Prelude.Dict.{Dict}
use fabricperf.Prelude.Text.{Text, codes}
use fabricperf.Prelude.Result.{Result, ErrorKind, ok, raise}
use fabricperf.Nccl.Shell.{shell_probe_for, selected_devfunc_probe_config}
use fabricperf.Nccl.Toml.{Table}
use fabricperf.Nccl.Workdir.{MetadataFile, json, not_json, unusable, Workdir, log_message}
use fabricperf.Nccl.Wrapper.{Core, show_status}

-- The status in the metadata file, if it is JSON.
abbrev pub status_of : Option MetadataFile → Option Text
status_of none = none
status_of (some not_json) = none
status_of (some (unusable kind message)) = none
status_of (some (json m)) = some m.status

abbrev pub error_of : Option MetadataFile → Option Text
error_of none = none
error_of (some not_json) = none
error_of (some (unusable kind message)) = none
error_of (some (json m)) = m.error

-- The metadata of a finished run.
abbrev pub IsFinished : Workdir → Type 0
IsFinished w =
    (status_of w.metadata ≡ some (codes "assembled"))
    ⊎ (status_of w.metadata ≡ some (codes "no-target"))

-- The CUDA prober ran on the files of `start` with the shell of the loaded probe.
abbrev pub HasRun : Core → Result Table → Workdir → Workdir → ℤ → Type 0
HasRun core loaded start t status =
    (raw_probe : Table) × (active : Table) × (label : Option Text) × (shell : Table) × (loaded
      ≡ ok raw_probe)
    × (selected_devfunc_probe_config raw_probe ≡ ok (active, label))
    × (shell_probe_for active ≡ ok shell)
    × (core.run shell start ≡ (t, ok status))

-- How the run ends: with status 0 after a finished run, with status 1 and the error in the metadata,
-- with the status that the CUDA prober returned and its line in the log, if that is not 0, or with the
-- error that reading unusable old metadata raises.
pub data IsEnd (core : Core) (loaded : Result Table) (start w : Workdir) : Result ℤ → Type 0 where
  finished :
      {t : Workdir}
      → HasRun core loaded start t (pos 0)
      → IsFinished w
      → IsEnd core loaded start w (ok (pos 0))
  failed :
      {message : Text}
      → status_of w.metadata ≡ some (codes "failed")
      → error_of w.metadata ≡ some message
      → IsEnd core loaded start w (ok (pos 1))
  core_failed :
      {t : Workdir} {status : ℤ}
      → HasRun core loaded start t status
      → eqb_ℤ status (pos 0) ≡ false
      → w ≡ log_message (codes "core cuda prober failed status=" ++ show_status status) t
      → IsEnd core loaded start w (ok status)
  unusable_metadata :
      {kind : ErrorKind} {message : Text}
      → w.metadata ≡ some (unusable kind message)
      → IsEnd core loaded start w (raise kind message)

module _ (core : Core) (kernel_name : Text) (loaded : Result Table) (start : Workdir) where
  -- What a program that returns a status ensures.
  abbrev Ends : Workdir → ℤ → Type 0
  Ends t status = IsEnd core loaded start t (ok status)
