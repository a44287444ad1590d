-- ===== src/Nccl/Workdir.antt =====
-- The files of a generated kernel that the wrapper reads and writes, and programs on them: nccl/prober.py,
-- `append_log` and the metadata of `postprocess_generated_module`. Writing a file succeeds.
use fabricperf.Prelude.{ℕ, Bool, Option, some, List, [], ◌∷◌, ◌++◌}
use fabricperf.Prelude.Dict.{Dict, value_or}
use fabricperf.Prelude.Text.{Text, codes}
use fabricperf.Prelude.Result.{Result, ErrorKind, ok, raise}

-- What is known of a target and its instrumentation.
pub record Details : Type 0 where
  pub target_function : Option Text
  pub target_func_id : Option ℕ
  pub target_source : Option Text
  pub table_rewrites : ℕ
  pub direct_dispatch_redirects : ℕ
  pub probe_fallback : Option Text
  pub candidates : List Text
  pub local_dispatch : Dict ℕ Text
  pub instrumented_functions : List Text
  pub skipped_functions : List (Text × Text)

-- `fabricperf_nccl_devfunc.json`, where it is a JSON object that the wrapper wrote.
pub record Metadata : Type 0 where
  pub kernel_name : Text
  pub status : Text
  pub details : Option Details
  pub previous_metadata_invalid : Bool
  pub error : Option Text

-- A file that is not JSON, or one that reading it or updating a dictionary with its value raises an
-- error for, such as JSON that is not an object.
pub data MetadataFile : Type 0 where
  json : Metadata → MetadataFile
  not_json : MetadataFile
  unusable : ErrorKind → Text → MetadataFile

pub record Workdir : Type 0 where
  pub probed : Option Text
  pub pruned : Option Text
  pub kernel_info : Option Text
  pub process_log : Option Text
  pub metadata : Option MetadataFile

-- A program changes the files, and returns or raises.
abbrev pub Program {ℓ} : Type ℓ → Type ℓ
Program A = Workdir → Workdir × Result A

abbrev pub done {ℓ} : {A : Type ℓ} → A → Program A
done a w = (w, ok a)

-- What cannot change the files.
abbrev pub lift {ℓ} : {A : Type ℓ} → Result A → Program A
lift r w = (w, r)

abbrev pub continue {ℓ κ} :
    {A : Type ℓ} {B : Type κ} → Workdir × Result A → (A → Program B) → Workdir × Result B
continue (w, ok a) next = next a w
continue (w, raise kind message) next = (w, raise kind message)

infixl 5 ◌▹◌
unfoldable pub ◌▹◌ {ℓ κ} : {A : Type ℓ} {B : Type κ} → Program A → (A → Program B) → Program B
(first ▹ next) w = continue (first w) next

abbrev pub set_probed : Text → Workdir → Workdir
set_probed ptx w = record {
  probed = some ptx;
  pruned = w.pruned;
  kernel_info = w.kernel_info;
  process_log = w.process_log;
  metadata = w.metadata;
}

abbrev pub set_pruned : Text → Workdir → Workdir
set_pruned ptx w = record {
  probed = w.probed;
  pruned = some ptx;
  kernel_info = w.kernel_info;
  process_log = w.process_log;
  metadata = w.metadata;
}

abbrev pub set_metadata : Metadata → Workdir → Workdir
set_metadata m w = record {
  probed = w.probed;
  pruned = w.pruned;
  kernel_info = w.kernel_info;
  process_log = w.process_log;
  metadata = some (json m);
}

abbrev pub with_line : Text → Option Text → Option Text
with_line message log =
    some (value_or [] log ++ codes "[fabricperf-devfunc] " ++ message ++ (10 ∷ []))

unfoldable pub log_message : Text → Workdir → Workdir
log_message message w = record {
  probed = w.probed;
  pruned = w.pruned;
  kernel_info = w.kernel_info;
  process_log = with_line message w.process_log;
  metadata = w.metadata;
}

unfoldable pub append_log : Text → Program {0} Unit
unfolding log_message
append_log message w = (log_message message w, ok tt)

abbrev pub write_metadata : Metadata → Program {0} Unit
write_metadata m w = (set_metadata m w, ok tt)

abbrev pub write_probed : Text → Program {0} Unit
write_probed ptx w = (set_probed ptx w, ok tt)

-- Whenever the program returns, what it returns and the files have `P`.
abbrev pub Ensures {ℓ κ} : {A : Type ℓ} → (Workdir → A → Type κ) → Workdir × Result A → Type κ
Ensures P (w, ok a) = P w a
Ensures P (w, raise kind message) = Unit

Ensures-continue {ℓ κ μ} :
    {A : Type ℓ} {B : Type κ} (P : Workdir → B → Type μ) (first : Workdir × Result A)
    (next : A → Program B)
    → ((a : A) (w : Workdir) → Ensures P (next a w))
    → Ensures P (continue first next)
Ensures-continue P (w, ok a) next h = h a w
Ensures-continue P (w, raise kind message) next h = tt

-- What the second program ensures from any files, the sequence ensures.
pub then-Ensures {ℓ κ μ} :
    {A : Type ℓ} {B : Type κ} (P : Workdir → B → Type μ) (first : Program A) (next : A → Program B)
    (w : Workdir)
    → ((a : A) (t : Workdir) → Ensures P (next a t))
    → Ensures P ((first ▹ next) w)
unfolding ◌▹◌
then-Ensures P first next w h = Ensures-continue P (first w) next h
