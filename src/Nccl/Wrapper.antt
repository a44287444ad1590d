-- ===== src/Nccl/Wrapper.antt =====
-- The run of the wrapper on one kernel: nccl/prober.py, `ptxas_options_from_log`,
-- `postprocess_generated_module` and `main` after its arguments.
pub mod Ended
use fabricperf.Prelude.{
  ℕ, Bool, true, false, not, ◌||◌, ◌&&◌, Option, none, some, List, [], ◌∷◌, ◌++◌, map, length, eqb,
  if◌then◌else◌,
}
use mathlib.Core.Option
use fabricperf.Prelude.Int.{ℤ, pos, eqb_ℤ, neg_part}
use fabricperf.Prelude.Keys.{nat_eq, list_eq, member}
use fabricperf.Prelude.Dict.{Dict, value_or}
use fabricperf.Prelude.Distinct.{unseen}
use fabricperf.Prelude.Text.{Text, codes, show, replace, is_digit, is_space}
use fabricperf.Prelude.Regex.{Regex, either, literal, ◌⨾◌, group, some_of, finditer, group_of}
use fabricperf.Prelude.Result.{Result, ErrorKind, ok, raise, value_error}
use fabricperf.Nccl.Toml.{Table, table_at, names}
use fabricperf.Nccl.Table.{NcclDevFuncTarget, select_target}
use fabricperf.Nccl.KernelInfo.{
  nccl_runtime_table_mapping_from_kernel_info, selected_target_func_id, sorted_items,
}
use fabricperf.Nccl.Hoist.{hoist_generated_decls}
use fabricperf.Nccl.Redirect.{redirect_direct_dispatch_to_fallback}
use fabricperf.Nccl.Fallback.{rewrite_table_fallback_to_local_dispatch}
use fabricperf.Nccl.Shell.{shell_probe_for, selected_devfunc_probe_config}
use fabricperf.Nccl.Devfunc.{CudaProber}
use fabricperf.Nccl.Instrument.{Progress, instrument_devfunc_candidates}
use fabricperf.Nccl.Workdir.{
  Details, Metadata, MetadataFile, json, not_json, unusable, Workdir, Program, done, lift, ◌▹◌,
  set_pruned, set_metadata, write_probed, append_log, log_message, write_metadata,
}

-- What the wrapper calls: the CUDA prober's functions, its section name, and the run of its program,
-- which changes the files and returns a status. Assembling a module reads its text.
pub record Core : Type 0 where
  pub prober : CudaProber
  pub section : Text
  pub prune_entry : Text → Text → Result Text
  pub rewriter : Text → Dict ℕ Text → Text × ℕ
  pub strip_source_annotations : Text → Text
  pub assemble : Text → List Text → Result {0} Unit
  pub run : Table → Program ℤ

abbrev pub ptxas_option_re : Regex
ptxas_option_re = group 0 (
    literal (codes "-maxrregcount")
    ⨾ either (literal (codes "=")) (some_of is_space)
    ⨾ some_of is_digit)

-- The options of the log, each once; there is no text if the file does not exist.
unfoldable pub ptxas_options_from_log : Option Text → List Text
unfolding finditer group_of replace unseen is_space is_digit
ptxas_options_from_log none = []
ptxas_options_from_log (some log) =
    unseen []
      (map (λ m. replace (codes " ") (codes "=") (group_of 0 m)) (finditer ptxas_option_re log))

abbrev pub show_id : Option ℕ → Text
show_id none = codes "None"
show_id (some n) = show n

abbrev pub no_details : Details
no_details = record {
  target_function = none;
  target_func_id = none;
  target_source = none;
  table_rewrites = 0;
  direct_dispatch_redirects = 0;
  probe_fallback = none;
  candidates = [];
  local_dispatch = [];
  instrumented_functions = [];
  skipped_functions = [];
}

abbrev pub metadata_of : Text → Text → Details → Metadata
metadata_of kernel_name status details = record {
  kernel_name = kernel_name;
  status = status;
  details = some details;
  previous_metadata_invalid = false;
  error = none;
}

-- The mapping of `kernel.info`, or that of the target alone if it has an id.
abbrev pub mapping_or : Dict ℕ Text → NcclDevFuncTarget → Option ℕ → Dict ℕ Text
mapping_or [] target (some function_id) = (function_id, target.function_name) ∷ []
mapping_or mapping target function_id = mapping

abbrev pub or_label : Option Text → Option Text → Option Text
or_label none label = label
or_label (some fallback_name) label = some fallback_name

abbrev pub log_fallback : Option Text → Program {0} Unit
log_fallback none = done tt
log_fallback (some name) = append_log (codes "probe fallback " ++ name)

unfoldable pub log_skipped : List (Text × Text) → Program {0} Unit
unfolding append_log
log_skipped [] = done tt
log_skipped ((function, reason) ∷ skipped) =
    append_log (codes "skip candidate " ++ function ++ codes ": " ++ reason) ▹ λ _.
    log_skipped skipped

module _ (core : Core) (kernel_name : Text) (raw_probe : Table) (label : Option Text) where
  -- The text after the dispatch is rewritten, and the numbers of redirects and rewrites.
  unfoldable pub rewrite_module : Option ℕ → Dict ℕ Text → Text → Text × ℕ × ℕ
  unfolding redirect_direct_dispatch_to_fallback rewrite_table_fallback_to_local_dispatch
      hoist_generated_decls table_at
  rewrite_module target_func_id local_mapping ptx =
      let (redirected, redirects) = redirect_direct_dispatch_to_fallback ptx target_func_id in
      let (dispatched, rewrites) =
        rewrite_table_fallback_to_local_dispatch core.rewriter redirected local_mapping in
      (
        core.strip_source_annotations
            (hoist_generated_decls (names (table_at (codes "symbol") raw_probe)) dispatched),
        redirects,
        rewrites,
      )

  abbrev pub details_of : NcclDevFuncTarget → Option ℕ → Dict ℕ Text → Progress → ℕ → ℕ → Details
  details_of target target_func_id local_mapping p redirects rewrites = record {
    target_function = some target.function_name;
    target_func_id = target_func_id;
    target_source = some target.source;
    table_rewrites = rewrites;
    direct_dispatch_redirects = redirects;
    probe_fallback = or_label p.fallback_name label;
    candidates = target.candidates;
    local_dispatch = sorted_items local_mapping;
    instrumented_functions = p.instrumented;
    skipped_functions = p.skipped;
  }

  -- `pruned.ptx`, if it exists.
  abbrev pub rewrite_pruned : Option ℕ → Dict ℕ Text → Program {0} Unit
  rewrite_pruned target_func_id local_mapping w = elim w.pruned [
    | none ↦ (w, ok tt)
    | some ptx ↦ (set_pruned (rewrite_module target_func_id local_mapping ptx).0 w, ok tt)
  ]

  abbrev pub assemble_text : Option Text → List Text → Result {0} Unit
  assemble_text none options = ok tt
  assemble_text (some ptx) options = core.assemble ptx options

  abbrev pub assemble_all : Program {0} Unit
  assemble_all w =
      let options = ptxas_options_from_log w.process_log in
      (lift (assemble_text w.probed options) ▹ λ _. lift (assemble_text w.pruned options)) w

  abbrev pub finish : Details → Program Metadata
  finish details =
      let assembled = metadata_of kernel_name (codes "assembled") details in
      assemble_all ▹ λ _. write_metadata assembled ▹ λ _. done assembled

  -- From the rewriting of the instrumented text on.
  unfoldable pub rewrite_and_assemble :
      NcclDevFuncTarget → Option ℕ → Dict ℕ Text → Progress → Program Metadata
  unfolding rewrite_module append_log log_skipped ptxas_options_from_log
  rewrite_and_assemble target target_func_id local_mapping p =
      let (ptx, redirects, rewrites) = rewrite_module target_func_id local_mapping p.ptx in
      let details = details_of target target_func_id local_mapping p redirects rewrites in
      log_fallback (or_label p.fallback_name label)
      ▹ (λ _. log_skipped p.skipped)
      ▹ (λ _. write_probed ptx)
      ▹ (λ _. write_metadata (metadata_of kernel_name (codes "instrumented") details))
      ▹ (λ _. rewrite_pruned target_func_id local_mapping)
      ▹ λ _. finish details

  unfoldable pub with_target : NcclDevFuncTarget → Text → Dict ℕ Text → Program Metadata
  unfolding selected_target_func_id append_log instrument_devfunc_candidates rewrite_and_assemble
  with_target target probed_ptx local_mapping =
      append_log
        (codes "target " ++ target.function_name ++ codes " func_id=" ++ show_id target.function_id)
      ▹ (λ _. append_log (codes "local dispatch entries=" ++ show (length local_mapping)))
      ▹ (λ _.
          lift
            (instrument_devfunc_candidates core.prober probed_ptx target local_mapping raw_probe))
      ▹ rewrite_and_assemble target (selected_target_func_id target local_mapping) local_mapping

  abbrev pub select_and_rewrite : Text → Option NcclDevFuncTarget → Program Metadata
  select_and_rewrite probed_ptx none =
      let metadata = metadata_of kernel_name (codes "no-target") no_details in
      write_metadata metadata
      ▹ (λ _. append_log (codes "no matching local NCCL devFunc target"))
      ▹ λ _. done metadata
  select_and_rewrite probed_ptx (some target) = λ w.
      with_target target probed_ptx
        (mapping_or (nccl_runtime_table_mapping_from_kernel_info core.section w.kernel_info) target
          target.function_id)
        w

  abbrev pub postprocess_text : Option Text → Program Metadata
  postprocess_text none = lift (raise value_error (codes "probed.ptx not found"))
  postprocess_text (some probed_ptx) = lift (core.prune_entry probed_ptx kernel_name) ▹ λ entry_ptx.
      select_and_rewrite probed_ptx (select_target kernel_name probed_ptx entry_ptx)

  unfoldable pub postprocess_generated_module : Program Metadata
  unfolding select_target nccl_runtime_table_mapping_from_kernel_info with_target append_log
  postprocess_generated_module w = postprocess_text w.probed w

-- The metadata of a failure, with what a readable file held before.
abbrev pub failed_metadata : Text → Text → Option MetadataFile → Result Metadata
failed_metadata kernel_name message none = ok (record {
  kernel_name = kernel_name;
  status = codes "failed";
  details = none;
  previous_metadata_invalid = false;
  error = some message;
})
failed_metadata kernel_name message (some not_json) = ok (record {
  kernel_name = kernel_name;
  status = codes "failed";
  details = none;
  previous_metadata_invalid = true;
  error = some message;
})
failed_metadata kernel_name message (some (json m)) = ok (record {
  kernel_name = m.kernel_name;
  status = codes "failed";
  details = m.details;
  previous_metadata_invalid = m.previous_metadata_invalid;
  error = some message;
})
failed_metadata kernel_name message (some (unusable kind error)) = raise kind error

abbrev pub failed_with : Text → Metadata → Program ℤ
failed_with message metadata =
    write_metadata metadata ▹ (λ _. append_log (codes "failed: " ++ message)) ▹ λ _. done (pos 1)

-- `except Exception`: an error ends with status 1, or with the error of the old metadata.
abbrev pub handle : Text → Workdir × Result ℤ → Workdir × Result ℤ
handle kernel_name (w, ok status) = (w, ok status)
handle kernel_name (w, raise kind message) =
    (lift (failed_metadata kernel_name message w.metadata) ▹ failed_with message) w

abbrev pub show_status : ℤ → Text
show_status (pos n) = show n
show_status n = codes "-" ++ show (neg_part n)

module _ (core : Core) (kernel_name : Text) where
  abbrev pub after_core : Table → Option Text → ℤ → Program ℤ
  after_core active_probe label status =
      if eqb_ℤ status (pos 0)
      then postprocess_generated_module core kernel_name active_probe label ▹ (λ _. done (pos 0))
      else append_log (codes "core cuda prober failed status=" ++ show_status status)
        ▹ (λ _. done status)

  abbrev pub after_selecting : Table × Option Text → Program ℤ
  after_selecting (active_probe, label) =
      lift (shell_probe_for active_probe) ▹ core.run ▹ after_core active_probe label

  -- The body of the `try`.
  abbrev pub run_loaded : Result Table → Program ℤ
  run_loaded loaded =
      lift loaded ▹ (λ raw_probe. lift (selected_devfunc_probe_config raw_probe)) ▹ after_selecting

  -- `loaded` is what `load_probe_toml` returns.
  unfoldable pub main : Result Table → Program ℤ
  unfolding selected_devfunc_probe_config shell_probe_for postprocess_generated_module append_log
  main loaded w = handle kernel_name (run_loaded loaded w)
