-- ===== src/Examples/Nccl.antt =====
-- The NCCL theorems at concrete inputs.
use fabricperf.Prelude.{
  ℕ, false, Option, none, some, List, [], ◌∷◌, ◌++◌, ◌+◌, map, drop, ◌≡◌, refl, subst, ◌↔◌, ◌≤◌,
  arith,
}
use mathlib.Core.Option
use fabricperf.Prelude.Int.{ℤ, pos}
use fabricperf.Prelude.Keys.{nat_eq}
use fabricperf.Prelude.Dict.{Dict}
use fabricperf.Prelude.Distinct.{IsOnly}
use fabricperf.Prelude.Text.{Text, codes, strip, show, find_text}
use fabricperf.Prelude.Lines.{splitlines, splitlines_keepends}
use fabricperf.Prelude.Result.{Result, ok, raise, value_error, ok_injective}
use fabricperf.Nccl.Table.{
  NcclDevFuncTarget, is_nonzero, immediates, infer_single_func_id, local_devfuncs,
  kernel_descriptor, devfunc_descriptor, select_target,
}
use fabricperf.Nccl.Table.Selection.{IsTarget, select_target-IsTarget, infer_single_func_id-IsOnly}
use fabricperf.Nccl.KernelInfo.{nccl_runtime_table_mapping_from_kernel_info}
use fabricperf.Nccl.KernelInfo.Bounds.{
  IsDeclaredTable, declared_count, nccl_runtime_table_mapping-IsDeclaredTable,
}
use fabricperf.Nccl.KernelInfo.Printed.{table_lines, nccl_runtime_table_mapping-table_lines}
use fabricperf.Nccl.Hoist.{hoist_generated_decls}
use fabricperf.Nccl.Hoist.Order.{IsHoisted, hoist_generated_decls-IsHoisted}
use fabricperf.Nccl.Fallback.{rewrite_table_fallback_to_direct_call}
use fabricperf.Nccl.Fallback.Calls.{IsRewriting, rewrite_table_fallback_to_direct_call_total}
use fabricperf.Nccl.Redirect.{redirect_direct_dispatch_to_fallback}
use fabricperf.Nccl.Toml.{Value, int, table, Table, empty, entry, item, one_entry}
use fabricperf.Nccl.Shell.{is_true, int_value, value_or_int, shell_probe_for, receive_load}
use fabricperf.Nccl.Shell.Contract.{IsShell, shell_probe_for_total}
use fabricperf.Nccl.Expand.{count_ptx_op, expand_latency_local_devfunc_probe}
use fabricperf.Nccl.Expand.Hooks.{IsExpanded, expand_latency_local-IsExpanded}
use fabricperf.Nccl.Devfunc.{CudaProber}
use fabricperf.Nccl.Workdir.{Workdir, ◌▹◌}
use fabricperf.Nccl.Wrapper.{Core, main}
use fabricperf.Nccl.Wrapper.Ended.{status_of}
use fabricperf.Nccl.Instrument.{
  Progress, instrument_selected_devfunc, instrument_devfunc_candidates,
}
use fabricperf.Nccl.Instrument.Outside.{IsInstrumented, instrument_selected_devfunc-IsInstrumented}
use fabricperf.Nccl.Instrument.Candidates.{IsOutcome, instrument_devfunc_candidates-IsOutcome}

abbrev line : Text → Text
line s = s ++ 10 ∷ []

abbrev module_text : Text
module_text =
    line (codes ".visible .func _Z29ncclDevFunc_Broadcast_RING_LLv()")
    ++ line (codes "{ }")
    ++ line (codes "  .visible .func _Z20ncclDevFunc_SendRecvv()")
    ++ codes "{ }"

abbrev wrapper_text : Text
wrapper_text = line (codes " setp.eq.s16 %p1, %rs2, 669;") ++ codes "setp.eq.s16 %p3, %rs2, 0;"

two_functions :
    local_devfuncs module_text
    ≡ codes "_Z29ncclDevFunc_Broadcast_RING_LLv" ∷ codes "_Z20ncclDevFunc_SendRecvv" ∷ []
unfolding local_devfuncs
two_functions = refl

one_immediate : infer_single_func_id wrapper_text ≡ some 669
unfolding infer_single_func_id
one_immediate = refl

broadcast_descriptor :
    kernel_descriptor (codes "_Z31ncclDevKernel_Broadcast_RING_LL24ncclDevKernelArgsStorage")
    ≡ some (codes "Broadcast_RING_LL")
unfolding kernel_descriptor
broadcast_descriptor = refl

function_descriptor :
    devfunc_descriptor (codes "_Z29ncclDevFunc_Broadcast_RING_LLv")
    ≡ some (codes "Broadcast_RING_LL")
unfolding devfunc_descriptor
function_descriptor = refl

abbrev send_recv : NcclDevFuncTarget
send_recv = record {
  kernel_name = codes "ncclDevKernel_SendRecv";
  function_name = codes "_Z20ncclDevFunc_SendRecvv";
  function_id = some 669;
  source = codes "kernel-descriptor-match";
  candidates = codes "_Z29ncclDevFunc_Broadcast_RING_LLv" ∷ codes "_Z20ncclDevFunc_SendRecvv" ∷ [];
}

select_target-IsTarget_example :
    (select_target (codes "ncclDevKernel_SendRecv") module_text wrapper_text ≡ some send_recv)
    ↔ IsTarget (codes "ncclDevKernel_SendRecv") module_text wrapper_text send_recv
select_target-IsTarget_example =
    select_target-IsTarget (codes "ncclDevKernel_SendRecv") module_text wrapper_text send_recv

selects_send_recv :
    select_target (codes "ncclDevKernel_SendRecv") module_text wrapper_text ≡ some send_recv
unfolding select_target
selects_send_recv = refl

infer_single_func_id-IsOnly_example :
    (infer_single_func_id wrapper_text ≡ some 669) ↔ IsOnly is_nonzero (immediates wrapper_text) 669
infer_single_func_id-IsOnly_example = infer_single_func_id-IsOnly wrapper_text 669

abbrev section_name : Text
section_name = codes "NCCL_TABLE"

abbrev info_text : Text
info_text =
    line (codes "kernel")
    ++ line section_name
    ++ line (codes "x")
    ++ line (codes "ncclDevFuncTable")
    ++ line (codes "y")
    ++ line (codes "z")
    ++ line (codes "4")
    ++ line (codes "2")
    ++ line (codes "0,f")
    ++ line (codes " 3,g ")

abbrev two_entries : Dict ℕ Text
two_entries = (0, codes "f") ∷ (3, codes "g") ∷ []

reads_two_entries :
    nccl_runtime_table_mapping_from_kernel_info section_name (some info_text) ≡ two_entries
unfolding nccl_runtime_table_mapping_from_kernel_info
reads_two_entries = refl

nccl_runtime_table_mapping-IsDeclaredTable_example :
    IsDeclaredTable
      (declared_count section_name (some info_text))
      (nccl_runtime_table_mapping_from_kernel_info section_name (some info_text))
nccl_runtime_table_mapping-IsDeclaredTable_example =
    nccl_runtime_table_mapping-IsDeclaredTable section_name (some info_text)

info_lines :
    map strip (splitlines info_text)
    ≡ (codes "kernel" ∷ [])
      ++ (section_name ∷ (table_lines (codes "x") (codes "y") (codes "z") 4 two_entries ++ []))
unfolding strip splitlines show
info_lines = refl

nccl_runtime_table_mapping-table_lines_example :
    nccl_runtime_table_mapping_from_kernel_info section_name (some info_text) ≡ two_entries
nccl_runtime_table_mapping-table_lines_example =
    nccl_runtime_table_mapping-table_lines section_name (codes "x") (codes "y") (codes "z")
      info_text (codes "kernel" ∷ []) [] 4 two_entries (refl, refl, refl, (refl, refl, refl, tt))
      refl info_lines

abbrev late_declaration : Text
late_declaration =
    line (codes ".version 8")
    ++ line (codes ".visible .entry k()")
    ++ line (codes "{ }")
    ++ line (codes ".global .u64 __neutrino_map_ptr_0;")
    ++ line (codes ".const .u32 rank;")

hoists_two :
    hoist_generated_decls (codes "rank" ∷ []) late_declaration
    ≡ line (codes ".version 8")
      ++ line (codes ".global .u64 __neutrino_map_ptr_0;")
      ++ line (codes ".const .u32 rank;")
      ++ line []
      ++ line (codes ".visible .entry k()")
      ++ line (codes "{ }")
unfolding hoist_generated_decls
hoists_two = refl

hoist_generated_decls-IsHoisted_example :
    IsHoisted
      (codes "rank" ∷ [])
      (splitlines_keepends late_declaration)
      (hoist_generated_decls (codes "rank" ∷ []) late_declaration)
hoist_generated_decls-IsHoisted_example =
    hoist_generated_decls-IsHoisted (codes "rank" ∷ []) late_declaration

abbrev table_call_text : Text
table_call_text =
    line (codes "cvt.u32.u16 %r1, %rs2;")
    ++ line (codes "mul.wide.u32 %rd1, %r1, 8;")
    ++ line (codes "mov.u64 %rd2, ncclDevFuncTable;")
    ++ line (codes "add.s64 %rd3, %rd2, %rd1;")
    ++ line (codes "ld.global.u64 %rd4, [%rd3];")
    ++ line (codes "{")
    ++ line (codes "call")
    ++ line (codes "%rd4,")
    ++ line (codes "}")
    ++ line (codes "ret;")

replaces_one :
    Option.map
      (λ r. r.1)
      (rewrite_table_fallback_to_direct_call table_call_text (some 669) (codes "f"))
    ≡ some 1
unfolding rewrite_table_fallback_to_direct_call
replaces_one = refl

rewrite_table_fallback_to_direct_call_total_example :
    (out : Text) × (k : ℕ) × (rewrite_table_fallback_to_direct_call table_call_text
        (some 669)
        (codes "f")
      ≡ some (out, k))
    × IsRewriting 669 (codes "f") table_call_text out k
rewrite_table_fallback_to_direct_call_total_example =
    rewrite_table_fallback_to_direct_call_total table_call_text 669 (codes "f")

abbrev dispatch_text : Text
dispatch_text =
    line (codes "setp.eq.s16 %p1, %rs2, 669;")
    ++ line (codes "@%p1 bra $L1;")
    ++ line (codes "bra.uni $L2;")

redirects_one : redirect_direct_dispatch_to_fallback dispatch_text (some 669) ≡ (
  line (codes "setp.eq.s16 %p1, %rs2, 669;")
      ++ line (codes "// OLD: @%p1 bra $L1;")
      ++ line (codes "@%p1 bra $L2;")
      ++ line (codes "bra.uni $L2;"),
  1,
)
unfolding redirect_direct_dispatch_to_fallback
redirects_one = refl

abbrev one_map : Value
one_map = table (one_entry (codes "sr_latency") (table empty))

abbrev small_probe : Table
small_probe = entry (codes "regs") (int (pos 0)) (
    entry (codes "map") one_map
      (one_entry (codes "probe") (table (one_entry (codes "recv_latency") (table empty)))))

static_probe : is_true (item (codes "dynamic") small_probe) ≡ false
unfolding item
static_probe = refl

map_of_probe : item (codes "map") small_probe ≡ some one_map
unfolding item
map_of_probe = refl

regs_of_probe : int_value (value_or_int (pos 1) (item (codes "regs") small_probe)) ≡ ok (pos 0)
unfolding item int_value
regs_of_probe = refl

shell_probe_for_total_example :
    (shell : Table) × (shell_probe_for small_probe ≡ ok shell) × IsShell small_probe shell
shell_probe_for_total_example =
    shell_probe_for_total small_probe one_map (pos 0) static_probe map_of_probe regs_of_probe

abbrev loads_text : Text
loads_text =
    line (codes " ld.volatile.global.v2.b64 {%rd1, %rd2}, [%rd3];")
    ++ line (codes "@%p1 ld.volatile.global.v2.b64 {%rd1, %rd2}, [%rd3];")

two_loads : count_ptx_op loads_text receive_load ≡ 2
unfolding count_ptx_op
two_loads = refl

expand_latency_local-IsExpanded_example :
    IsExpanded
      (count_ptx_op loads_text receive_load)
      small_probe
      (expand_latency_local_devfunc_probe loads_text small_probe)
expand_latency_local-IsExpanded_example = expand_latency_local-IsExpanded loads_text small_probe

abbrev small_throughput : Table
small_throughput = one_entry (codes "probe") (table empty)

abbrev first_close : ℕ → Option ℕ → Result ℕ
first_close i none = raise value_error (codes "no brace")
first_close i (some n) = ok (i + n + 1)

abbrev instrumented_of : Result Progress → Option (List Text)
instrumented_of (ok p) = some p.instrumented
instrumented_of (raise kind message) = none

-- A prober that leaves the text as it is, and finds the first closing brace.
abbrev plain_prober : CudaProber
plain_prober = record {
  probing = λ t probe. ok t;
  find_matching_brace = λ t i. first_close i (find_text (codes "}") (drop i t));
}

instruments_send_recv :
    instrumented_of
      (instrument_devfunc_candidates plain_prober module_text send_recv [] small_throughput)
    ≡ some (codes "_Z20ncclDevFunc_SendRecvv" ∷ [])
unfolding instrument_devfunc_candidates find_text
instruments_send_recv = refl

instrument_devfunc_candidates-IsOutcome_example :
    IsOutcome plain_prober module_text send_recv [] small_throughput
      (instrument_devfunc_candidates plain_prober module_text send_recv [] small_throughput)
instrument_devfunc_candidates-IsOutcome_example =
    instrument_devfunc_candidates-IsOutcome plain_prober module_text send_recv [] small_throughput

first_close_behind :
    (i close : ℕ) (found : Option ℕ) → first_close i found ≡ ok close → i + 1 ≤ close
first_close_behind i close none e = absurd (cc)
first_close_behind i close (some n) e = subst (λ c. i + 1 ≤ c) (ok_injective e) (omega arith)

-- The probed body between the same header and the same end.
abbrev instrumented_text : Text
instrumented_text =
    line (codes ".visible .func _Z29ncclDevFunc_Broadcast_RING_LLv()")
    ++ line (codes "{ }")
    ++ line (codes "  .visible .func _Z20ncclDevFunc_SendRecvv()")
    ++ line (line (line (line (codes "{")) ++ codes " "))
    ++ codes "}"

instruments_one :
    instrument_selected_devfunc plain_prober module_text
      (codes "_Z20ncclDevFunc_SendRecvv")
      small_throughput
    ≡ ok (instrumented_text, none)
unfolding instrument_selected_devfunc find_text
instruments_one = refl

instrument_selected_devfunc-IsInstrumented_example :
    IsInstrumented plain_prober module_text
      (codes "_Z20ncclDevFunc_SendRecvv")
      small_throughput
      (instrumented_text, none)
instrument_selected_devfunc-IsInstrumented_example =
    instrument_selected_devfunc-IsInstrumented plain_prober
      (λ ptx i close. first_close_behind i close (find_text (codes "}") (drop i ptx))) module_text
      (codes "_Z20ncclDevFunc_SendRecvv") small_throughput (instrumented_text, none) instruments_one

-- A core that does nothing to the files and assembles everything.
abbrev plain_core : Core
plain_core = record {
  prober = plain_prober;
  section = section_name;
  prune_entry = λ ptx kernel. ok wrapper_text;
  rewriter = λ ptx mapping. (ptx, 1);
  strip_source_annotations = λ ptx. ptx;
  assemble = λ ptx options. ok tt;
  run = λ shell w. (w, ok (pos 0));
}

abbrev memory_probe : Table
memory_probe =
    entry (codes "map") (table (one_entry (codes "fabricperf_probe_bytes") (table empty)))
      (one_entry (codes "probe") (table empty))

abbrev kernel_files : Workdir
kernel_files = record {
  probed = some module_text;
  pruned = none;
  kernel_info = none;
  process_log = none;
  metadata = none;
}

abbrev end_of_run : Workdir × Result ℤ
end_of_run = main plain_core (codes "ncclDevKernel_SendRecv") (ok memory_probe) kernel_files

ends_assembled : status_of end_of_run.0.metadata ≡ some (codes "assembled")
unfolding main ◌▹◌ find_text
ends_assembled = refl

ends_with_zero : end_of_run.1 ≡ ok (pos 0)
unfolding main ◌▹◌ find_text
ends_with_zero = refl
