-- ===== src/Nccl/Shell.antt =====
-- The probe configurations of the wrapper: nccl/prober.py, from `shell_probe_for` to
-- `selected_devfunc_probe_config`, `map_symbol_index` and `rewrite_legacy_latency_param_load`.
pub mod Contract
use fabricperf.Prelude.{
  ℕ, suc, Bool, true, false, not, ◌||◌, ◌&&◌, Option, none, some, List, [], ◌∷◌, ◌++◌, eqb, ◌+◌,
  max, if◌then◌else◌,
}
use mathlib.Core.Option
use fabricperf.Prelude.Int.{ℤ, pos, negsuc}
use fabricperf.Prelude.Keys.{nat_eq, list_eq, ◌==◌, member}
use fabricperf.Prelude.Text.{
  Text, codes, contains_text, show, is_digit, is_space, join, replace, parse_int,
}
use fabricperf.Prelude.Regex.{
  Regex, many, one, literal, either, ◌⨾◌, group, some_of, text_start, Match, group_of, sub_once,
}
use fabricperf.Prelude.Result.{Result, ok, raise, value_error, type_error, ◌>>=◌}
use fabricperf.Nccl.Toml.{
  Value, text, int, flag, texts, table, Table, empty, entry, item, has_item, set_item, names,
  as_table, table_at, one_entry,
}
use fabricperf.Nccl.KernelInfo.{index_of}

-- The lines of a snippet.
abbrev pub snippet_of : List Text → Text
snippet_of = join 10

abbrev pub latency_recv_probe : Text
latency_recv_probe = codes "recv_latency"

abbrev pub latency_map_name : Text
latency_map_name = codes "sr_latency"

abbrev pub latency_local_epoch_probe : Text
latency_local_epoch_probe = codes "fabricperf_latency_local_epoch"

-- `map_names.index(map_name)`, with its error.
abbrev pub index_in : Text → Option ℕ → Result ℕ
index_in map_name none = raise value_error (codes "FabricPerf probe is missing map " ++ map_name)
index_in map_name (some i) = ok i

unfoldable pub map_symbol_index : Table → Text → Result ℕ
unfolding index_of table_at
map_symbol_index raw_probe map_name =
    index_in map_name (index_of map_name (names (table_at (codes "map") raw_probe)))

abbrev pub legacy_load_re : Regex
legacy_load_re =
    group 0 (either (literal (10 ∷ [])) text_start)
    ⨾ many is_space
    ⨾ literal (codes "ld.param.u64")
    ⨾ some_of is_space
    ⨾ literal (codes "%ptp_rd76,")
    ⨾ some_of is_space
    ⨾ literal (codes "[param_ptp_metrics];" ++ (10 ∷ []))
    ⨾ many is_space
    ⨾ literal (codes "cvta.to.global.u64")
    ⨾ some_of is_space
    ⨾ literal (codes "%ptp_rd76,")
    ⨾ some_of is_space
    ⨾ literal (codes "%ptp_rd76;")

abbrev pub legacy_load : ℕ → Match → Text
legacy_load map_index m =
    group_of 0 m
    ++ codes "    ld.global.u64 %ptp_rd76, [__neutrino_map_ptr_"
    ++ show map_index
    ++ codes "];"

abbrev pub load_map : Text → Option ℕ → Text
load_map function_body none = function_body
load_map function_body (some map_index) =
    (sub_once legacy_load_re (legacy_load map_index) function_body).0

unfoldable pub rewrite_legacy_latency_param_load : Text → Table → Text
unfolding contains_text index_of table_at sub_once group_of show is_space
rewrite_legacy_latency_param_load function_body raw_probe =
    if not (contains_text (codes "param_ptp_metrics") function_body)
    then function_body
    else load_map function_body
        (index_of (codes "ptp_metrics") (names (table_at (codes "map") raw_probe)))

unfoldable pub is_latency_probe : Table → Bool
unfolding has_item table_at
is_latency_probe raw_probe =
    has_item latency_recv_probe (table_at (codes "probe") raw_probe)
    && has_item latency_map_name (table_at (codes "map") raw_probe)

unfoldable pub is_memory_probe : Table → Bool
unfolding has_item table_at
is_memory_probe raw_probe =
    has_item (codes "fabricperf_probe_bytes") (table_at (codes "map") raw_probe)

unfoldable pub is_latency_local_devfunc_probe : Table → Bool
unfolding has_item table_at
is_latency_local_devfunc_probe raw_probe =
    has_item latency_local_epoch_probe (table_at (codes "probe") raw_probe)

-- `int(value)`; the messages of its errors are cut short.
abbrev pub int_text : Option ℤ → Result ℤ
int_text none = raise value_error (codes "invalid literal for int()")
int_text (some n) = ok n

unfoldable pub int_value : Value → Result ℤ
unfolding parse_int
int_value (int n) = ok n
int_value (text t) = int_text (parse_int t)
int_value (flag true) = ok (pos 1)
int_value (flag false) = ok (pos 0)
int_value (texts ts) = raise type_error (codes "int() argument must be a string or a number")
int_value (table t) = raise type_error (codes "int() argument must be a string or a number")

-- `max(1, n)`
abbrev pub at_least_one : ℤ → ℕ
at_least_one (pos n) = max 1 n
at_least_one (negsuc n) = 1

abbrev pub value_or_int : ℤ → Option Value → Value
value_or_int n none = int n
value_or_int n (some v) = v

-- `max(1, int(raw_probe.get("regs", n)))`
unfoldable pub regs_of : ℤ → Table → Result ℕ
unfolding item int_value
regs_of n raw_probe =
    int_value (value_or_int n (item (codes "regs") raw_probe)) >>= λ regs. ok (at_least_one regs)

-- `shell["symbol"] = raw_probe["symbol"]` if it is there.
abbrev pub with_symbol : Option Value → Table → Table
with_symbol none shell = shell
with_symbol (some symbol) shell = set_item (codes "symbol") symbol shell

-- A snippet is a text; other values are left alone.
abbrev pub on_text : (Text → Text) → Value → Value
on_text f (text t) = text (f t)
on_text f value = value

abbrev pub rewrite_before : Table → Table → Option Value → Table
rewrite_before raw_probe ptp_probe none = ptp_probe
rewrite_before raw_probe ptp_probe (some before) =
    set_item (codes "before") (on_text (λ t. rewrite_legacy_latency_param_load t raw_probe) before)
      ptp_probe

abbrev pub noop_probe : Table
noop_probe = entry (codes "level") (text (codes "thread")) (
    entry (codes "pos") (text (codes "kernel")) (
      one_entry (codes "before") (
        text
          (snippet_of (codes "{" ∷ codes "    mov.u64 %NR0, %NR0;" ∷ codes "}" ∷ codes "" ∷ [])))))

-- The one probe of the shell.
unfoldable pub shell_probes : Table → Table
unfolding is_latency_probe item has_item table_at set_item rewrite_legacy_latency_param_load
shell_probes raw_probe =
    let probes = table_at (codes "probe") raw_probe in
    if is_latency_probe raw_probe && has_item (codes "ptp_metrics") probes
    then (let ptp_probe = table_at (codes "ptp_metrics") probes in
        one_entry (codes "ptp_metrics")
          (table (rewrite_before raw_probe ptp_probe (item (codes "before") ptp_probe))))
    else one_entry (codes "fabricperf_nccl_devfunc_shell") (table noop_probe)

abbrev pub is_true : Option Value → Bool
is_true (some (flag b)) = b
is_true value = false

abbrev pub shell_of : Table → Option Value → Result Table
shell_of raw_probe none =
    raise value_error (codes "FabricPerf NCCL devFunc wrapper requires probe maps")
shell_of raw_probe (some maps) = regs_of (pos 1) raw_probe >>= λ regs. ok (
    with_symbol (item (codes "symbol") raw_probe) (
      entry (codes "regs") (int (pos regs))
        (entry (codes "probe") (table (shell_probes raw_probe)) (one_entry (codes "map") maps))))

unfoldable pub shell_probe_for : Table → Result Table
unfolding item set_item regs_of shell_probes
shell_probe_for raw_probe =
    if is_true (item (codes "dynamic") raw_probe)
    then raise value_error
        (codes "FabricPerf NCCL devFunc wrapper does not support dynamic maps yet")
    else shell_of raw_probe (item (codes "map") raw_probe)

unfoldable pub latency_local_arrival_snippet : Text → Text → ℕ → Text
unfolding join show
latency_local_arrival_snippet prefix done_label step = snippet_of (
    codes "{"
    ∷ (codes "    .reg .pred %" ++ prefix ++ codes "_p<2>;")
    ∷ (codes "    .reg .b32 %" ++ prefix ++ codes "_r<2>;")
    ∷ (codes "    .reg .b64 %" ++ prefix ++ codes "_rd<5>;")
    ∷ codes ""
    ∷ codes "    // Step: each active warp leader writes one sr_latency record per receive hook."
    ∷ (codes "    mov.u32 %" ++ prefix ++ codes "_r1, %laneid;")
    ∷ (codes "    setp.ne.u32 %" ++ prefix ++ codes "_p1, %" ++ prefix ++ codes "_r1, 0;")
    ∷ (codes "    @%" ++ prefix ++ codes "_p1 bra " ++ done_label ++ codes ";")
    ∷ codes ""
    ∷ codes "    // Step: record local arrival timing relative to selected devFunc entry."
    ∷ (codes "    mov.u64 %" ++ prefix ++ codes "_rd1, %globaltimer;")
    ∷ (codes "    sub.s64 %" ++ prefix ++ codes "_rd2, %" ++ prefix ++ codes "_rd1, %NR0;")
    ∷ (codes "    cvt.u64.u32 %" ++ prefix ++ codes "_rd3, %ctaid.x;")
    ∷ (codes "    mov.u64 %" ++ prefix ++ codes "_rd4, " ++ show step ++ codes ";")
    ∷ (codes "    SAVE [ sr_latency ] { %"
        ++ prefix
        ++ codes "_rd2, %"
        ++ prefix
        ++ codes "_rd3, %"
        ++ prefix
        ++ codes "_rd4 };")
    ∷ codes ""
    ∷ (done_label ++ codes ":")
    ∷ codes "}"
    ∷ [])

-- `{"op": op, "nth": nth}`
abbrev pub match_nth : Text → ℕ → Value
match_nth op nth = table (entry (codes "op") (text op) (one_entry (codes "nth") (int (pos nth))))

abbrev pub receive_load : Text
receive_load = codes "ld.volatile.global.v2.b64"

-- A probe that times the `nth` receive load.
abbrev pub arrival_probe : ℕ → Text → Value
arrival_probe nth after = table (
    entry (codes "level") (text (codes "thread"))
      (entry (codes "match") (match_nth receive_load nth) (one_entry (codes "after") (text after))))

abbrev pub epoch_probe : Value
epoch_probe = table (
    entry (codes "level") (text (codes "thread")) (
      entry (codes "pos") (text (codes "kernel")) (
        one_entry (codes "before") (
          text (
            snippet_of (
              codes "{"
              ∷ codes "    .reg .b32 %fplat_epoch_r<2>;"
              ∷ codes "    // Step: touch deviceId so the rank symbol remains live."
              ∷ codes "    ld.const.u32 %fplat_epoch_r1, [deviceId];"
              ∷ codes "    // Step: establish local selected-devFunc timing epoch."
              ∷ codes "    mov.u64 %NR0, %globaltimer;"
              ∷ codes "}"
              ∷ []))))))

abbrev pub local_probes : Table
local_probes = entry latency_local_epoch_probe epoch_probe (
    one_entry latency_recv_probe (
      arrival_probe 10
        (latency_local_arrival_snippet (codes "fplat_recv") (codes "$L__fplat_recv_done") 0)))

-- The local probe for the value of the latency map.
abbrev pub local_probe_of : Value → ℕ → Table
local_probe_of latency_map regs = entry (codes "regs") (int (pos regs)) (
    entry (codes "symbol") (table (one_entry (codes "deviceId") (text (codes "u32")))) (
      entry (codes "map") (table (one_entry latency_map_name latency_map))
        (one_entry (codes "probe") (table local_probes))))

abbrev pub local_of : Table → Option Value → Result (Option Table)
local_of raw_probe none = ok none
local_of raw_probe (some latency_map) =
    regs_of (pos 0) raw_probe >>= λ regs. ok (some (local_probe_of latency_map regs))

unfoldable pub latency_local_devfunc_probe : Table → Result (Option Table)
unfolding is_latency_probe item table_at regs_of latency_local_arrival_snippet
latency_local_devfunc_probe raw_probe =
    if not (is_latency_probe raw_probe)
    then ok none
    else local_of raw_probe (item latency_map_name (table_at (codes "map") raw_probe))

abbrev pub local_or : Table → Option Table → Table × Option Text
local_or raw_probe none = (raw_probe, none)
local_or raw_probe (some local) = (local, some (codes "latency-local-devfunc"))

unfoldable pub selected_devfunc_probe_config : Table → Result (Table × Option Text)
unfolding latency_local_devfunc_probe
selected_devfunc_probe_config raw_probe =
    latency_local_devfunc_probe raw_probe >>= λ local. ok (local_or raw_probe local)
