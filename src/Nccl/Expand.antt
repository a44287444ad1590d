-- ===== src/Nccl/Expand.antt =====
-- The local latency probe for every receive load of a body: nccl/prober.py, `count_ptx_op` and
-- `expand_latency_local_devfunc_probe`.
pub mod Hooks
use fabricperf.Prelude.{
  ℕ, zero, suc, Bool, true, false, not, ◌||◌, ◌&&◌, List, [], ◌∷◌, ◌++◌, eqb, ◌+◌, ◌-◌, length,
  keep, if◌then◌else◌,
}
use fabricperf.Prelude.Keys.{nat_eq, list_eq, ◌==◌, member}
use fabricperf.Prelude.Dict.{Dict, put}
use fabricperf.Prelude.Text.{Text, codes, show, is_space}
use fabricperf.Prelude.Regex.{
  Regex, many, literal, optional, ◌⨾◌, some_of, line_start, word_boundary, finditer,
}
use fabricperf.Nccl.Toml.{Value, table, Table, entries, from_entries, set_item, table_at}
use fabricperf.Nccl.Shell.{
  latency_recv_probe, arrival_probe, receive_load, latency_local_arrival_snippet,
}
use fabricperf.Nccl.DevfuncProbe.{with_probes}

abbrev pub op_re : Text → Regex
op_re op =
    line_start
    ⨾ many is_space
    ⨾ optional (literal (codes "@") ⨾ some_of (λ c. not (is_space c)) ⨾ some_of is_space)
    ⨾ literal op
    ⨾ word_boundary

unfoldable pub count_ptx_op : Text → Text → ℕ
unfolding finditer is_space
count_ptx_op function_body op = length (finditer (op_re op) function_body)

unfoldable pub hook_name : ℕ → Text
unfolding show
hook_name nth =
    if eqb nth 1 then latency_recv_probe else latency_recv_probe ++ (codes "_local_" ++ show nth)

-- The hook of the `nth` load.
unfoldable pub hook : ℕ → Value
unfolding show latency_local_arrival_snippet
hook nth = arrival_probe nth (
    latency_local_arrival_snippet (codes "fplat_recv_" ++ show nth)
      (codes "L__fplat_recv_" ++ show nth ++ codes "_done") (nth - 1))

-- The loop over `range(nth, nth + n)`.
unfoldable pub put_hooks : ℕ → ℕ → Dict Text Value → Dict Text Value
unfolding hook_name hook put
put_hooks nth zero probes = probes
put_hooks nth (suc n) probes = put_hooks (nth + 1) n (put (hook_name nth) (hook nth) probes)

-- A probe of another name than the receive probes'.
unfoldable pub other_probe : Text × Value → Bool
other_probe (name, probe) =
    not (member name (latency_recv_probe ∷ codes "recv_latency_simple_b" ∷ []))

unfoldable pub expand_latency_local_devfunc_probe : Text → Table → Table
unfolding count_ptx_op put_hooks other_probe set_item table_at
expand_latency_local_devfunc_probe function_body raw_probe =
    let recv_count = count_ptx_op function_body receive_load in
    let probes = entries (table_at (codes "probe") raw_probe) in
    if eqb recv_count 0
    then raw_probe
    else with_probes (from_entries (put_hooks 1 recv_count (keep other_probe probes))) raw_probe
