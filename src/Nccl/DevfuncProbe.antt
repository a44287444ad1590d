-- ===== src/Nccl/DevfuncProbe.antt =====
-- The probes for the device functions: nccl/prober.py, from `apply_throughput_devfunc_capture_overrides`
-- to `latency_devfunc_fallback_probe`.
use fabricperf.Prelude.{
  ℕ, Bool, true, not, ◌||◌, ◌&&◌, Option, none, some, [], ◌∷◌, ◌++◌, eqb, ◌+◌, take, drop,
  if◌then◌else◌,
}
use fabricperf.Prelude.Keys.{nat_eq, list_eq}
use fabricperf.Prelude.Text.{
  Text, codes, contains_text, find_text, replace, replace_once, show, is_digit, is_space, join,
}
use fabricperf.Prelude.Regex.{Regex, one, literal, ◌⨾◌, group, some_of, Match, group_of, sub_once}
use fabricperf.Prelude.Result.{Result, ok, raise, value_error, key_error, type_error, ◌>>=◌}
use fabricperf.Nccl.Toml.{
  Value, text, flag, table, Table, empty, entry, item, has_item, set_item, table_at, one_entry,
}
use fabricperf.Nccl.Shell.{snippet_of, latency_recv_probe, match_nth, receive_load}

abbrev pub throughput_recv_probe : Text
throughput_recv_probe = codes "fabricperf_throughput_recv"

abbrev pub send_probe_name : Text
send_probe_name = codes "send_timestamp_message"

-- `capture[name] = {"value": value}`
abbrev pub capture_value : Text → Text → Table → Table
capture_value name value = set_item name (table (one_entry (codes "value") (text value)))

-- `probe.setdefault("capture", {})`, changed in place by `f`.
abbrev pub on_capture : (Table → Table) → Table → Table
on_capture f probe = set_item (codes "capture") (table (f (table_at (codes "capture") probe))) probe

unfoldable pub apply_throughput_devfunc_capture_overrides : Table → Table
unfolding set_item table_at
apply_throughput_devfunc_capture_overrides = on_capture λ capture.
    capture_value (codes "chunk") (codes "0") (
      capture_value (codes "vblock") (codes "%ctaid.x") (
        capture_value (codes "recv_peer") (codes "0") (
          capture_value (codes "recv_step") (codes "0") (
            capture_value (codes "group_threads") (codes "1") (
              capture_value (codes "group_source") (codes "%laneid")
                (capture_value (codes "group") (codes "0") capture))))))

unfoldable pub namespace_throughput_recv_snippet : Text → Text → Text
unfolding replace
namespace_throughput_recv_snippet snippet suffix =
    replace (codes "$L__fpthr_recv_done") (codes "$L__fpthr_recv_" ++ suffix ++ codes "_done")
      (replace (codes "%fpthr_recv_") (codes "%fpthr_recv_" ++ suffix ++ codes "_") snippet)

-- `probe["after"]`, a text.
abbrev pub text_value : Option Value → Result Text
text_value none = raise key_error (codes "'after'")
text_value (some (text t)) = ok t
text_value (some value) = raise type_error (codes "expected a text")

unfoldable pub after_of : Table → Result Text
unfolding item
after_of probe = text_value (item (codes "after") probe)

abbrev pub set_after : Text → Table → Table
set_after t = set_item (codes "after") (text t)

-- `raw_probe["probe"] = probes`
abbrev pub with_probes : Table → Table → Table
with_probes probes raw_probe = set_item (codes "probe") (table probes) raw_probe

unfoldable pub throughput_devfunc_fallback_probe : Table → Result (Option Table)
unfolding has_item set_item table_at after_of apply_throughput_devfunc_capture_overrides
    namespace_throughput_recv_snippet
throughput_devfunc_fallback_probe raw_probe =
    let probes = table_at (codes "probe") raw_probe in
    if not (has_item throughput_recv_probe probes)
    then ok none
    else (let recv_probe = apply_throughput_devfunc_capture_overrides (
          set_item (codes "match") (match_nth receive_load 10)
            (table_at throughput_recv_probe probes)) in
        let second_probe = set_item (codes "match") (match_nth receive_load 26) recv_probe in
        after_of second_probe >>= λ after. ok (
          some (
            with_probes
              (set_item (codes "fabricperf_throughput_recv_simple_b")
                (table
                  (set_after (namespace_throughput_recv_snippet after (codes "b")) second_probe))
                (set_item throughput_recv_probe (table recv_probe) probes))
              raw_probe)))

-- The guard for the register prefix, the label and the predicate.
abbrev pub thread0_guard : Text → Text → ℕ → Text
thread0_guard prefix done_label pred_idx = snippet_of (
    codes "    // Step: selected-devFunc latency uses one warp-lane writer."
    ∷ (codes "    mov.u32 %" ++ prefix ++ codes "_r4, %laneid;")
    ∷ (codes "    setp.ne.u32 %"
        ++ prefix
        ++ codes "_p"
        ++ show pred_idx
        ++ codes ", %"
        ++ prefix
        ++ codes "_r4, 0;")
    ∷ (codes "    @%"
        ++ prefix
        ++ codes "_p"
        ++ show pred_idx
        ++ codes " bra "
        ++ done_label
        ++ codes ";")
    ∷ [])

-- Where the line ends that the text at `anchor_idx` begins in, or the second error.
abbrev pub insert_guard : Text → Text → Text → Option ℕ → Result Text
insert_guard snippet prefix guard none =
    raise value_error
      (codes "selected-devFunc latency guard could not find " ++ prefix ++ codes " register block")
insert_guard snippet prefix guard (some anchor_idx) =
    elim (find_text (10 ∷ []) (drop anchor_idx snippet)) [
      | none ↦ raise value_error (
          codes "selected-devFunc latency guard could not find "
          ++ prefix
          ++ codes " register line end")
      | some further ↦
          let insert_at = anchor_idx + further + 1 in
          ok (take insert_at snippet ++ (guard ++ ((10 ∷ []) ++ drop insert_at snippet)))
    ]

unfoldable pub add_latency_devfunc_thread0_guard : Text → Text → Text → ℕ → Result Text
unfolding find_text join show
add_latency_devfunc_thread0_guard snippet prefix done_label pred_idx =
    insert_guard snippet prefix (thread0_guard prefix done_label pred_idx)
      (find_text (codes "    .reg .b64 %" ++ prefix ++ codes "_rd") snippet)

abbrev pub latency_devfunc_wait_iters : ℕ
latency_devfunc_wait_iters = 1024

abbrev pub old_wait : Text
old_wait = snippet_of (
    codes "$L__srlat_wait_msg:"
    ∷ codes "    ld.global.volatile.v2.u64 { %srlat_rd11, %srlat_rd12 }, [%srlat_rd9];"
    ∷ codes "    setp.ne.s64 %srlat_p3, %srlat_rd11, %srlat_rd10;"
    ∷ codes "    @%srlat_p3 bra $L__srlat_wait_msg;"
    ∷ [])

abbrev pub new_wait : Text
new_wait = snippet_of (
    codes "    // Step: avoid deadlocking NCCL if the paired send hook did not publish."
    ∷ codes "    mov.u32 %srlat_r4, 0;"
    ∷ codes "$L__srlat_wait_msg:"
    ∷ codes "    ld.global.volatile.v2.u64 { %srlat_rd11, %srlat_rd12 }, [%srlat_rd9];"
    ∷ codes "    setp.eq.s64 %srlat_p3, %srlat_rd11, %srlat_rd10;"
    ∷ codes "    @%srlat_p3 bra $L__srlat_have_msg;"
    ∷ codes "    add.u32 %srlat_r4, %srlat_r4, 1;"
    ∷ (codes "    setp.lt.u32 %srlat_p3, %srlat_r4, "
        ++ show latency_devfunc_wait_iters
        ++ codes ";")
    ∷ codes "    @%srlat_p3 bra $L__srlat_wait_msg;"
    ∷ codes "    bra.uni $L__srlat_done;"
    ∷ codes "$L__srlat_have_msg:"
    ∷ [])

-- `[cd]`
abbrev pub is_either : ℕ → ℕ → ℕ → Bool
is_either c d e = eqb e c || eqb e d

abbrev pub wait_bound_re : Regex
wait_bound_re =
    literal (codes "setp.lt.u32")
    ⨾ some_of is_space
    ⨾ literal (codes "%srlat_p")
    ⨾ group 0 (one (is_either b'3' b'4'))
    ⨾ literal (codes ",")
    ⨾ some_of is_space
    ⨾ literal (codes "%srlat_r")
    ⨾ group 1 (one (is_either b'4' b'5'))
    ⨾ literal (codes ",")
    ⨾ some_of is_space
    ⨾ some_of is_digit
    ⨾ literal (codes ";")

abbrev pub wait_bound : Match → Text
wait_bound m =
    codes "setp.lt.u32 %srlat_p"
    ++ group_of 0 m
    ++ codes ", %srlat_r"
    ++ group_of 1 m
    ++ codes ", "
    ++ show latency_devfunc_wait_iters
    ++ codes ";"

unfoldable pub bound_latency_devfunc_recv_wait : Text → Result Text
unfolding contains_text sub_once group_of replace_once show join is_space is_digit
bound_latency_devfunc_recv_wait snippet =
    if contains_text old_wait snippet
    then ok (replace_once old_wait new_wait snippet)
    else (let (bounded, replaced) = sub_once wait_bound_re wait_bound snippet in
        if replaced && contains_text (codes "$L__srlat_have_msg:") snippet
        then ok bounded
        else raise value_error (codes "selected-devFunc latency wait block not found"))

-- `{name: probes[name] for name in names if name in probes}`
abbrev pub copy_item : Text → Option Value → Table → Table
copy_item name none t = t
copy_item name (some value) t = entry name value t

abbrev pub hook_probes : Table → Table
hook_probes probes =
    copy_item latency_recv_probe (item latency_recv_probe probes)
      (copy_item send_probe_name (item send_probe_name probes) empty)

unfoldable pub latency_recv_hook : Table → Result Table
unfolding set_item table_at after_of bound_latency_devfunc_recv_wait
    add_latency_devfunc_thread0_guard
latency_recv_hook probe =
    let recv_probe =
      on_capture
        (λ capture. capture_value (codes "chunk") (codes "0") (
          set_item (codes "vblock")
            (table (one_entry (codes "from") (text (codes "virtual_block"))))
            (capture_value (codes "recv_peer") (codes "%srlat_r3")
              (capture_value (codes "recv_step") (codes "0") capture))))
        (set_item (codes "match") (match_nth receive_load 10) probe) in
    after_of recv_probe >>= λ after. bound_latency_devfunc_recv_wait after >>= λ bounded.
    add_latency_devfunc_thread0_guard bounded (codes "srlat") (codes "$L__srlat_done") 4
    >>= λ guarded. ok (set_after guarded recv_probe)

unfoldable pub latency_send_hook : Table → Result Table
unfolding set_item table_at after_of add_latency_devfunc_thread0_guard
latency_send_hook probe =
    let send_probe =
      on_capture
        (λ capture.
          capture_value (codes "send_peer") (codes "%srmsg_r3")
            (capture_value (codes "send_step") (codes "0") capture))
        (set_item (codes "match")
          (table (
            entry (codes "op") (text (codes "ld.volatile.global.u64")) (
              entry (codes "before_ref") (text latency_recv_probe)
                (one_entry (codes "last") (flag true)))))
          probe) in
    after_of send_probe >>= λ after.
    add_latency_devfunc_thread0_guard after (codes "srmsg") (codes "$L__srmsg_done") 3
    >>= λ guarded. ok (set_after guarded send_probe)

-- The send hook, if there is one, and the probe with both.
unfoldable pub with_send_hook : Table → Table → Result (Option Table)
unfolding has_item set_item table_at latency_send_hook
with_send_hook received raw_probe =
    let send_probe = latency_send_hook (table_at send_probe_name received) in
    if has_item send_probe_name received
    then send_probe >>= (λ probe.
      ok (some (with_probes (set_item send_probe_name (table probe) received) raw_probe)))
    else ok (some (with_probes received raw_probe))

unfoldable pub latency_devfunc_fallback_probe : Table → Result (Option Table)
unfolding has_item item set_item table_at latency_recv_hook with_send_hook
latency_devfunc_fallback_probe raw_probe =
    let all_probes = table_at (codes "probe") raw_probe in
    let probes = hook_probes all_probes in
    if not (has_item latency_recv_probe all_probes)
    then ok none
    else latency_recv_hook (table_at latency_recv_probe probes) >>= λ recv_probe.
        with_send_hook (set_item latency_recv_probe (table recv_probe) probes) raw_probe
