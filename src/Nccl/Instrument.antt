-- ===== src/Nccl/Instrument.antt =====
-- The selected functions are instrumented: nccl/prober.py, `probe_function_body`,
-- `instrument_selected_devfunc` and `instrument_devfunc_candidates`.
pub mod Candidates
pub mod Outside
use fabricperf.Prelude.{
  ℕ, Bool, true, false, not, ◌||◌, ◌&&◌, Option, none, some, List, [], ◌∷◌, ◌++◌, ltb, ◌+◌, ◌-◌,
  take, drop, if◌then◌else◌,
}
use fabricperf.Prelude.Keys.{nat_eq, list_eq, ◌==◌, member}
use fabricperf.Prelude.Dict.{Dict, values}
use fabricperf.Prelude.Text.{Text, codes, contains_text, is_space}
use fabricperf.Prelude.Regex.{Regex, many, literal, ◌⨾◌, some_of, line_start, search}
use fabricperf.Prelude.Result.{Result, ErrorKind, ok, raise, value_error, ◌>>=◌}
use fabricperf.Nccl.Toml.{Table}
use fabricperf.Nccl.Table.{NcclDevFuncTarget}
use fabricperf.Nccl.KernelInfo.{sorted_items}
use fabricperf.Nccl.Hoist.{is_some}
use fabricperf.Nccl.Shell.{
  is_latency_probe, is_memory_probe, is_latency_local_devfunc_probe,
  rewrite_legacy_latency_param_load,
}
use fabricperf.Nccl.DevfuncProbe.{throughput_devfunc_fallback_probe, latency_devfunc_fallback_probe}
use fabricperf.Nccl.Devfunc.{
  CudaProber, Span, slice_before, function_span, probe_function_body_once,
}
use fabricperf.Nccl.Expand.{expand_latency_local_devfunc_probe}

-- What the instrumenting of one function returns: the new text, and the fallback's name.
abbrev pub Instrumented : Type 0
Instrumented = Text × Option Text

abbrev pub nr_register_re : Regex
nr_register_re =
    line_start
    ⨾ many is_space
    ⨾ literal (codes ".reg")
    ⨾ some_of is_space
    ⨾ literal (codes ".u64")
    ⨾ some_of is_space
    ⨾ literal (codes "%NR<")

module _ (prober : CudaProber) where
  abbrev pub named_once : Text → Option Text → Table → Result Instrumented
  named_once function_body name probe =
      probe_function_body_once prober function_body probe >>= λ body. ok (body, name)

  -- The first fallback that there is, or the error again.
  abbrev pub first_fallback :
      Text → Result Instrumented → Option Table → Option Table → Result Instrumented
  first_fallback function_body error (some throughput) latency =
      named_once function_body (some (codes "throughput-sendrecv-devfunc")) throughput
  first_fallback function_body error none (some latency) =
      named_once function_body (some (codes "latency-sendrecv-devfunc")) latency
  first_fallback function_body error none none = error

  -- A probe without matches is tried again with the fallbacks, which are both made first.
  abbrev pub retry : Text → Table → Result Text → Result Instrumented
  retry function_body raw_probe (ok body) = ok (body, none)
  retry function_body raw_probe (raise value_error message) =
      if contains_text (codes "found no matches") message
      then throughput_devfunc_fallback_probe raw_probe >>= (λ throughput.
        latency_devfunc_fallback_probe raw_probe >>= λ latency.
        first_fallback function_body (raise value_error message) throughput latency)
      else raise value_error message
  retry function_body raw_probe (raise kind message) = raise kind message

  -- A latency probe that is not local goes on to the general case without a fallback.
  abbrev pub latency_fallback : Text → Result Instrumented → Option Table → Result Instrumented
  latency_fallback function_body general none = general
  latency_fallback function_body general (some fallback) =
      named_once function_body (some (codes "latency-sendrecv-devfunc")) fallback

  unfoldable pub probe_function_body : Text → Table → Result Instrumented
  unfolding probe_function_body_once contains_text is_latency_probe is_latency_local_devfunc_probe
      expand_latency_local_devfunc_probe throughput_devfunc_fallback_probe
      latency_devfunc_fallback_probe
  probe_function_body function_body raw_probe =
      let general =
        retry function_body raw_probe (probe_function_body_once prober function_body raw_probe) in
      if is_latency_probe raw_probe
      then if is_latency_local_devfunc_probe raw_probe
        then named_once function_body none
            (expand_latency_local_devfunc_probe function_body raw_probe)
        else latency_devfunc_fallback_probe raw_probe >>= latency_fallback function_body general
      else general

  -- The text with the body of the function replaced.
  abbrev pub rewrite_function : Text → Span → Table → Instrumented → Instrumented
  rewrite_function ptx span raw_probe (body, fallback_name) =
      let instrumented_body = rewrite_legacy_latency_param_load body raw_probe in
      let line_feed = if ltb span.close_brace span.span_end then 10 ∷ [] else [] in
      (
        take span.span_start ptx
            ++ take (span.open_brace + 1 - span.span_start) (drop span.span_start ptx)
            ++ (10 ∷ [])
            ++ instrumented_body
            ++ (10 ∷ codes "}")
            ++ line_feed
            ++ drop span.span_end ptx,
        fallback_name,
      )

  abbrev pub instrument_span : Text → Text → Table → Span → Result Instrumented
  instrument_span ptx function_name raw_probe span =
      let function_body = slice_before ptx (span.open_brace + 1) span.close_brace in
      if contains_text (codes ".param") span.header
      then raise value_error (
          function_name
          ++ codes " has parameters; FabricPerf wrapper only supports no-arg devFuncs")
      else if is_some (search nr_register_re function_body)
      then ok (ptx, none)
      else probe_function_body function_body raw_probe >>= λ body.
          ok (rewrite_function ptx span raw_probe body)

  unfoldable pub instrument_selected_devfunc : Text → Text → Table → Result Instrumented
  unfolding function_span slice_before contains_text search probe_function_body
      rewrite_legacy_latency_param_load is_space
  instrument_selected_devfunc ptx function_name raw_probe =
      function_span prober ptx function_name >>= instrument_span ptx function_name raw_probe

-- The functions to instrument.
unfoldable pub candidate_names : NcclDevFuncTarget → Dict ℕ Text → Bool → List Text
unfolding sorted_items
candidate_names target local_mapping memory =
    let names = values (sorted_items local_mapping) in
    if memory
    then if member target.function_name names then names else names ++ (target.function_name ∷ [])
    else target.function_name ∷ []

-- The variables of the loop over the candidates; a skipped function comes with its reason.
pub record Progress : Type 0 where
  pub ptx : Text
  pub fallback_name : Option Text
  pub instrumented : List Text
  pub skipped : List (Text × Text)
  pub seen : List Text

abbrev pub first_name : Option Text → Option Text → Option Text
first_name none candidate = candidate
first_name (some name) candidate = some name

abbrev pub after_instrumenting : Text → Progress → Instrumented → Progress
after_instrumenting name p (ptx, candidate_fallback) = record {
  ptx = ptx;
  fallback_name = first_name p.fallback_name candidate_fallback;
  instrumented = p.instrumented ++ (name ∷ []);
  skipped = p.skipped;
  seen = name ∷ p.seen;
}

abbrev pub after_skipping : Text → Progress → Text → Progress
after_skipping name p reason = record {
  ptx = p.ptx;
  fallback_name = p.fallback_name;
  instrumented = p.instrumented;
  skipped = p.skipped ++ ((name, reason) ∷ []);
  seen = name ∷ p.seen;
}

-- A `ValueError` of another function than the target is a reason to skip it.
abbrev pub after_candidate : Text → Text → Progress → Result Instrumented → Result Progress
after_candidate target name p (ok instrumented) = ok (after_instrumenting name p instrumented)
after_candidate target name p (raise value_error reason) =
    if name == target then raise value_error reason else ok (after_skipping name p reason)
after_candidate target name p (raise kind message) = raise kind message

-- `instrument` is `instrument_selected_devfunc` with the probe.
unfoldable pub candidates_loop :
    (Text → Text → Result Instrumented) → Text → List Text → Progress → Result Progress
candidates_loop instrument target [] p = ok p
candidates_loop instrument target (name ∷ names) p =
    if member name p.seen
    then candidates_loop instrument target names p
    else after_candidate target name p (instrument p.ptx name)
      >>= candidates_loop instrument target names

unfoldable pub instrument_devfunc_candidates :
    CudaProber → Text → NcclDevFuncTarget → Dict ℕ Text → Table → Result Progress
unfolding instrument_selected_devfunc candidate_names is_memory_probe candidates_loop
instrument_devfunc_candidates prober ptx target local_mapping raw_probe =
    candidates_loop (λ ptx name. instrument_selected_devfunc prober ptx name raw_probe)
      target.function_name (candidate_names target local_mapping (is_memory_probe raw_probe))
      (record { ptx = ptx; fallback_name = none; instrumented = []; skipped = []; seen = [] })
