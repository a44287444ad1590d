-- ===== src/Nccl/Instrument/Outside.antt =====
-- What instrumenting one function leaves as it is: nccl/prober.py, `instrument_selected_devfunc`.
use fabricperf.Prelude.{
  ℕ, zero, suc, Bool, true, false, none, some, Option, [], ◌∷◌, ◌++◌, ◌≡◌, refl, sym, subst, ap,
  inl, inr, Bool-cases, ltb, ◌+◌, ◌-◌, ◌≤◌, take, drop, length, if◌then◌else◌, arith,
}
use mathlib.Core.List.{append_assoc}
use fabricperf.Prelude.Text.{Text, codes, contains_text, starts_with, find_text}
use fabricperf.Prelude.Regex.{Match, search}
use fabricperf.Prelude.Result.{ok, bind-ok, ok_injective}
use fabricperf.Nccl.Toml.{Table}
use fabricperf.Nccl.Hoist.{is_some}
use fabricperf.Nccl.Shell.{rewrite_legacy_latency_param_load}
use fabricperf.Nccl.Devfunc.{
  header_re, CudaProber, Span, slice_before, span_from, brace_after, span_of, function_span,
}
use fabricperf.Nccl.Instrument.{
  Instrumented, nr_register_re, probe_function_body, rewrite_function, instrument_span,
  instrument_selected_devfunc,
}

-- A text up to `a`, and the next `d` characters.
take-slice : (a d b : ℕ) (s : Text) → a + d ≡ b → take a s ++ take d (drop a s) ≡ take b s
take-slice zero d b s h = ap (λ n. take n s) (omega (arith, h))
take-slice (suc a) d zero s h = absurd (omega (arith, h))
take-slice (suc a) zero (suc b) [] h = refl
take-slice (suc a) (suc d) (suc b) [] h = refl
take-slice (suc a) d (suc b) (x ∷ s) h = ap (◌∷◌ x) (take-slice a d b s (omega (arith, h)))

-- Two parts in front are joined, and what stands before the last part too.
joined_parts :
    (a b whole body closing line_feed behind : Text)
    → a ++ b ≡ whole
    → a ++ b ++ (10 ∷ []) ++ body ++ closing ++ line_feed ++ behind
      ≡ whole ++ ((10 ∷ []) ++ body ++ closing ++ line_feed) ++ behind
joined_parts a b whole body closing line_feed behind h = rw (sym h) (simp append_assoc refl)

module _ (prober : CudaProber) where
  -- The span of a function: its brace is not before its start, and its end not before the brace
  -- that closes it.
  record IsSpan (ptx : Text) (span : Span) : Type 0 where
    pub opens : span.span_start ≤ span.open_brace
    pub closes : prober.find_matching_brace ptx span.open_brace ≡ ok span.close_brace
    pub ends : span.close_brace ≤ span.span_end

  span_end_bound : (b : Bool) (n : ℕ) → n ≤ (if b then n + 1 else n)
  span_end_bound false n = omega arith
  span_end_bound true n = omega arith

  span_from-IsSpan :
      (ptx : Text) (start brace : ℕ) (span : Span)
      → start ≤ brace
      → span_from prober ptx start brace ≡ ok span
      → IsSpan ptx span
  span_from-IsSpan ptx start brace span h e =
      let (close, found, made) = bind-ok (prober.find_matching_brace ptx brace) _ e in
      subst (IsSpan ptx) (ok_injective made) (record {
        opens = h;
        closes = found;
        ends = span_end_bound (starts_with (drop close ptx) (10 ∷ [])) close;
      })

  brace_after-IsSpan :
      (ptx name : Text) (start match_end : ℕ) (further : Option ℕ) (span : Span)
      → start ≤ match_end
      → brace_after prober ptx name start match_end further ≡ ok span
      → IsSpan ptx span
  brace_after-IsSpan ptx name start match_end none span h e = absurd (cc)
  brace_after-IsSpan ptx name start match_end (some further) span h e =
      span_from-IsSpan ptx start (match_end + further) span (omega (arith, h)) e

  span_of-IsSpan :
      (ptx name : Text) (m : Option (Text × Match)) (span : Span)
      → span_of prober ptx name m ≡ ok span
      → IsSpan ptx span
  span_of-IsSpan ptx name none span e = absurd (cc)
  span_of-IsSpan ptx name (some (before, m)) span e =
      brace_after-IsSpan ptx name (length before) (length before + length m.matched)
        (find_text (codes "{") m.after) span (omega arith) e

  function_span-IsSpan :
      (ptx name : Text) (span : Span) → function_span prober ptx name ≡ ok span → IsSpan ptx span
  unfolding function_span
  function_span-IsSpan ptx name span e =
      span_of-IsSpan ptx name (search (header_re name) ptx) span e

  -- The function at `span` is replaced: the text up to its brace and the text behind it are as they
  -- were, and between them stands the probed body.
  pub record IsReplaced (ptx name : Text) (raw_probe : Table) (span : Span) (out : Instrumented)
      : Type 0 where
    pub spans : function_span prober ptx name ≡ ok span
    pub no_parameters : contains_text (codes ".param") span.header ≡ false
    pub body : Text
    pub probed :
        probe_function_body prober
          (slice_before ptx (span.open_brace + 1) span.close_brace)
          raw_probe
        ≡ ok (body, out.1)
    pub text :
        out.0
        ≡ take (span.open_brace + 1) ptx
          ++ ((10 ∷ [])
              ++ rewrite_legacy_latency_param_load body raw_probe
              ++ (10 ∷ codes "}")
              ++ (if ltb span.close_brace span.span_end then 10 ∷ [] else []))
          ++ drop span.span_end ptx
    pub apart : span.open_brace + 1 ≤ span.span_end

  -- A function that has the map registers is left as it is.
  pub data IsInstrumented (ptx name : Text) (raw_probe : Table) (out : Instrumented) : Type 0 where
    already :
        (span : Span)
        → function_span prober ptx name ≡ ok span
        → is_some (search nr_register_re (slice_before ptx (span.open_brace + 1) span.close_brace))
          ≡ true
        → out ≡ (ptx, none)
        → IsInstrumented ptx name raw_probe out
    replaced :
        (span : Span)
        → IsReplaced ptx name raw_probe span out
        → IsInstrumented ptx name raw_probe out

  rewrite_function-IsReplaced :
      ((ptx : Text) (open_brace close : ℕ)
        → prober.find_matching_brace ptx open_brace ≡ ok close
        → open_brace + 1 ≤ close)
      → (ptx name : Text) (raw_probe : Table) (span : Span) (i : Instrumented)
      → function_span prober ptx name ≡ ok span
      → IsSpan ptx span
      → contains_text (codes ".param") span.header ≡ false
      → probe_function_body prober
          (slice_before ptx (span.open_brace + 1) span.close_brace)
          raw_probe
        ≡ ok i
      → IsReplaced ptx name raw_probe span (rewrite_function prober ptx span raw_probe i)
  rewrite_function-IsReplaced behind ptx name raw_probe span (contents, fallback) spans h plain e =
      record {
        spans = spans;
        no_parameters = plain;
        body = contents;
        probed = e;
        text = joined_parts (take span.span_start ptx) _ (take (span.open_brace + 1) ptx) _ _ _ _ (
            take-slice span.span_start (span.open_brace + 1 - span.span_start) (span.open_brace + 1)
              ptx (omega (arith, h.opens)));
        apart = omega (arith, behind ptx span.open_brace span.close_brace h.closes, h.ends);
      }

  instrument_span-IsInstrumented :
      ((ptx : Text) (open_brace close : ℕ)
        → prober.find_matching_brace ptx open_brace ≡ ok close
        → open_brace + 1 ≤ close)
      → (ptx name : Text) (raw_probe : Table) (span : Span) (out : Instrumented)
      → function_span prober ptx name ≡ ok span
      → IsSpan ptx span
      → instrument_span prober ptx name raw_probe span ≡ ok out
      → IsInstrumented ptx name raw_probe out
  instrument_span-IsInstrumented behind ptx name raw_probe span out spans h e =
      let function_body = slice_before ptx (span.open_brace + 1) span.close_brace in
      elim (Bool-cases (contains_text (codes ".param") span.header)) [
        | inl parameters ↦ absurd (cc (rw parameters at e))
        | inr plain ↦ elim (Bool-cases (is_some (search nr_register_re function_body))) [
          | inl has_registers ↦
              already span spans has_registers (sym (ok_injective (rw (plain, has_registers) at e)))
          | inr without ↦
              let (i, probed, made) =
                bind-ok (probe_function_body prober function_body raw_probe)
                  (λ i. ok (rewrite_function prober ptx span raw_probe i))
                  (rw (plain, without) at e) in
              replaced span (
                subst (IsReplaced ptx name raw_probe span) (ok_injective made) (
                  rewrite_function-IsReplaced behind ptx name raw_probe span i spans h plain
                    probed))
        ]
      ]

  -- Where `find_matching_brace` returns an index behind the brace that it is given, instrumenting a
  -- function either leaves the whole text, because the function's body has the map registers, or
  -- changes nothing up to the function's brace and nothing behind its end: between them stands the
  -- probed body, and the function has no parameters.
  pub instrument_selected_devfunc-IsInstrumented :
      ((ptx : Text) (open_brace close : ℕ)
        → prober.find_matching_brace ptx open_brace ≡ ok close
        → open_brace + 1 ≤ close)
      → (ptx name : Text) (raw_probe : Table) (out : Instrumented)
      → instrument_selected_devfunc prober ptx name raw_probe ≡ ok out
      → IsInstrumented ptx name raw_probe out
  unfolding instrument_selected_devfunc
  instrument_selected_devfunc-IsInstrumented behind ptx name raw_probe out e =
      let (span, found, done) = bind-ok (function_span prober ptx name) _ e in
      instrument_span-IsInstrumented behind ptx name raw_probe span out found
        (function_span-IsSpan ptx name span found) done
