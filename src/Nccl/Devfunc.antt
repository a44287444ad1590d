-- ===== src/Nccl/Devfunc.antt =====
-- The body of a device function: nccl/prober.py, `function_span`, `extract_body` and
-- `probe_function_body_once`.
use fabricperf.Prelude.{
  ℕ, Option, none, some, [], ◌∷◌, ◌++◌, eqb, ◌+◌, ◌-◌, take, drop, length, if◌then◌else◌,
}
use fabricperf.Prelude.Keys.{nat_eq, list_eq}
use fabricperf.Prelude.Text.{Text, codes, starts_with, find_text, is_space}
use fabricperf.Prelude.Regex.{
  Regex, many, literal, optional, ◌⨾◌, some_of, is_other, line_start, word_boundary, Match, search,
}
use fabricperf.Prelude.Result.{Result, ok, raise, value_error, ◌>>=◌}
use fabricperf.Nccl.Toml.{Table}

-- What the wrapper calls of the CUDA prober: `probing` with what `load` returns for a probe, and
-- `find_matching_brace`, the index behind the brace that closes the one at an index.
pub record CudaProber : Type 0 where
  pub probing : Text → Table → Result Text
  pub find_matching_brace : Text → ℕ → Result ℕ

-- `s[start:stop - 1]`, where a stop of 0 leaves out the last character.
unfoldable pub slice_before : Text → ℕ → ℕ → Text
slice_before s start stop =
    let end = if eqb stop 0 then length s - 1 else stop - 1 in take (end - start) (drop start s)

abbrev pub header_re : Text → Regex
header_re function_name =
    line_start
    ⨾ many is_space
    ⨾ optional (literal (codes ".visible") ⨾ some_of is_space)
    ⨾ literal (codes ".func")
    ⨾ word_boundary
    ⨾ many (is_other 10)
    ⨾ word_boundary
    ⨾ literal function_name
    ⨾ many is_space
    ⨾ literal (codes "(")
    ⨾ many (is_other 10)

pub record Span : Type 0 where
  pub span_start : ℕ
  pub open_brace : ℕ
  pub close_brace : ℕ
  pub span_end : ℕ
  pub header : Text

module _ (prober : CudaProber) where
  abbrev pub span_from : Text → ℕ → ℕ → Result Span
  span_from ptx span_start open_brace = prober.find_matching_brace ptx open_brace >>= λ close_brace.
      ok (record {
        span_start = span_start;
        open_brace = open_brace;
        close_brace = close_brace;
        span_end =
            if starts_with (drop close_brace ptx) (10 ∷ []) then close_brace + 1 else close_brace;
        header = take (open_brace - span_start) (drop span_start ptx);
      })

  abbrev pub brace_after : Text → Text → ℕ → ℕ → Option ℕ → Result Span
  brace_after ptx function_name span_start match_end none =
      raise value_error (function_name ++ codes " missing function body")
  brace_after ptx function_name span_start match_end (some further) =
      span_from ptx span_start (match_end + further)

  abbrev pub span_of : Text → Text → Option (Text × Match) → Result Span
  span_of ptx function_name none =
      raise value_error (function_name ++ codes " is not in a supported .func header")
  span_of ptx function_name (some (before, m)) =
      brace_after ptx function_name (length before) (length before + length m.matched)
        (find_text (codes "{") m.after)

  unfoldable pub function_span : Text → Text → Result Span
  unfolding search find_text starts_with is_space is_other
  function_span ptx function_name = span_of ptx function_name (search (header_re function_name) ptx)

  unfoldable pub extract_body : Text → ℕ → Result (Text × ℕ)
  unfolding slice_before
  extract_body ptx open_brace = prober.find_matching_brace ptx open_brace >>= λ close_brace.
      ok (slice_before ptx (open_brace + 1) close_brace, close_brace)

  abbrev pub fake_entry : Text → Text
  fake_entry function_body =
      codes ".visible .entry __fabricperf_nccl_devfunc_proxy()"
      ++ (10 ∷ [])
      ++ codes "{"
      ++ (10 ∷ [])
      ++ function_body
      ++ (10 ∷ [])
      ++ codes "}"
      ++ (10 ∷ [])

  abbrev pub body_at : Text → Option ℕ → Result Text
  body_at probed none = raise value_error (codes "internal proxy entry missing body")
  body_at probed (some open_brace) = extract_body probed open_brace >>= λ (body, close). ok body

  unfoldable pub probe_function_body_once : Text → Table → Result Text
  unfolding find_text extract_body
  probe_function_body_once function_body raw_probe =
      prober.probing (fake_entry function_body) raw_probe >>= λ probed.
      body_at probed (find_text (codes "{") probed)
