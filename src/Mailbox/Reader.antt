-- ===== src/Mailbox/Reader.antt =====
-- `read_debug_records` of analysis/mailbox_debug.py; the generated reader and the rank pattern are
-- parameters.
use fabricperf.Prelude.{ℕ, Bool, ◌&&◌, Option, List, [], ◌∷◌, eqb, if◌then◌else◌}
use fabricperf.Prelude.Int.{ℤ, pos, eqb_ℤ}
use fabricperf.Prelude.Dict.{value_or}
use fabricperf.Prelude.Text.{Text}
use fabricperf.Prelude.Result.{Result, ok, ◌>>=◌, collect}
use fabricperf.Trace.{Dir, Root, bin_files, parse_rank, iter_trace_dirs}
use fabricperf.Mailbox.Words.{decode_meta, decode_invalid, decode_tag}

-- A row of the generated `sr_latency_debug`.
pub record DebugRow : Type 0 where
  pub meta : ℕ
  pub tag : ℕ
  pub latency : ℤ
  pub step : ℕ
  pub sender_time : ℤ
  pub offset : ℤ
  pub corrected_sender_time : ℤ
  pub local_time : ℤ

pub record DebugRecord : Type 0 where
  pub trace : Text
  pub rank : ℕ
  pub src : ℤ
  pub vblock : ℕ
  pub poll_count : ℕ
  pub latency : ℤ
  pub step : ℕ
  pub tag : ℕ
  pub tag_step : ℕ
  pub tag_run_id : ℕ
  pub tag_kind : ℕ
  pub sender_time : ℤ
  pub offset : ℤ
  pub corrected_sender_time : ℤ
  pub local_time : ℤ
  pub invalid : Bool

-- The flattened rows of a file, if the section is there.
pub record Parsed : Type 0 where
  pub sr_latency_debug : Option (List DebugRow)

abbrev pub is_unwritten_debug_record : DebugRow → Bool
is_unwritten_debug_record r =
    eqb r.meta 0
    && (eqb r.tag 0
        && (eqb_ℤ r.latency (pos 0)
            && (eqb r.step 0
                && (eqb_ℤ r.sender_time (pos 0)
                    && (eqb_ℤ r.offset (pos 0)
                        && (eqb_ℤ r.corrected_sender_time (pos 0)
                            && eqb_ℤ r.local_time (pos 0)))))))

unfoldable pub decoded : Text → ℕ → DebugRow → DebugRecord
unfolding decode_meta decode_tag decode_invalid
decoded trace rank r =
    let (poll_count, src, vblock) = decode_meta r.meta in
    let (tag_step, tag_run_id, tag_kind) = decode_tag r.tag in
    record {
      trace = trace;
      rank = rank;
      src = src;
      vblock = vblock;
      poll_count = poll_count;
      latency = r.latency;
      step = r.step;
      tag = r.tag;
      tag_step = tag_step;
      tag_run_id = tag_run_id;
      tag_kind = tag_kind;
      sender_time = r.sender_time;
      offset = r.offset;
      corrected_sender_time = r.corrected_sender_time;
      local_time = r.local_time;
      invalid = decode_invalid r.meta r.latency;
    }

abbrev pub decoded_rows : Text → ℕ → List DebugRow → List DebugRecord
decoded_rows trace rank [] = []
decoded_rows trace rank (r ∷ rs) =
    if is_unwritten_debug_record r
    then decoded_rows trace rank rs
    else decoded trace rank r ∷ decoded_rows trace rank rs

module _ {File : Type 0} (load_reader : Dir File → Result (File → Result Parsed))
    (match_rank : Text → Option ℕ) where
  abbrev read_file : Text → ℕ → (File → Result Parsed) → Text × File → Result (List DebugRecord)
  read_file trace rank parse (_, file) =
      parse file >>= λ p. ok (decoded_rows trace rank (value_or [] p.sr_latency_debug))

  abbrev read_dir : Text × Dir File → Result (List DebugRecord)
  read_dir (trace, d) = parse_rank match_rank d >>= λ rank.
      load_reader d >>= λ parse. collect (read_file trace rank parse) (bin_files d)

  unfoldable pub read_debug_records : Root File → Result (List DebugRecord)
  read_debug_records root = iter_trace_dirs root >>= λ dirs. collect read_dir dirs
