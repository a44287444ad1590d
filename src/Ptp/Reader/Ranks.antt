-- ===== src/Ptp/Reader/Ranks.antt =====
-- Trace directories without a rank, analysis/ptp_alignment.py.
use fabricperf.Prelude.{ℕ, ◌≡◌, refl, true, Option, none, List, ◌∷◌, ◌++◌}
use fabricperf.Prelude.Int.{ℤ}
use fabricperf.Prelude.Text.{Text, codes, contains_text}
use fabricperf.Prelude.Result.{Result, ok, raise, value_error, collect, collect_raises}
use fabricperf.Trace.{Dir, Root, parse_rank, iter_trace_dirs}
use fabricperf.Latency.Compact.{Bytes, TraceHeader, TraceSection}
use fabricperf.Ptp.Reader.{
  Parsed, Grouped, group_dir, rank_of, infer_devices, read_pair_offsets, read_ptp_records,
}

module _ (header_of : List ℤ → TraceHeader) (section_of : ℕ → ℕ → ℕ → TraceSection)
    (load_reader : Dir Bytes → Result (Bytes → Result Parsed)) (match_rank : Text → Option ℕ) where
  -- A directory whose rank cannot be inferred is passed over if the device count is given.
  pub group_dir_unranked :
      (devices samples_per_pair compact_dsts : ℕ) (grouped : Grouped) (trace m : Text)
      (d : Dir Bytes)
      → parse_rank match_rank d ≡ raise value_error m
      → contains_text (codes "could not infer rank") m ≡ true
      → group_dir header_of section_of load_reader match_rank devices samples_per_pair compact_dsts
          grouped
          (trace, d)
        ≡ ok grouped
  unfolding read_ptp_records
  group_dir_unranked devices samples_per_pair compact_dsts grouped trace m d h k = rw (h, k) refl

  -- Without a device count, a directory whose rank cannot be inferred ends the whole analysis with
  -- that error, after directories whose ranks can be.
  pub read_pair_offsets_unranked :
      (root : Root Bytes) (before after : List (Text × Dir Bytes)) (trace m : Text) (d : Dir Bytes)
      (ranks : List ℕ) (samples_per_pair compact_dsts : ℕ)
      → iter_trace_dirs root ≡ ok (before ++ (trace, d) ∷ after)
      → collect (rank_of header_of section_of load_reader match_rank) before ≡ ok ranks
      → parse_rank match_rank d ≡ raise value_error m
      → read_pair_offsets header_of section_of load_reader match_rank root none samples_per_pair
          compact_dsts
        ≡ raise value_error m
  unfolding read_pair_offsets infer_devices
  read_pair_offsets_unranked root before after trace m d ranks samples_per_pair compact_dsts h k r =
      rw
        (
          h,
          collect_raises (rank_of header_of section_of load_reader match_rank) before after
              (trace, d) ranks value_error m k (rw r refl),
        )
        refl
