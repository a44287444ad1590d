-- ===== src/Examples/Ptp.antt =====
-- Concrete runs of the PTP closure analyzer, analysis/ptp_alignment.py.
use fabricperf.Prelude.{
  replicate, ℕ, ◌≡◌, refl, ◌&&◌, true, not, eqb, Option, none, some, List, [], ◌∷◌, ◌++◌, map, ltb,
  keep, arith, All, if◌then◌else◌,
}
use fabricperf.Prelude.Int.{ℤ, pos, negsuc, ◌-ℤ◌, neg_ℤ}
use fabricperf.Prelude.Keys.{nat_eq, pair_eq}
use fabricperf.Prelude.Dict.{get, put, assign, value_or}
use mathlib.Core.List.{flatten}
use fabricperf.Prelude.Sort.{sort}
use fabricperf.Prelude.Text.{Text, codes, contains_text, starts_with}
use fabricperf.Prelude.Result.{Result, ok, raise, value_error}
use fabricperf.Trace.{Dir, Root, iter_trace_dirs, bin_files, parse_rank}
use fabricperf.Latency.Compact.{Bytes, TraceHeader, TraceSection, read_header, le_value}
use fabricperf.Ptp.Slots.{decode_ptp_slot}
use fabricperf.Ptp.Slots.Encode.{slot_of, decode_ptp_slot-slot_of}
use fabricperf.Ptp.Offsets.{
  PairOffsets, offsets_of, measured, derive_root_relative_offsets, closure_residuals, is_empty,
  differences,
}
use fabricperf.Ptp.Offsets.Derived.{samples_from_root, derive_root_relative_offsets_at}
use fabricperf.Ptp.Offsets.Closure.{IsZero, derived, closure_residuals-derive_root_relative_offsets}
use fabricperf.Ptp.Offsets.Measured.{offsets_of-derive_root_relative_offsets}
use fabricperf.Ptp.Reader.{
  Parsed, PtpRecord, read_ptp_records, read_pair_offsets, group_records, sorted_offsets, offset_of,
  Entry,
}
use mathlib.Core.List.{Perm}
use fabricperf.Ptp.Reader.Pairs.{
  IsPlaced, IsOrdered, entry_of, is_of, read_ptp_records-IsPlaced, sorted_offsets-group_records,
}
use fabricperf.Ptp.Reader.Ranks.{read_pair_offsets_unranked}

-- Rank 1 has direct samples, rank 2 only inverse ones.
abbrev offsets : PairOffsets
offsets = ((0, 1), pos 10 ∷ pos 12 ∷ []) ∷ ((2, 0), negsuc 29 ∷ negsuc 30 ∷ negsuc 31 ∷ []) ∷ []

derive_run :
    derive_root_relative_offsets offsets 3 0
    ≡ ((0, 1), pos 10 ∷ pos 12 ∷ [])
      ∷ ((0, 2), pos 30 ∷ pos 31 ∷ pos 32 ∷ [])
      ∷ ((1, 0), negsuc 9 ∷ negsuc 11 ∷ [])
      ∷ ((1, 2), pos 20 ∷ pos 19 ∷ [])
      ∷ ((2, 0), negsuc 29 ∷ negsuc 30 ∷ negsuc 31 ∷ [])
      ∷ ((2, 1), negsuc 19 ∷ negsuc 18 ∷ [])
      ∷ []
unfolding derive_root_relative_offsets get put assign flatten ◌-ℤ◌ neg_ℤ
derive_run = refl

closure_residuals-derive_root_relative_offsets_example :
    All IsZero (closure_residuals (derived offsets 3 0) 1 0 2)
closure_residuals-derive_root_relative_offsets_example =
    closure_residuals-derive_root_relative_offsets offsets 3 0 1 0 2

offsets_of-derive_root_relative_offsets_example :
    offsets_of (derive_root_relative_offsets offsets 3 0) 0 2 ≡ measured offsets 0 2
offsets_of-derive_root_relative_offsets_example =
    offsets_of-derive_root_relative_offsets offsets 3 0 2 (omega arith) (omega arith) (omega arith)

derive_root_relative_offsets_at_example : get (1, 2) (derive_root_relative_offsets offsets 3 0) ≡ (
    if (ltb 1 3 && ltb 2 3)
      && (not (eqb 1 2)
          && (not (is_empty (samples_from_root offsets 3 0 2))
              && not (is_empty (samples_from_root offsets 3 0 1))))
    then some (differences (samples_from_root offsets 3 0 2) (samples_from_root offsets 3 0 1))
    else none)
derive_root_relative_offsets_at_example = derive_root_relative_offsets_at offsets 3 0 1 2

decode_ptp_slot-slot_of_example : decode_ptp_slot (slot_of 20 7 1 3 5) 20 7 ≡ ok (1, 3, 5)
decode_ptp_slot-slot_of_example =
    decode_ptp_slot-slot_of 20 7 1 3 5 (omega arith) (omega arith) (omega arith)

abbrev record_at : ℕ → ℕ → ℕ → ℕ → ℤ → PtpRecord
record_at file slot src dst offset = record {
  trace = codes "t";
  rank = dst;
  file_index = file;
  slot_index = slot;
  sample_index = 0;
  src = src;
  dst = dst;
  offset = offset;
  latency = pos 5;
}

abbrev records : List PtpRecord
records = record_at 1 0 0 1 (pos 7) ∷ record_at 0 20 0 2 (pos 8) ∷ record_at 0 0 0 1 (pos 9) ∷ []

sorted_offsets-group_records_example :
    (es : List Entry) × Perm es (map entry_of (keep (is_of (0, 1)) records))
    × IsOrdered es
    × (value_or [] (get (0, 1) (map sorted_offsets (group_records [] records))) ≡ map offset_of es)
sorted_offsets-group_records_example = sorted_offsets-group_records (0, 1) records

-- A layout of the header and of a section for these runs.
abbrev header_of : List ℤ → TraceHeader
header_of (gx ∷ gy ∷ gz ∷ bx ∷ by ∷ bz ∷ _ ∷ probes ∷ _) = record {
  grid_dim_x = gx;
  grid_dim_y = gy;
  grid_dim_z = gz;
  block_dim_x = bx;
  block_dim_y = by;
  block_dim_z = bz;
  num_probes = probes;
}
header_of _ = record {
  grid_dim_x = pos 0;
  grid_dim_y = pos 0;
  grid_dim_z = pos 0;
  block_dim_x = pos 0;
  block_dim_y = pos 0;
  block_dim_z = pos 0;
  num_probes = pos 0;
}

abbrev section_of : ℕ → ℕ → ℕ → TraceSection
section_of size warp_div offset = record { size = size; warp_div = warp_div; offset = offset }

abbrev load_reader : Dir Bytes → Result (Bytes → Result Parsed)
load_reader _ = ok (λ _. ok (record { ptp_metrics = none }))

abbrev no_rank : Text → Option ℕ
no_rank _ = none

abbrev helper : Dir Bytes
helper = record {
  name = codes "helper";
  path = codes "/t/helper";
  is_dir = true;
  has_reader = true;
  has_result = true;
  result = [];
  event_log = some (codes "starting" ∷ []);
  csv = none;
}

abbrev helper_root : Root Bytes
helper_root = record { parent_name = codes "t"; self = helper; children = [] }

abbrev no_rank_message : Text
no_rank_message = codes "could not infer rank from /t/helper/event.log"

helper_run : parse_rank no_rank helper ≡ raise value_error no_rank_message
unfolding parse_rank
helper_run = refl

helper_message : contains_text (codes "could not infer rank") no_rank_message ≡ true
unfolding contains_text starts_with
helper_message = refl

helper_dirs : iter_trace_dirs helper_root ≡ ok ((codes "t", helper) ∷ [])
unfolding iter_trace_dirs
helper_dirs = refl

read_pair_offsets_unranked_example :
    read_pair_offsets header_of section_of load_reader no_rank helper_root none 20 7
    ≡ raise value_error no_rank_message
read_pair_offsets_unranked_example =
    read_pair_offsets_unranked header_of section_of load_reader no_rank helper_root [] []
      (codes "t") no_rank_message helper [] 20 7 helper_dirs refl helper_run

abbrev plain_file : Bytes
plain_file = replicate 28 0 ++ 3 ∷ 0 ∷ 0 ∷ 0 ∷ []

abbrev row_reader : Dir Bytes → Result (Bytes → Result Parsed)
row_reader _ =
    ok (λ _. ok (record { ptp_metrics = some (record { offset = pos 7; latency = pos 3 } ∷ []) }))

abbrev rank_one : Text → Option ℕ
rank_one _ = some 1

abbrev ranked : Dir Bytes
ranked = record helper { result = (codes "0.bin", plain_file) ∷ [] }

abbrev ranked_record : PtpRecord
ranked_record = record {
  trace = codes "t";
  rank = 1;
  file_index = 0;
  slot_index = 0;
  sample_index = 0;
  src = 0;
  dst = 1;
  offset = pos 7;
  latency = pos 3;
}

read_ptp_records_run :
    read_ptp_records header_of section_of row_reader rank_one 8 20 7 (codes "t", ranked)
    ≡ ok (ranked_record ∷ [])
unfolding read_ptp_records parse_rank bin_files starts_with sort decode_ptp_slot read_header
    le_value
read_ptp_records_run = refl

read_ptp_records-IsPlaced_example : All (IsPlaced 8 20 7) (ranked_record ∷ [])
read_ptp_records-IsPlaced_example =
    read_ptp_records-IsPlaced 8 20 7 header_of section_of row_reader rank_one (codes "t", ranked)
      (ranked_record ∷ []) read_ptp_records_run
