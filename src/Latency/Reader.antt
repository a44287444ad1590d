-- ===== src/Latency/Reader.antt =====
-- `read_trace` of analysis/latency.py: the result files of one rank into per-channel statistics. The
-- generated reader, the rank pattern and the named tuples' layouts are parameters.
pub mod Samples
pub mod Counts
pub mod Errors
use fabricperf.Prelude.{
  ℕ, ◌+◌, Bool, true, false, ◌&&◌, ◌||◌, Option, none, some, List, [], ◌∷◌, ◌++◌, map, eqb,
  if◌then◌else◌,
}
use mathlib.Core.List.{flatten}
use fabricperf.Prelude.Int.{ℤ, pos, eqb_ℤ, int_eq}
use fabricperf.Prelude.Keys.{nat_eq, pair_eq}
use fabricperf.Prelude.Dict.{Dict, get, put, value_or}
use fabricperf.Prelude.Text.{Text, codes}
use fabricperf.Prelude.Result.{
  Result, ok, raise, ErrorKind, value_error, file_not_found_error, os_error, index_error, key_error,
  type_error, import_error, name_error, zero_division_error, struct_error, ◌>>=◌, fold,
}
use fabricperf.Trace.{Dir, bin_files, parse_rank}
use fabricperf.Latency.Channel.{
  Sample, ChannelField, vblock_field, cta_field, latency_of, step_of, channel_field_for,
  is_unwritten_latency_record, is_invalid_latency_record, split_latency_channel,
}
use fabricperf.Latency.Compact.{
  Bytes, SampleType, TraceHeader, TraceSection, read_header, parse_compact_sr_latency_section,
}

pub record ChannelStats : Type 0 where
  pub latencies : List ℤ
  pub steps : List ℕ
  pub invalid_steps : List ℕ

abbrev pub no_samples : ChannelStats
no_samples = record { latencies = []; steps = []; invalid_steps = [] }

-- `ChannelStats.add` and `ChannelStats.add_invalid`
abbrev pub add : ChannelStats → ℤ → ℕ → ChannelStats
add c latency step = record c {
  latencies = c.latencies ++ latency ∷ [];
  steps = c.steps ++ step ∷ [];
}

abbrev pub add_invalid : ChannelStats → ℕ → ChannelStats
add_invalid c step = record c { invalid_steps = c.invalid_steps ++ step ∷ [] }

-- `(src_peer, channel)`
abbrev pub Channel : Type 0
Channel = ℤ × ℕ

pub record TraceStats : Type 0 where
  pub trace_name : Text
  pub rank : ℕ
  pub channel_field : ChannelField
  pub channels : Dict Channel ChannelStats
  pub per_file_counts : List (Dict Channel ℕ)
  pub files : ℕ
  pub skipped_malformed : ℕ

-- The local variables of one file's loop.
pub record Counting : Type 0 where
  pub channels : Dict Channel ChannelStats
  pub file_counts : Dict Channel ℕ

-- One record of the loop: an unwritten slot is passed over, any other is counted.
unfoldable pub add_record : ChannelField → Counting → Sample → Counting
add_record field c r =
    let channel = split_latency_channel r field in
    let old = value_or no_samples (get channel c.channels) in
    let new =
      if is_invalid_latency_record r
      then add_invalid old (step_of r)
      else add old (latency_of r) (step_of r) in
    if is_unwritten_latency_record r field then c else record {
      channels = put channel new c.channels;
      file_counts = put channel (value_or 0 (get channel c.file_counts) + 1) c.file_counts;
    }

unfoldable pub add_records : ChannelField → Counting → List Sample → Counting
unfolding add_record
add_records field c [] = c
add_records field c (r ∷ rs) = add_records field (add_record field c r) rs

abbrev pub new_stats : Text → ℕ → ChannelField → TraceStats
new_stats trace_name rank field = record {
  trace_name = trace_name;
  rank = rank;
  channel_field = field;
  channels = [];
  per_file_counts = [];
  files = 0;
  skipped_malformed = 0;
}

abbrev pub same_field : ChannelField → ChannelField → Bool
same_field vblock_field vblock_field = true
same_field cta_field cta_field = true
same_field _ _ = false

-- `stats is None` until some record is written; a file without one leaves it so.
abbrev pub count_file : TraceStats → Counting → TraceStats
count_file stats c = record stats {
  channels = c.channels;
  files = stats.files + 1;
  per_file_counts = stats.per_file_counts ++ c.file_counts ∷ [];
}

abbrev pub counted : TraceStats → Option TraceStats → Counting → Dict Channel ℕ → Option TraceStats
counted fresh stats c [] = stats
counted fresh stats c (_ ∷ _) = some (count_file (value_or fresh stats) c)

abbrev pub clashes : ChannelField → Option TraceStats → Bool
clashes field none = false
clashes field (some stats) = elim (same_field stats.channel_field field) [
  | true ↦ false
  | false ↦ true
]

-- What a file's records add to the statistics.
unfoldable pub add_file :
    Text → ℕ → Text → Option TraceStats → List Sample → Result (Option TraceStats)
unfolding add_records
add_file trace_name rank path stats [] = ok stats
add_file trace_name rank path stats (r ∷ rs) = do
  field ← channel_field_for r trace_name
  let fresh = new_stats trace_name rank field
  let start : Counting = record { channels = (value_or fresh stats).channels; file_counts = [] }
  let c = add_records field start (r ∷ rs)
  let result = counted fresh stats c c.file_counts
  if clashes field stats
      then raise value_error (codes "channel field changed for " ++ path)
      else ok result

-- What the generated reader returns: the `sr_latency` blocks, if the section is there.
pub record Parsed : Type 0 where
  pub sr_latency : Option (List (List (List Sample)))

-- The generated module `read.py`: `parse`, and the named tuple `sr_latency` if it has one.
pub record GeneratedReader : Type 0 where
  pub parse : Bytes → Result Parsed
  pub sr_latency : Option SampleType

-- The handler of `(IndexError, KeyError)` calls a function that no module defines.
abbrev pub undefined_message : Text
undefined_message = codes "name 'parse_single_section_sr_latency' is not defined"

abbrev pub undefined_fallback : Result (List Sample)
undefined_fallback = raise name_error undefined_message

abbrev pub flat_samples : Parsed → Result (List Sample)
flat_samples p = elim p.sr_latency [
  | none ↦ undefined_fallback
  | some blocks ↦ ok (flatten (flatten blocks))
]

abbrev pub samples_of : Result Parsed → Result (List Sample)
samples_of (ok p) = flat_samples p
samples_of (raise index_error m) = undefined_fallback
samples_of (raise key_error m) = undefined_fallback
samples_of (raise kind m) = raise kind m

-- `except (OSError, struct.error, ValueError)`
abbrev pub is_malformed : ErrorKind → Bool
is_malformed os_error = true
is_malformed file_not_found_error = true
is_malformed struct_error = true
is_malformed value_error = true
is_malformed _ = false

pub record Progress : Type 0 where
  pub stats : Option TraceStats
  pub skipped : ℕ

module _ (header_of : List ℤ → TraceHeader) (section_of : ℕ → ℕ → ℕ → TraceSection)
    (load_reader : Dir Bytes → Result GeneratedReader) (match_rank : Text → Option ℕ) where
  unfoldable pub parse_sr_latency_records : GeneratedReader → Bytes → Result (List Sample)
  parse_sr_latency_records reader file = do
    header ← read_header header_of section_of file
    if eqb_ℤ header.num_probes (pos 1) || eqb_ℤ header.num_probes (pos 2)
        then parse_compact_sr_latency_section header_of section_of reader.sr_latency file 0
        else samples_of (reader.parse file)

  abbrev pub take_file : Text → ℕ → Text → Progress → Result (List Sample) → Result Progress
  take_file trace_name rank path p (ok records) = do
    stats ← add_file trace_name rank path p.stats records
    ok (record p { stats = stats })
  take_file trace_name rank path p (raise kind m) =
      if is_malformed kind then ok (record p { skipped = p.skipped + 1 }) else raise kind m

  unfoldable pub read_file :
      Text → ℕ → Text → GeneratedReader → Progress → Text × Bytes → Result Progress
  unfolding parse_sr_latency_records add_file
  read_file trace_name rank path reader p (name, file) =
      take_file trace_name rank path p (parse_sr_latency_records reader file)

  abbrev pub finished : Text → ℕ → Option TraceStats → Result TraceStats
  finished path skipped none =
      raise value_error (codes "no sr_latency records found under: " ++ path)
  finished path skipped (some stats) = ok (record stats { skipped_malformed = skipped })

  abbrev pub read_files :
      Text → Dir Bytes → GeneratedReader → List (Text × Bytes) → Result TraceStats
  read_files trace_name d reader [] =
      raise file_not_found_error (codes "no result/*.bin files under: " ++ d.path)
  read_files trace_name d reader (f ∷ fs) = do
    rank ← parse_rank match_rank d
    let start : Progress = record { stats = none; skipped = 0 }
    p ← fold (read_file trace_name rank d.path reader) start (f ∷ fs)
    finished d.path p.skipped p.stats

  unfoldable pub read_trace : Text → Dir Bytes → Result TraceStats
  unfolding read_file
  read_trace trace_name d = do reader ← load_reader d; read_files trace_name d reader (bin_files d)
