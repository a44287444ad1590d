-- ===== src/Examples/Latency.antt =====
-- Concrete runs of the latency analyzer, analysis/latency.py.
use fabricperf.Prelude.{
  ℕ, ◌*◌, ◌≡◌, refl, true, Option, none, some, List, [], ◌∷◌, ◌++◌, map, keep, arith, length, range,
  sum_by, replicate, inr, All,
}
use fabricperf.Prelude.Int.{ℤ, pos, negsuc, int_eq, ◌*ℤ◌}
use fabricperf.Prelude.Keys.{nat_eq, pair_eq}
use fabricperf.Prelude.Dict.{get, put, sum_values}
use fabricperf.Prelude.Sort.{sort}
use fabricperf.Prelude.Text.{Text, codes, starts_with}
use fabricperf.Prelude.Result.{Result, ok, raise, key_error, name_error, struct_error, collect}
use fabricperf.Trace.{FileSystem, iter_trace_dirs, resolve_trace_root, Dir, bin_files, parse_rank}
use fabricperf.Latency.Channel.{
  Sample, vblock_field, latency_of, step_of, split_latency_channel, is_invalid_latency_record,
  is_unwritten_latency_record, channel_field_for,
}
use fabricperf.Latency.Channel.Pack.{pack, packed, split_latency_channel-pack}
use fabricperf.Latency.Compact.{
  Bytes, SampleType, TraceHeader, TraceSection, row_of_bytes, read_stream, read_streams, le_value,
  read_header, parse_compact_sr_latency_section,
}
use fabricperf.Latency.Compact.Rows.{row_bytes, row_of_bytes-row_bytes, read_streams-flat}
use fabricperf.Latency.Reader.{
  Counting, Progress, TraceStats, GeneratedReader, add_records, read_trace, read_file,
  undefined_message, parse_sr_latency_records,
}
use fabricperf.Latency.Reader.Samples.{at, is_valid_of, is_invalid_of, add_records-appends}
use fabricperf.Latency.Reader.Counts.{samples, file_total, read_trace_counts}
use fabricperf.Latency.Roots.{analyze_latency_roots}
use mathlib.Core.List.{Perm}
use fabricperf.Latency.Roots.Complete.{Appends, RootAdds, analyze_latency_roots-Adds}
use fabricperf.Latency.Reader.Errors.{IsReadable, read_file_undefined, read_trace-IsReadable}

split_latency_channel-pack_example :
    (split_latency_channel (packed (pos 812) 4 (pack true 2 7)) vblock_field ≡ (pos 2, 7))
    × (is_invalid_latency_record (packed (pos 812) 4 (pack true 2 7)) ≡ true)
split_latency_channel-pack_example =
    split_latency_channel-pack true 2 7 4 (pos 812) (omega arith) (omega arith)
      (λ p. absurd (ground (arith, p)))

row_of_bytes-row_bytes_example :
    row_of_bytes (row_bytes (negsuc 41) 196615 9) ≡ (negsuc 41, 196615, 9)
row_of_bytes-row_bytes_example =
    row_of_bytes-row_bytes (negsuc 41) 196615 9 (omega arith) (omega arith) (omega arith)

abbrev section : TraceSection
section = record { size = 16; warp_div = 32; offset = 48 }

-- A header with one block of 64 threads and one section, then the rows of two warps.
abbrev compact_file : Bytes
compact_file =
    (1 ∷ 0 ∷ 0 ∷ 0 ∷ 1 ∷ 0 ∷ 0 ∷ 0 ∷ 1 ∷ 0 ∷ 0 ∷ 0 ∷ [])
    ++ (64 ∷ 0 ∷ 0 ∷ 0 ∷ 1 ∷ 0 ∷ 0 ∷ 0 ∷ 1 ∷ 0 ∷ 0 ∷ 0 ∷ [])
    ++ (0 ∷ 0 ∷ 0 ∷ 0 ∷ 1 ∷ 0 ∷ 0 ∷ 0 ∷ [])
    ++ (16 ∷ 0 ∷ 0 ∷ 0 ∷ 32 ∷ 0 ∷ 0 ∷ 0 ∷ 48 ∷ 0 ∷ 0 ∷ 0 ∷ 0 ∷ 0 ∷ 0 ∷ 0 ∷ [])
    ++ (5 ∷ 0 ∷ 0 ∷ 0 ∷ 0 ∷ 0 ∷ 0 ∷ 0 ∷ 7 ∷ 0 ∷ 3 ∷ 0 ∷ 2 ∷ 0 ∷ 0 ∷ 0 ∷ [])
    ++ replicate 16 0

-- The named tuple of a reader whose channel field is `vblock`.
abbrev vblock_sample : SampleType
vblock_sample latency channel step =
    ok (record { latency = some latency; step = some step; vblock = some channel; cta = none })

read_streams-flat_example :
    read_streams vblock_sample compact_file section 1 2
    ≡ collect (read_stream vblock_sample compact_file section) (range (1 * 2))
read_streams-flat_example = read_streams-flat vblock_sample compact_file section 1 2

abbrev header_of : List ℤ → TraceHeader
header_of (gx ∷ gy ∷ gz ∷ bx ∷ by ∷ bz ∷ _ ∷ probes ∷ _) = record {
  grid_dim_x = gx;
  grid_dim_y = gy;
  grid_dim_z = gz;
  block_dim_x = bx;
  block_dim_y = by;
  block_dim_z = bz;
  num_probes = probes;
}
header_of _ = record {
  grid_dim_x = pos 0;
  grid_dim_y = pos 0;
  grid_dim_z = pos 0;
  block_dim_x = pos 0;
  block_dim_y = pos 0;
  block_dim_z = pos 0;
  num_probes = pos 0;
}

abbrev section_of : ℕ → ℕ → ℕ → TraceSection
section_of size warp_div offset = record { size = size; warp_div = warp_div; offset = offset }

abbrev compact_reader : GeneratedReader
compact_reader = record {
  parse = λ _. raise key_error (codes "sr_latency");
  sr_latency = some vblock_sample;
}

abbrev load_reader : Dir Bytes → Result GeneratedReader
load_reader _ = ok compact_reader

abbrev rank_one : Text → Option ℕ
rank_one _ = some 1

abbrev trace_dir : Dir Bytes
trace_dir = record {
  name = codes "rank1";
  path = codes "/t/rank1";
  is_dir = true;
  has_reader = true;
  has_result = true;
  result = (codes "0.bin", compact_file) ∷ [];
  event_log = some (codes "rank=1" ∷ []);
  csv = none;
}

abbrev trace_stats : TraceStats
trace_stats = record {
  trace_name = codes "t";
  rank = 1;
  channel_field = vblock_field;
  channels =
      ((pos 2, 7), record { latencies = pos 5 ∷ []; steps = 2 ∷ []; invalid_steps = [] }) ∷ [];
  per_file_counts = (((pos 2, 7), 1) ∷ []) ∷ [];
  files = 1;
  skipped_malformed = 0;
}

read_trace_run :
    read_trace header_of section_of load_reader rank_one (codes "t") trace_dir ≡ ok trace_stats
unfolding read_trace read_file bin_files sort starts_with parse_rank
    parse_compact_sr_latency_section row_of_bytes le_value channel_field_for add_records
    is_unwritten_latency_record is_invalid_latency_record split_latency_channel get put ◌*ℤ◌
read_trace_run = refl

read_trace_counts_example :
    (sum_values samples trace_stats.channels ≡ sum_by file_total trace_stats.per_file_counts)
    × (trace_stats.files ≡ length trace_stats.per_file_counts)
read_trace_counts_example =
    read_trace_counts header_of section_of load_reader rank_one (codes "t") trace_dir trace_stats
      read_trace_run

abbrev start : Counting
start = record { channels = []; file_counts = [] }

abbrev rows : List Sample
rows = packed (pos 5) 2 196615 ∷ packed (pos 0) 0 0 ∷ packed (pos 9) 3 (pack true 2 7) ∷ []

add_records-appends_example :
    ((at (pos 2, 7) (add_records vblock_field start rows).channels).latencies
      ≡ (at (pos 2, 7) start.channels).latencies
        ++ map latency_of (keep (is_valid_of vblock_field (pos 2, 7)) rows))
    × ((at (pos 2, 7) (add_records vblock_field start rows).channels).steps
        ≡ (at (pos 2, 7) start.channels).steps
          ++ map step_of (keep (is_valid_of vblock_field (pos 2, 7)) rows))
    × ((at (pos 2, 7) (add_records vblock_field start rows).channels).invalid_steps
        ≡ (at (pos 2, 7) start.channels).invalid_steps
          ++ map step_of (keep (is_invalid_of vblock_field (pos 2, 7)) rows))
add_records-appends_example = add_records-appends vblock_field (pos 2, 7) start rows

abbrev plain_file : Bytes
plain_file = replicate 28 0 ++ 3 ∷ 0 ∷ 0 ∷ 0 ∷ []

abbrev plain_header : TraceHeader
plain_header = record (header_of []) { num_probes = pos 3 }

plain_run : read_header header_of section_of plain_file ≡ ok plain_header
unfolding read_header le_value
plain_run = refl

abbrev fresh : Progress
fresh = record { stats = none; skipped = 0 }

lacks_the_section :
    read_file header_of section_of load_reader rank_one
      (codes "t")
      1
      (codes "/t/rank1")
      compact_reader
      fresh
      (codes "0.bin", plain_file)
    ≡ raise name_error undefined_message
lacks_the_section =
    read_file_undefined header_of section_of load_reader rank_one (codes "t") 1 (codes "/t/rank1")
      compact_reader fresh (codes "0.bin") plain_file plain_header plain_run refl refl (inr refl)

read_trace-IsReadable_example :
    All (IsReadable header_of section_of load_reader rank_one compact_reader) (bin_files trace_dir)
read_trace-IsReadable_example =
    read_trace-IsReadable header_of section_of load_reader rank_one (codes "t") trace_dir
      compact_reader trace_stats refl read_trace_run

abbrev truncated : Text
truncated = codes "unpack requires a buffer of the right size"

truncated_run :
    parse_sr_latency_records header_of section_of load_reader rank_one compact_reader (1 ∷ 2 ∷ [])
    ≡ raise struct_error truncated
unfolding parse_sr_latency_records read_header
truncated_run = refl

-- One trace root, found as it is given.
abbrev file_system : FileSystem Bytes
file_system = record {
  expanduser = λ p. p;
  exists = λ _. true;
  resolve = λ p. p;
  in_workspace = λ p. p;
  in_repo = λ p. p;
  open_root = λ _. record { parent_name = codes "t"; self = trace_dir; children = [] };
}

analyze_latency_roots_run :
    analyze_latency_roots header_of section_of load_reader rank_one file_system
      (codes "/t/rank1" ∷ [])
    ≡ ok (trace_stats ∷ [])
unfolding analyze_latency_roots resolve_trace_root iter_trace_dirs read_trace read_file bin_files
    sort starts_with parse_rank parse_compact_sr_latency_section row_of_bytes le_value
    channel_field_for add_records is_unwritten_latency_record is_invalid_latency_record
    split_latency_channel get put ◌*ℤ◌
analyze_latency_roots_run = refl

analyze_latency_roots-Adds_example :
    (read : List TraceStats) × Appends
      (RootAdds header_of section_of load_reader rank_one file_system)
      (codes "/t/rank1" ∷ [])
      read
    × Perm (trace_stats ∷ []) read
analyze_latency_roots-Adds_example =
    analyze_latency_roots-Adds header_of section_of load_reader rank_one file_system
      (codes "/t/rank1" ∷ []) (trace_stats ∷ []) analyze_latency_roots_run
