-- ===== src/Examples/Throughput.antt =====
-- Concrete runs of the throughput analyzer, analysis/throughput.py.
use fabricperf.Prelude.{
  ◌/◌, ◌-◌, ℕ, ◌+◌, ◌*◌, ◌≡◌, refl, true, false, none, some, List, [], ◌∷◌, ◌++◌, map, arith, min,
  length, All, sum_by,
}
use fabricperf.Prelude.Keys.{nat_eq, list_eq, pair_eq}
use fabricperf.Prelude.Dict.{put, Dict, get, value_or, values, sum_values, IsDict}
use fabricperf.Prelude.Text.{codes, show, starts_with, parse_int}
use fabricperf.Prelude.Sort.{sort}
use fabricperf.Modes.{throughput_partitions}
use fabricperf.Prelude.Result.{ok}
use fabricperf.Trace.{
  FileSystem, resolve_trace_root, Dir, Root, iter_trace_dirs, bin_files, parse_rank,
}
use fabricperf.Throughput.Records.{
  Slot, Launch, base_or, cell_slice, warp_record_streams, workgroup_base_for_warp,
  throughput_workgroup_cell_records, throughput_partition_records,
}
use fabricperf.Throughput.Records.Shape.{IsLaunch, throughput_partition_records_total}
use fabricperf.Throughput.Records.Layout.{
  Slice, launch_of, stream, cell_of, throughput_workgroup_cell_records-stream,
}
use fabricperf.Throughput.Aggregate.{ThroughputAggregate, new_aggregate, add_launch, count_bins}
use fabricperf.Throughput.Aggregate.Totals.{
  in_bin, add_launches, total_of, captured_dropped-add_launches, bin_counts-add_launches,
}
use fabricperf.Throughput.Reader.{Parsed, CsvRow, Key, read_throughput_root}
use fabricperf.Throughput.Output.{Output, analyze_throughput_roots}
use fabricperf.Throughput.Output.Captured.{rows_at, analyze_throughput_roots_rows}
use fabricperf.Throughput.Reader.Rows.{captured_of, IsFiled, read_throughput_root_rows}

abbrev two_fields : ℕ → ℕ → Slot
two_fields s d = record { value = none; sequence = some s; delta_ticks = some d }

-- One header and one arrival in each of two partitions.
abbrev partitioned : List Slot
partitioned = two_fields 1 500 ∷ two_fields 0 40 ∷ two_fields 3 900 ∷ two_fields 0 80 ∷ []

throughput_partition_records_total_example :
    (ls : List Launch) × (throughput_partition_records partitioned 5 2 none ≡ ok ls)
    × All (IsLaunch (base_or (5 * 2) none) 2 (length partitioned / 2 - 1)) ls
throughput_partition_records_total_example =
    throughput_partition_records_total partitioned 5 2 none (omega arith)

abbrev first : Slice
first = record { duration = 20000; total = 3; payload = 1000 ∷ 9000 ∷ 17000 ∷ [] }

abbrev crowded : Slice
crowded = record { duration = 50000; total = 7; payload = 0 ∷ 10 ∷ 20 ∷ [] }

abbrev quiet : Slice
quiet = record { duration = 0; total = 0; payload = 0 ∷ 0 ∷ 0 ∷ [] }

throughput_workgroup_cell_records-stream_example :
    throughput_workgroup_cell_records (stream 3 first crowded quiet first (cell_of 9 ∷ [])) 2 none
    ≡ ok (
        launch_of 3 (8 + 0) first
        ++ (launch_of 3 (8 + 1) crowded
            ++ (launch_of 3 (8 + 2) quiet ++ launch_of 3 (8 + 3) first)))
throughput_workgroup_cell_records-stream_example =
    throughput_workgroup_cell_records-stream 3 first crowded quiet first (cell_of 9 ∷ []) 2 none
      (refl, refl, refl, refl) (omega arith) (omega arith)

abbrev aggregate : ThroughputAggregate
aggregate = new_aggregate (codes "trace") 0 (codes "gmem") 8

abbrev launches : List Launch
launches = launch_of 3 8 first ++ launch_of 3 8 crowded

launches_counted :
    All
      (λ (l : Launch).
        (t : ℕ) × (l.total_arrivals ≡ some t) × (length l.accepted ≡ min t l.capacity))
      launches
launches_counted = ((3, refl, refl), ((7, refl, refl), tt))

captured_dropped-add_launches_example :
    ((add_launches aggregate launches).captured + (add_launches aggregate launches).dropped
      ≡ 0 + 0 + sum_by total_of launches)
    × ((add_launches aggregate launches).dropped_unknown ≡ false)
captured_dropped-add_launches_example =
    captured_dropped-add_launches aggregate launches launches_counted

bin_counts-add_launches_example :
    (sum_values (λ n. n) (add_launches aggregate launches).bin_counts
      ≡ (add_launches aggregate launches).captured)
    × ((bin : ℕ)
        → value_or 0 (get bin (add_launches aggregate launches).bin_counts)
          ≡ value_or 0 (get bin [])
            + sum_by (λ (l : Launch). in_bin bin (map (λ r. r.1) l.accepted)) launches)
bin_counts-add_launches_example = bin_counts-add_launches aggregate launches refl

abbrev read_dir_example : Dir Parsed
read_dir_example = record {
  name = codes "rank0";
  path = codes "/t/rank0";
  is_dir = true;
  has_reader = true;
  has_result = true;
  result =
      (
        codes "0.bin",
        record {
          throughput = some (
              ((cell_of 700 ∷ cell_of 2 ∷ cell_of 8001 ∷ []
                  ++ cell_of 0 ∷ cell_of 0 ∷ cell_of 0 ∷ []
                  ++ cell_of 0 ∷ cell_of 0 ∷ cell_of 0 ∷ []
                  ++ cell_of 0 ∷ cell_of 0 ∷ cell_of 0 ∷ [])
                ∷ [])
              ∷ []);
          throughput_meta = none;
        },
      )
      ∷ [];
  event_log = some (codes "prepared rank=0" ∷ []);
  csv = none;
}

abbrev read_root_example : Root Parsed
read_root_example = record { parent_name = codes "t"; self = read_dir_example; children = [] }

abbrev read_aggregate : ThroughputAggregate
read_aggregate = record (new_aggregate (codes "t") 0 (codes "gmem") 0) {
  captured = 1;
  dropped = 1;
  duration_ticks = 700;
  bin_counts = (1, 1) ∷ [];
}

abbrev read_row : CsvRow
read_row = record {
  trace = codes "t";
  rank = codes "0";
  variant = codes "gmem";
  result_file = codes "0.bin";
  workgroup = codes "0";
  sequence = codes "0";
  delta_ticks = codes "8001";
  bin_ns_field = codes "8000";
  bin_index = codes "1";
}

read_run :
    read_throughput_root {File = Parsed}
      (λ _. ok ok)
      (λ _. some 0)
      (codes "gmem")
      []
      read_root_example
    ≡ ok (read_aggregate ∷ [], read_row ∷ [])
unfolding read_throughput_root throughput_partitions parse_int iter_trace_dirs bin_files parse_rank
    workgroup_base_for_warp throughput_workgroup_cell_records cell_slice warp_record_streams
    add_launch count_bins get put sort starts_with show
read_run = refl

read_throughput_root_rows_example :
    (d : Dict Key ThroughputAggregate) × (values d ≡ read_aggregate ∷ [])
    × IsDict d
    × All IsFiled d
    × (length (read_row ∷ []) ≡ sum_by captured_of (read_aggregate ∷ []))
read_throughput_root_rows_example =
    read_throughput_root_rows {File = Parsed} (λ _. ok ok) (λ _. some 0) (codes "gmem") []
      read_root_example (read_aggregate ∷ []) (read_row ∷ []) read_run

-- One trace root, found as it is given.
abbrev file_system : FileSystem Parsed
file_system = record {
  expanduser = λ p. p;
  exists = λ _. true;
  resolve = λ p. p;
  in_workspace = λ p. p;
  in_repo = λ p. p;
  open_root = λ _. read_root_example;
}

abbrev output : Output
output = record {
  all_aggregates = read_aggregate ∷ [];
  written = (codes "/t/rank0", read_row ∷ []) ∷ [];
}

analyze_throughput_roots_run :
    analyze_throughput_roots {File = Parsed}
      (λ _. ok ok)
      (λ _. some 0)
      (codes "gmem")
      file_system
      []
      (codes "/t/rank0" ∷ [])
    ≡ ok output
unfolding analyze_throughput_roots resolve_trace_root read_throughput_root throughput_partitions
    parse_int iter_trace_dirs bin_files parse_rank workgroup_base_for_warp
    throughput_workgroup_cell_records cell_slice warp_record_streams add_launch count_bins get put
    sort starts_with show
analyze_throughput_roots_run = refl

analyze_throughput_roots_rows_example :
    sum_by rows_at output.written ≡ sum_by captured_of output.all_aggregates
analyze_throughput_roots_rows_example =
    analyze_throughput_roots_rows {File = Parsed} (λ _. ok ok) (λ _. some 0) (codes "gmem")
      file_system [] (codes "/t/rank0" ∷ []) output analyze_throughput_roots_run
