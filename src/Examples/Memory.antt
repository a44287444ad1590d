-- ===== src/Examples/Memory.antt =====
-- Concrete runs of memory mode, analysis/memory.py and analysis/common.py.
use Prim.Native.String.{String}
use fabricperf.Prelude.{ℕ, ◌+◌, ◌≡◌, true, false, some, List, [], ◌∷◌, keep, length, sum_by, All}
use fabricperf.Prelude.Int.{ℤ, pos, ◌+ℤ◌, ◌-ℤ◌, ◌*ℤ◌, leb_ℤ, pos_part}
use fabricperf.Prelude.Keys.{◌==◌, string_eq}
use fabricperf.Prelude.Dict.{get}
use fabricperf.Prelude.Text.{codes, show, parse_int}
use fabricperf.Prelude.Result.{ok}
use fabricperf.Prelude.Float.{FloatOps}
use fabricperf.Memory.Metrics.{Row, write_long_metrics_csv}
use fabricperf.Memory.Metrics.Long.{is_metric, is_diagnostic, all_rows, write_long_metrics_csv_lem}
use fabricperf.Memory.Probe.{ByteRecord, ProbeByteRow, add_records, read_bytes, write_bytes}
use fabricperf.Memory.Probe.Totals.{of_launch, row_at, add_records_totals}
use fabricperf.Memory.Merge.{probe_columns, merge_probe_bytes_into_row}
use fabricperf.Memory.Merge.Columns.{is_set, merge_probe_bytes_into_row_total}

abbrev byte_record : ℤ → ℕ → ByteRecord
byte_record launch n = record {
  launch_index = launch;
  ld_global_bytes = n;
  st_global_bytes = 64;
  cp_async_bytes = 16;
}

abbrev records : List ByteRecord
records = byte_record (pos 0) 32 ∷ byte_record (pos 1) 8 ∷ byte_record (pos 0) 4 ∷ []

add_records_totals_example :
    (read_bytes (row_at (pos 0) (add_records [] records))
      ≡ read_bytes (row_at (pos 0) [])
        + sum_by
            (λ (r : ByteRecord). r.ld_global_bytes + r.cp_async_bytes)
            (keep (of_launch (pos 0)) records))
    × (write_bytes (row_at (pos 0) (add_records [] records))
        ≡ write_bytes (row_at (pos 0) [])
          + sum_by (λ (r : ByteRecord). r.st_global_bytes) (keep (of_launch (pos 0)) records))
    × ((row_at (pos 0) (add_records [] records)).records
        ≡ (row_at (pos 0) []).records + length (keep (of_launch (pos 0)) records))
add_records_totals_example = add_records_totals (pos 0) [] records

abbrev row : Row
row =
    ("rank", codes "0")
    ∷ ("device", codes "3")
    ∷ ("launch_index", codes "0")
    ∷ ("duration_s", codes "2")
    ∷ ("dram_read_Bps", [])
    ∷ ("raw_metrics", codes "cupti_backend=pm_sampling;nvltx__bytes.sum=7")
    ∷ []

write_long_metrics_csv_lem_example :
    ((write_long_metrics_csv (row ∷ [])).0 ≡ keep is_metric (all_rows (row ∷ [])))
    × ((write_long_metrics_csv (row ∷ [])).1 ≡ keep is_diagnostic (all_rows (row ∷ [])))
write_long_metrics_csv_lem_example = write_long_metrics_csv_lem (row ∷ [])

abbrev half : ℤ → ℤ → ℤ
half a b = pos (pos_part a)

-- Whole numbers in the place of floats.
abbrev whole : FloatOps
whole = record {
  Float = ℤ;
  of_int = λ n. n;
  add = ◌+ℤ◌;
  sub = ◌-ℤ◌;
  mul = ◌*ℤ◌;
  div = half;
  le = leb_ℤ;
  is_nan = λ _. false;
  is_integer = λ _. true;
  to_int = λ n. n;
  fixed_two = λ n. show (pos_part n);
  general_seventeen = λ n. show (pos_part n);
  parse = parse_int;
}

abbrev probe : ProbeByteRow
probe = record {
  launch_index = pos 0;
  ld_global_bytes = 32;
  st_global_bytes = 64;
  cp_async_bytes = 16;
  records = 2;
}

merge_probe_bytes_into_row_total_example :
    (row' : Row) × (merge_probe_bytes_into_row whole row probe ≡ ok row')
    × ((name : String)
        → ("raw_metrics" == name) ≡ false
        → is_set name (probe_columns whole row probe) ≡ false
        → get name row' ≡ get name row)
    × All (λ e. get e.0 row' ≡ some e.1) (probe_columns whole row probe)
merge_probe_bytes_into_row_total_example = merge_probe_bytes_into_row_total whole row probe
