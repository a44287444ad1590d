-- ===== src/Memory/Probe.antt =====
-- The probe byte totals of analysis/memory.py: `ProbeByteRow`, `ProbeByteStats` and their readers.
pub mod Totals
use fabricperf.Prelude.{
  ℕ, ◌+◌, Bool, true, false, not, ◌&&◌, Option, none, some, List, [], ◌∷◌, if◌then◌else◌,
}
use mathlib.Core.List.{flatten}
use fabricperf.Prelude.Int.{ℤ, pos, int_eq}
use fabricperf.Prelude.Keys.{pair_eq}
use fabricperf.Prelude.Dict.{Dict, get, put, value_or}
use fabricperf.Prelude.Text.{Text}
use fabricperf.Prelude.Result.{Result, ok, ◌>>=◌, fold}
use fabricperf.Trace.{Dir, Root, bin_files, parse_rank, iter_trace_dirs}

-- A `fabricperf_probe_bytes` record.
pub record ByteRecord : Type 0 where
  pub launch_index : ℤ
  pub ld_global_bytes : ℕ
  pub st_global_bytes : ℕ
  pub cp_async_bytes : ℕ

pub record ProbeByteRow : Type 0 where
  pub launch_index : ℤ
  pub ld_global_bytes : ℕ
  pub st_global_bytes : ℕ
  pub cp_async_bytes : ℕ
  pub records : ℕ

abbrev pub new_row : ℤ → ProbeByteRow
new_row launch_index = record {
  launch_index = launch_index;
  ld_global_bytes = 0;
  st_global_bytes = 0;
  cp_async_bytes = 0;
  records = 0;
}

-- `ProbeByteRow.add`
unfoldable pub add_bytes : ProbeByteRow → ByteRecord → ProbeByteRow
add_bytes p r = record p {
  ld_global_bytes = p.ld_global_bytes + r.ld_global_bytes;
  st_global_bytes = p.st_global_bytes + r.st_global_bytes;
  cp_async_bytes = p.cp_async_bytes + r.cp_async_bytes;
  records = p.records + 1;
}

unfoldable pub read_bytes : ProbeByteRow → ℕ
read_bytes p = p.ld_global_bytes + p.cp_async_bytes

unfoldable pub write_bytes : ProbeByteRow → ℕ
write_bytes p = p.st_global_bytes

-- `ProbeByteStats.by_launch`
abbrev pub ByLaunch : Type 0
ByLaunch = Dict ℤ ProbeByteRow

-- `ProbeByteStats.add`
unfoldable pub add_record : ByLaunch → ByteRecord → ByLaunch
unfolding add_bytes
add_record by_launch r =
    put r.launch_index
      (add_bytes (value_or (new_row r.launch_index) (get r.launch_index by_launch)) r) by_launch

unfoldable pub add_records : ByLaunch → List ByteRecord → ByLaunch
unfolding add_record
add_records by_launch [] = by_launch
add_records by_launch (r ∷ rs) = add_records (add_record by_launch r) rs

-- What the generated reader returns: the blocks of lanes of records, if the section is there.
pub record Parsed : Type 0 where
  pub fabricperf_probe_bytes : Option (List (List (List ByteRecord)))

abbrev pub records_of : Parsed → List ByteRecord
records_of p = flatten (flatten (value_or [] p.fabricperf_probe_bytes))

-- Rank and launch index.
abbrev pub ProbeKey : Type 0
ProbeKey = ℤ × ℤ

abbrev pub by_rank : ℕ → ByLaunch → Dict ProbeKey ProbeByteRow → Dict ProbeKey ProbeByteRow
by_rank rank [] stats = stats
by_rank rank ((launch_index, probe) ∷ ps) stats =
    by_rank rank ps (put (pos rank, launch_index) probe stats)

module _ {File : Type 0} (load_reader : Dir File → Result (File → Result Parsed))
    (match_rank : Text → Option ℕ) where
  abbrev read_file : (File → Result Parsed) → ByLaunch → Text × File → Result ByLaunch
  read_file parse by_launch (_, file) =
      parse file >>= λ p. ok (add_records by_launch (records_of p))

  abbrev nonempty : ByLaunch → Option ByLaunch
  nonempty [] = none
  nonempty (e ∷ by_launch) = some (e ∷ by_launch)

  abbrev read_files : (File → Result Parsed) → List (Text × File) → Result (Option ByLaunch)
  read_files parse [] = ok none
  read_files parse (f ∷ fs) =
      fold (read_file parse) [] (f ∷ fs) >>= λ by_launch. ok (nonempty by_launch)

  unfoldable pub read_probe_byte_stats : Dir File → Result (Option ByLaunch)
  unfolding add_records
  read_probe_byte_stats d =
      let read = load_reader d >>= λ parse. read_files parse (bin_files d) in
      if d.has_reader && d.has_result then read else ok none

  abbrev collect_one :
      Dir File → Dict ProbeKey ProbeByteRow → Option ByLaunch → Result (Dict ProbeKey ProbeByteRow)
  collect_one d stats none = ok stats
  collect_one d stats (some by_launch) =
      parse_rank match_rank d >>= λ rank. ok (by_rank rank by_launch stats)

  abbrev collect_dir :
      Dict ProbeKey ProbeByteRow → Text × Dir File → Result (Dict ProbeKey ProbeByteRow)
  collect_dir stats (_, d) = read_probe_byte_stats d >>= λ found. collect_one d stats found

  unfoldable pub collect_probe_byte_stats_by_rank : Root File → Result (Dict ProbeKey ProbeByteRow)
  unfolding read_probe_byte_stats
  collect_probe_byte_stats_by_rank root = iter_trace_dirs root >>= λ dirs. fold collect_dir [] dirs
