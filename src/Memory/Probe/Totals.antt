-- ===== src/Memory/Probe/Totals.antt =====
-- The totals of analysis/memory.py's `ProbeByteStats` against the records added to it.
use fabricperf.Prelude.{
  ◌+◌, ◌≡◌, refl, Bool, List, [], ◌∷◌, arith, sum_by, sum_by-keep, length, length-keep, keep,
  if◌then◌else◌, Bool-cases, inl, inr,
}
use fabricperf.Prelude.Int.{ℤ, int_eq}
use fabricperf.Prelude.Keys.{◌==◌}
use fabricperf.Prelude.Dict.{get, get-put, value_or}
use fabricperf.Memory.Probe.{
  ByteRecord, ProbeByteRow, new_row, add_bytes, ByLaunch, add_record, add_records, read_bytes,
  write_bytes,
}

abbrev pub of_launch : ℤ → ByteRecord → Bool
of_launch launch r = r.launch_index == launch

abbrev pub row_at : ℤ → ByLaunch → ProbeByteRow
row_at launch by_launch = value_or (new_row launch) (get launch by_launch)

row_at-add_record :
    (launch : ℤ) (d : ByLaunch) (r : ByteRecord)
    → row_at launch (add_record d r)
      ≡ (if of_launch launch r then add_bytes (row_at launch d) r else row_at launch d)
unfolding add_record
row_at-add_record launch d r = elim (Bool-cases (of_launch launch r)) [
  | inl here ↦
      let same = (int_eq.same_iff r.launch_index launch).0 here in rw (get-put, here, same) refl
  | inr there ↦ rw (get-put, there) refl
]

add_record_totals :
    (launch : ℤ) (d : ByLaunch) (r : ByteRecord)
    → (read_bytes (row_at launch (add_record d r))
        ≡ read_bytes (row_at launch d)
          + (if of_launch launch r then r.ld_global_bytes + r.cp_async_bytes else 0))
      × (write_bytes (row_at launch (add_record d r))
          ≡ write_bytes (row_at launch d) + (if of_launch launch r then r.st_global_bytes else 0))
      × ((row_at launch (add_record d r)).records
          ≡ (row_at launch d).records + (if of_launch launch r then 1 else 0))
unfolding add_bytes read_bytes write_bytes
add_record_totals launch d r = elim (Bool-cases (of_launch launch r)) [
  | inl here ↦ (
    rw (row_at-add_record, here) (omega arith),
    rw (row_at-add_record, here) (omega arith),
    rw (row_at-add_record, here) (omega arith),
  )
  | inr there ↦ (
    rw (row_at-add_record, there) (omega arith),
    rw (row_at-add_record, there) (omega arith),
    rw (row_at-add_record, there) (omega arith),
  )
]

-- The bytes and the record count of each launch are the sums over the records of that launch that are
-- added: loads and asynchronous copies are read bytes, stores are written bytes.
pub add_records_totals :
    (launch : ℤ) (d : ByLaunch) (rs : List ByteRecord)
    → (read_bytes (row_at launch (add_records d rs))
        ≡ read_bytes (row_at launch d)
          + sum_by
              (λ (r : ByteRecord). r.ld_global_bytes + r.cp_async_bytes)
              (keep (of_launch launch) rs))
      × (write_bytes (row_at launch (add_records d rs))
          ≡ write_bytes (row_at launch d)
            + sum_by (λ (r : ByteRecord). r.st_global_bytes) (keep (of_launch launch) rs))
      × ((row_at launch (add_records d rs)).records
          ≡ (row_at launch d).records + length (keep (of_launch launch) rs))
unfolding add_records
add_records_totals launch d [] = (omega arith, omega arith, omega arith)
add_records_totals launch d (r ∷ rs) =
    let (reads, writes, counts) = add_records_totals launch (add_record d r) rs in
    let (read, write, count) = add_record_totals launch d r in
    let test = of_launch launch in
    (
      omega (
        arith,
        reads,
        read,
        sum_by-keep (λ (r : ByteRecord). r.ld_global_bytes + r.cp_async_bytes) test r rs,
      ),
      omega (arith, writes, write, sum_by-keep (λ (r : ByteRecord). r.st_global_bytes) test r rs),
      omega (arith, counts, count, length-keep test r rs),
    )
