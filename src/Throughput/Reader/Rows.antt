-- ===== src/Throughput/Reader/Rows.antt =====
-- The CSV rows and the aggregates of analysis/throughput.py's `read_throughput_root` agree.
use fabricperf.Prelude.{
  ℕ, ◌+◌, ◌≡◌, refl, ap, ◌∙◌, sym, sum_by, inl, inr, Option, none, some, List, [], ◌∷◌, map, arith,
  Bool-cases, Option-cases, length, get_elem?, All, length-map, length-append, range,
}
use mathlib.Core.Path.{subst}
use fabricperf.Prelude.Keys.{nat_eq, list_eq, pair_eq}
use fabricperf.Prelude.Dict.{
  Dict, get, value_or, values, part, sum_values, sum_values-put, IsDict, put-IsDict, All-put,
  All-get,
}
use fabricperf.Prelude.Text.{Text}
use fabricperf.Prelude.Result.{ok_injective, Result, ok, bind-ok, fold, fold_keeps}
use fabricperf.Modes.{Environ, throughput_partitions}
use fabricperf.Trace.{Dir, Root, iter_trace_dirs, parse_rank, bin_files}
use mathlib.Core.Option
use fabricperf.Throughput.Records.{Slot, Launch, warp_record_streams}
use fabricperf.Throughput.Aggregate.{ThroughputAggregate, new_aggregate, add_launch}
use fabricperf.Throughput.Reader.{
  Parsed, CsvRow, Key, State, Origin, row_of, is_empty_launch, record_launch, record_launches,
  stream_launches, read_stream, read_block, read_records, read_file, read_dir, read_throughput_root,
}

abbrev pub captured_of : ThroughputAggregate → ℕ
captured_of a = a.captured

-- An aggregate stands under its own trace, rank and workgroup.
abbrev pub IsFiled : Key × ThroughputAggregate → Type 0
IsFiled (key, a) = (a.trace_name ≡ key.0) × (a.rank ≡ (key.1).0) × (a.workgroup ≡ (key.1).1)

-- No key twice, each aggregate under its key, and as many CSV rows as captured arrivals.
pub record IsConsistent (st : State) : Type 0 where
  pub distinct : IsDict st.aggregates
  pub filed : All IsFiled st.aggregates
  pub rows : length st.csv_rows ≡ sum_values captured_of st.aggregates

-- An aggregate that a key looks up, or a new one, is filed under the key.
found_IsFiled :
    (o : Origin) (workgroup : ℕ) (d : Dict Key ThroughputAggregate)
    → All IsFiled d
    → IsFiled (
      (o.trace_name, (o.rank, workgroup)),
      value_or
          (new_aggregate o.trace_name o.rank o.variant workgroup)
          (get (o.trace_name, (o.rank, workgroup)) d),
    )
found_IsFiled o workgroup d h = elim (Option-cases (get (o.trace_name, (o.rank, workgroup)) d)) [
  | inl fresh ↦ rw fresh (refl, refl, refl)
  | inr (a, old) ↦ rw old (All-get IsFiled (o.trace_name, (o.rank, workgroup)) a d h old)
]

captured_values :
    (d : Dict Key ThroughputAggregate) → sum_values captured_of d ≡ sum_by captured_of (values d)
captured_values [] = refl
captured_values (e ∷ d) = ap (λ n. (e.1).captured + n) (captured_values d)

captured_found :
    (trace : Text) (rank : ℕ) (variant : Text) (workgroup : ℕ) (o : Option ThroughputAggregate)
    → captured_of (value_or (new_aggregate trace rank variant workgroup) o) ≡ part captured_of o
captured_found trace rank variant workgroup none = refl
captured_found trace rank variant workgroup (some a) = refl

pub record_launch-IsConsistent :
    (o : Origin) (st : State) (l : Launch) → IsConsistent st → IsConsistent (record_launch o st l)
unfolding record_launch add_launch
record_launch-IsConsistent o st l h =
    let key : Key = (o.trace_name, (o.rank, l.workgroup)) in
    let deltas = map (λ (r : ℕ × ℕ). r.1) l.accepted in
    let old =
      value_or (new_aggregate o.trace_name o.rank o.variant l.workgroup) (get key st.aggregates) in
    let new = add_launch old deltas l.total_arrivals l.duration_ticks l.capacity in
    elim (Bool-cases (is_empty_launch l)) [
      | inl skip ↦ rw skip h
      | inr keep ↦ rw keep (record {
        distinct = put-IsDict key new st.aggregates h.distinct;
        filed =
            All-put IsFiled key new st.aggregates
              (found_IsFiled o l.workgroup st.aggregates h.filed) h.filed;
        rows = omega (
          arith,
          length-append st.csv_rows (map (row_of o l.workgroup) l.accepted),
          length-map (row_of o l.workgroup) l.accepted,
          length-map (λ (r : ℕ × ℕ). r.1) l.accepted,
          sum_values-put captured_of key new st.aggregates,
          captured_found o.trace_name o.rank o.variant l.workgroup (get key st.aggregates),
        );
      })
    ]

record_launches-IsConsistent :
    (o : Origin) (st : State) (ls : List Launch)
    → IsConsistent st
    → IsConsistent (record_launches o st ls)
unfolding record_launches
record_launches-IsConsistent o st [] h = h
record_launches-IsConsistent o st (l ∷ ls) h =
    record_launches-IsConsistent o (record_launch o st l) ls (record_launch-IsConsistent o st l h)

read_stream-IsConsistent :
    (o : Origin) (parsed : Parsed) (partitions : ℕ) (records : List (List (List Slot))) (block : ℕ)
    (st st' : State) (stream : ℕ × List Slot)
    → IsConsistent st
    → read_stream o parsed partitions records block st stream ≡ ok st'
    → IsConsistent st'
unfolding read_stream
read_stream-IsConsistent o parsed partitions records block st st' stream h e =
    let warps = value_or 1 (Option.map length (get_elem? records block)) in
    let (ls, _, done) =
      bind-ok
        (stream_launches parsed.throughput_meta partitions block (length records) warps stream)
        (λ ls. ok (record_launches o st ls)) e in
    subst IsConsistent (ok_injective done) (record_launches-IsConsistent o st ls h)

read_block-IsConsistent :
    (o : Origin) (parsed : Parsed) (partitions : ℕ) (records : List (List (List Slot)))
    (st st' : State) (block : ℕ)
    → IsConsistent st
    → read_block o parsed partitions records st block ≡ ok st'
    → IsConsistent st'
unfolding read_block
read_block-IsConsistent o parsed partitions records st st' block h e =
    fold_keeps IsConsistent (read_stream o parsed partitions records block)
      (λ s t stream keep round.
        read_stream-IsConsistent o parsed partitions records block s t stream keep round)
      st st' (warp_record_streams records block) h e

read_records-IsConsistent :
    (o : Origin) (parsed : Parsed) (partitions : ℕ) (st st' : State)
    (records : Option (List (List (List Slot))))
    → IsConsistent st
    → read_records o parsed partitions st records ≡ ok st'
    → IsConsistent st'
unfolding read_records
read_records-IsConsistent o parsed partitions st st' none h e =
    subst IsConsistent (ok_injective e) h
read_records-IsConsistent o parsed partitions st st' (some records) h e =
    fold_keeps IsConsistent (read_block o parsed partitions records)
      (λ s t block keep round.
        read_block-IsConsistent o parsed partitions records s t block keep round)
      st st' (range (length records)) h e

module _ {File : Type 0} (load_reader : Dir File → Result (File → Result Parsed))
    (match_rank : Text → Option ℕ) (variant : Text) where
  read_file-IsConsistent :
      (trace : Text) (rank : ℕ) (parse : File → Result Parsed) (partitions : ℕ) (st st' : State)
      (file : Text × File)
      → IsConsistent st
      → read_file load_reader match_rank variant trace rank parse partitions st file ≡ ok st'
      → IsConsistent st'
  unfolding read_file
  read_file-IsConsistent trace rank parse partitions st st' (name, file) h e =
      let (parsed, _, done) = bind-ok (parse file) _ e in
      read_records-IsConsistent _ parsed partitions st st' parsed.throughput h done

  read_dir-IsConsistent :
      (partitions : ℕ) (st st' : State) (d : Text × Dir File)
      → IsConsistent st
      → read_dir load_reader match_rank variant partitions st d ≡ ok st'
      → IsConsistent st'
  unfolding read_dir
  read_dir-IsConsistent partitions st st' (trace, d) h e =
      let (parse, _, e₁) = bind-ok (load_reader d) _ e in
      let (rank, _, e₂) = bind-ok (parse_rank match_rank d) _ e₁ in
      fold_keeps IsConsistent (read_file load_reader match_rank variant trace rank parse partitions)
        (λ s t file keep round.
          read_file-IsConsistent trace rank parse partitions s t file keep round)
        st st' (bin_files d) h e₂

  -- What a trace root is read into is consistent: there is one CSV row for each captured arrival of
  -- the aggregates, and no two aggregates are of the same trace, rank and workgroup.
  pub read_throughput_root_rows :
      (env : Environ) (root : Root File) (aggregates : List ThroughputAggregate)
      (rows : List CsvRow)
      → read_throughput_root load_reader match_rank variant env root ≡ ok (aggregates, rows)
      → (d : Dict Key ThroughputAggregate) × (values d ≡ aggregates)
        × IsDict d
        × All IsFiled d
        × (length rows ≡ sum_by captured_of aggregates)
  unfolding read_throughput_root
  read_throughput_root_rows env root aggregates rows e =
      let (partitions, _, e₁) = bind-ok (throughput_partitions env) _ e in
      let (dirs, _, e₂) = bind-ok (iter_trace_dirs root) _ e₁ in
      let start : State = record { aggregates = []; csv_rows = [] } in
      let (st, run, e₃) =
        bind-ok (fold (read_dir load_reader match_rank variant partitions) start dirs)
          (λ st. ok (values st.aggregates, st.csv_rows)) e₂ in
      let h =
        fold_keeps IsConsistent (read_dir load_reader match_rank variant partitions)
          (λ s t d keep round. read_dir-IsConsistent partitions s t d keep round) start st dirs
          (record { distinct = tt; filed = tt; rows = refl }) run in
      let same = ok_injective e₃ in
      (
        st.aggregates,
        ap (λ (p : List ThroughputAggregate × List CsvRow). p.0) same,
        h.distinct,
        h.filed,
        sym (ap (λ (p : List ThroughputAggregate × List CsvRow). length p.1) same)
            ∙ h.rows
            ∙ captured_values st.aggregates
            ∙ ap (λ (p : List ThroughputAggregate × List CsvRow). sum_by captured_of p.0) same,
      )
