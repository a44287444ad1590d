-- ===== src/Ptp/Reader.antt =====
-- `parse_ptp_records`, `read_ptp_records`, `infer_devices` and `read_pair_offsets` of
-- analysis/ptp_alignment.py. The generated reader, the rank pattern and the named tuples' layouts
-- are parameters.
pub mod Pairs
pub mod Ranks
use fabricperf.Prelude.{
  ℕ, ◌+◌, ◌*◌, ◌/◌, ◌^◌, Bool, ◌&&◌, ◌||◌, Option, none, some, List, [], ◌∷◌, ◌++◌, map, eqb, ltb,
  leb, min, if◌then◌else◌, length, take, drop, range, enumerate, maximum,
}
use fabricperf.Prelude.Int.{ℤ, pos, eqb_ℤ, leb_ℤ, ltb_ℤ}
use fabricperf.Prelude.Keys.{nat_eq, pair_eq}
use fabricperf.Prelude.Dict.{Dict, get, put, value_or}
use fabricperf.Prelude.Text.{Text, codes, contains_text}
use fabricperf.Prelude.Sort.{sort}
use fabricperf.Prelude.Result.{
  Result, ok, raise, ErrorKind, value_error, struct_error, ◌>>=◌, collect, fold,
}
use fabricperf.Trace.{Dir, Root, bin_files, parse_rank, iter_trace_dirs}
use fabricperf.Latency.Compact.{
  Bytes, TraceHeader, TraceSection, read_at, le_value, signed, short_buffer, read_header,
  read_sections, nth_section,
}
use fabricperf.Ptp.Slots.{decode_ptp_slot}
use fabricperf.Ptp.Offsets.{PairOffsets}

-- A `ptp_metrics` row.
pub record PtpRow : Type 0 where
  pub offset : ℤ
  pub latency : ℤ

pub record PtpRecord : Type 0 where
  pub trace : Text
  pub rank : ℕ
  pub file_index : ℕ
  pub slot_index : ℕ
  pub sample_index : ℕ
  pub src : ℕ
  pub dst : ℕ
  pub offset : ℤ
  pub latency : ℤ

-- What the generated reader returns: the flattened `ptp_metrics` rows, if the section is there.
pub record Parsed : Type 0 where
  pub ptp_metrics : Option (List PtpRow)

abbrev pub is_unwritten_ptp_record : PtpRow → Bool
is_unwritten_ptp_record r = eqb_ℤ r.offset (pos 0) && eqb_ℤ r.latency (pos 0)

abbrev pub i64_of : Bytes → ℤ
i64_of bytes = signed (2 ^ 63) (le_value bytes)

-- `unpack_ptp(payload[16 * i:16 * i + 16])`
abbrev pub ptp_row : Bytes → ℕ → Result (List PtpRow)
ptp_row payload i =
    let bytes = read_at payload (16 * i) 16 in
    if eqb (length bytes) 16
    then ok (record { offset = i64_of (take 8 bytes); latency = i64_of (drop 8 bytes) } ∷ [])
    else raise struct_error short_buffer

module _ (header_of : List ℤ → TraceHeader) (section_of : ℕ → ℕ → ℕ → TraceSection) where
  unfoldable pub parse_compact_ptp_records : Bytes → ℕ → Result (List PtpRow)
  parse_compact_ptp_records file section_index = do
    header ← read_header header_of section_of file
    sections ← read_sections header_of section_of file header
    section ← nth_section (codes "expected compact ptp_metrics section") sections section_index
    let payload = read_at file section.offset section.size
    if eqb (length payload) section.size
        then collect (ptp_row payload) (range ((length payload + 15) / 16))
        else raise value_error (codes "short compact ptp_metrics section")

  abbrev pub generic_rows : Result Parsed → Result (List PtpRow)
  generic_rows parsed = parsed >>= λ p. ok (value_or [] p.ptp_metrics)

  unfoldable pub parse_ptp_records : (Bytes → Result Parsed) → Bytes → Result (List PtpRow)
  unfolding parse_compact_ptp_records
  parse_ptp_records parse file = do
    header ← read_header header_of section_of file
    let compact = parse_compact_ptp_records file 1
    let generic = generic_rows (parse file)
    if eqb_ℤ header.num_probes (pos 2)
        then compact
        else if eqb_ℤ header.num_probes (pos 1)
        then ok []
        else generic

-- A row that is written and whose slot names two different ranks below `devices`.
abbrev pub record_of : Text → ℕ → ℕ → ℕ → PtpRow → ℕ → ℕ × ℕ × ℕ → List PtpRecord
record_of trace rank file_index slot_index row devices (src, dst, sample_index) =
    if leb devices src || (leb devices dst || eqb src dst)
    then []
    else record {
      trace = trace;
      rank = rank;
      file_index = file_index;
      slot_index = slot_index;
      sample_index = sample_index;
      src = src;
      dst = dst;
      offset = row.offset;
      latency = row.latency;
    }
      ∷ []

abbrev pub records_of_row : Text → ℕ → ℕ → ℕ → ℕ → ℕ → ℕ × PtpRow → Result (List PtpRecord)
records_of_row trace rank devices samples_per_pair compact_dsts file_index (slot_index, row) =
    if is_unwritten_ptp_record row
    then ok []
    else (decode_ptp_slot slot_index samples_per_pair compact_dsts >>= λ slot.
        ok (record_of trace rank file_index slot_index row devices slot))

-- The order of `sorted` on `(file_index, sample_index, slot_index, offset)`.
abbrev pub Entry : Type 0
Entry = ℕ × ℕ × ℕ × ℤ

abbrev pub entry_le : Entry → Entry → Bool
entry_le (f, s, t, o) (f', s', t', o') =
    ltb f f' || (eqb f f' && (ltb s s' || (eqb s s' && (ltb t t' || (eqb t t' && leb_ℤ o o')))))

abbrev pub Grouped : Type 0
Grouped = Dict (ℕ × ℕ) (List Entry)

-- `grouped[(src, dst)].append(...)`
abbrev pub group_record : Grouped → PtpRecord → Grouped
group_record grouped r =
    put (r.src, r.dst)
      (value_or [] (get (r.src, r.dst) grouped)
        ++ (r.file_index, r.sample_index, r.slot_index, r.offset) ∷ [])
      grouped

abbrev pub group_records : Grouped → List PtpRecord → Grouped
group_records grouped [] = grouped
group_records grouped (r ∷ rs) = group_records (group_record grouped r) rs

-- The handler of `ValueError` in `read_pair_offsets`.
abbrev pub group_result : Grouped → Result (List PtpRecord) → Result Grouped
group_result grouped (ok records) = ok (group_records grouped records)
group_result grouped (raise value_error m) =
    if contains_text (codes "could not infer rank") m then ok grouped else raise value_error m
group_result grouped (raise kind m) = raise kind m

abbrev pub offset_of : Entry → ℤ
offset_of (_, _, _, offset) = offset

abbrev pub sorted_offsets : (ℕ × ℕ) × List Entry → (ℕ × ℕ) × List ℤ
sorted_offsets (pair, entries) = (pair, map offset_of (sort entry_le entries))

abbrev pub device_count : List ℕ → Result ℕ
device_count [] = raise value_error (codes "no trace ranks found")
device_count (rank ∷ ranks) = ok (min (maximum rank ranks + 1) 8)

module _ (header_of : List ℤ → TraceHeader) (section_of : ℕ → ℕ → ℕ → TraceSection)
    (load_reader : Dir Bytes → Result (Bytes → Result Parsed)) (match_rank : Text → Option ℕ) where
  unfoldable pub read_ptp_file :
      Text → ℕ → ℕ → ℕ → ℕ → (Bytes → Result Parsed) → ℕ × (Text × Bytes) → Result (List PtpRecord)
  unfolding parse_ptp_records
  read_ptp_file trace rank devices samples_per_pair compact_dsts parse (file_index, (_, file)) = do
    rows ← parse_ptp_records header_of section_of parse file
    collect (records_of_row trace rank devices samples_per_pair compact_dsts file_index)
        (enumerate 0 rows)

  unfoldable pub read_ptp_records : ℕ → ℕ → ℕ → Text × Dir Bytes → Result (List PtpRecord)
  unfolding read_ptp_file
  read_ptp_records devices samples_per_pair compact_dsts (trace, d) = do
    rank ← parse_rank match_rank d
    parse ← load_reader d
    collect (read_ptp_file trace rank devices samples_per_pair compact_dsts parse)
        (enumerate 0 (bin_files d))

  abbrev pub rank_of : Text × Dir Bytes → Result (List ℕ)
  rank_of (_, d) = parse_rank match_rank d >>= λ rank. ok (rank ∷ [])

  unfoldable pub infer_devices : Root Bytes → Result ℕ
  infer_devices root = do
    dirs ← iter_trace_dirs root
    ranks ← collect rank_of dirs
    device_count ranks

  abbrev pub actual_devices : Option ℕ → Root Bytes → Result ℕ
  actual_devices none root = infer_devices root
  actual_devices (some devices) root = ok devices

  abbrev pub group_dir : ℕ → ℕ → ℕ → Grouped → Text × Dir Bytes → Result Grouped
  group_dir devices samples_per_pair compact_dsts grouped d =
      group_result grouped (read_ptp_records devices samples_per_pair compact_dsts d)

  unfoldable pub read_pair_offsets : Root Bytes → Option ℕ → ℕ → ℕ → Result PairOffsets
  unfolding infer_devices read_ptp_records
  read_pair_offsets root devices samples_per_pair compact_dsts = do
    count ← actual_devices devices root
    dirs ← iter_trace_dirs root
    grouped ← fold (group_dir count samples_per_pair compact_dsts) [] dirs
    ok (map sorted_offsets grouped)
