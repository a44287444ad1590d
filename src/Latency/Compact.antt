-- ===== src/Latency/Compact.antt =====
-- The compact binary sections that analysis/latency.py reads without the generated reader. The
-- named tuples of the header and of a section are built by code that is not part of this program,
-- so their layouts are parameters.
pub mod Rows
use Prim.Native.String.{String}
use fabricperf.Prelude.{
  ℕ, zero, suc, ◌+◌, ◌-◌, ◌*◌, ◌/◌, ◌%◌, ◌^◌, Bool, true, false, ◌&&◌, Option, none, some, List, [],
  ◌∷◌, ◌++◌, map, leb, ltb, eqb, if◌then◌else◌, length, take, drop, range, replicate,
}
use fabricperf.Prelude.Int.{ℤ, pos, sub_ℕ, pos_part, ◌*ℤ◌, eqb_ℤ}
use fabricperf.Prelude.Text.{Text, codes}
use fabricperf.Prelude.Result.{
  Result, ok, raise, value_error, struct_error, zero_division_error, attribute_error, ◌>>=◌,
  collect,
}
use fabricperf.Latency.Channel.{Sample}

abbrev pub Bytes : Type 0
Bytes = List ℕ

pub record TraceHeader : Type 0 where
  pub grid_dim_x : ℤ
  pub grid_dim_y : ℤ
  pub grid_dim_z : ℤ
  pub block_dim_x : ℤ
  pub block_dim_y : ℤ
  pub block_dim_z : ℤ
  pub num_probes : ℤ

pub record TraceSection : Type 0 where
  pub size : ℕ
  pub warp_div : ℕ
  pub offset : ℕ

-- `f.seek(offset); f.read(n)`
abbrev pub read_at : Bytes → ℕ → ℕ → Bytes
read_at file offset n = take n (drop offset file)

-- A little-endian number, and its two's complement reading in `bits` bits.
unfoldable pub le_value : Bytes → ℕ
le_value [] = 0
le_value (b ∷ bs) = b + 256 * le_value bs

abbrev pub signed : ℕ → ℕ → ℤ
signed half v = if ltb v half then pos v else sub_ℕ v (half + half)

abbrev pub i32_at : Bytes → ℕ → ℤ
i32_at bytes i = signed (2 ^ 31) (le_value (take 4 (drop (4 * i) bytes)))

abbrev pub short_buffer : Text
short_buffer = codes "unpack requires a buffer of the right size"

-- One row of 16 bytes, `struct.Struct("qII")`; a row of zeros is padding.
unfoldable pub row_of_bytes : Bytes → ℤ × ℕ × ℕ
unfolding le_value
row_of_bytes payload = (
  signed (2 ^ 63) (le_value (take 8 payload)),
  le_value (take 4 (drop 8 payload)),
  le_value (drop 12 payload),
)

-- The reader's named tuple `sr_latency`, called with three values: it has the reader's field names.
abbrev pub SampleType : Type 0
SampleType = ℤ → ℕ → ℕ → Result Sample

abbrev pub sample_of : SampleType → ℤ × ℕ × ℕ → Result (List Sample)
sample_of sr_latency_type (latency, vblock, step) =
    if eqb_ℤ latency (pos 0) && eqb vblock 0 && eqb step 0
    then ok []
    else sr_latency_type latency vblock step >>= λ sample. ok (sample ∷ [])

-- The first slot of one warp-owned stream.
unfoldable pub read_stream : SampleType → Bytes → TraceSection → ℕ → Result (List Sample)
unfolding row_of_bytes
read_stream sr_latency_type file section stream =
    let payload = read_at file (section.offset + stream * section.size) 16 in
    if eqb (length payload) 16
    then sample_of sr_latency_type (row_of_bytes payload)
    else raise value_error (codes "short compact sr_latency row")

-- The two loops over blocks and warps.
unfoldable pub read_streams : SampleType → Bytes → TraceSection → ℕ → ℕ → Result (List Sample)
unfolding read_stream
read_streams sr_latency_type file section grid_size warp_streams =
    collect
      (λ block_idx.
        collect
          (λ warp_idx.
            read_stream sr_latency_type file section (block_idx * warp_streams + warp_idx))
          (range warp_streams))
      (range grid_size)

abbrev pub nth_section : Text → List TraceSection → ℕ → Result TraceSection
nth_section message [] k = raise value_error message
nth_section message (s ∷ ss) zero = ok s
nth_section message (s ∷ ss) (suc k) = nth_section message ss k

-- `a // b` of a possibly negative size, as the length of a `range`.
abbrev pub floor_div : ℤ → ℕ → Result ℕ
floor_div a b =
    if eqb b 0
    then raise zero_division_error (codes "integer division or modulo by zero")
    else ok (pos_part a / b)

module _ (header_of : List ℤ → TraceHeader) (section_of : ℕ → ℕ → ℕ → TraceSection) where
  -- `TraceHeader(*struct.unpack("iiiiiiii", f.read(32)))`
  unfoldable pub read_header : Bytes → Result TraceHeader
  unfolding le_value
  read_header file =
      let bytes = read_at file 0 32 in
      if eqb (length bytes) 32
      then ok (header_of (map (i32_at bytes) (range 8)))
      else raise struct_error short_buffer

  -- The `k`-th `TraceSection(*struct.unpack("IIQ", f.read(16)))`.
  unfoldable pub read_section : Bytes → ℕ → Result (List TraceSection)
  unfolding le_value
  read_section file k =
      let bytes = read_at file (32 + 16 * k) 16 in
      if eqb (length bytes) 16
      then ok (
          section_of (le_value (take 4 bytes)) (le_value (take 4 (drop 4 bytes)))
            (le_value (drop 8 bytes))
          ∷ [])
      else raise struct_error short_buffer

  abbrev pub read_sections : Bytes → TraceHeader → Result (List TraceSection)
  read_sections file header = collect (read_section file) (range (pos_part header.num_probes))

  -- `getattr(reader, "sr_latency")`; the message leaves out the module's name.
  abbrev pub sample_type : Option SampleType → Result SampleType
  sample_type none = raise attribute_error (codes "module has no attribute 'sr_latency'")
  sample_type (some sr_latency_type) = ok sr_latency_type

  unfoldable pub parse_compact_sr_latency_section :
      Option SampleType → Bytes → ℕ → Result (List Sample)
  unfolding read_header read_section read_streams
  parse_compact_sr_latency_section attribute file section_index = do
    sr_latency_type ← sample_type attribute
    header ← read_header file
    sections ← read_sections file header
    section ← nth_section (codes "expected compact sr_latency section") sections section_index
    let grid_size = header.grid_dim_x *ℤ header.grid_dim_y *ℤ header.grid_dim_z
    let block_size = header.block_dim_x *ℤ header.block_dim_y *ℤ header.block_dim_z
    warp_streams ← floor_div block_size section.warp_div
    read_streams sr_latency_type file section (pos_part grid_size) warp_streams
