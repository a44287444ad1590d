-- ===== src/Latency/Channel/Pack.antt =====
-- Packing and unpacking of the `vblock` word of analysis/latency.py.
use fabricperf.Prelude.{
  ℕ, ◌+◌, ◌-◌, ◌*◌, ◌/◌, ◌%◌, ◌^◌, ◌<◌, ◌≡◌, ◌≢◌, Bool, true, false, none, some, arith, leb, inl,
  inr, Bool-cases,
}
use fabricperf.Prelude.Int.{ℤ, pos, sub_ℕ, eqb_ℤ, eqb_ℤ_iff}
use fabricperf.Latency.Channel.{
  Sample, vblock_field, invalid_sentinel, flag_bit, source_shift, has_flag, clear_flag, split_word,
  is_invalid_latency_record, split_latency_channel,
}

abbrev pub bit_of : Bool → ℕ
bit_of true = 1
bit_of false = 0

-- The word that the receive hook stores for a known source.
abbrev pub pack : Bool → ℕ → ℕ → ℕ
pack invalid src channel = (src + 1) * source_shift + channel + bit_of invalid * flag_bit

abbrev pub packed : ℤ → ℕ → ℕ → Sample
packed latency step word = record {
  latency = some latency;
  step = some step;
  vblock = some word;
  cta = none;
}

split_word-pack :
    (src channel : ℕ)
    → src < 32767
    → channel < 65536
    → split_word ((src + 1) * 65536 + channel) ≡ (pos src, channel)
split_word-pack src channel hs hc =
    let word = (src + 1) * 65536 + channel in
    let large : leb 65536 word ≡ true = ground arith in
    let above : word / 65536 - 1 ≡ src = omega arith in
    let below : word % 65536 ≡ channel = omega arith in rw (large, above, below)

clear_flag-pack :
    (invalid : Bool) (src channel : ℕ)
    → src < 32767
    → channel < 65536
    → clear_flag (pack invalid src channel) ≡ (src + 1) * 65536 + channel
clear_flag-pack true src channel hs hc = omega arith
clear_flag-pack false src channel hs hc = omega arith

has_flag-pack :
    (invalid : Bool) (src channel : ℕ)
    → src < 32767
    → channel < 65536
    → has_flag (pack invalid src channel) ≡ invalid
has_flag-pack true src channel hs hc = ground arith
has_flag-pack false src channel hs hc = ground arith

not_sentinel : (latency : ℤ) → latency ≢ invalid_sentinel → eqb_ℤ latency invalid_sentinel ≡ false
not_sentinel latency h = elim (Bool-cases (eqb_ℤ latency invalid_sentinel)) [
  | inl same ↦ absurd (h ((eqb_ℤ_iff latency invalid_sentinel).0 same))
  | inr other ↦ other
]

-- A packed word splits into its source and channel, and its record is invalid exactly if the flag
-- was packed, for a source below 32767, a channel below 65536 and a latency other than the legacy
-- sentinel.
pub split_latency_channel-pack :
    (invalid : Bool) (src channel step : ℕ) (latency : ℤ)
    → src < 32767
    → channel < 65536
    → latency ≢ invalid_sentinel
    → (split_latency_channel (packed latency step (pack invalid src channel)) vblock_field
        ≡ (pos src, channel))
      × (is_invalid_latency_record (packed latency step (pack invalid src channel)) ≡ invalid)
unfolding split_latency_channel is_invalid_latency_record
split_latency_channel-pack invalid src channel step latency hs hc hl = (
  rw (clear_flag-pack invalid src channel hs hc) (split_word-pack src channel hs hc),
  rw (not_sentinel latency hl) (has_flag-pack invalid src channel hs hc),
)

split_word_parts :
    (word : ℕ)
    → ((split_word word).1 < 65536)
      × ((split_word word).0 ≡ sub_ℕ (word / 65536) 1)
      × (word ≡ word / 65536 * 65536 + (split_word word).1)
split_word_parts word = ground arith

clear_flag_parts :
    (word : ℕ) → word < 2 ^ 32 → word ≡ clear_flag word + bit_of (has_flag word) * 2147483648
clear_flag_parts word h = ground arith

-- Whatever 32-bit word a record has, its channel fits 16 bits, and source, channel and flag
-- determine the word: nothing of it is lost.
pub split_latency_channel_recovers :
    (latency : ℤ) (step word : ℕ)
    → word < 2 ^ 32
    → (src_plus_one : ℕ) × ((split_latency_channel (packed latency step word) vblock_field).1
        < 65536)
      × ((split_latency_channel (packed latency step word) vblock_field).0 ≡ sub_ℕ src_plus_one 1)
      × (word
          ≡ src_plus_one * source_shift
            + (split_latency_channel (packed latency step word) vblock_field).1
            + bit_of (has_flag word) * flag_bit)
unfolding split_latency_channel
split_latency_channel_recovers latency step word h =
    let (small, source, whole) = split_word_parts (clear_flag word) in
    (clear_flag word / 65536, small, source, omega (arith, clear_flag_parts word h))
