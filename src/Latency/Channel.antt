-- ===== src/Latency/Channel.antt =====
-- One `sr_latency` record of analysis/latency.py and the words packed into it. A `vblock` word has
-- the invalid flag in bit 31, the source peer plus one in bits 16 to 30 and the virtual block below.
pub mod Pack
use fabricperf.Prelude.{
  ℕ, ◌+◌, ◌-◌, ◌*◌, ◌/◌, ◌%◌, ◌^◌, Bool, true, false, not, ◌&&◌, ◌||◌, Option, none, some, List, [],
  ◌∷◌, ◌++◌, leb, eqb, if◌then◌else◌,
}
use fabricperf.Prelude.Int.{ℤ, pos, negsuc, eqb_ℤ}
use fabricperf.Prelude.Dict.{value_or}
use fabricperf.Prelude.Text.{Text, codes}
use fabricperf.Prelude.Result.{Result, ok, raise, value_error}

-- A generated record; a field that the trace's schema lacks is `none`.
pub record Sample : Type 0 where
  pub latency : Option ℤ
  pub step : Option ℕ
  pub vblock : Option ℕ
  pub cta : Option ℕ

pub data ChannelField : Type 0 where
  vblock_field cta_field : ChannelField

abbrev pub invalid_sentinel : ℤ
invalid_sentinel = pos (2 ^ 63 - 1)

abbrev pub flag_bit : ℕ
flag_bit = 2 ^ 31

abbrev pub source_shift : ℕ
source_shift = 2 ^ 16

abbrev pub source_unknown : ℤ
source_unknown = negsuc 0

-- `int(record.latency)`, `int(record.step)` and `int(getattr(record, channel_field))`
abbrev pub latency_of : Sample → ℤ
latency_of r = value_or (pos 0) r.latency

abbrev pub step_of : Sample → ℕ
step_of r = value_or 0 r.step

abbrev pub word_of : ChannelField → Sample → ℕ
word_of vblock_field r = value_or 0 r.vblock
word_of cta_field r = value_or 0 r.cta

abbrev is_given {ℓ} : {A : Type ℓ} → Option A → Bool
is_given none = false
is_given (some _) = true

abbrev pub bad_schema : Text → Text
bad_schema trace_name = codes "sr_latency records in " ++ trace_name

-- `sorted({"latency", "step"} - fields)` as it is printed.
abbrev missing_fields : Option ℤ → Option ℕ → Text
missing_fields none none = codes "['latency', 'step']"
missing_fields none (some _) = codes "['latency']"
missing_fields (some _) none = codes "['step']"
missing_fields (some _) (some _) = codes "[]"

unfoldable pub channel_field_for : Sample → Text → Result ChannelField
channel_field_for r trace_name =
    if not (is_given r.latency && is_given r.step)
    then raise value_error
        (bad_schema trace_name ++ (codes " are missing " ++ missing_fields r.latency r.step))
    else if is_given r.vblock
    then ok vblock_field
    else if is_given r.cta
    then ok cta_field
    else raise value_error (bad_schema trace_name ++ codes " have neither vblock nor cta")

unfoldable pub is_unwritten_latency_record : Sample → ChannelField → Bool
is_unwritten_latency_record r field =
    eqb_ℤ (latency_of r) (pos 0) && eqb (step_of r) 0 && eqb (word_of field r) 0

-- `(word & LATENCY_INVALID_FLAG) != 0`
abbrev pub has_flag : ℕ → Bool
has_flag word = not (eqb ((word / flag_bit) % 2) 0)

-- `word & ~LATENCY_INVALID_FLAG`
abbrev pub clear_flag : ℕ → ℕ
clear_flag word = word - (word / flag_bit) % 2 * flag_bit

abbrev flagged : Option ℕ → Bool
flagged none = false
flagged (some word) = has_flag word

unfoldable pub is_invalid_latency_record : Sample → Bool
is_invalid_latency_record r =
    if eqb_ℤ (latency_of r) invalid_sentinel then true else flagged r.vblock

-- `(src_peer, channel)` of a word without the flag.
abbrev pub split_word : ℕ → ℤ × ℕ
split_word word =
    if leb source_shift word
    then (pos (word / source_shift - 1), word % source_shift)
    else (source_unknown, word)

unfoldable pub split_latency_channel : Sample → ChannelField → ℤ × ℕ
split_latency_channel r vblock_field = split_word (clear_flag (word_of vblock_field r))
split_latency_channel r cta_field = (source_unknown, word_of cta_field r)
