-- ===== src/Mailbox/Words/Encode.antt =====
-- The words of analysis/mailbox_debug.py against what is packed into them.
use fabricperf.Prelude.{
  ℕ, ◌+◌, ◌-◌, ◌*◌, ◌/◌, ◌%◌, ◌^◌, ◌<◌, ◌≡◌, refl, Bool, true, false, ◌||◌, arith, ltb,
  if◌then◌else◌,
}
use fabricperf.Prelude.Int.{ℤ, pos, negsuc, eqb_ℤ}
use fabricperf.Latency.Channel.{
  vblock_field, invalid_sentinel, split_word, has_flag, clear_flag, split_latency_channel,
  is_invalid_latency_record,
}
use fabricperf.Latency.Channel.Pack.{packed}
use fabricperf.Mailbox.Words.{decode_meta, decode_invalid, decode_tag}

-- A tag with its step, run and kind, each within its width, decodes to them.
pub decode_tag-pack :
    (step run kind : ℕ)
    → run < 2 ^ 24
    → kind < 2 ^ 8
    → decode_tag (step * 2 ^ 32 + run * 2 ^ 8 + kind) ≡ (step, run, kind)
unfolding decode_tag
decode_tag-pack step run kind hr hk =
    let tag = step * 2 ^ 32 + run * 2 ^ 8 + kind in
    let high : tag / 2 ^ 32 ≡ step = omega arith in
    let middle : (tag / 2 ^ 8) % 2 ^ 24 ≡ run = omega arith in
    let low : tag % 2 ^ 8 ≡ kind = omega arith in rw (high, middle, low) refl

-- Every tag is put together again from its step, run and kind: nothing of it is lost.
pub decode_tag_recovers :
    (tag : ℕ) → (decode_tag tag).0 * 2 ^ 32 + (decode_tag tag).1 * 2 ^ 8 + (decode_tag tag).2 ≡ tag
unfolding decode_tag
decode_tag_recovers tag = omega arith

split_low :
    (word : ℕ)
    → ((if ltb 0 (word / 65536) then pos (word / 65536 - 1) else negsuc 0) ≡ (split_word word).0)
      × (word % 65536 ≡ (split_word word).1)
split_low word = ground arith

flag_low : (poll word : ℕ) → word < 2 ^ 32 → has_flag (poll * 2 ^ 32 + word) ≡ has_flag word
flag_low poll word h =
    let same : ((poll * 4294967296 + word) / 2147483648) % 2 ≡ (word / 2147483648) % 2 =
      omega arith in
    rw same refl

either : (a b : Bool) → (a || b) ≡ (if a then true else b)
either true b = refl
either false b = refl

-- A debug row and a latency record agree, for metadata of two 32-bit words: the low word has the
-- source and block that the latency analyzer reads from the same word, the high word is the poll
-- count, and both call the same rows invalid.
pub decode_meta_agrees :
    (poll word step : ℕ) (latency : ℤ)
    → poll < 2 ^ 32
    → word < 2 ^ 32
    → (decode_meta (poll * 2 ^ 32 + word) ≡ (
      poll,
      (split_latency_channel (packed latency step word) vblock_field).0,
      (split_latency_channel (packed latency step word) vblock_field).1,
    ))
      × (decode_invalid (poll * 2 ^ 32 + word) latency
          ≡ is_invalid_latency_record (packed latency step word))
unfolding decode_meta decode_invalid split_latency_channel is_invalid_latency_record
decode_meta_agrees poll word step latency hp hw =
    let high : ((poll * 2 ^ 32 + word) / 2 ^ 32) % 2 ^ 32 ≡ poll = omega arith in
    let low : (poll * 2 ^ 32 + word) % 2 ^ 32 ≡ word = omega arith in
    let (source, block) = split_low (clear_flag word) in
    (
      rw (high, low) (λ i. (poll, source i, block i)),
      rw (flag_low poll word hw) (either (eqb_ℤ latency invalid_sentinel) (has_flag word)),
    )
