-- ===== src/Mailbox/Words.antt =====
-- The packed words of a debug row, analysis/mailbox_debug.py: `decode_meta`, `decode_invalid` and
-- `decode_tag`. Shifts and masks are divisions and remainders by powers of two.
pub mod Encode
use fabricperf.Prelude.{ℕ, ◌-◌, ◌*◌, ◌/◌, ◌%◌, ◌^◌, Bool, not, ◌||◌, ltb, eqb, if◌then◌else◌}
use fabricperf.Prelude.Int.{ℤ, pos, negsuc, eqb_ℤ}
use fabricperf.Latency.Channel.{invalid_sentinel, flag_bit, has_flag, clear_flag}

unfoldable pub decode_meta : ℕ → ℕ × ℤ × ℕ
decode_meta meta =
    let poll_count = (meta / 2 ^ 32) % 2 ^ 32 in
    let packed = clear_flag (meta % 2 ^ 32) in
    let packed_src = packed / 2 ^ 16 in
    let src = if ltb 0 packed_src then pos (packed_src - 1) else negsuc 0 in
    (poll_count, src, packed % 2 ^ 16)

unfoldable pub decode_invalid : ℕ → ℤ → Bool
decode_invalid meta latency = eqb_ℤ latency invalid_sentinel || has_flag meta

-- `(step, run_id, kind)`
unfoldable pub decode_tag : ℕ → ℕ × ℕ × ℕ
decode_tag tag = (tag / 2 ^ 32, (tag / 2 ^ 8) % 2 ^ 24, tag % 2 ^ 8)
