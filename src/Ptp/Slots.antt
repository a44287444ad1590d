-- ===== src/Ptp/Slots.antt =====
-- The compact slots of `ptp_metrics`: `decode_ptp_slot` of analysis/ptp_alignment.py.
pub mod Encode
use fabricperf.Prelude.{ℕ, ◌+◌, ◌*◌, ◌/◌, ◌%◌, Bool, ◌||◌, ltb, eqb, if◌then◌else◌}
use fabricperf.Prelude.Text.{Text, codes}
use fabricperf.Prelude.Result.{Result, ok, raise, zero_division_error}

abbrev pub expand : ℕ → ℕ → ℕ
expand src compact_dst = if ltb compact_dst src then compact_dst else compact_dst + 1

-- A zero divisor raises.
unfoldable pub decode_ptp_slot : ℕ → ℕ → ℕ → Result (ℕ × ℕ × ℕ)
decode_ptp_slot slot_index samples_per_pair compact_dsts =
    let pair_index = slot_index / samples_per_pair in
    let sample_index = slot_index % samples_per_pair in
    let src = pair_index / compact_dsts in
    let compact_dst = pair_index % compact_dsts in
    if eqb samples_per_pair 0 || eqb compact_dsts 0
    then raise zero_division_error (codes "integer division or modulo by zero")
    else ok (src, expand src compact_dst, sample_index)
