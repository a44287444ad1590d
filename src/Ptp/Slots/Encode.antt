-- ===== src/Ptp/Slots/Encode.antt =====
-- `decode_ptp_slot` of analysis/ptp_alignment.py against the slots that the probe writes.
use fabricperf.Prelude.{
  ℕ, ◌+◌, ◌-◌, ◌*◌, ◌/◌, ◌%◌, ◌≤◌, ◌<◌, ◌≡◌, ◌≢◌, refl, ltb, arith, if◌then◌else◌, eqb, false,
}
use native.Mathlib.Nat.{
  mul-add-div_right, mul-add-mod_self_right, div-eq_of_lt, mod-eq_of_lt, add-zero, mod-lt,
  div-add-mod',
}
use fabricperf.Prelude.Result.{ok}
use fabricperf.Ptp.Slots.{expand, decode_ptp_slot}

-- The destination with the source left out.
abbrev pub compact : ℕ → ℕ → ℕ
compact src dst = if ltb dst src then dst else dst - 1

-- The slot of a sample of an ordered pair.
abbrev pub slot_of : ℕ → ℕ → ℕ → ℕ → ℕ → ℕ
slot_of samples_per_pair compact_dsts src dst sample =
    (src * compact_dsts + compact src dst) * samples_per_pair + sample

expand-compact : (src dst : ℕ) → src ≢ dst → expand src (compact src dst) ≡ dst
expand-compact src dst h = ground (arith, λ (p : src ≡ dst). h p)

compact-expand : (src c : ℕ) → compact src (expand src c) ≡ c
compact-expand src c = ground arith

expand_other : (src c : ℕ) → src ≢ expand src c
expand_other src c = ground arith

expand-le : (src c n : ℕ) → c < n → expand src c ≤ n
expand-le src c n h = ground arith

quotient : (q r n : ℕ) → r < n → (q * n + r) / n ≡ q
quotient q r n h = rw (mul-add-div_right {m = n} (omega arith) q r, div-eq_of_lt h) (add-zero q)

remainder : (q r n : ℕ) → r < n → (q * n + r) % n ≡ r
remainder q r n h = rw (mul-add-mod_self_right q n r) (mod-eq_of_lt h)

nonzero : (n k : ℕ) → k < n → eqb n 0 ≡ false
nonzero n k h = ground arith

-- The slot that holds a sample of the pair (src, dst) decodes to the same source, destination and
-- sample, for a sample below the samples per pair and a destination other than the source whose
-- compact index is below the compact destinations.
pub decode_ptp_slot-slot_of :
    (samples_per_pair compact_dsts src dst sample : ℕ)
    → sample < samples_per_pair
    → src ≢ dst
    → compact src dst < compact_dsts
    → decode_ptp_slot
        (slot_of samples_per_pair compact_dsts src dst sample)
        samples_per_pair
        compact_dsts
      ≡ ok (src, dst, sample)
unfolding decode_ptp_slot
decode_ptp_slot-slot_of n m src dst sample hs other hd =
    rw
      (
        nonzero n sample hs,
        nonzero m (compact src dst) hd,
        quotient (src * m + compact src dst) sample n hs,
        remainder (src * m + compact src dst) sample n hs,
        quotient src (compact src dst) m hd,
        remainder src (compact src dst) m hd,
        expand-compact src dst other,
      )
      refl

-- Every slot decodes, to a source and another destination that is at most the number of compact
-- destinations, and the slot of what it decodes to is the slot itself, for divisors that are not 0.
pub slot_of-decode_ptp_slot :
    (slot samples_per_pair compact_dsts : ℕ)
    → 0 < samples_per_pair
    → 0 < compact_dsts
    → (src : ℕ) × (dst : ℕ) × (sample : ℕ) × (decode_ptp_slot slot samples_per_pair compact_dsts
        ≡ ok (src, dst, sample))
      × (src ≢ dst)
      × (dst ≤ compact_dsts)
      × (sample < samples_per_pair)
      × (slot_of samples_per_pair compact_dsts src dst sample ≡ slot)
unfolding decode_ptp_slot
slot_of-decode_ptp_slot slot n m hn hm =
    let pair = slot / n in
    let c = pair % m in
    (
      pair / m,
      expand (pair / m) c,
      slot % n,
      rw (nonzero n 0 hn, nonzero m 0 hm) refl,
      expand_other (pair / m) c,
      expand-le (pair / m) c m (mod-lt pair hm),
      mod-lt slot hn,
      rw (compact-expand (pair / m) c, div-add-mod' pair m) (div-add-mod' slot n),
    )
