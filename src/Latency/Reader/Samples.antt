-- ===== src/Latency/Reader/Samples.antt =====
-- What the record loop of analysis/latency.py's `read_trace` puts into each channel.
use mathlib.Core.List.{append_assoc, append-nil}
use fabricperf.Prelude.{
  ◌≡◌, refl, ◌∙◌, sym, Bool, true, false, not, ◌&&◌, List, [], ◌∷◌, ◌++◌, map, arith, keep,
  if◌then◌else◌, Bool-cases, inl, inr,
}
use fabricperf.Prelude.Int.{int_eq}
use fabricperf.Prelude.Keys.{◌==◌, nat_eq, pair_eq}
use fabricperf.Prelude.Dict.{Dict, get, value_or, get-put}
use fabricperf.Latency.Channel.{
  Sample, ChannelField, latency_of, step_of, is_unwritten_latency_record, is_invalid_latency_record,
  split_latency_channel,
}
use fabricperf.Latency.Reader.{
  ChannelStats, no_samples, add, add_invalid, Channel, Counting, add_record, add_records,
}

-- The written records of one channel, the valid ones and the invalid ones.
abbrev pub is_valid_of : ChannelField → Channel → Sample → Bool
is_valid_of field channel r =
    not (is_unwritten_latency_record r field)
    && (split_latency_channel r field == channel && not (is_invalid_latency_record r))

abbrev pub is_invalid_of : ChannelField → Channel → Sample → Bool
is_invalid_of field channel r =
    not (is_unwritten_latency_record r field)
    && (split_latency_channel r field == channel && is_invalid_latency_record r)

abbrev pub at : Channel → Dict Channel ChannelStats → ChannelStats
at channel d = value_or no_samples (get channel d)

-- What one record adds to a channel.
abbrev grow : ChannelField → Channel → ChannelStats → Sample → ChannelStats
grow field channel s r =
    if is_valid_of field channel r
    then add s (latency_of r) (step_of r)
    else if is_invalid_of field channel r
    then add_invalid s (step_of r)
    else s

exclusive : (a b d : Bool) → (not a && (b && not d)) ≡ true → (not a && (b && d)) ≡ false
exclusive a b d h = ground arith

module _ (field : ChannelField) where
  at-add_record :
      (channel : Channel) (c : Counting) (r : Sample)
      → at channel (add_record field c r).channels ≡ grow field channel (at channel c.channels) r
  unfolding add_record
  at-add_record channel c r = elim (Bool-cases (is_unwritten_latency_record r field)) [
    | inl skip ↦ rw skip refl
    | inr counted ↦ elim (Bool-cases (split_latency_channel r field == channel)) [
      | inl here ↦
          let same = (pair_eq.same_iff (split_latency_channel r field) channel).0 here in
          elim (Bool-cases (is_invalid_latency_record r)) [
            | inl bad ↦ rw (counted, bad, here, get-put, here, same) refl
            | inr good ↦ rw (counted, good, here, get-put, here, same) refl
          ]
      | inr other ↦ rw (counted, other, get-put, other) refl
    ]
  ]

  -- What the record loop appends to a channel: the valid records' latencies and steps, and the steps
  -- of the invalid ones, in the order of the records.
  pub add_records-appends :
      (channel : Channel) (c : Counting) (rs : List Sample)
      → ((at channel (add_records field c rs).channels).latencies
          ≡ (at channel c.channels).latencies
            ++ map latency_of (keep (is_valid_of field channel) rs))
        × ((at channel (add_records field c rs).channels).steps
            ≡ (at channel c.channels).steps ++ map step_of (keep (is_valid_of field channel) rs))
        × ((at channel (add_records field c rs).channels).invalid_steps
            ≡ (at channel c.channels).invalid_steps
              ++ map step_of (keep (is_invalid_of field channel) rs))
  unfolding add_records
  add_records-appends channel c [] = (sym (append-nil _), sym (append-nil _), sym (append-nil _))
  add_records-appends channel c (r ∷ rs) =
      let (latencies, steps, invalid) = add_records-appends channel (add_record field c r) rs in
      let first = at-add_record channel c r in
      elim (Bool-cases (is_valid_of field channel r)) [
        | inl good ↦
            let not_bad =
              exclusive (is_unwritten_latency_record r field)
                (split_latency_channel r field == channel) (is_invalid_latency_record r) good in
            (
              latencies ∙ rw (first, good, append_assoc) refl,
              steps ∙ rw (first, good, append_assoc) refl,
              invalid ∙ rw (first, good, not_bad) refl,
            )
        | inr other ↦ elim (Bool-cases (is_invalid_of field channel r)) [
          | inl bad ↦ (
            latencies ∙ rw (first, other, bad) refl,
            steps ∙ rw (first, other, bad) refl,
            invalid ∙ rw (first, other, bad, append_assoc) refl,
          )
          | inr neither ↦ (
            latencies ∙ rw (first, other, neither) refl,
            steps ∙ rw (first, other, neither) refl,
            invalid ∙ rw (first, other, neither) refl,
          )
        ]
      ]
