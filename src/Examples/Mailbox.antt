-- ===== src/Examples/Mailbox.antt =====
-- Concrete runs of the mailbox diagnostics, analysis/mailbox_debug.py.
use fabricperf.Prelude.{◌+◌, ◌*◌, ◌≡◌, ◌^◌, arith}
use fabricperf.Prelude.Int.{pos, int_eq}
use fabricperf.Prelude.Keys.{nat_eq, pair_eq}
use fabricperf.Latency.Channel.{vblock_field, split_latency_channel, is_invalid_latency_record}
use fabricperf.Latency.Channel.Pack.{packed}
use fabricperf.Mailbox.Words.{decode_meta, decode_invalid}
use fabricperf.Mailbox.Words.Encode.{decode_meta_agrees}

decode_meta_agrees_example :
    (decode_meta (9 * 2 ^ 32 + 2147680263) ≡ (
      9,
      (split_latency_channel (packed (pos 40) 3 2147680263) vblock_field).0,
      (split_latency_channel (packed (pos 40) 3 2147680263) vblock_field).1,
    ))
    × (decode_invalid (9 * 2 ^ 32 + 2147680263) (pos 40)
        ≡ is_invalid_latency_record (packed (pos 40) 3 2147680263))
decode_meta_agrees_example = decode_meta_agrees 9 2147680263 3 (pos 40) (omega arith) (omega arith)
