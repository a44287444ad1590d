-- ===== src/Latency/Reader/Counts.antt =====
-- The counters of analysis/latency.py's `read_trace` against the samples it stores.
use fabricperf.Prelude.{
  ℕ, ◌+◌, ◌≡◌, refl, Bool, true, false, Option, none, some, List, [], ◌∷◌, arith, length, sum_by,
  length-append, sum_by-append, if◌then◌else◌, Bool-cases, inl, inr,
}
use mathlib.Core.Path.{subst}
use fabricperf.Prelude.Int.{ℤ, int_eq}
use fabricperf.Prelude.Keys.{nat_eq, pair_eq}
use fabricperf.Prelude.Dict.{Dict, get, value_or, part, sum_values, sum_values-put}
use fabricperf.Prelude.Text.{Text}
use fabricperf.Prelude.Result.{
  Result, ok, raise, ErrorKind, bind-ok, ok_injective, fold, fold_keeps,
}
use fabricperf.Trace.{Dir, bin_files, parse_rank}
use fabricperf.Latency.Channel.{
  Sample, ChannelField, latency_of, step_of, is_unwritten_latency_record, is_invalid_latency_record,
  split_latency_channel, channel_field_for,
}
use fabricperf.Latency.Compact.{Bytes, TraceHeader, TraceSection}
use fabricperf.Latency.Reader.{
  count_file, ChannelStats, no_samples, add, add_invalid, Channel, Counting, add_record,
  add_records, TraceStats, Progress, GeneratedReader, add_file, counted, clashes, new_stats,
  take_file, read_file, read_files, finished, read_trace, parse_sr_latency_records, is_malformed,
}

-- The valid and the invalid samples of a channel.
abbrev pub samples : ChannelStats → ℕ
samples s = length s.latencies + length s.invalid_steps

abbrev pub file_total : Dict Channel ℕ → ℕ
file_total = sum_values (λ n. n)

-- The stored samples are as many as the files' counts sum to.
abbrev pub IsCounted : TraceStats → Type 0
IsCounted s =
    (sum_values samples s.channels ≡ sum_by file_total s.per_file_counts)
    × (s.files ≡ length s.per_file_counts)

abbrev pub IsCountedSoFar : Option TraceStats → Type 0
IsCountedSoFar none = Unit
IsCountedSoFar (some s) = IsCounted s

samples_found : (o : Option ChannelStats) → samples (value_or no_samples o) ≡ part samples o
samples_found none = refl
samples_found (some s) = refl

count_found : (o : Option ℕ) → value_or 0 o ≡ part (λ n. n) o
count_found none = refl
count_found (some n) = refl

module _ (field : ChannelField) where
  add_record_total :
      (c : Counting) (r : Sample)
      → sum_values samples (add_record field c r).channels + file_total c.file_counts
        ≡ sum_values samples c.channels + file_total (add_record field c r).file_counts
  unfolding add_record
  add_record_total c r =
      let channel = split_latency_channel r field in
      let old = value_or no_samples (get channel c.channels) in
      let n = value_or 0 (get channel c.file_counts) in
      let new =
        if is_invalid_latency_record r
        then add_invalid old (step_of r)
        else add old (latency_of r) (step_of r) in
      let one_more : samples new ≡ samples old + 1 =
        elim (Bool-cases (is_invalid_latency_record r)) [
          | inl bad ↦ rw bad (omega (arith, length-append old.invalid_steps (step_of r ∷ [])))
          | inr good ↦ rw good (omega (arith, length-append old.latencies (latency_of r ∷ [])))
        ] in
      elim (Bool-cases (is_unwritten_latency_record r field)) [
        | inl skip ↦ rw skip refl
        | inr counted ↦ rw counted (
            omega (
              arith,
              one_more,
              samples_found (get channel c.channels),
              count_found (get channel c.file_counts),
              sum_values-put samples channel new c.channels,
              sum_values-put (λ m. m) channel (n + 1) c.file_counts,
            ))
      ]

  add_records_total :
      (c : Counting) (rs : List Sample)
      → sum_values samples (add_records field c rs).channels + file_total c.file_counts
        ≡ sum_values samples c.channels + file_total (add_records field c rs).file_counts
  unfolding add_records
  add_records_total c [] = refl
  add_records_total c (r ∷ rs) =
      omega (arith, add_record_total c r, add_records_total (add_record field c r) rs)

count_file-IsCounted :
    (field : ChannelField) (s : TraceStats) (rs : List Sample)
    → IsCounted s
    → IsCounted
        (count_file s (add_records field (record { channels = s.channels; file_counts = [] }) rs))
count_file-IsCounted field s rs (sums, files) =
    let start : Counting = record { channels = s.channels; file_counts = [] } in
    let c = add_records field start rs in
    (
      omega (
        arith,
        add_records_total field start rs,
        sum_by-append file_total s.per_file_counts (c.file_counts ∷ []),
      ),
      omega (arith, length-append s.per_file_counts (c.file_counts ∷ [])),
    )

old-IsCounted :
    (trace : Text) (rank : ℕ) (field : ChannelField) (stats : Option TraceStats)
    → IsCountedSoFar stats
    → IsCounted (value_or (new_stats trace rank field) stats)
old-IsCounted trace rank field none h = (refl, refl)
old-IsCounted trace rank field (some s) h = h

counted_keeps :
    (fresh : TraceStats) (stats : Option TraceStats) (c : Counting) (counts : Dict Channel ℕ)
    → IsCountedSoFar stats
    → IsCounted (count_file (value_or fresh stats) c)
    → IsCountedSoFar (counted fresh stats c counts)
counted_keeps fresh stats c [] h new = h
counted_keeps fresh stats c (x ∷ xs) h new = new

unclashed {ℓ} :
    {A : Type ℓ} (clash : Bool) (kind : ErrorKind) (m : Text) {a b : A}
    → (if clash then raise kind m else ok a) ≡ ok b
    → a ≡ b
unclashed true kind m e = absurd (cc)
unclashed false kind m e = ok_injective e

skipped {ℓ} :
    {A : Type ℓ} (skip : Bool) (kind : ErrorKind) (m : Text) {a b : A}
    → (if skip then ok a else raise kind m) ≡ ok b
    → a ≡ b
skipped true kind m e = ok_injective e
skipped false kind m e = absurd (cc)

add_file_counted :
    (trace : Text) (rank : ℕ) (path : Text) (stats stats' : Option TraceStats) (rs : List Sample)
    → IsCountedSoFar stats
    → add_file trace rank path stats rs ≡ ok stats'
    → IsCountedSoFar stats'
unfolding add_file
add_file_counted trace rank path stats stats' [] h e = subst IsCountedSoFar (ok_injective e) h
add_file_counted trace rank path stats stats' (r ∷ rs) h e =
    let (field, _, e₁) = bind-ok (channel_field_for r trace) _ e in
    let fresh = new_stats trace rank field in
    let old = value_or fresh stats in
    let c = add_records field (record { channels = old.channels; file_counts = [] }) (r ∷ rs) in
    let kept =
      counted_keeps fresh stats c c.file_counts h
        (count_file-IsCounted field old (r ∷ rs) (old-IsCounted trace rank field stats h)) in
    subst IsCountedSoFar (unclashed (clashes field stats) _ _ e₁) kept

module _ (header_of : List ℤ → TraceHeader) (section_of : ℕ → ℕ → ℕ → TraceSection)
    (load_reader : Dir Bytes → Result GeneratedReader) (match_rank : Text → Option ℕ) where
  take_file_counted :
      (trace : Text) (rank : ℕ) (path : Text) (p p' : Progress) (records : Result (List Sample))
      → IsCountedSoFar p.stats
      → take_file header_of section_of load_reader match_rank trace rank path p records ≡ ok p'
      → IsCountedSoFar p'.stats
  take_file_counted trace rank path p p' (ok records) h e =
      let (stats, added, done) = bind-ok (add_file trace rank path p.stats records) _ e in
      subst (λ (q : Progress). IsCountedSoFar q.stats) (ok_injective done)
        (add_file_counted trace rank path p.stats stats records h added)
  take_file_counted trace rank path p p' (raise kind m) h e =
      subst (λ (q : Progress). IsCountedSoFar q.stats) (skipped (is_malformed kind) kind m e) h

  finished-IsCounted :
      (path : Text) (skip : ℕ) (o : Option TraceStats) (s : TraceStats)
      → IsCountedSoFar o
      → finished header_of section_of load_reader match_rank path skip o ≡ ok s
      → IsCounted s
  finished-IsCounted path skip none s h e = absurd (cc)
  finished-IsCounted path skip (some s₀) s h e = subst IsCounted (ok_injective e) h

  read_files-IsCounted :
      (trace : Text) (d : Dir Bytes) (reader : GeneratedReader) (fs : List (Text × Bytes))
      (s : TraceStats)
      → read_files header_of section_of load_reader match_rank trace d reader fs ≡ ok s
      → IsCounted s
  unfolding read_file
  read_files-IsCounted trace d reader [] s e = absurd (cc)
  read_files-IsCounted trace d reader (f ∷ fs) s e =
      let (rank, _, e₁) = bind-ok (parse_rank match_rank d) _ e in
      let start : Progress = record { stats = none; skipped = 0 } in
      let (p, run, e₂) =
        bind-ok
          (fold (read_file header_of section_of load_reader match_rank trace rank d.path reader)
            start (f ∷ fs))
          _ e₁ in
      finished-IsCounted d.path p.skipped p.stats s
        (fold_keeps (λ (q : Progress). IsCountedSoFar q.stats)
          (read_file header_of section_of load_reader match_rank trace rank d.path reader)
          (λ q q' file keep round.
            take_file_counted trace rank d.path q q'
              (parse_sr_latency_records header_of section_of load_reader match_rank reader file.1)
              keep round)
          start p (f ∷ fs) tt run)
        e₂

  -- In whatever `read_trace` returns, the stored samples of all channels, valid or not, are as
  -- many as the counts of the files sum to, and the number of files is the number of those counts.
  pub read_trace_counts :
      (trace : Text) (d : Dir Bytes) (s : TraceStats)
      → read_trace header_of section_of load_reader match_rank trace d ≡ ok s
      → (sum_values samples s.channels ≡ sum_by file_total s.per_file_counts)
        × (s.files ≡ length s.per_file_counts)
  unfolding read_trace
  read_trace_counts trace d s e =
      let (reader, _, e₁) = bind-ok (load_reader d) _ e in
      read_files-IsCounted trace d reader (bin_files d) s e₁
