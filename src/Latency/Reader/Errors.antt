-- ===== src/Latency/Reader/Errors.antt =====
-- Which errors of one result file analysis/latency.py's `read_trace` survives.
use fabricperf.Prelude.{
  ℕ, ◌+◌, ◌≡◌, refl, Bool, true, false, some, [], ◌∷◌, All, Bool-cases, ◌||◌, Option, none, List,
  ◌⊎◌, inl, inr,
}
use fabricperf.Prelude.Int.{ℤ, pos, eqb_ℤ}
use fabricperf.Prelude.Text.{Text}
use fabricperf.Prelude.Result.{
  Result, ok, raise, ErrorKind, value_error, os_error, struct_error, file_not_found_error,
  index_error, key_error, name_error, type_error, import_error, zero_division_error,
  attribute_error, fold, fold_rounds, bind-ok,
}
use fabricperf.Trace.{Dir, bin_files, parse_rank}
use fabricperf.Latency.Channel.{Sample}
use fabricperf.Latency.Compact.{Bytes, TraceHeader, TraceSection, read_header}
use fabricperf.Latency.Reader.{
  Progress, Parsed, GeneratedReader, read_file, read_files, read_trace, take_file,
  parse_sr_latency_records, samples_of, undefined_fallback, undefined_message, TraceStats,
}

abbrev is_compact : TraceHeader → Bool
is_compact header = eqb_ℤ header.num_probes (pos 1) || eqb_ℤ header.num_probes (pos 2)

-- The generated reader finds no `sr_latency` section in a file.
abbrev pub LacksSection : Result Parsed → Type 0
LacksSection (ok p) = p.sr_latency ≡ none
LacksSection (raise kind m) = (kind ≡ index_error) ⊎ (kind ≡ key_error)

lacking : (p : Result Parsed) → LacksSection p → samples_of p ≡ undefined_fallback
lacking (ok p) h = rw h refl
lacking (raise index_error m) h = refl
lacking (raise key_error m) h = refl
lacking (raise value_error m) h = elim h [ inl p ↦ absurd (cc) | inr p ↦ absurd (cc) ]
lacking (raise file_not_found_error m) h = elim h [ inl p ↦ absurd (cc) | inr p ↦ absurd (cc) ]
lacking (raise os_error m) h = elim h [ inl p ↦ absurd (cc) | inr p ↦ absurd (cc) ]
lacking (raise type_error m) h = elim h [ inl p ↦ absurd (cc) | inr p ↦ absurd (cc) ]
lacking (raise import_error m) h = elim h [ inl p ↦ absurd (cc) | inr p ↦ absurd (cc) ]
lacking (raise name_error m) h = elim h [ inl p ↦ absurd (cc) | inr p ↦ absurd (cc) ]
lacking (raise zero_division_error m) h = elim h [ inl p ↦ absurd (cc) | inr p ↦ absurd (cc) ]
lacking (raise attribute_error m) h = elim h [ inl p ↦ absurd (cc) | inr p ↦ absurd (cc) ]
lacking (raise struct_error m) h = elim h [ inl p ↦ absurd (cc) | inr p ↦ absurd (cc) ]

module _ (header_of : List ℤ → TraceHeader) (section_of : ℕ → ℕ → ℕ → TraceSection)
    (load_reader : Dir Bytes → Result GeneratedReader) (match_rank : Text → Option ℕ) where
  -- A file whose header has neither one nor two probes and in which the generated reader finds no
  -- `sr_latency` section raises a `NameError`: it is not passed over as malformed.
  pub read_file_undefined :
      (trace : Text) (rank : ℕ) (path : Text) (reader : GeneratedReader) (p : Progress)
      (name : Text) (file : Bytes) (header : TraceHeader)
      → read_header header_of section_of file ≡ ok header
      → eqb_ℤ header.num_probes (pos 1) ≡ false
      → eqb_ℤ header.num_probes (pos 2) ≡ false
      → LacksSection (reader.parse file)
      → read_file header_of section_of load_reader match_rank trace rank path reader p (name, file)
        ≡ raise name_error undefined_message
  unfolding read_file parse_sr_latency_records
  read_file_undefined trace rank path reader p name file header h one two lacks =
      rw (h, one, two, lacking (reader.parse file) lacks) refl

  -- An operating system, format or value error of one file, raised by the generated reader or by the
  -- compact one, leaves the statistics as they are and adds one to the skipped files.
  pub read_file_malformed :
      (trace : Text) (rank : ℕ) (path : Text) (reader : GeneratedReader) (p : Progress)
      (name : Text) (file : Bytes) (kind : ErrorKind) (m : Text)
      → parse_sr_latency_records header_of section_of load_reader match_rank reader file
        ≡ raise kind m
      → (kind ≡ value_error) ⊎ ((kind ≡ os_error) ⊎ (kind ≡ struct_error))
      → read_file header_of section_of load_reader match_rank trace rank path reader p (name, file)
        ≡ ok (record { stats = p.stats; skipped = p.skipped + 1 })
  unfolding read_file
  read_file_malformed trace rank path reader p name file kind m raised (inl k) = rw (raised, k) refl
  read_file_malformed trace rank path reader p name file kind m raised (inr (inl k)) =
      rw (raised, k) refl
  read_file_malformed trace rank path reader p name file kind m raised (inr (inr k)) =
      rw (raised, k) refl

-- The errors of the generated reader for which a file is passed over.
abbrev pub is_passed_over : ErrorKind → Bool
is_passed_over value_error = true
is_passed_over os_error = true
is_passed_over file_not_found_error = true
is_passed_over struct_error = true
is_passed_over kind = false

-- What the generated reader returns for a file has an `sr_latency` section, or the file is passed over.
abbrev pub IsParsed : Result Parsed → Type 0
IsParsed (ok p) = (blocks : List (List (List Sample))) × (p.sr_latency ≡ some blocks)
IsParsed (raise kind m) = is_passed_over kind ≡ true

module _ (header_of : List ℤ → TraceHeader) (section_of : ℕ → ℕ → ℕ → TraceSection)
    (load_reader : Dir Bytes → Result GeneratedReader) (match_rank : Text → Option ℕ) where
  -- A file is without a whole header, or compact, or the generated reader finds its section or passes
  -- it over.
  pub data IsReadable (reader : GeneratedReader) (file : Text × Bytes) : Type 0 where
    no_header :
        {kind : ErrorKind} {m : Text}
        → read_header header_of section_of file.1 ≡ raise kind m
        → IsReadable reader file
    compact :
        {header : TraceHeader}
        → read_header header_of section_of file.1 ≡ ok header
        → (eqb_ℤ header.num_probes (pos 1) || eqb_ℤ header.num_probes (pos 2)) ≡ true
        → IsReadable reader file
    parsed : IsParsed (reader.parse file.1) → IsReadable reader file

  taken-IsParsed :
      (trace : Text) (rank : ℕ) (path : Text) (p t : Progress) (q : Result Parsed)
      → take_file header_of section_of load_reader match_rank trace rank path p (samples_of q)
        ≡ ok t
      → IsParsed q
  taken-IsParsed trace rank path p t (ok q) e = found q.sr_latency refl e
    where
      found :
          (blocks : Option (List (List (List Sample))))
          → q.sr_latency ≡ blocks
          → take_file header_of section_of load_reader match_rank trace rank path p
              (samples_of (ok q))
            ≡ ok t
          → IsParsed (ok q)
      found (some blocks) h e = (blocks, h)
      found none h e = absurd (cc (rw h at e))
  taken-IsParsed trace rank path p t (raise value_error m) e = refl
  taken-IsParsed trace rank path p t (raise os_error m) e = refl
  taken-IsParsed trace rank path p t (raise file_not_found_error m) e = refl
  taken-IsParsed trace rank path p t (raise struct_error m) e = refl
  taken-IsParsed trace rank path p t (raise index_error m) e = absurd (cc)
  taken-IsParsed trace rank path p t (raise key_error m) e = absurd (cc)
  taken-IsParsed trace rank path p t (raise type_error m) e = absurd (cc)
  taken-IsParsed trace rank path p t (raise import_error m) e = absurd (cc)
  taken-IsParsed trace rank path p t (raise name_error m) e = absurd (cc)
  taken-IsParsed trace rank path p t (raise zero_division_error m) e = absurd (cc)
  taken-IsParsed trace rank path p t (raise attribute_error m) e = absurd (cc)

  read_file-IsReadable :
      (trace : Text) (rank : ℕ) (path : Text) (reader : GeneratedReader) (p t : Progress)
      (file : Text × Bytes) (h : Result TraceHeader)
      → read_header header_of section_of file.1 ≡ h
      → read_file header_of section_of load_reader match_rank trace rank path reader p file ≡ ok t
      → IsReadable reader file
  unfolding read_file parse_sr_latency_records
  read_file-IsReadable trace rank path reader p t file (raise kind m) h e = no_header h
  read_file-IsReadable trace rank path reader p t file (ok header) h e =
      elim (Bool-cases (eqb_ℤ header.num_probes (pos 1) || eqb_ℤ header.num_probes (pos 2))) [
        | inl is_compact ↦ compact h is_compact
        | inr other ↦
            parsed (taken-IsParsed trace rank path p t (reader.parse file.1) (rw (h, other) at e))
      ]

  read_files-IsReadable :
      (trace : Text) (d : Dir Bytes) (reader : GeneratedReader) (files : List (Text × Bytes))
      (stats : TraceStats)
      → read_files header_of section_of load_reader match_rank trace d reader files ≡ ok stats
      → All (IsReadable reader) files
  read_files-IsReadable trace d reader [] stats e = absurd (cc)
  read_files-IsReadable trace d reader (f ∷ fs) stats e =
      let (rank, _, e₁) = bind-ok (parse_rank match_rank d) _ e in
      let round : Progress → Text × Bytes → Result Progress =
        read_file header_of section_of load_reader match_rank trace rank d.path reader in
      let start : Progress = record { stats = none; skipped = 0 } in
      let (p, run, _) = bind-ok (fold round start (f ∷ fs)) _ e₁ in
      fold_rounds (IsReadable reader) round
        (λ s t file ran.
          read_file-IsReadable trace rank d.path reader s t file
            (read_header header_of section_of file.1) refl ran)
        start p (f ∷ fs) run

  -- A trace is read only if each of its result files is without a whole header, or has one or two
  -- probes, or has an `sr_latency` section, or the generated reader raises an operating system, format
  -- or value error for it. So one file without the section ends the whole trace: it is not passed over.
  pub read_trace-IsReadable :
      (trace : Text) (d : Dir Bytes) (reader : GeneratedReader) (stats : TraceStats)
      → load_reader d ≡ ok reader
      → read_trace header_of section_of load_reader match_rank trace d ≡ ok stats
      → All (IsReadable reader) (bin_files d)
  unfolding read_trace
  read_trace-IsReadable trace d reader stats loaded e =
      read_files-IsReadable trace d reader (bin_files d) stats (rw loaded at e)
