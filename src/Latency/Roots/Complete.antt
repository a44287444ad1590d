-- ===== src/Latency/Roots/Complete.antt =====
-- Which traces `analyze_latency_roots` of analysis/latency.py tabulates.
use mathlib.Core.List.{append_assoc, append-nil, Perm}
use mathlib.Core.Path.{subst}
use fabricperf.Prelude.{
  ℕ, ◌≡◌, refl, sym, ap, ◌∙◌, Bool, true, false, Option, List, [], ◌∷◌, ◌++◌, ◌⊎◌, inl, inr,
  if◌then◌else◌,
}
use fabricperf.Prelude.Int.{ℤ}
use fabricperf.Prelude.Text.{Text, codes, contains_text}
use fabricperf.Prelude.Sort.{sort, sort-perm}
use fabricperf.Prelude.Result.{
  Result, ok, raise, ErrorKind, value_error, file_not_found_error, bind-ok, ok_injective, fold,
  os_error, index_error, key_error, type_error, import_error, name_error, zero_division_error,
  struct_error, attribute_error,
}
use fabricperf.Trace.{Dir, FileSystem, resolve_trace_root, iter_trace_dirs}
use fabricperf.Latency.Compact.{Bytes, TraceHeader, TraceSection}
use fabricperf.Latency.Reader.{GeneratedReader, TraceStats, read_trace}
use fabricperf.Latency.Roots.{
  append_stats, read_dir, read_root, nonempty, stats_le, analyze_latency_roots,
}

-- The errors of a trace without result files or without latency rows.
abbrev pub IsEmptyTrace : ErrorKind → Text → Type 0
IsEmptyTrace kind m =
    ((kind ≡ file_not_found_error) × (contains_text (codes "no result/*.bin files") m ≡ true))
    ⊎ ((kind ≡ value_error) × (contains_text (codes "no sr_latency records found") m ≡ true))

-- What the reading of one trace adds: its statistics, or nothing for a trace without rows.
abbrev pub Adds : Result TraceStats → List TraceStats → Type 0
Adds (ok s) new = new ≡ s ∷ []
Adds (raise kind m) new = (new ≡ []) × IsEmptyTrace kind m

passed :
    (test : Bool) (kind : ErrorKind) (m : Text) (a b : List TraceStats)
    → (if test then ok a else raise kind m) ≡ ok b
    → (test ≡ true) × (b ≡ a ++ [])
passed true kind m a b e = (refl, sym (ok_injective e) ∙ sym (append-nil a))
passed false kind m a b e = absurd (cc)

append_stats-Adds :
    (stats stats' : List TraceStats) (r : Result TraceStats)
    → append_stats stats r ≡ ok stats'
    → (new : List TraceStats) × (stats' ≡ stats ++ new) × Adds r new
unfolding append_stats
append_stats-Adds stats stats' (ok s) e = (s ∷ [], sym (ok_injective e), refl)
append_stats-Adds stats stats' (raise file_not_found_error m) e =
    let (test, same) = passed _ file_not_found_error m stats stats' e in
    ([], same, (refl, inl (refl, test)))
append_stats-Adds stats stats' (raise value_error m) e =
    let (test, same) = passed _ value_error m stats stats' e in ([], same, (refl, inr (refl, test)))
append_stats-Adds stats stats' (raise os_error m) e = absurd (cc)
append_stats-Adds stats stats' (raise index_error m) e = absurd (cc)
append_stats-Adds stats stats' (raise key_error m) e = absurd (cc)
append_stats-Adds stats stats' (raise type_error m) e = absurd (cc)
append_stats-Adds stats stats' (raise import_error m) e = absurd (cc)
append_stats-Adds stats stats' (raise name_error m) e = absurd (cc)
append_stats-Adds stats stats' (raise zero_division_error m) e = absurd (cc)
append_stats-Adds stats stats' (raise struct_error m) e = absurd (cc)
append_stats-Adds stats stats' (raise attribute_error m) e = absurd (cc)

-- A list that is made of what `R` relates to each element, in their order.
abbrev pub Appends {ℓ} :
    {A : Type ℓ} → (A → List TraceStats → Type 0) → List A → List TraceStats → Type 0
Appends R [] new = new ≡ []
Appends R (x ∷ xs) new =
    (first : List TraceStats) × (rest : List TraceStats) × (new ≡ first ++ rest)
    × R x first
    × Appends R xs rest

fold-Appends {ℓ} :
    {A : Type ℓ} (R : A → List TraceStats → Type 0)
    (f : List TraceStats → A → Result (List TraceStats))
    → ((s t : List TraceStats) (x : A)
        → f s x ≡ ok t
        → (new : List TraceStats) × (t ≡ s ++ new) × R x new)
    → (s t : List TraceStats) (xs : List A) → fold f s xs ≡ ok t
    → (new : List TraceStats) × (t ≡ s ++ new) × Appends R xs new
fold-Appends R f step s t [] e = ([], sym (ok_injective e) ∙ sym (append-nil s), refl)
fold-Appends R f step s t (x ∷ xs) e =
    let (s', e₁, e₂) = bind-ok (f s x) (λ s'. fold f s' xs) e in
    let (first, added, r) = step s s' x e₁ in
    let (rest, appended, rs) = fold-Appends R f step s' t xs e₂ in
    (
      first ++ rest,
      appended ∙ ap (λ l. l ++ rest) added ∙ append_assoc s first rest,
      (first, rest, refl, r, rs),
    )

module _ (header_of : List ℤ → TraceHeader) (section_of : ℕ → ℕ → ℕ → TraceSection)
    (load_reader : Dir Bytes → Result GeneratedReader) (match_rank : Text → Option ℕ) where
  -- What the directory of a trace adds, and what a root does: all directories below it.
  abbrev pub DirAdds : Text × Dir Bytes → List TraceStats → Type 0
  DirAdds (trace, d) new = Adds (read_trace header_of section_of load_reader match_rank trace d) new

  abbrev pub RootAdds : FileSystem Bytes → Text → List TraceStats → Type 0
  RootAdds fs raw new =
      (root : Text) × (dirs : List (Text × Dir Bytes)) × (resolve_trace_root fs raw ≡ ok root)
      × (iter_trace_dirs (fs.open_root root) ≡ ok dirs)
      × Appends DirAdds dirs new

  read_dir-Adds :
      (s t : List TraceStats) (d : Text × Dir Bytes)
      → read_dir header_of section_of load_reader match_rank s d ≡ ok t
      → (new : List TraceStats) × (t ≡ s ++ new) × DirAdds d new
  unfolding read_dir
  read_dir-Adds s t (trace, d) e =
      append_stats-Adds s t (read_trace header_of section_of load_reader match_rank trace d) e

  read_root-Adds :
      (fs : FileSystem Bytes) (s t : List TraceStats) (raw : Text)
      → read_root header_of section_of load_reader match_rank fs s raw ≡ ok t
      → (new : List TraceStats) × (t ≡ s ++ new) × RootAdds fs raw new
  unfolding read_root
  read_root-Adds fs s t raw e =
      let (root, resolved, e₁) = bind-ok (resolve_trace_root fs raw) _ e in
      let (dirs, listed, e₂) = bind-ok (iter_trace_dirs (fs.open_root root)) _ e₁ in
      let (new, appended, adds) =
        fold-Appends DirAdds (read_dir header_of section_of load_reader match_rank) read_dir-Adds s
          t dirs e₂ in
      (new, appended, (root, dirs, resolved, listed, adds))

  nonempty_same :
      (stats found : List TraceStats)
      → nonempty header_of section_of load_reader match_rank stats ≡ ok found
      → stats ≡ found
  nonempty_same [] found e = absurd (cc)
  nonempty_same (s ∷ stats) found e = ok_injective e

  -- The tabulated traces are, in some order, those that are read in the directories below all roots: each
  -- directory's trace is among them, unless its error says that it has no result files or no latency
  -- rows, and there are no others.
  pub analyze_latency_roots-Adds :
      (fs : FileSystem Bytes) (raws : List Text) (stats : List TraceStats)
      → analyze_latency_roots header_of section_of load_reader match_rank fs raws ≡ ok stats
      → (read : List TraceStats) × Appends (RootAdds fs) raws read × Perm stats read
  unfolding analyze_latency_roots
  analyze_latency_roots-Adds fs raws stats e =
      let (all, run, e₁) =
        bind-ok (fold (read_root header_of section_of load_reader match_rank fs) [] raws) _ e in
      let (found, some_found, e₂) =
        bind-ok (nonempty header_of section_of load_reader match_rank all) _ e₁ in
      let (read, appended, adds) =
        fold-Appends (RootAdds fs) (read_root header_of section_of load_reader match_rank fs)
          (read_root-Adds fs) [] all raws run in
      let same : found ≡ read = sym (nonempty_same all found some_found) ∙ appended in
      (
        read,
        adds,
        subst (λ l. Perm l read) (ok_injective e₂)
            (subst (λ l. Perm (sort stats_le found) l) same (sort-perm stats_le found)),
      )
