-- ===== src/Memory/Metrics/Long.antt =====
-- The long form of analysis/common.py's `write_long_metrics_csv`.
use fabricperf.Prelude.{
  ◌≡◌, refl, sym, ◌∙◌, ap, Bool, not, List, [], ◌∷◌, ◌++◌, map, keep, Bool-cases, inl, inr,
}
use mathlib.Core.List.{append_assoc, append-nil}
use fabricperf.Prelude.Text.{Text}
use fabricperf.Memory.Metrics.{
  Row, Metrics, LongRow, LongFiles, field, long_row, parse_raw_metrics, is_diagnostic_raw_metric,
  write_metric, write_metrics, write_long_rows, write_long_metrics_csv,
}

-- All long rows of a row, in the order of its raw metrics.
abbrev pub rows_of : Row → List LongRow
rows_of row =
    let (order, metrics) = parse_raw_metrics (field "raw_metrics" row) in
    map (long_row row metrics) order

abbrev pub all_rows : List Row → List LongRow
all_rows [] = []
all_rows (row ∷ rows) = rows_of row ++ all_rows rows

abbrev pub is_diagnostic : LongRow → Bool
is_diagnostic r = is_diagnostic_raw_metric r.metric

abbrev pub is_metric : LongRow → Bool
is_metric r = not (is_diagnostic_raw_metric r.metric)

keep-append {ℓ} :
    {A : Type ℓ} (test : A → Bool) (xs ys : List A)
    → keep test (xs ++ ys) ≡ keep test xs ++ keep test ys
keep-append test [] ys = refl
keep-append test (x ∷ xs) ys = elim (Bool-cases (test x)) [
  | inl p ↦ rw p (ap (◌∷◌ x) (keep-append test xs ys))
  | inr p ↦ rw p (keep-append test xs ys)
]

write_metrics_parts :
    (row : Row) (metrics : Metrics) (files : LongFiles) (ms : List Text)
    → ((write_metrics row metrics files ms).0
        ≡ files.0 ++ keep is_metric (map (long_row row metrics) ms))
      × ((write_metrics row metrics files ms).1
          ≡ files.1 ++ keep is_diagnostic (map (long_row row metrics) ms))
unfolding write_metrics write_metric
write_metrics_parts row metrics files [] = (sym (append-nil files.0), sym (append-nil files.1))
write_metrics_parts row metrics files (m ∷ ms) =
    let (ih₀, ih₁) = write_metrics_parts row metrics (write_metric row metrics files m) ms in
    elim (Bool-cases (is_diagnostic_raw_metric m)) [
      | inl p ↦ (ih₀ ∙ rw p refl, ih₁ ∙ rw (p, append_assoc) refl)
      | inr p ↦ (ih₀ ∙ rw (p, append_assoc) refl, ih₁ ∙ rw p refl)
    ]

write_long_rows_parts :
    (files : LongFiles) (rows : List Row)
    → ((write_long_rows files rows).0 ≡ files.0 ++ keep is_metric (all_rows rows))
      × ((write_long_rows files rows).1 ≡ files.1 ++ keep is_diagnostic (all_rows rows))
unfolding write_long_rows
write_long_rows_parts files [] = (sym (append-nil files.0), sym (append-nil files.1))
write_long_rows_parts files (row ∷ rows) =
    let (order, metrics) = parse_raw_metrics (field "raw_metrics" row) in
    let (here₀, here₁) = write_metrics_parts row metrics files order in
    let (ih₀, ih₁) = write_long_rows_parts (write_metrics row metrics files order) rows in
    (
      ih₀ ∙ rw (here₀, keep-append, append_assoc) refl,
      ih₁ ∙ rw (here₁, keep-append, append_assoc) refl,
    )

-- Each raw metric of each row is written once: to the diagnostics if it is a bookkeeping key and else
-- to the metrics, both in the order of the rows and of their raw metrics.
pub write_long_metrics_csv_lem :
    (rows : List Row)
    → ((write_long_metrics_csv rows).0 ≡ keep is_metric (all_rows rows))
      × ((write_long_metrics_csv rows).1 ≡ keep is_diagnostic (all_rows rows))
unfolding write_long_metrics_csv
write_long_metrics_csv_lem rows = write_long_rows_parts ([], []) rows
