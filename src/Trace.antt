-- ===== src/Trace.antt =====
-- The trace roots of analysis/common.py as data: what `iter_trace_dirs`, `parse_rank` and
-- `resolve_trace_root` read of the file system.
use mathlib.Core.List.{reverse}
use Prim.Native.String.{String}
use fabricperf.Prelude.{
  ℕ, Bool, ◌&&◌, Option, none, some, List, [], ◌∷◌, ◌++◌, map, if◌then◌else◌, keep,
}
use fabricperf.Prelude.Dict.{Dict}
use fabricperf.Prelude.Sort.{sort, text_le}
use fabricperf.Prelude.Text.{Text, codes, starts_with}
use fabricperf.Prelude.Result.{Result, ok, raise, value_error, file_not_found_error}

-- One CSV file: `csv.DictReader`'s field names and rows.
pub record Csv : Type 0 where
  pub fieldnames : List String
  pub rows : List (Dict String Text)

-- One entry of a trace root. `File` is the content of a result file.
pub record Dir (File : Type 0) : Type 0 where
  pub name : Text
  pub path : Text
  pub is_dir : Bool
  -- `(child / "read.py").is_file()` and `(child / "result").is_dir()`
  pub has_reader : Bool
  pub has_result : Bool
  pub result : List (Text × File)
  -- the lines of `event.log`, if it can be opened
  pub event_log : Option (List Text)
  -- `fabricperf_cupti.csv`
  pub csv : Option Csv

pub record Root (File : Type 0) : Type 0 where
  pub parent_name : Text
  pub self : Dir File
  pub children : List (Dir File)

abbrev first_rank : (Text → Option ℕ) → Text → List Text → Result ℕ
first_rank match_rank path [] = raise value_error (codes "could not infer rank from " ++ path)
first_rank match_rank path (line ∷ lines) = elim (match_rank line) [
  | none ↦ first_rank match_rank path lines
  | some rank ↦ ok rank
]

module _ {File : Type 0} where
  abbrev is_rank_dir : Dir File → Bool
  is_rank_dir d = d.is_dir && d.has_reader

  abbrev pub by_name : Dir File → Dir File → Bool
  by_name a b = text_le a.name b.name

  abbrev yield_children : Root File → List (Dir File) → Result (List (Text × Dir File))
  yield_children root [] =
      raise file_not_found_error (codes "no per-rank trace directories under: " ++ (root.self).path)
  yield_children root (d ∷ ds) = ok (map (λ c. ((root.self).name, c)) (d ∷ ds))

  unfoldable pub iter_trace_dirs : Root File → Result (List (Text × Dir File))
  iter_trace_dirs root =
      if (root.self).has_reader && (root.self).has_result
      then ok ((root.parent_name, root.self) ∷ [])
      else yield_children root (sort by_name (keep is_rank_dir root.children))

  -- `name.endswith(".bin")`, as the glob `*.bin` asks.
  abbrev is_bin : Text × File → Bool
  is_bin e = starts_with (reverse e.0) (reverse (codes ".bin"))

  -- `sorted((trace_dir / "result").glob("*.bin"))`
  unfoldable pub bin_files : Dir File → List (Text × File)
  bin_files d = sort (λ a b. text_le a.0 b.0) (keep is_bin d.result)

  module _ (match_rank : Text → Option ℕ) where
    -- The rank of the first line that the rank pattern matches; `match_rank` is that pattern.
    unfoldable pub parse_rank : Dir File → Result ℕ
    parse_rank d = elim d.event_log [
      | none ↦ raise file_not_found_error (codes "No such file or directory")
      | some lines ↦ first_rank match_rank (d.path ++ codes "/event.log") lines
    ]

-- The file system as the analyzers reach it.
pub record FileSystem (File : Type 0) : Type 0 where
  pub expanduser : Text → Text
  pub exists : Text → Bool
  pub resolve : Text → Text
  -- `WORKSPACE_ROOT / path` and `REPO_ROOT / path`
  pub in_workspace : Text → Text
  pub in_repo : Text → Text
  -- what stands at a resolved path
  pub open_root : Text → Root File

unfoldable pub resolve_trace_root : {File : Type 0} → FileSystem File → Text → Result Text
resolve_trace_root fs raw =
    let path = fs.expanduser raw in
    let workspace_path = fs.resolve (fs.in_workspace path) in
    let repo_path = fs.resolve (fs.in_repo path) in
    if fs.exists path
    then ok (fs.resolve path)
    else if fs.exists workspace_path
    then ok workspace_path
    else if fs.exists repo_path
    then ok repo_path
    else raise file_not_found_error (codes "trace root not found: " ++ raw)
