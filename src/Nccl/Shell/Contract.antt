-- ===== src/Nccl/Shell/Contract.antt =====
-- What the shell probe keeps of the probe that it stands for.
use fabricperf.Prelude.{
  ℕ, false, ◌&&◌, Option, none, some, length, ◌≤◌, ◌≡◌, refl, sym, ap, ◌∙◌, inl, inr, Bool-cases,
  arith,
}
use fabricperf.Prelude.Int.{ℤ, pos, negsuc}
use fabricperf.Prelude.Keys.{nat_eq, list_eq}
use fabricperf.Prelude.Text.{codes}
use fabricperf.Prelude.Result.{ok, ◌>>=◌}
use fabricperf.Nccl.Toml.{
  Value, int, table, Table, entry, item, has_item, set_item, names, table_at, one_entry,
}
use fabricperf.Nccl.Shell.{
  int_value, at_least_one, value_or_int, regs_of, with_symbol, shell_probes, is_true, shell_of,
  shell_probe_for, is_latency_probe,
}

-- The shell of a probe: its maps and symbols, one probe, and at least one register.
pub record IsShell (raw_probe shell : Table) : Type 0 where
  pub maps : item (codes "map") shell ≡ item (codes "map") raw_probe
  pub symbols : item (codes "symbol") shell ≡ item (codes "symbol") raw_probe
  pub one_probe : length (names (table_at (codes "probe") shell)) ≡ 1
  pub regs : ℕ
  pub regs_there : item (codes "regs") shell ≡ some (int (pos regs))
  pub regs_positive : 1 ≤ regs

at_least_one-le : (n : ℤ) → 1 ≤ at_least_one n
at_least_one-le (pos n) = omega arith
at_least_one-le (negsuc n) = omega arith

shell_probes-length : (raw_probe : Table) → length (names (shell_probes raw_probe)) ≡ 1
unfolding shell_probes
shell_probes-length raw_probe =
    elim (Bool-cases (
      is_latency_probe raw_probe
      && has_item (codes "ptp_metrics") (table_at (codes "probe") raw_probe))) [
        | inl latency ↦ rw latency refl
        | inr other ↦ rw other refl
      ]

-- The shell with a given value under "map".
shell_table : Table → ℕ → Value → Option Value → Table
shell_table probes regs maps symbol = with_symbol symbol (
    entry (codes "regs") (int (pos regs))
      (entry (codes "probe") (table probes) (one_entry (codes "map") maps)))

shell_table-IsShell :
    (raw_probe probes : Table) (regs : ℕ) (maps : Value) (symbol : Option Value)
    → item (codes "map") raw_probe ≡ some maps
    → item (codes "symbol") raw_probe ≡ symbol
    → length (names probes) ≡ 1
    → 1 ≤ regs
    → IsShell raw_probe (shell_table probes regs maps symbol)
unfolding shell_table item set_item table_at
shell_table-IsShell raw_probe probes regs maps none m s one positive = record {
  maps = sym m;
  symbols = sym s;
  one_probe = one;
  regs = regs;
  regs_there = refl;
  regs_positive = positive;
}
shell_table-IsShell raw_probe probes regs maps (some symbol) m s one positive = record {
  maps = sym m;
  symbols = sym s;
  one_probe = one;
  regs = regs;
  regs_there = refl;
  regs_positive = positive;
}

-- A probe with maps, without dynamic maps and with a register count that is an integer has a shell: with
-- its maps and symbols, one probe, and at least one register.
pub shell_probe_for_total :
    (raw_probe : Table) (maps : Value) (regs : ℤ)
    → is_true (item (codes "dynamic") raw_probe) ≡ false
    → item (codes "map") raw_probe ≡ some maps
    → int_value (value_or_int (pos 1) (item (codes "regs") raw_probe)) ≡ ok regs
    → (shell : Table) × (shell_probe_for raw_probe ≡ ok shell) × IsShell raw_probe shell
unfolding shell_probe_for regs_of shell_table
shell_probe_for_total raw_probe maps regs static m r =
    let symbol = item (codes "symbol") raw_probe in
    let probes = shell_probes raw_probe in
    let counted : regs_of (pos 1) raw_probe ≡ ok (at_least_one regs) =
      ap (λ v. v >>= λ n. ok (at_least_one n)) r in
    let built : shell_of raw_probe (some maps)
        ≡ ok (shell_table probes (at_least_one regs) maps symbol) =
      ap (λ v. v >>= λ n. ok (shell_table probes n maps symbol)) counted in
    (
      shell_table (shell_probes raw_probe) (at_least_one regs) maps symbol,
      rw static (ap (shell_of raw_probe) m ∙ built),
      shell_table-IsShell raw_probe (shell_probes raw_probe) (at_least_one regs) maps symbol m refl
          (shell_probes-length raw_probe) (at_least_one-le regs),
    )
