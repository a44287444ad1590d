-- ===== src/Nccl/Toml.antt =====
-- Probe configurations: the values that the TOML loader returns, tables with keys in order.
use fabricperf.Prelude.{Bool, false, Option, some, List, [], ◌∷◌, ◌≡◌, refl, ap}
use fabricperf.Prelude.Int.{ℤ}
use fabricperf.Prelude.Keys.{nat_eq, list_eq, ◌==◌}
use fabricperf.Prelude.Dict.{Dict, get, put, has, keys, get-put, get-put_self}
use fabricperf.Prelude.Text.{Text}

-- Lists are left out, but for the lists of texts.
mutual
  pub data Value : Type 0 where
    text : Text → Value
    int : ℤ → Value
    flag : Bool → Value
    texts : List Text → Value
    table : Table → Value

  pub data Table : Type 0 where
    empty : Table
    entry : Text → Value → Table → Table

abbrev pub entries : Table → Dict Text Value
entries empty = []
entries (entry k v t) = (k, v) ∷ entries t

abbrev pub from_entries : Dict Text Value → Table
from_entries [] = empty
from_entries ((k, v) ∷ d) = entry k v (from_entries d)

pub entries-from_entries : (d : Dict Text Value) → entries (from_entries d) ≡ d
entries-from_entries [] = refl
entries-from_entries ((k, v) ∷ d) = ap (◌∷◌ (k, v)) (entries-from_entries d)

-- `t.get(k)`, `k in t`, `t[k] = v` and `list(t.keys())`
unfoldable pub item : Text → Table → Option Value
unfolding get
item k t = get k (entries t)

unfoldable pub has_item : Text → Table → Bool
unfolding has
has_item k t = has k (entries t)

unfoldable pub set_item : Text → Value → Table → Table
unfolding put
set_item k v t = from_entries (put k v (entries t))

abbrev pub names : Table → List Text
names t = keys (entries t)

-- A table where one is expected, and the empty one for a missing key.
abbrev pub as_table : Option Value → Table
as_table (some (table t)) = t
as_table value = empty

-- `t.get(k, {})`
unfoldable pub table_at : Text → Table → Table
unfolding item
table_at k t = as_table (item k t)

-- `{"a": v, ...}`
abbrev pub one_entry : Text → Value → Table
one_entry k v = entry k v empty

pub item-set_item : (k : Text) (v : Value) (t : Table) → item k (set_item k v t) ≡ some v
unfolding item set_item
item-set_item k v t = rw (entries-from_entries (put k v (entries t))) (get-put_self k v (entries t))

pub item-set_item_other :
    (k j : Text) (v : Value) (t : Table) → (k == j) ≡ false → item j (set_item k v t) ≡ item j t
unfolding item set_item
item-set_item_other k j v t h =
    rw (entries-from_entries (put k v (entries t)), get-put k j v (entries t), h) refl
