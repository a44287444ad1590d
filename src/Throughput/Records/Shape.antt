-- ===== src/Throughput/Records/Shape.antt =====
-- What every decoded launch of analysis/throughput.py satisfies, and that decoding never raises.
use fabricperf.Prelude.{
  ℕ, zero, suc, ◌+◌, ◌-◌, ◌*◌, ◌/◌, ◌≤◌, ◌<◌, ◌≡◌, refl, min, Option, some, inl, inr, false, List,
  [], ◌∷◌, ◌++◌, map, arith, ltb, leb, eqb, Bool-cases, length, take, drop, All, range_from, range,
  length-take, length-drop, length-map, length-enumerate, enumerate, get_elem?-lt, All-append,
}
use fabricperf.Prelude.Result.{Result, ok, collect}
use fabricperf.Prelude.Dict.{value_or}
use fabricperf.Throughput.Records.{
  cell, accepted_records, Slot, Launch, base_or, index, cell_slice,
  throughput_workgroup_cell_records, partition_slice, throughput_partition_records,
}

-- A launch of a stream whose ids are `base`, …, `base + n - 1`, with room for `room` arrivals in each:
-- it has arrivals, and it keeps as many as there is room for.
pub record IsLaunch (base n room : ℕ) (l : Launch) : Type 0 where
  pub total : ℕ
  pub total_eq : l.total_arrivals ≡ some total
  pub arrivals : 0 < total
  pub capacity_eq : l.capacity ≡ room
  pub kept : length l.accepted ≡ min total room
  pub from_base : base ≤ l.workgroup
  pub below : l.workgroup < base + n

-- A loop none of whose rounds raises does not raise, and keeps a property of its output.
pub collect_total {ℓ κ μ} :
    {A : Type ℓ} {B : Type κ} (P : B → Type μ) (Q : A → Type 0) (f : A → Result (List B))
    → ((a : A) → Q a → (ys : List B) × (f a ≡ ok ys) × All P ys)
    → (xs : List A) → All Q xs
    → (ys : List B) × (collect f xs ≡ ok ys) × All P ys
collect_total P Q f step [] h = ([], refl, tt)
collect_total P Q f step (x ∷ xs) h =
    let (ys, e, p) = step x h.0 in
    let (zs, d, q) = collect_total P Q f step xs h.1 in
    (ys ++ zs, simp (e, d), All-append P ys zs p q)

pub range_from_below : (start n : ℕ) → All (λ i. i < start + n) (range_from start n)
range_from_below start zero = tt
range_from_below start (suc n) = (omega arith, weaken (start + 1) n (omega arith))
  where
    weaken : (i k : ℕ) → i + k ≤ start + suc n → All (λ j. j < start + suc n) (range_from i k)
    weaken i zero h = tt
    weaken i (suc k) h = (omega arith, weaken (i + 1) k (omega arith))

pub index-lt {ℓ} :
    {A : Type ℓ} (xs : List A) (i : ℕ) → i < length xs → (x : A) × (index xs i ≡ ok x)
unfolding index
index-lt xs i h = let (x, e) = get_elem?-lt xs i h in (x, rw (e, index))

-- The length of a slice that lies within the list.
length_slice {ℓ} :
    {A : Type ℓ} (start n : ℕ) (xs : List A)
    → start + n ≤ length xs
    → length (take n (drop start xs)) ≡ n
length_slice start n xs h = omega (arith, length-take n (drop start xs), length-drop start xs)

slice_fits : (w n c : ℕ) → w < n → w * c + c ≤ n * c
slice_fits w n c h = grind arith

module _ (raw : List Slot) (base : ℕ) where
  cell_slice_total :
      (c n w : ℕ)
      → 2 < c
      → w < n
      → w * c + c ≤ length raw
      → (ls : List Launch) × (cell_slice raw c base w ≡ ok ls) × All (IsLaunch base n (c - 2)) ls
  unfolding cell_slice
  cell_slice_total c n w hc hw h =
      let (d, ed) = index-lt raw (w * c) (omega arith) in
      let (t, et) = index-lt raw (w * c + 1) (omega arith) in
      elim (Bool-cases (leb (value_or 0 t.value) 0)) [
        | inl none_seen ↦ ([], simp (ed, et, none_seen), tt)
        | inr seen ↦ (
          record {
            workgroup = base + w;
            accepted =
                enumerate 0
                  (map cell (take (min (value_or 0 t.value) (c - 2)) (drop (w * c + 2) raw)));
            total_arrivals = some (value_or 0 t.value);
            duration_ticks = some (value_or 0 d.value);
            capacity = c - 2;
          }
              ∷ [],
          simp (ed, et, seen),
          (
            record {
              total = value_or 0 t.value;
              total_eq = refl;
              arrivals = ground arith;
              capacity_eq = refl;
              kept =
                  rw (length-enumerate, length-map)
                    (length_slice (w * c + 2) (min (value_or 0 t.value) (c - 2)) raw (omega arith));
              from_base = omega arith;
              below = omega arith;
            },
            tt,
          ),
        )
      ]

  cell_slices_total :
      (c n : ℕ)
      → 2 < c
      → n * c ≤ length raw
      → (ls : List Launch) × (collect (cell_slice raw c base) (range n) ≡ ok ls)
        × All (IsLaunch base n (c - 2)) ls
  cell_slices_total c n hc h =
      collect_total (IsLaunch base n (c - 2)) (λ i. i < 0 + n) (cell_slice raw c base)
        (λ w hw.
          cell_slice_total c n w hc (omega arith) (omega (arith, slice_fits w n c (omega arith))))
        (range n) (range_from_below 0 n)

-- Decoding a four-slice stream never raises, whatever its length, and every launch that it yields
-- has arrivals, keeps as many of them as a quarter of the stream has room for beside the two header
-- cells, and belongs to one of the four workgroup ids from the base.
pub throughput_workgroup_cell_records_total :
    (raw : List Slot) (block : ℕ) (base : Option ℕ)
    → (ls : List Launch) × (throughput_workgroup_cell_records raw block base ≡ ok ls)
      × All (IsLaunch (base_or (block * 4) base) 4 (length raw / 4 - 2)) ls
unfolding throughput_workgroup_cell_records
throughput_workgroup_cell_records_total raw block base = elim (Bool-cases (ltb (length raw) 8)) [
  | inl short ↦ ([], rw short, tt)
  | inr long ↦ elim (Bool-cases (leb (length raw / 4) 2)) [
    | inl thin ↦ ([], rw (long, thin), tt)
    | inr wide ↦
        rw (long, wide)
          (cell_slices_total raw (base_or (block * 4) base) (length raw / 4) 4 (ground arith)
            (omega arith))
  ]
]

module _ (raw : List Slot) (base : ℕ) where
  partition_slice_total :
      (size n p : ℕ)
      → p < n
      → p * size + size ≤ length raw
      → (ls : List Launch) × (partition_slice raw size base p ≡ ok ls)
        × All (IsLaunch base n (size - 1)) ls
  unfolding partition_slice
  partition_slice_total size n p hp h = elim (Bool-cases (leb (length raw) (p * size))) [
    | inl past ↦ ([], simp past, tt)
    | inr inside ↦
        let (t, et) = index-lt raw (p * size) (ground arith) in
        elim (Bool-cases (leb (value_or 0 t.sequence) 0)) [
          | inl none_seen ↦ ([], simp (inside, et, none_seen), tt)
          | inr seen ↦ (
            record {
              workgroup = base + p;
              accepted =
                  accepted_records
                    (take (min (value_or 0 t.sequence) (size - 1)) (drop (p * size + 1) raw));
              total_arrivals = some (value_or 0 t.sequence);
              duration_ticks = some (value_or 0 t.delta_ticks);
              capacity = size - 1;
            }
                ∷ [],
            simp (inside, et, seen),
            (
              record {
                total = value_or 0 t.sequence;
                total_eq = refl;
                arrivals = ground arith;
                capacity_eq = refl;
                kept =
                    rw (length-map, length-enumerate)
                      (length_slice (p * size + 1) (min (value_or 0 t.sequence) (size - 1)) raw
                        (ground arith));
                from_base = omega arith;
                below = omega arith;
              },
              tt,
            ),
          )
        ]
  ]

  partition_slices_total :
      (size n : ℕ)
      → n * size ≤ length raw
      → (ls : List Launch) × (collect (partition_slice raw size base) (range n) ≡ ok ls)
        × All (IsLaunch base n (size - 1)) ls
  partition_slices_total size n h =
      collect_total (IsLaunch base n (size - 1)) (λ i. i < 0 + n) (partition_slice raw size base)
        (λ p hp.
          partition_slice_total size n p (omega arith)
            (omega (arith, slice_fits p n size (omega arith))))
        (range n) (range_from_below 0 n)

-- Decoding a partitioned stream with at least one partition never raises, and every launch that it
-- yields has arrivals, keeps as many of them as an n-th part of the stream has room for beside one
-- header slot, and belongs to one of the n workgroup ids from the base.
pub throughput_partition_records_total :
    (raw : List Slot) (block n : ℕ) (base : Option ℕ)
    → 0 < n
    → (ls : List Launch) × (throughput_partition_records raw block n base ≡ ok ls)
      × All (IsLaunch (base_or (block * n) base) n (length raw / n - 1)) ls
unfolding throughput_partition_records
throughput_partition_records_total [] block n base h = ([], refl, tt)
throughput_partition_records_total (s ∷ raw) block n base h =
    let e : eqb n 0 ≡ false = ground arith in
    rw e (
      partition_slices_total (s ∷ raw) (base_or (block * n) base) (length (s ∷ raw) / n) n
        (omega arith))
