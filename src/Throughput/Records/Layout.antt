-- ===== src/Throughput/Records/Layout.antt =====
-- The fixed-cell layout that analysis/throughput.py decodes, as an encoder: four equal slices, each
-- a duration cell, a total cell and a payload, before up to three cells that no slice owns.
use mathlib.Core.Bool.{false}
use mathlib.Core.List.{append_assoc, append-nil}
use fabricperf.Prelude.{
  ℕ, zero, suc, ◌+◌, ◌-◌, ◌*◌, ◌/◌, ◌≤◌, ◌<◌, ◌≡◌, refl, sym, ap, min, Option, none, some, List, [],
  ◌∷◌, ◌++◌, map, arith, leb, ltb, if◌then◌else◌, length, take, drop, enumerate, length-append,
  length-map,
}
use fabricperf.Prelude.Result.{ok}
use fabricperf.Throughput.Records.{
  Slot, Launch, base_or, cell, index, cell_slice, throughput_workgroup_cell_records,
}

-- What the probe stored for one workgroup: the duration, the number of arrivals, and a payload of
-- the first deltas, zero-filled.
pub record Slice : Type 0 where
  pub duration : ℕ
  pub total : ℕ
  pub payload : List ℕ

abbrev pub cell_of : ℕ → Slot
cell_of v = record { value = some v; sequence = none; delta_ticks = none }

abbrev pub encode : Slice → List Slot
encode s = cell_of s.duration ∷ cell_of s.total ∷ map cell_of s.payload

-- The launch that a slice stands for: none without arrivals, else the first `total` deltas that
-- the payload holds, numbered from 0.
abbrev pub launch_of : ℕ → ℕ → Slice → List Launch
launch_of size workgroup s =
    if leb s.total 0
    then []
    else record {
      workgroup = workgroup;
      accepted = enumerate 0 (take (min s.total size) s.payload);
      total_arrivals = some s.total;
      duration_ticks = some s.duration;
      capacity = size;
    }
      ∷ []

module _ {ℓ} {A : Type ℓ} (x y : A) (post : List A) where
  index-first : (pre : List A) → index (pre ++ x ∷ y ∷ post) (length pre) ≡ ok x
  unfolding index
  index-first [] = refl
  index-first (p ∷ pre) = index-first pre

  index-second : (pre : List A) → index (pre ++ x ∷ y ∷ post) (suc (length pre)) ≡ ok y
  unfolding index
  index-second [] = refl
  index-second (p ∷ pre) = index-second pre

  drop_header : (pre : List A) → drop (suc (suc (length pre))) (pre ++ x ∷ y ∷ post) ≡ post
  drop_header [] = refl
  drop_header (p ∷ pre) = drop_header pre

map-cell : (vs : List ℕ) → map cell (map cell_of vs) ≡ vs
map-cell [] = refl
map-cell (v ∷ vs) = ap (◌∷◌ v) (map-cell vs)

take-map-append :
    (k : ℕ) (vs : List ℕ) (post : List Slot)
    → k ≤ length vs
    → map cell (take k (map cell_of vs ++ post)) ≡ take k vs
take-map-append zero vs post h = refl
take-map-append (suc k) [] post h = absurd (omega arith)
take-map-append (suc k) (v ∷ vs) post h = ap (◌∷◌ v) (take-map-append k vs post (omega arith))

-- One slice of the layout is decoded to its launch, whatever stands before and after it.
cell_slice-encode :
    (size base w : ℕ) (pre post : List Slot) (s : Slice)
    → length pre ≡ w * (size + 2)
    → length s.payload ≡ size
    → cell_slice (pre ++ (encode s ++ post)) (size + 2) base w ≡ ok (launch_of size (base + w) s)
unfolding cell_slice
cell_slice-encode size base w pre post s hp hs =
    let e₀ : w * (size + 2) ≡ length pre = sym hp in
    let e₁ : w * (size + 2) + 1 ≡ suc (length pre) = omega arith in
    let e₂ : w * (size + 2) + 2 ≡ suc (suc (length pre)) = omega arith in
    let e₃ : size + 2 - 2 ≡ size = omega arith in
    rw (e₂, e₁, e₀, e₃, index-first, index-second, drop_header)
      (rw (take-map-append (min s.total size) s.payload post (omega arith)) (ground arith))

length-encode :
    (s : Slice) (post : List Slot) → length (encode s ++ post) ≡ length s.payload + 2 + length post
length-encode s post =
    omega (arith, length-append (map cell_of s.payload) post, length-map cell_of s.payload)

module _ (size : ℕ) (a b c d : Slice) (tail : List Slot) where
  abbrev pub stream : List Slot
  stream = encode a ++ (encode b ++ (encode c ++ (encode d ++ tail)))

  abbrev pub IsUniform : Type 0
  IsUniform =
      (length a.payload ≡ size)
      × (length b.payload ≡ size)
      × (length c.payload ≡ size)
      × (length d.payload ≡ size)

  length-stream : IsUniform → length stream ≡ 4 * (size + 2) + length tail
  length-stream (ha, hb, hc, hd) = omega (
    arith,
    length-encode a (encode b ++ (encode c ++ (encode d ++ tail))),
    length-encode b (encode c ++ (encode d ++ tail)),
    length-encode c (encode d ++ tail),
    length-encode d tail,
  )

  -- The four rounds over the whole stream, each at its own slice.
  slice_rounds :
      (base : ℕ)
      → IsUniform
      → (cell_slice stream (size + 2) base 0 ≡ ok (launch_of size (base + 0) a))
        × (cell_slice stream (size + 2) base 1 ≡ ok (launch_of size (base + 1) b))
        × (cell_slice stream (size + 2) base 2 ≡ ok (launch_of size (base + 2) c))
        × (cell_slice stream (size + 2) base 3 ≡ ok (launch_of size (base + 3) d))
  slice_rounds base (ha, hb, hc, hd) = (
    cell_slice-encode size base 0 [] (encode b ++ (encode c ++ (encode d ++ tail))) a (omega arith)
        ha,
    cell_slice-encode size base 1 (encode a) (encode c ++ (encode d ++ tail)) b
        (omega (arith, len a)) hb,
    rw (append_assoc (encode a) (encode b) (encode c ++ (encode d ++ tail))) at (
        cell_slice-encode size base 2 (encode a ++ encode b) (encode d ++ tail) c
          (omega (arith, len₂)) hc),
    rw
        (
          append_assoc (encode a) (encode b ++ encode c) (encode d ++ tail),
          append_assoc (encode b) (encode c) (encode d ++ tail),
        )
        at
        (cell_slice-encode size base 3 (encode a ++ (encode b ++ encode c)) tail d
          (omega (arith, len₃)) hd),
  )
    where
      len : (s : Slice) → length (encode s) ≡ length s.payload + 2
      len s = omega (arith, length-map cell_of s.payload)

      len₂ : length (encode a ++ encode b) ≡ 2 * (size + 2)
      len₂ = omega (arith, length-encode a (encode b), len b)

      len₃ : length (encode a ++ (encode b ++ encode c)) ≡ 3 * (size + 2)
      len₃ =
          omega (arith, length-encode a (encode b ++ encode c), length-encode b (encode c), len c)

  -- A stream of four slices with payloads of one positive length, and fewer than four cells after
  -- them, is decoded to the launches of its slices, in order, under the four ids from the base.
  pub throughput_workgroup_cell_records-stream :
      (block : ℕ) (base : Option ℕ)
      → IsUniform
      → 0 < size
      → length tail < 4
      → throughput_workgroup_cell_records stream block base
        ≡ ok (
            launch_of size (base_or (block * 4) base + 0) a
            ++ (launch_of size (base_or (block * 4) base + 1) b
                ++ (launch_of size (base_or (block * 4) base + 2) c
                    ++ launch_of size (base_or (block * 4) base + 3) d)))
  unfolding throughput_workgroup_cell_records
  throughput_workgroup_cell_records-stream block base uniform pos short =
      let len = length-stream uniform in
      let (ra, rb, rc, rd) = slice_rounds (base_or (block * 4) base) uniform in
      let quarter : length stream / 4 ≡ size + 2 = omega arith in
      let long : ltb (length stream) 8 ≡ false = ground arith in
      let wide : leb (size + 2) 2 ≡ false = ground arith in
      simp (long, quarter, wide, ra, rb, rc, rd, append-nil)
