-- ===== src/Latency/Compact/Rows.antt =====
-- The compact rows of analysis/latency.py: their binary form, and the order in which they are read.
use mathlib.Core.List.{append_assoc}
use fabricperf.Prelude.{
  ℕ, zero, suc, ◌+◌, ◌-◌, ◌*◌, ◌/◌, ◌%◌, ◌^◌, ◌<◌, ◌≡◌, refl, ap, ◌∙◌, sym, List, [], ◌∷◌, ◌++◌,
  arith, length, take, drop, range, range_from,
}
use fabricperf.Prelude.Int.{ℤ, pos, negsuc}
use fabricperf.Prelude.Result.{Result, ok, raise, ◌>>=◌, collect}
use fabricperf.Latency.Compact.{
  Bytes, TraceSection, le_value, signed, row_of_bytes, SampleType, read_stream, read_streams,
}

-- The `k` low bytes of a number, least significant first.
unfoldable pub le_bytes : ℕ → ℕ → Bytes
le_bytes zero n = []
le_bytes (suc k) n = n % 256 ∷ le_bytes k (n / 256)

length-le_bytes : (k n : ℕ) → length (le_bytes k n) ≡ k
unfolding le_bytes
length-le_bytes zero n = refl
length-le_bytes (suc k) n = ap suc (length-le_bytes k (n / 256))

-- 256 to the power of a number of bytes.
abbrev bytes_bound : ℕ → ℕ
bytes_bound zero = 1
bytes_bound (suc k) = 256 * bytes_bound k

le_value-le_bytes : (k n : ℕ) → n < bytes_bound k → le_value (le_bytes k n) ≡ n
unfolding le_bytes le_value
le_value-le_bytes zero n h = omega arith
le_value-le_bytes (suc k) n h = omega (arith, le_value-le_bytes k (n / 256) (omega arith))

-- The two's complement pattern of an integer in 64 bits.
abbrev pub twos_complement : ℤ → ℕ
twos_complement (pos n) = n
twos_complement (negsuc n) = 2 ^ 64 - 1 - n

-- A latency that fits 64 bits.
abbrev pub FitsInt64 : ℤ → Type 0
FitsInt64 (pos n) = n < 2 ^ 63
FitsInt64 (negsuc n) = n < 2 ^ 63

pub row_bytes : ℤ → ℕ → ℕ → Bytes
row_bytes latency vblock step =
    le_bytes 8 (twos_complement latency) ++ (le_bytes 4 vblock ++ le_bytes 4 step)

signed-twos_complement :
    (latency : ℤ) → FitsInt64 latency → signed (2 ^ 63) (twos_complement latency) ≡ latency
signed-twos_complement (pos n) h = ground arith
signed-twos_complement (negsuc n) h = ground arith

twos_complement-lt : (latency : ℤ) → FitsInt64 latency → twos_complement latency < bytes_bound 8
twos_complement-lt (pos n) h = omega arith
twos_complement-lt (negsuc n) h = omega arith

module _ (x y : ℕ) (rest : Bytes) where
  latency_part : take 8 (le_bytes 8 x ++ rest) ≡ le_bytes 8 x
  unfolding le_bytes
  latency_part = refl

  vblock_part : take 4 (drop 8 (le_bytes 8 x ++ (le_bytes 4 y ++ rest))) ≡ le_bytes 4 y
  unfolding le_bytes
  vblock_part = refl

  step_part : drop 12 (le_bytes 8 x ++ (le_bytes 4 y ++ rest)) ≡ rest
  unfolding le_bytes
  step_part = refl

-- A latency row that is written in 16 bytes, a signed 64-bit latency and two 32-bit words, is read
-- back unchanged.
pub row_of_bytes-row_bytes :
    (latency : ℤ) (vblock step : ℕ)
    → FitsInt64 latency
    → vblock < 2 ^ 32
    → step < 2 ^ 32
    → row_of_bytes (row_bytes latency vblock step) ≡ (latency, vblock, step)
unfolding row_of_bytes row_bytes
row_of_bytes-row_bytes latency vblock step hl hv hs =
    let word = twos_complement latency in
    let tail = le_bytes 4 vblock ++ le_bytes 4 step in
    rw
      (
        latency_part word vblock tail,
        vblock_part word vblock (le_bytes 4 step),
        step_part word vblock (le_bytes 4 step),
        le_value-le_bytes 8 word (twos_complement-lt latency hl),
        le_value-le_bytes 4 vblock (omega arith),
        le_value-le_bytes 4 step (omega arith),
      )
      (rw (signed-twos_complement latency hl))

range_from-add :
    (start m n : ℕ) → range_from start (m + n) ≡ range_from start m ++ range_from (start + m) n
range_from-add start zero n =
    let e : 0 + n ≡ n = omega arith in let d : start + 0 ≡ start = omega arith in rw (e, d)
range_from-add start (suc m) n =
    let e : suc m + n ≡ suc (m + n) = omega arith in
    let d : start + suc m ≡ start + 1 + m = omega arith in
    rw (e, d) (ap (◌∷◌ start) (range_from-add (start + 1) m n))

module _ {ℓ} {A : Type ℓ} where
  abbrev both : Result (List A) → Result (List A) → Result (List A)
  both first second = first >>= λ ys. second >>= λ zs. ok (ys ++ zs)

  both_assoc : (a b c : Result (List A)) → both a (both b c) ≡ both (both a b) c
  both_assoc (raise k m) b c = refl
  both_assoc (ok xs) (raise k m) c = refl
  both_assoc (ok xs) (ok ys) (raise k m) = refl
  both_assoc (ok xs) (ok ys) (ok zs) = ap ok (sym (append_assoc xs ys zs))

  both-nil : (b : Result (List A)) → b ≡ both (ok []) b
  both-nil (raise k m) = refl
  both-nil (ok ys) = refl

  collect-append :
      (f : ℕ → Result (List A)) (xs ys : List ℕ)
      → collect f (xs ++ ys) ≡ both (collect f xs) (collect f ys)
  collect-append f [] ys = both-nil (collect f ys)
  collect-append f (x ∷ xs) ys =
      ap (λ r. f x >>= λ ys. r >>= λ zs. ok (ys ++ zs)) (collect-append f xs ys)
      ∙ both_assoc (f x) (collect f xs) (collect f ys)

  collect_shift :
      (f : ℕ → Result (List A)) (base j n : ℕ)
      → collect (λ c. f (base + c)) (range_from j n) ≡ collect f (range_from (base + j) n)
  collect_shift f base j zero = refl
  collect_shift f base j (suc n) =
      let e : base + j + 1 ≡ base + (j + 1) = omega arith in
      rw e (
        ap (λ r. f (base + j) >>= λ ys. r >>= λ zs. ok (ys ++ zs)) (collect_shift f base (j + 1) n))

  -- A nested loop over rows and columns is the loop over all cells in row-major order.
  collect_flat :
      (f : ℕ → Result (List A)) (columns start rows : ℕ)
      → collect (λ r. collect (λ c. f (r * columns + c)) (range columns)) (range_from start rows)
        ≡ collect f (range_from (start * columns) (rows * columns))
  collect_flat f columns start zero = let e : 0 * columns ≡ 0 = omega arith in rw e
  collect_flat f columns start (suc rows) =
      let e : suc rows * columns ≡ columns + rows * columns = omega arith in
      let d : start * columns + columns ≡ (start + 1) * columns = omega arith in
      let z : start * columns + 0 ≡ start * columns = omega arith in
      rw
        (
          e,
          range_from-add (start * columns) columns (rows * columns),
          d,
          collect-append f (range_from (start * columns) columns)
              (range_from ((start + 1) * columns) (rows * columns)),
        )
        (rw
          (collect_shift f (start * columns) 0 columns, z, collect_flat f columns (start + 1) rows))

-- The rows of a compact section are read in the order in which the warp streams stand in the file:
-- the loops over blocks and warps visit stream 0, 1, … up to the number of streams.
pub read_streams-flat :
    (sr_latency_type : SampleType) (file : Bytes) (section : TraceSection)
    (grid_size warp_streams : ℕ)
    → read_streams sr_latency_type file section grid_size warp_streams
      ≡ collect (read_stream sr_latency_type file section) (range (grid_size * warp_streams))
unfolding read_streams
read_streams-flat sr_latency_type file section grid_size warp_streams =
    let z : 0 * warp_streams ≡ 0 = omega arith in
    collect_flat (read_stream sr_latency_type file section) warp_streams 0 grid_size
    ∙ ap
        (λ n.
          collect (read_stream sr_latency_type file section)
            (range_from n (grid_size * warp_streams)))
        z
