-- ===== src/Throughput/Records/Workgroups.antt =====
-- The public workgroup ids of analysis/throughput.py's `workgroup_base_for_warp`.
use fabricperf.Prelude.{ℕ, zero, suc, ◌+◌, ◌-◌, ◌*◌, ◌<◌, ◌≡◌, arith, ap}
use fabricperf.Throughput.Records.{workgroup_base_for_warp}

-- Row-major indices of two distinct cells differ.
row_major_injective :
    (n b₁ k₁ b₂ k₂ : ℕ) → k₁ < n → k₂ < n → b₁ * n + k₁ ≡ b₂ * n + k₂ → (b₁ ≡ b₂) × (k₁ ≡ k₂)
row_major_injective n zero k₁ zero k₂ h₁ h₂ e = omega arith
row_major_injective n zero k₁ (suc b₂) k₂ h₁ h₂ e = absurd (omega arith)
row_major_injective n (suc b₁) k₁ zero k₂ h₁ h₂ e = absurd (omega arith)
row_major_injective n (suc b₁) k₁ (suc b₂) k₂ h₁ h₂ e =
    omega (arith, row_major_injective n b₁ k₁ b₂ k₂ h₁ h₂ (omega arith))

base_first : (b blocks warps : ℕ) → workgroup_base_for_warp b blocks warps 0 ≡ b * 4
unfolding workgroup_base_for_warp
base_first b blocks warps = omega arith

base_later :
    (b blocks warps w : ℕ)
    → workgroup_base_for_warp b blocks warps (suc w) ≡ (blocks + (b * (warps - 1) + w)) * 4
unfolding workgroup_base_for_warp
base_later b blocks warps w = ground arith

-- Two streams of one result file, each block with `warps` warps, that write to a common workgroup
-- id are the same stream: the four ids from one stream's base meet no other stream's.
pub workgroup_base_for_warp-injective :
    (blocks warps b₁ w₁ b₂ w₂ i j : ℕ)
    → b₁ < blocks
    → b₂ < blocks
    → w₁ < warps
    → w₂ < warps
    → i < 4
    → j < 4
    → workgroup_base_for_warp b₁ blocks warps w₁ + i
      ≡ workgroup_base_for_warp b₂ blocks warps w₂ + j
    → (b₁ ≡ b₂) × (w₁ ≡ w₂) × (i ≡ j)
workgroup_base_for_warp-injective blocks warps b₁ zero b₂ zero i j hb₁ hb₂ hw₁ hw₂ hi hj e =
    omega (arith, base_first)
workgroup_base_for_warp-injective blocks warps b₁ zero b₂ (suc v) i j hb₁ hb₂ hw₁ hw₂ hi hj e =
    absurd (omega (arith, base_first, base_later))
workgroup_base_for_warp-injective blocks warps b₁ (suc u) b₂ zero i j hb₁ hb₂ hw₁ hw₂ hi hj e =
    absurd (omega (arith, base_first, base_later))
workgroup_base_for_warp-injective blocks warps b₁ (suc u) b₂ (suc v) i j hb₁ hb₂ hw₁ hw₂ hi hj e =
    let same : (blocks + (b₁ * (warps - 1) + u)) * 4 + i
        ≡ (blocks + (b₂ * (warps - 1) + v)) * 4 + j =
      omega (arith, base_later) in
    let row : b₁ * (warps - 1) + u ≡ b₂ * (warps - 1) + v = omega arith in
    let (p, q) = row_major_injective (warps - 1) b₁ u b₂ v (omega arith) (omega arith) row in
    (p, ap suc q, omega arith)
