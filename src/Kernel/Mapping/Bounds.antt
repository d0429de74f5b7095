-- ===== src/Kernel/Mapping/Bounds.antt =====
-- The size that `create_descriptor` allocates.
use u_gds.Prelude.{ℕ, ◌+◌, ◌-◌, ◌*◌, ◌≤◌, ◌<◌, ◌↔◌, u64_mod, arith}
use u_gds.Kernel.Mapping.{descriptor_bytes, map_bytes}

-- For at least one page, counted by a 64-bit word, the entries of `addrs` that `create_descriptor`
-- clears stand inside the allocation exactly when there are fewer than 2^61 - 12 pages.
pub descriptor_bytes_lem :
    (n_pages : ℕ)
    → 1 ≤ n_pages
    → n_pages < u64_mod
    → (map_bytes - 8 + n_pages * 8 ≤ descriptor_bytes n_pages) ↔ (n_pages < 2305843009213693940)
unfolding descriptor_bytes
descriptor_bytes_lem n_pages p q = (λ h. omega arith, λ h. omega arith)
