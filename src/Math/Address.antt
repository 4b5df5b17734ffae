-- ===== src/Math/Address.antt =====
-- What `valid_addr` accepts.
use embd_lab.Prelude.{ℕ, ◌+◌, ◌^◌, ◌<◌, ◌≤◌, ◌≡◌, ◌↔◌, true, arith}
use embd_lab.Math.{valid_addr}

-- A region of 32-bit start and size is accepted exactly if it starts inside the address range and ends,
-- without wrap-around, at most at the bound.
pub valid_addr_iff :
    (start count base bound : ℕ)
    → start < 2 ^ 32
    → count < 2 ^ 32
    → bound < 2 ^ 32
    → (valid_addr start count base bound ≡ true)
      ↔ ((base ≤ start) × (start < bound) × (start + count ≤ bound))
unfolding valid_addr
valid_addr_iff start count base bound hs hc hb = (λ h. ground arith, λ h. ground arith)
