-- ===== src/MasterSeed/Checked.antt =====
-- The checked uint64 operations answer exactly when the true result fits.
use orbitport.Base.{ℕ, ◌+◌, ◌*◌, ◌^◌, ◌≤◌, ◌<◌, ◌≡◌, true, false, arith}
use orbitport.MasterSeed.{mul_uint64_checked, add_uint64_checked}

pub mul_uint64_checked_fits : (a b : ℕ) → a * b < 2 ^ 64 → mul_uint64_checked a b ≡ (a * b, true)
unfolding mul_uint64_checked
mul_uint64_checked_fits a b h = grind arith

pub mul_uint64_checked_overflows : (a b : ℕ) → 2 ^ 64 ≤ a * b → mul_uint64_checked a b ≡ (0, false)
unfolding mul_uint64_checked
mul_uint64_checked_overflows a b h = grind arith

pub add_uint64_checked_lem :
    (a b : ℕ)
    → b < 2 ^ 64
    → (a + b < 2 ^ 64 → add_uint64_checked a b ≡ (a + b, true))
      × (2 ^ 64 ≤ a + b → add_uint64_checked a b ≡ (0, false))
unfolding add_uint64_checked
add_uint64_checked_lem a b hb = (λ h. ground arith, λ h. ground arith)
