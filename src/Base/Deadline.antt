-- ===== src/Base/Deadline.antt =====
-- Arithmetic of a polling loop on fuel.
use yggdrasil_home.Base.{ℕ, suc, ◌+◌, ◌<◌, ◌≤◌, ◌≡◌, false, arith, ltb}

-- Arithmetic of a loop that sleeps: with the time up it ends, and another round has fuel.
pub time_is_up :
    (deadline now time : ℕ) → deadline < now + 1 → now ≤ time → ltb time deadline ≡ false
time_is_up deadline now time k a = ground arith

pub later_round :
    (poll fuel deadline now time shown later : ℕ)
    → 1 ≤ poll
    → deadline < now + suc (suc fuel)
    → now ≤ time
    → time ≤ shown
    → shown + poll ≤ later
    → deadline < later + suc fuel
later_round poll fuel deadline now time shown later p k a b c = omega arith
