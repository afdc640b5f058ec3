-- ===== src/Worker/Backoff.antt =====
-- _compute_backoff: 1 second at first, doubled by each attempt, 300 seconds at most.
use amsz_web.Worker.{compute_backoff}
use amsz_web.Base.{◌≤◌, ◌^◌, ℕ, arith, suc, ◌≡◌, zero, min, ◌*◌, ◌-◌}

one-le-pow : (n : ℕ) → 1 ≤ 2 ^ n
one-le-pow zero = omega arith
one-le-pow (suc n) = omega (arith, one-le-pow n)

pow-pred : (n : ℕ) → 2 ^ (suc (suc n) - 1) ≡ 2 * 2 ^ (suc n - 1)
pow-pred n =
    let first : suc (suc n) - 1 ≡ suc n = omega arith in
    let second : suc n - 1 ≡ n = omega arith in rw (first, second) (omega arith)

-- A backoff is between 1 and 300 seconds, and from the second attempt on it is twice the one before,
-- or 300 seconds where that is less.
pub compute_backoff-grows :
    (n : ℕ)
    → (1 ≤ compute_backoff n)
      × (compute_backoff n ≤ 300)
      × (compute_backoff (suc (suc n)) ≡ min 300 (2 * compute_backoff (suc n)))
compute_backoff-grows n = (
  omega (arith, one-le-pow (n - 1)),
  omega arith,
  rw (pow-pred n) (omega (arith, pow-pred n, one-le-pow n)),
)
