-- ===== src/Polymarket/Buckets.antt =====
-- polymarket_sync_service.py: _bucket_snapshot_time gives the start of the interval of a time.
use amsz_web.Session.{ok, err, Error, ok-injective}
use native.Mathlib.Nat.{div-add-mod, mul-mod_right, mod-lt}
use amsz_web.Base.{
  ℕ, ◌≡◌, arith, ◌-◌, ◌%◌, ◌≤◌, ◌<◌, String, ◌+◌, Option, some, if◌then◌else◌, str_eq, none, false,
  append, Bool-cases, inl, inr, refl, ◌/◌, ◌*◌, Option-cases, subst,
}
use amsz_web.Polymarket.Sync.{replace, hour, minute, bucket_snapshot_time}

-- the start of the interval of a length that a time lies in
abbrev floor : ℕ → ℕ → ℕ
floor length t = t - t % length

minutes-floor : (t : ℕ) → replace (hour t) (minute t) t ≡ floor 60000000 t
minutes-floor t = omega arith

five-floor : (t : ℕ) → replace (hour t) (minute t - minute t % 5) t ≡ floor 300000000 t
five-floor t = omega arith

fifteen-floor : (t : ℕ) → replace (hour t) (minute t - minute t % 15) t ≡ floor 900000000 t
fifteen-floor t = omega arith

hours-floor : (t : ℕ) → replace (hour t) 0 t ≡ floor 3600000000 t
hours-floor t = omega arith

days-floor : (t : ℕ) → replace 0 0 t ≡ floor 86400000000 t
days-floor t = omega arith

-- the length of a granularity, in microseconds
abbrev pub interval : String → Option ℕ
interval g =
    if str_eq g "1m"
    then some 60000000
    else if str_eq g "5m"
    then some 300000000
    else if str_eq g "15m"
    then some 900000000
    else if str_eq g "1h"
    then some 3600000000
    else if str_eq g "1d"
    then some 86400000000
    else none

-- the start of the interval of `length` that `t` lies in
pub record Starts (length t r : ℕ) : Type 0 where
  pub before : r ≤ t
  pub within : t < r + length
  pub aligned : r % length ≡ 0

module _ (g : String) where
  bucket_floor :
      (t : ℕ)
      → (bucket_snapshot_time t g ≡ elim (interval g) [
        | some l ↦ ok (floor l t)
        | none ↦ err (
            Error.task_error false
              (append "Unsupported snapshot granularity: " g)
              "POLYMARKET_INVALID_GRANULARITY")
      ])
  unfolding bucket_snapshot_time
  bucket_floor t = elim (Bool-cases (str_eq g "1m")) [
    | inl e ↦ rw (e, minutes-floor t) refl
    | inr e1 ↦ elim (Bool-cases (str_eq g "5m")) [
      | inl e ↦ rw (e1, e, five-floor t) refl
      | inr e2 ↦ elim (Bool-cases (str_eq g "15m")) [
        | inl e ↦ rw (e1, e2, e, fifteen-floor t) refl
        | inr e3 ↦ elim (Bool-cases (str_eq g "1h")) [
          | inl e ↦ rw (e1, e2, e3, e, hours-floor t) refl
          | inr e4 ↦ elim (Bool-cases (str_eq g "1d")) [
            | inl e ↦ rw (e1, e2, e3, e4, e, days-floor t) refl
            | inr e5 ↦ rw (e1, e2, e3, e4, e5) refl
          ]
        ]
      ]
    ]
  ]

floor-mul_div : (l t : ℕ) → floor l t ≡ l * (t / l)
floor-mul_div l t = omega (arith, div-add-mod t l)

floor-aligned : (l t : ℕ) → floor l t % l ≡ 0
floor-aligned l t = rw (floor-mul_div l t, mul-mod_right l (t / l)) refl

Starts-floor : (l t : ℕ) → 0 < l → Starts l t (floor l t)
Starts-floor l t h = record {
  before = omega arith;
  within = omega (arith, mod-lt t h);
  aligned = floor-aligned l t;
}

floor-floor : (l t : ℕ) → floor l (floor l t) ≡ floor l t
floor-floor l t = omega (arith, floor-aligned l t)

interval-positive : (g : String) (l : ℕ) → interval g ≡ some l → 0 < l
interval-positive g l e = ground arith

-- Where a granularity is accepted, the time of a snapshot is cut to the start of the interval that it
-- lies in, of one, five or fifteen minutes, an hour or a day: at most one interval earlier, and a
-- multiple of the interval. To cut that again changes nothing.
pub bucket_snapshot_time-Starts :
    (g : String) (t r : ℕ)
    → bucket_snapshot_time t g ≡ ok r
    → (l : ℕ) × (interval g ≡ some l) × Starts l t r × (bucket_snapshot_time r g ≡ ok r)
bucket_snapshot_time-Starts g t r e = elim (Option-cases (interval g)) [
  | inl missing ↦ cc (rw (bucket_floor g t, missing) at e)
  | inr (l, found) ↦
      let same : floor l t ≡ r = ok-injective (rw (bucket_floor g t, found) at e) in
      (
        l,
        found,
        subst (Starts l t) same (Starts-floor l t (interval-positive g l found)),
        subst (λ x. bucket_snapshot_time x g ≡ ok x) same
            (rw (bucket_floor g (floor l t), found, floor-floor l t) refl),
      )
]
