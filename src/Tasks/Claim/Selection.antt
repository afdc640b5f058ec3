-- ===== src/Tasks/Claim/Selection.antt =====
-- claim_tasks: which rows the SELECT with its ORDER BY and LIMIT gives.
use amsz_web.Base.{
  ◌≡◌, All, true, take, ◌==◌, ◌∷◌, select, Bool-cases, suc, arith, not, false, All-take,
  All-select_of_All, inl, All-select_if, inr, zero, [], ◌<◌, All-map, ◌⊎◌, ◌≤◌,
}
use amsz_web.Table.Laws.{Distinct}
use amsz_web.Tasks.Claim.{
  ClaimArgs, candidates, claim_before, is_claimable, Row, Env, ℕ, List, Task, Bool, Session, query,
}
use amsz_web.Table.Order.{order_by, insert_by, All-order_by, All-insert_by, InOrder}

-- the rows that the SELECT may give, in no order
abbrev pub eligible : Env → ClaimArgs → (ℕ → Bool) → Session → List (Row Task)
eligible env a locked s =
    select (λ r. not (locked r.key)) (query (is_claimable env a.queue_name) s.tasks)

pub claim_before_asym : (r q : Row Task) → claim_before r q ≡ true → claim_before q r ≡ false
claim_before_asym r q h = ground arith

pub claim_before_trans :
    (r q p : Row Task) → claim_before r q ≡ true → claim_before q p ≡ true → claim_before r p ≡ true
claim_before_trans r q p h k = ground arith

module _ {ℓ} {A : Type ℓ} where
  Distinct-select : (p : Row A → Bool) (rs : List (Row A)) → Distinct rs → Distinct (select p rs)
  Distinct-select p [] h = tt
  Distinct-select p (r ∷ rs) h = elim (Bool-cases (p r)) [
    | inl e ↦
        rw e (All-select_of_All p (λ q. (r.key == q.key) ≡ false) rs h.0, Distinct-select p rs h.1)
    | inr e ↦ rw e (Distinct-select p rs h.1)
  ]

  pub Distinct-take : (n : ℕ) (rs : List (Row A)) → Distinct rs → Distinct (take n rs)
  Distinct-take zero rs h = tt
  Distinct-take (suc n) [] h = tt
  Distinct-take (suc n) (r ∷ rs) h =
      (All-take (λ q. (r.key == q.key) ≡ false) n rs h.0, Distinct-take n rs h.1)

  module _ (before : Row A → Row A → Bool) where
    Distinct-insert_by :
        (r : Row A) (rs : List (Row A))
        → All (λ q. (r.key == q.key) ≡ false) rs
        → Distinct rs
        → Distinct (insert_by before r rs)
    Distinct-insert_by r [] a h = (tt, tt)
    Distinct-insert_by r (q ∷ rs) a h = elim (Bool-cases (before r q)) [
      | inl e ↦ rw e (a, h)
      | inr e ↦ rw e (
        All-insert_by before (λ p. (q.key == p.key) ≡ false) r rs (ground (arith, a.0)) h.0,
        Distinct-insert_by r rs a.1 h.1,
      )
    ]

    Distinct-order_by : (rs : List (Row A)) → Distinct rs → Distinct (order_by before rs)
    Distinct-order_by [] h = tt
    Distinct-order_by (r ∷ rs) h =
        Distinct-insert_by r (order_by before rs)
          (All-order_by before (λ q. (r.key == q.key) ≡ false) rs h.0) (Distinct-order_by rs h.1)

module _ (env : Env) (a : ClaimArgs) (locked : ℕ → Bool) (s : Session) where
  pub candidates-Distinct : Distinct s.tasks → Distinct (candidates env a locked s)
  candidates-Distinct h =
      Distinct-order_by claim_before (eligible env a locked s)
        (Distinct-select _ _ (Distinct-select _ s.tasks h))

  -- what holds of every claimable row holds of every candidate
  pub All-candidates {κ} :
      (P : Row Task → Type κ)
      → All (λ r. is_claimable env a.queue_name r.stored ≡ true → P r) s.tasks
      → All P (candidates env a locked s)
  All-candidates P h = All-order_by claim_before P _ (
      All-select_of_All (λ r. not (locked r.key)) P _
        (All-select_if (λ r. is_claimable env a.queue_name r.stored) P s.tasks h))

-- `r` may be given before `q`: it is more urgent, or as urgent and scheduled earlier, or as urgent,
-- scheduled at the same time and not of a larger id
abbrev pub GoesFirst : Row Task → Row Task → Type 0
GoesFirst r q =
    (q.stored.priority < r.stored.priority)
    ⊎ ((q.stored.priority ≡ r.stored.priority)
        × ((r.stored.scheduled_at < q.stored.scheduled_at)
            ⊎ ((r.stored.scheduled_at ≡ q.stored.scheduled_at) × (r.key ≤ q.key))))

-- every row may be given before the rows behind it
abbrev pub Sorted : List (Row Task) → Type 0
Sorted [] = Unit
Sorted (r ∷ rs) = All (GoesFirst r) rs × Sorted rs

claim_before-GoesFirst : (r q : Row Task) → claim_before q r ≡ false → GoesFirst r q
claim_before-GoesFirst r q h = ground arith

pub InOrder-Sorted : (rs : List (Row Task)) → InOrder claim_before rs → Sorted rs
InOrder-Sorted [] h = tt
InOrder-Sorted (r ∷ rs) h = (
  All-map (λ q. claim_before q r ≡ false) (GoesFirst r) rs (λ q. claim_before-GoesFirst r q) h.0,
  InOrder-Sorted rs h.1,
)
