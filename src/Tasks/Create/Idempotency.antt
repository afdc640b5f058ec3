-- ===== src/Tasks/Create/Idempotency.antt =====
-- A request that is sent again.
use amsz_web.Table.{Row, insert}
use amsz_web.Tasks.Create.Effects.{looks_up, found_by, Creates, create_task-Creates}
use amsz_web.Tasks.Create.{same_key, NewTask, Created, create_task, has_key, find_key, new_row}
use amsz_web.Models.{Task}
use amsz_web.Base.{
  ℕ, true, false, refl, some, none, inl, inr, [], ◌∷◌, Bool-cases, arith, String, ◌≡◌, Option, List,
  str_eq_refl, truthy, subst, ◌∙◌,
}
use amsz_web.Session.{ok, Env, Session}

same_key_refl :
    (key : String) (t : Task) → t.idempotency_key ≡ some key → same_key t.task_type key t ≡ true
same_key_refl key t q = rw (q, str_eq_refl t.task_type, str_eq_refl key)

-- A row that is added where its key was free is found under that key.
find_key-insert :
    (n : ℕ) (a : Task) (k : Option String) (rs : List (Row Task))
    → truthy k ≡ true
    → a.idempotency_key ≡ k
    → has_key a.task_type k rs ≡ false
    → find_key a.task_type k (insert n a rs) ≡ some (record { key = n; stored = a; live = a })
find_key-insert n a none rs y e h = cc
find_key-insert n a (some key) [] y e h = rw (same_key_refl key a e)
find_key-insert n a (some key) (r ∷ rs) y e h =
    elim (Bool-cases (same_key a.task_type key r.live)) [
      | inl p ↦ cc (rw p at h)
      | inr p ↦ rw p (find_key-insert n a (some key) rs y e (rw p at h))
    ]

found_by-new_row :
    (env : Env) (a : NewTask) (s s' : Session)
    → looks_up a ≡ true
    → has_key a.task_type a.idempotency_key s.tasks ≡ false
    → s'.tasks ≡ insert s.next_task_id (new_row env a) s.tasks
    → found_by a s'
      ≡ some (record { key = s.next_task_id; stored = new_row env a; live = new_row env a })
found_by-new_row env a s s' y h e =
    let t : truthy a.idempotency_key ≡ true = ground arith in
    rw (y, e) (find_key-insert s.next_task_id (new_row env a) a.idempotency_key s.tasks t refl h)

found_by_same :
    (a a' : NewTask) (s : Session)
    → looks_up a ≡ true
    → looks_up a' ≡ true
    → a'.task_type ≡ a.task_type
    → a'.idempotency_key ≡ a.idempotency_key
    → found_by a' s ≡ found_by a s
found_by_same a a' s y y' t k = rw (y, y', t, k) refl

Creates-again :
    (env env' : Env) (a a' : NewTask) (s s' : Session) (m : Created) (found : Option (Row Task))
    → looks_up a ≡ true
    → ((z : Session) → found_by a' z ≡ found_by a z)
    → found_by a s ≡ found
    → Creates env a s found (ok (m, s'))
    → create_task env' a' s' ≡ ok (record m { created = false }, s')
Creates-again env env' a a' s s' m none y same e (h, made, t, n) =
    let again =
      subst (λ o. Creates env' a' s' o (create_task env' a' s'))
        (same s' ∙ found_by-new_row env a s s' y h t) (create_task-Creates env' a' s') in
    rw made again
Creates-again env env' a a' s s' m (some r) y same e h =
    let again =
      subst (λ o. Creates env' a' s o (create_task env' a' s)) (same s ∙ e)
        (create_task-Creates env' a' s) in
    let left : s' ≡ s = cc h in
    let m' : m ≡ record { id = r.key; task = r.live; created = false } = cc h in rw (left, m') again

-- Two calls with one type and one key, whatever their other arguments are: the second finds the task
-- that the first has made or found.
pub create_task_again :
    (env env' : Env) (a a' : NewTask) (s s' : Session) (m : Created)
    → looks_up a ≡ true
    → looks_up a' ≡ true
    → a'.task_type ≡ a.task_type
    → a'.idempotency_key ≡ a.idempotency_key
    → create_task env a s ≡ ok (m, s')
    → create_task env' a' s' ≡ ok (record m { created = false }, s')
create_task_again env env' a a' s s' m y y' t k e =
    Creates-again env env' a a' s s' m (found_by a s) y (λ z. found_by_same a a' z y y' t k) refl
      (subst (Creates env a s (found_by a s)) e (create_task-Creates env a s))

-- A request with an idempotency key and no parent that is sent twice makes one task: the second call
-- returns the id and the columns of the first, says that nothing was created, and leaves the session
-- as it is, whatever the clock and the settings are by then.
pub create_task_twice :
    (env env' : Env) (a : NewTask) (s s' : Session) (m : Created)
    → looks_up a ≡ true
    → create_task env a s ≡ ok (m, s')
    → create_task env' a s' ≡ ok (record m { created = false }, s')
create_task_twice env env' a s s' m y e = create_task_again env env' a a s s' m y y refl refl e
