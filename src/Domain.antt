-- ===== src/Domain.antt =====
-- app/domain/enums.py, and the JSON values that the columns hold.
use amsz_web.Base.{ℕ, String, Bool, true, false, ◌==◌, ◌≡◌, ◌↔◌, arith}

pub data TaskStatus : Type 0 where
  pending running dispatching partially_running aggregating retry_wait : TaskStatus
  succeeded failed canceled dead : TaskStatus

pub data AttemptStatus : Type 0 where
  running succeeded failed canceled timeout : AttemptStatus

pub data TaskRole : Type 0 where
  standalone parent child aggregate : TaskRole

pub data ConfigRevisionStatus : Type 0 where
  draft active archived : ConfigRevisionStatus

-- The position of a status in the enum, by which two are compared.
abbrev status_code : TaskStatus → ℕ
status_code TaskStatus.pending = 0
status_code TaskStatus.running = 1
status_code TaskStatus.dispatching = 2
status_code TaskStatus.partially_running = 3
status_code TaskStatus.aggregating = 4
status_code TaskStatus.retry_wait = 5
status_code TaskStatus.succeeded = 6
status_code TaskStatus.failed = 7
status_code TaskStatus.canceled = 8
status_code TaskStatus.dead = 9

-- a == b
abbrev pub status_eq : TaskStatus → TaskStatus → Bool
status_eq a b = status_code a == status_code b

pub status_eq_iff : (a b : TaskStatus) → (status_eq a b ≡ true) ↔ (a ≡ b)
status_eq_iff a b = ground arith

abbrev role_code : TaskRole → ℕ
role_code TaskRole.standalone = 0
role_code TaskRole.parent = 1
role_code TaskRole.child = 2
role_code TaskRole.aggregate = 3

-- TaskRole.value
abbrev pub role_text : TaskRole → String
role_text TaskRole.standalone = "standalone"
role_text TaskRole.parent = "parent"
role_text TaskRole.child = "child"
role_text TaskRole.aggregate = "aggregate"

abbrev pub role_eq : TaskRole → TaskRole → Bool
role_eq a b = role_code a == role_code b

pub role_eq_iff : (a b : TaskRole) → (role_eq a b ≡ true) ↔ (a ≡ b)
role_eq_iff a b = ground arith

-- task.status in {SUCCEEDED, FAILED, CANCELED, DEAD}: no step of a worker leaves these
abbrev pub is_final : TaskStatus → Bool
is_final TaskStatus.succeeded = true
is_final TaskStatus.failed = true
is_final TaskStatus.canceled = true
is_final TaskStatus.dead = true
is_final _ = false

-- dict[str, Any]. `neg n` is the integer -(n + 1), and `float` holds the text of a float.
mutual
  pub data Json : Type 0 where
    null : Json
    bool : Bool → Json
    num neg : ℕ → Json
    float str : String → Json
    arr : Items → Json
    obj : Fields → Json

  pub data Items : Type 0 where
    nil : Items
    cons : Json → Items → Items

  pub data Fields : Type 0 where
    end : Fields
    field : String → Json → Fields → Fields
