-- ===== src/Handlers/Basic.antt =====
-- workers/modules/basic.py, the handler of a shard in workers/modules/batch.py, and the context of
-- workers/contracts.py. Sleeping is left out; int(value) and the context's callbacks are parameters.
use amsz_web.Services.Fanout.{to_list, of_list, get_field}
use amsz_web.Base.{
  ℕ, zero, suc, String, Bool, List, [], ◌∷◌, length, ltb, ◌||◌, max, or_else, true, false,
  if◌then◌else◌,
}
use amsz_web.Domain.{Json, Fields, Items}
use amsz_web.Session.{◌>>=◌, Result, ok, err, Error}
use amsz_web.Tasks.Control.{ℤ}

-- WorkerTaskContext: `cancel_event` and `cancel_check` as the n-th call of raise_if_canceled finds
-- them, and what the n-th call of set_progress does
pub record WorkerTaskContext : Type 0 where
  pub cancel_event : ℕ → Bool
  pub cancel_check : ℕ → Bool
  pub set_progress : ℕ → ℕ → String → Result (Unit {0})
  pub percent : ℕ → ℕ → ℕ
  pub int_of : Json → Result ℤ

abbrev pub task_canceled : Error
task_canceled = Error.task_error false "Task canceled" "TASK_CANCELED"

abbrev pub raise_if_canceled : WorkerTaskContext → ℕ → Result (Unit {0})
raise_if_canceled c n = if c.cancel_event n || c.cancel_check n then err task_canceled else ok tt

abbrev invalid_duration : Error
invalid_duration = Error.task_error false "Invalid duration" "INVALID_DURATION"

-- total_seconds < 0 or total_seconds > 7200
abbrev pub checked_duration : ℤ → Result ℕ
checked_duration (ℤ.pos n) = if ltb 7200 n then err invalid_duration else ok n
checked_duration (ℤ.negsuc n) = err invalid_duration

-- payload.get(name, default)
abbrev pub get_or : String → Json → Json → Result Json
get_or name default (Json.obj p) = ok (or_else (get_field name p) default)
get_or name default v = err (Error.raised "AttributeError" "no get")

-- payload.get("echo")
abbrev echo_of : Json → Result Json
echo_of v = get_or "echo" Json.null v

unfoldable pub noop_success_handler : WorkerTaskContext → Json → Result Json
noop_success_handler c payload = do
  u ← c.set_progress 0 100 "completed"
  echo ← echo_of payload
  ok (Json.obj (Fields.field "accepted" (Json.bool true) (Fields.field "echo" echo Fields.end)))

-- for step in range(total_seconds), from `step` on: `left` steps are left
unfoldable pub sleep_steps : WorkerTaskContext → ℕ → ℕ → ℕ → Result (Unit {0})
sleep_steps c total step zero = ok tt
sleep_steps c total step (suc left) = do
  u ← raise_if_canceled c step
  v ← c.set_progress step (c.percent (suc step) (max total 1)) "sleeping"
  sleep_steps c total (suc step) left

unfoldable pub sleep_echo_handler : WorkerTaskContext → Json → Result Json
unfolding sleep_steps
sleep_echo_handler c payload = do
  raw ← get_or "seconds" (Json.num 1) payload
  number ← c.int_of raw
  total ← checked_duration number
  u ← sleep_steps c total 0 total
  echo ← echo_of payload
  ok (
      Json.obj
        (Fields.field "slept_seconds" (Json.num total) (Fields.field "echo" echo Fields.end)))

unfoldable pub force_retry_handler : WorkerTaskContext → Json → Result Json
force_retry_handler c payload = do
  u ← c.set_progress 0 10 "retrying"
  err (Error.task_error true "Simulated retryable failure" "SIMULATED_RETRY")

-- the results of the items, from the index `done` on
abbrev shard_result : ℕ → ℕ → Json → Json
shard_result index seconds echo = Json.obj (
    Fields.field "echo" echo (
      Fields.field "slept_seconds" (Json.num seconds)
        (Fields.field "item_index" (Json.num index) Fields.end)))

unfoldable pub shard_steps : WorkerTaskContext → ℕ → ℕ → List Json → Result (List Json)
shard_steps c total done [] = ok []
shard_steps c total done (item ∷ items) = do
  u ← raise_if_canceled c done
  raw ← get_or "seconds" (Json.num 0) item
  number ← c.int_of raw
  seconds ← checked_duration number
  echo ← echo_of item
  v ← c.set_progress done (c.percent (suc done) total) "shard_running"
  rest ← shard_steps c total (suc done) items
  ok (shard_result done seconds echo ∷ rest)

abbrev invalid_shard : Error
invalid_shard = Error.task_error false "Shard items are required" "INVALID_SHARD"

-- a list that is not empty
abbrev pub shard_items : Json → Result (List Json)
shard_items (Json.arr (Items.cons x xs)) = ok (x ∷ to_list xs)
shard_items v = err invalid_shard

unfoldable pub batch_sleep_echo_shard_handler : WorkerTaskContext → Json → Result Json
unfolding shard_steps
batch_sleep_echo_shard_handler c payload = do
  raw ← get_or "items" (Json.arr Items.nil) payload
  items ← shard_items raw
  results ← shard_steps c (length items) 0 items
  ok (
      Json.obj (
        Fields.field "items" (Json.arr (of_list results))
          (Fields.field "item_count" (Json.num (length items)) Fields.end)))
