-- ===== src/History.antt =====
-- Histories: the transactions that the HTTP routes on tasks and the workers make, one after another,
-- on one database.
pub mod Soundness
use amsz_web.Worker.{heartbeat, run_once, Messages, run_claimed_task, Outcome}
use amsz_web.Models.{Task}
use amsz_web.Table.{Row}
use amsz_web.Tasks.Claim.{ClaimedTask, ClaimArgs}
use amsz_web.Tasks.Control.{ℤ, request_cancel, retry_task, update_progress}
use amsz_web.Services.Fanout.{create_fanout_task}
use amsz_web.Session.{Session, Env, session_scope, commit}
use amsz_web.Services.Commands.{TaskCreateRequest}
use amsz_web.Base.{[], ◌∷◌, ℕ, none, some, List, Option, [], String, Bool}
use amsz_web.Services.Commands

-- a transaction, or a pair of them, with its arguments
pub data Call : Type 0 where
  submits : TaskCreateRequest → (created_by : Option String) → Call
  fans_out : TaskCreateRequest → (created_by : Option String) → Call
  cancels retries : (task_id : ℕ) → Call
  reports : (task_id : ℕ) (worker_id : String) → ℤ → (stage : Option String) → Call
  beats : ClaimedTask → (worker_id : String) (lease_seconds : ℕ) → Call
  rounds : ClaimArgs → (recover_limit : ℕ) → (List (Row Task) → List (Row Task)) → (ℕ → Bool) → Call
  settles : (later : Env) → Messages → ClaimedTask → (worker_id : String) → Outcome → Call

abbrev pub step : Env → Call → Session → Session
step env (submits r created_by) db = (session_scope (Commands.create_task env r created_by) db).1
step env (fans_out r created_by) db = (session_scope (create_fanout_task env r created_by) db).1
step env (cancels id) db = commit (request_cancel env id db).1
step env (retries id) db = commit (retry_task env id db).1
step env (reports id worker progress stage) db =
    commit (update_progress id worker progress stage db).1
step env (beats task worker lease) db = (heartbeat env task worker lease db).1
step env (rounds a limit pick locked) db = (run_once env a limit pick locked db).1
step env (settles later text task worker outcome) db =
    (run_claimed_task env later text task worker outcome db).1

unfoldable pub run : List (Env × Call) → Session → Session
run [] db = db
run ((env, c) ∷ rest) db = run rest (step env c db)

abbrev pub empty_database : Session
empty_database = record { tasks = []; attempts = []; events = []; next_task_id = 1 }
