-- ===== src/Polymarket/Sync.antt =====
-- polymarket_sync_service.py: what both kinds of synchronisation use. The client of the API, the
-- clock, and the callback of the worker's context are parameters.
use amsz_web.Polymarket.Values.{Conversion, Builtins, int_of, truth, str_of}
use amsz_web.Polymarket.Store.{RunEnd, StateUpdate, finish_sync_run, update_sync_state}
use amsz_web.Services.Fanout.{to_list}
use amsz_web.Session.{◌>>=◌}
use amsz_web.Base.{[], ◌-◌, if◌then◌else◌, false, ◌∷◌, ◌%◌, str_eq, ◌/◌, ◌+◌, ◌*◌}
use amsz_web.Base.{ℕ, String, Option, none, some, List, ◌||◌, ltb, max, append}
use amsz_web.Domain.{Json, Fields}
use amsz_web.Session.{Result, ok, err, Error}
use amsz_web.Tasks.Control.{ℤ}
use amsz_web.Polymarket.{Market, flush_market}

-- `clock n` is the n-th reading of utc_now(), `progress n` what the n-th call of
-- context.set_progress does, `message` is str(exc), and `percent c t` is int((c / t) * 100).
pub record SyncEnv : Type 0 where
  pub builtins : Builtins
  pub polymarket_catalog_limit : ℕ
  pub polymarket_snapshot_limit : ℕ
  pub task_id : ℕ
  pub clock : ℕ → ℕ
  pub progress : ℕ → ℕ → String → Result (Unit {0})
  pub message : Error → String
  pub percent : ℕ → ℕ → ℕ

-- with session_scope() as session
abbrev pub end_market {ℓ} : {A : Type ℓ} → Market → Result (A × Market) → Result A × Market
end_market db (ok (a, m)) = (ok a, flush_market m)
end_market db (err e) = (err e, db)

abbrev invalid_limit : String → Error
invalid_limit text = Error.task_error false text "POLYMARKET_INVALID_LIMIT"

abbrev checked_limit : Conversion ℤ → Result ℕ
checked_limit (Conversion.value (ℤ.pos n)) =
    if ltb n 1 || ltb 500 n
    then err (invalid_limit "Polymarket sync limit must be between 1 and 500")
    else ok n
checked_limit (Conversion.value (ℤ.negsuc n)) =
    err (invalid_limit "Polymarket sync limit must be between 1 and 500")
checked_limit Conversion.refused = err (invalid_limit "Invalid Polymarket sync limit")
checked_limit Conversion.overflow = err (Error.raised "OverflowError" "number too large")

unfoldable pub normalize_limit : Builtins → Json → ℕ → Result ℕ
normalize_limit b Json.null default = ok default
normalize_limit b v default = checked_limit (int_of b v)

abbrev pub default_granularity : String → String
default_granularity scope =
    if str_eq scope "hot"
    then "5m"
    else if str_eq scope "warm"
    then "15m"
    else if str_eq scope "cold"
    then "1d"
    else "15m"

abbrev pub max_datetime : Option ℕ → Option ℕ → Option ℕ
max_datetime none candidate = candidate
max_datetime (some t) none = some t
max_datetime (some t) (some u) = some (max t u)

-- the fields of a time, and replace(), which keeps the date
abbrev minute_length : ℕ
minute_length = 60000000

abbrev hour_length : ℕ
hour_length = 3600000000

abbrev day_length : ℕ
day_length = 86400000000

abbrev pub minute : ℕ → ℕ
minute t = t % hour_length / minute_length

abbrev pub hour : ℕ → ℕ
hour t = t % day_length / hour_length

abbrev pub replace : ℕ → ℕ → ℕ → ℕ
replace h m t = t - t % day_length + h * hour_length + m * minute_length

unfoldable pub bucket_snapshot_time : ℕ → String → Result ℕ
bucket_snapshot_time t granularity =
    if str_eq granularity "1m"
    then ok (replace (hour t) (minute t) t)
    else if str_eq granularity "5m"
    then ok (replace (hour t) (minute t - minute t % 5) t)
    else if str_eq granularity "15m"
    then ok (replace (hour t) (minute t - minute t % 15) t)
    else if str_eq granularity "1h"
    then ok (replace (hour t) 0 t)
    else if str_eq granularity "1d"
    then ok (replace 0 0 t)
    else err (
        Error.task_error false (append "Unsupported snapshot granularity: " granularity)
          "POLYMARKET_INVALID_GRANULARITY")

-- list(value or [])
abbrev characters : String → List Json
characters String.[] = []
characters (String.◌∷◌ c s) = Json.str (String.◌∷◌ c "") ∷ characters s

abbrev keys_of : Fields → List Json
keys_of Fields.end = []
keys_of (Fields.field k v rest) = Json.str k ∷ keys_of rest

abbrev pub as_list : Json → Result (List Json)
as_list (Json.arr xs) = ok (to_list xs)
as_list (Json.str s) = ok (characters s)
as_list (Json.obj p) = ok (keys_of p)
as_list _ = err (Error.raised "TypeError" "object is not iterable")

abbrev pub list_of : Builtins → Json → Result (List Json)
list_of b v = if truth b v then as_list v else ok []

-- a cursor, where it is neither missing nor empty; a cursor is a text
abbrev pub cursor_of : Builtins → Json → Option String
cursor_of b v = if truth b v then some (str_of b v) else none

-- except Exception: the run is FAILED, and the exception is raised again
abbrev pub raised_again {ℓ} : {A : Type ℓ} → Error → Result (Unit {0}) × Market → Result A × Market
raised_again e (ok u, db) = (err e, db)
raised_again e (err f, db) = (err f, db)

abbrev pub failed_end : SyncEnv → Option String → ℕ → ℕ → ℕ → Error → RunEnd
failed_end env cursor_out pages records at e = record {
  status = "FAILED";
  cursor_out = cursor_out;
  page_count = pages;
  record_count = records;
  error_message = some (env.message e);
  finished_at = at;
}

abbrev pub close_run : ℕ → RunEnd → Market → Result (Unit {0} × Market)
close_run run_id a db = finish_sync_run run_id a db >>= λ m. ok (tt, m)

unfoldable pub fail_run {ℓ} : {A : Type ℓ} → ℕ → RunEnd → Error → Market → Result A × Market
fail_run run_id a e db = raised_again e (end_market db (close_run run_id a db))

-- the run SUCCEEDED, and the sync state is updated, in one transaction
unfoldable pub succeed_run :
    ℕ → RunEnd → String → Option String → StateUpdate → Market → Result (Unit {0}) × Market
succeed_run run_id a resource scope u db =
    end_market db
      (finish_sync_run run_id a db >>= λ m. ok (tt, update_sync_state resource scope u m))
