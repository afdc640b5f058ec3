-- ===== src/Polymarket/Values.antt =====
-- polymarket_repository.py: the static methods that convert values of an event's payload. What
-- Python's float, int, str, datetime, json and hashlib do is a parameter.
use mathlib.Core.Option
use amsz_web.Session.{◌>>=◌}
use amsz_web.Templates.{is_empty_text}
use amsz_web.Services.Fanout.{get_field}
use amsz_web.Base.{
  ℕ, String, Bool, Option, none, some, true, false, not, ltb, or_else, if◌then◌else◌, ◌&&◌, ◌==◌,
}
use amsz_web.Domain.{Json, Items, Fields}
use amsz_web.Session.{Result, ok, err, Error}
use amsz_web.Tasks.Control.{ℤ}
use amsz_web.Polymarket.{Figures}
use Prim.Native.Char.{code}

-- what float(value) and int(value) do: a value, a TypeError or ValueError, or an OverflowError
pub data Conversion (A : Type 0) : Type 0 where
  value : A → Conversion A
  refused overflow : Conversion A

-- a datetime without or with a time zone, the second as an instant
pub data Moment : Type 0 where
  naive aware : ℕ → Moment

-- `text` is str(value) of a value that is no text, `int_of_text` and `int_of_float` are int(value),
-- `is_zero` the test of a float for 0, `local` the wall clock of the host at an instant, `dumps` is
-- json.dumps with sorted keys, and `sha256` the hex digest.
pub record Builtins : Type 0 where
  pub text : Json → String
  pub float : Json → Conversion String
  pub int_of_text : String → Conversion ℤ
  pub int_of_float : String → Conversion ℤ
  pub is_zero : String → Bool
  pub strip : String → String
  pub fromisoformat : String → Option Moment
  pub local : ℕ → ℕ
  pub dumps : Json → String
  pub sha256 : String → String

-- payload.get(name), where None is null
abbrev pub column : String → Fields → Json
column name p = or_else (get_field name p) Json.null

-- except (TypeError, ValueError): return None
abbrev pub caught : {A : Type 0} → Conversion A → Result (Option A)
caught (Conversion.value a) = ok (some a)
caught Conversion.refused = ok none
caught Conversion.overflow = err (Error.raised "OverflowError" "number too large")

module _ (b : Builtins) where
  -- str(value)
  abbrev pub str_of : Json → String
  str_of (Json.str s) = s
  str_of v = b.text v

  -- bool(value)
  abbrev pub truth : Json → Bool
  truth Json.null = false
  truth (Json.bool x) = x
  truth (Json.num n) = ltb 0 n
  truth (Json.neg n) = true
  truth (Json.float t) = not (b.is_zero t)
  truth (Json.str String.[]) = false
  truth (Json.str (String.◌∷◌ c s)) = true
  truth (Json.arr Items.nil) = false
  truth (Json.arr (Items.cons x xs)) = true
  truth (Json.obj Fields.end) = false
  truth (Json.obj (Fields.field k v rest)) = true

  abbrev pub clean_str : Json → Option String
  clean_str Json.null = none
  clean_str v = some (str_of v)

  abbrev pub to_bool : Json → Option Bool
  to_bool Json.null = none
  to_bool v = some (truth v)

  abbrev pub to_float : Json → Result (Option String)
  to_float Json.null = ok none
  to_float (Json.arr xs) = ok none
  to_float (Json.obj fs) = ok none
  to_float v = caught (b.float v)

  -- int(value)
  abbrev pub int_of : Json → Conversion ℤ
  int_of Json.null = Conversion.refused
  int_of (Json.bool true) = Conversion.value (ℤ.pos 1)
  int_of (Json.bool false) = Conversion.value (ℤ.pos 0)
  int_of (Json.num n) = Conversion.value (ℤ.pos n)
  int_of (Json.neg n) = Conversion.value (ℤ.negsuc n)
  int_of (Json.float t) = b.int_of_float t
  int_of (Json.str t) = b.int_of_text t
  int_of (Json.arr xs) = Conversion.refused
  int_of (Json.obj fs) = Conversion.refused

  abbrev pub to_int : Json → Result (Option ℤ)
  to_int Json.null = ok none
  to_int v = caught (int_of v)

  -- text[:-1] + "+00:00" for a text that ends in Z
  unfoldable pub with_offset : String → String
  with_offset String.[] = ""
  with_offset (String.◌∷◌ c s) =
      let rest = with_offset s in
      if is_empty_text s && (code c == 90) then "+00:00" else String.◌∷◌ c rest

  abbrev at_wall : Moment → ℕ
  at_wall (Moment.naive t) = t
  at_wall (Moment.aware t) = b.local t

  abbrev from_text : String → Option ℕ
  from_text String.[] = none
  from_text s = Option.map at_wall (b.fromisoformat (with_offset s))

  -- JSON has no datetime
  abbrev pub parse_datetime : Json → Option ℕ
  parse_datetime v = if truth v then from_text (b.strip (str_of v)) else none

  abbrev pub extract_source_updated_at : Fields → Option ℕ
  extract_source_updated_at p = parse_datetime (column "updatedAt" p)

  -- the columns that an event and a snapshot both take from the payload
  unfoldable pub figures : Fields → Result Figures
  figures p = do
    liquidity ← to_float (column "liquidity" p)
    volume ← to_float (column "volume" p)
    interest ← to_float (column "openInterest" p)
    day ← to_float (column "volume24hr" p)
    week ← to_float (column "volume1wk" p)
    month ← to_float (column "volume1mo" p)
    year ← to_float (column "volume1yr" p)
    comments ← to_int (column "commentCount" p)
    ok (record {
      active = to_bool (column "active" p);
      closed = to_bool (column "closed" p);
      archived = to_bool (column "archived" p);
      liquidity = liquidity;
      volume = volume;
      open_interest = interest;
      volume_24hr = day;
      volume_1wk = week;
      volume_1mo = month;
      volume_1yr = year;
      comment_count = comments;
      source_updated_at = extract_source_updated_at p;
    })

  -- event_payload["id"] as a text, with the payload's fields
  unfoldable pub event_id : Json → Result (String × Fields)
  event_id (Json.obj p) = elim (get_field "id" p) [
    | none ↦ err (Error.raised "KeyError" "'id'")
    | some v ↦ ok (str_of v, p)
  ]
  event_id _ = err (Error.raised "TypeError" "the payload has no keys")
