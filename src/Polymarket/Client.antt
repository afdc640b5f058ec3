-- ===== src/Polymarket/Client.antt =====
-- app/infrastructure/integrations/polymarket_client.py: the requests, and which failures are retried.
-- urllib and json are parameters.
use amsz_web.Base.{
  ℕ, String, Bool, Option, none, some, List, [], ◌∷◌, ◌++◌, ◌||◌, leb, ◌==◌, append, if◌then◌else◌,
  false, decimal, true,
}
use amsz_web.Domain.{Json, Fields}
use amsz_web.Session.{Result, ok, err, Error}

-- what urlopen does: a body, an HTTPError with its code and body, a URLError with its text, or another
-- exception
pub data Opened : Type 0 where
  body : (payload : String) → Opened
  http_error : (code : ℕ) (detail : String) → Opened
  url_error : (text : String) → Opened
  other_error : Error → Opened

-- `loads` is json.loads, `none` where it raises; `lower` is str(value).lower()
pub record Net : Type 0 where
  pub base_url : String
  pub urlencode : List (String × String) → String
  pub urlopen : String → Opened
  pub loads : String → Option Json
  pub lower : Json → String

abbrev retried_code : ℕ → Bool
retried_code code = (code == 429) || leb 500 code

abbrev failed_with : ℕ → String → String
failed_with code detail =
    append "Polymarket request failed with status " (append (decimal code) (append ": " detail))

abbrev parsed : Option Json → Result Fields
parsed none = err (Error.raised "JSONDecodeError" "the payload is no JSON")
parsed (some (Json.obj p)) = ok p
parsed (some v) = err (
    Error.task_error false "Polymarket response is not a JSON object" "POLYMARKET_INVALID_RESPONSE")

abbrev pub read_opened : Net → Opened → Result Fields
read_opened net (Opened.body payload) = parsed (net.loads payload)
read_opened net (Opened.http_error code detail) =
    if retried_code code
    then err (Error.task_error true (failed_with code detail) "POLYMARKET_UPSTREAM_RETRYABLE")
    else err (Error.task_error false (failed_with code detail) "POLYMARKET_UPSTREAM_INVALID")
read_opened net (Opened.url_error text) =
    err
      (Error.task_error true (append "Polymarket request failed: " text) "POLYMARKET_NETWORK_ERROR")
read_opened net (Opened.other_error e) = err e

abbrev with_query : Net → List (String × String) → String → String
with_query net [] url = url
with_query net (p ∷ ps) url = append url (append "?" (net.urlencode (p ∷ ps)))

unfoldable pub request_json : Net → String → List (String × String) → Result Fields
request_json net path params =
    read_opened net (net.urlopen (with_query net params (append net.base_url path)))

abbrev cursor_params : Option String → List (String × String)
cursor_params none = []
cursor_params (some String.[]) = []
cursor_params (some c) = ("after_cursor", c) ∷ []

abbrev closed_params : Net → Json → List (String × String)
closed_params net Json.null = []
closed_params net v = ("closed", net.lower v) ∷ []

unfoldable pub list_events_keyset : Net → ℕ → Option String → Json → Result Fields
unfolding request_json
list_events_keyset net limit after_cursor closed =
    request_json net "/events/keyset"
      (("limit", decimal limit) ∷ (cursor_params after_cursor ++ closed_params net closed))

unfoldable pub get_event_by_id : Net → String → Result Fields
unfolding request_json
get_event_by_id net id = request_json net (append "/events/" id) []
