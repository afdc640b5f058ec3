-- ===== src/Storage.antt =====
-- app/infrastructure/datasource/s3/client.py: LocalS3Client, on the files below the bucket's directory.
-- Keys are paths in their normal form: no component is empty, "." or "..".
pub mod Roundtrip
use amsz_web.Templates.{is_empty_text}
use amsz_web.Table.Order.{order_by}
use amsz_web.Base.{
  ℕ, zero, suc, String, Bool, true, false, Option, none, some, List, [], ◌∷◌, ◌==◌, ◌&&◌, ◌||◌, ltb,
  str_eq, append, if◌then◌else◌, is_some, select, map,
}
use amsz_web.Domain.{Json}
use amsz_web.Session.{Result, ok, err, Error}
use Prim.Native.Char.{code}

-- what follows a prefix, if the text has it
unfoldable pub strip_prefix : String → String → Option String
strip_prefix String.[] s = some s
strip_prefix (String.◌∷◌ c p) String.[] = none
strip_prefix (String.◌∷◌ c p) (String.◌∷◌ d s) =
    let rest = strip_prefix p s in if code c == code d then rest else none

-- value.split("/", n)[n], or the empty text where there are fewer slashes
unfoldable pub after_slashes : ℕ → String → String
after_slashes zero s = s
after_slashes (suc n) String.[] = ""
after_slashes (suc n) (String.◌∷◌ c s) =
    let less = after_slashes n s in
    let same = after_slashes (suc n) s in if code c == 47 then less else same

-- value.lstrip("/")
unfoldable pub strip_slashes : String → String
strip_slashes String.[] = ""
strip_slashes (String.◌∷◌ c s) =
    let rest = strip_slashes s in if code c == 47 then rest else String.◌∷◌ c s

abbrev pub bucket_prefix : String → String
bucket_prefix bucket = append "s3://" (append bucket "/")

-- _normalize_key
unfoldable pub normalize_key : String → String → String
unfolding strip_prefix after_slashes strip_slashes
normalize_key bucket key = elim (strip_prefix (bucket_prefix bucket) key) [
  | some rest ↦ rest
  | none ↦ if is_some (strip_prefix "s3://" key) then after_slashes 3 key else strip_slashes key
]

unfoldable pub to_uri : String → String → String
unfolding normalize_key
to_uri bucket key = append (bucket_prefix bucket) (normalize_key bucket key)

-- the files below the bucket's directory, by their relative path
abbrev pub Files : Type 0
Files = List (String × String)

abbrev pub read_file : String → Files → Option String
read_file k [] = none
read_file k ((j, text) ∷ rest) = if str_eq j k then some text else read_file k rest

abbrev pub write_file : String → String → Files → Files
write_file k text [] = (k, text) ∷ []
write_file k text ((j, old) ∷ rest) =
    if str_eq j k then (j, text) ∷ rest else (j, old) ∷ write_file k text rest

-- json.dumps with sorted keys, and json.loads, which is `none` where it raises
pub record Codec : Type 0 where
  pub dumps : Json → String
  pub loads : String → Option Json

abbrev loaded : Option Json → Result Json
loaded none = err (Error.raised "JSONDecodeError" "the file is no JSON")
loaded (some v) = ok v

abbrev file_json : Codec → Option String → Result Json
file_json c none = err (Error.raised "FileNotFoundError" "no such file")
file_json c (some text) = loaded (c.loads text)

-- value.rstrip("/")
unfoldable pub strip_end : String → String
strip_end String.[] = ""
strip_end (String.◌∷◌ c s) =
    let rest = strip_end s in if (code c == 47) && is_empty_text rest then "" else String.◌∷◌ c rest

-- key.endswith(".json"), which is the pattern of rglob
unfoldable pub ends_with : String → String → Bool
ends_with suffix String.[] = str_eq suffix ""
ends_with suffix (String.◌∷◌ c s) =
    let rest = ends_with suffix s in str_eq suffix (String.◌∷◌ c s) || rest

abbrev under : String → String → Bool
under String.[] key = true
under (String.◌∷◌ c p) key = is_some (strip_prefix (append (String.◌∷◌ c p) "/") key)

-- a < b, by code points
unfoldable pub text_before : String → String → Bool
text_before String.[] String.[] = false
text_before String.[] (String.◌∷◌ d t) = true
text_before (String.◌∷◌ c s) String.[] = false
text_before (String.◌∷◌ c s) (String.◌∷◌ d t) =
    let rest = text_before s t in ltb (code c) (code d) || ((code c == code d) && rest)

module _ (bucket : String) where
  unfoldable pub put_json : Codec → String → Json → Files → String × Files
  unfolding to_uri normalize_key
  put_json c key payload files = (
    to_uri bucket (normalize_key bucket key),
    write_file (normalize_key bucket key) (c.dumps payload) files,
  )

  unfoldable pub get_json : Codec → String → Files → Result Json
  unfolding normalize_key
  get_json c key files = file_json c (read_file (normalize_key bucket key) files)

  unfoldable pub list_json_keys : String → Files → List String
  unfolding ends_with text_before strip_end
  list_json_keys prefix files = order_by text_before (
      select (λ k. under (strip_end (normalize_key bucket prefix)) k && ends_with ".json" k)
        (map (λ f. f.0) files))
