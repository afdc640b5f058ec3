-- ===== src/Storage/Roundtrip.antt =====
-- s3/client.py: what is put under a key is got back.
use text.Mathlib.TextLemmas.{nil-append, cons-append}
use amsz_web.Base.{
  [], ◌∷◌, String, some, ◌≡◌, refl, append, str_eq, ==_refl, false, str_eq_refl, Bool-cases, inl,
  str_eq_iff, inr, ◌∙◌, true,
}
use amsz_web.Domain.{Json}
use amsz_web.Session.{ok}
use amsz_web.Storage.{
  strip_prefix, normalize_key, to_uri, bucket_prefix, Files, code, read_file, write_file, put_json,
  get_json, Codec,
}

strip_prefix-append : (p s : String) → strip_prefix p (append p s) ≡ some s
unfolding strip_prefix
strip_prefix-append String.[] s = rw (nil-append s) refl
strip_prefix-append (String.◌∷◌ c p) s =
    rw (cons-append c p s, strip_prefix, ==_refl (code c)) (strip_prefix-append p s)

-- what follows the bucket's own prefix
normalize_key-own :
    (bucket rest : String) → normalize_key bucket (append (bucket_prefix bucket) rest) ≡ rest
unfolding normalize_key
normalize_key-own bucket rest =
    rw (normalize_key, strip_prefix-append (bucket_prefix bucket) rest) refl

-- The URI of a key names the same object as the key.
normalize_key-to_uri :
    (bucket key : String) → normalize_key bucket (to_uri bucket key) ≡ normalize_key bucket key
unfolding to_uri
normalize_key-to_uri bucket key = normalize_key-own bucket (normalize_key bucket key)

read_here :
    (j k text : String) (rest : Files)
    → str_eq j k ≡ true
    → read_file k ((j, text) ∷ rest) ≡ some text
read_here j k text rest hit = rw hit refl

read_past :
    (j k text : String) (rest : Files)
    → str_eq j k ≡ false
    → read_file k ((j, text) ∷ rest) ≡ read_file k rest
read_past j k text rest miss = rw miss refl

read-write : (k text : String) (files : Files) → read_file k (write_file k text files) ≡ some text
read-write k text [] = rw (str_eq_refl k) refl
read-write k text ((j, old) ∷ rest) = elim (Bool-cases (str_eq j k)) [
  | inl hit ↦ rw hit (read_here j k text rest hit)
  | inr miss ↦ rw miss (read_past j k old (write_file k text rest) miss ∙ read-write k text rest)
]

read-write_other :
    (k j text : String) (files : Files)
    → str_eq k j ≡ false
    → read_file j (write_file k text files) ≡ read_file j files
read-write_other k j text [] n = rw n refl
read-write_other k j text ((i, old) ∷ rest) n = elim (Bool-cases (str_eq i k)) [
  | inl hit ↦
      let same : i ≡ k = (str_eq_iff i k).0 hit in
      let other : str_eq i j ≡ false = rw same n in rw (hit, other) refl
  | inr miss ↦ elim (Bool-cases (str_eq i j)) [
    | inl y ↦ rw (miss, y) refl
    | inr m ↦ rw (miss, m) (read-write_other k j text rest n)
  ]
]

-- What put_json writes under a key, get_json gives back, by the key and by the URI that put_json
-- returns, where the codec reads what it has written and the key's path is its own; an object under
-- another path is not changed.
pub get-put :
    (bucket : String) (c : Codec) (key other : String) (v : Json) (files : Files)
    → c.loads (c.dumps v) ≡ some v
    → normalize_key bucket (normalize_key bucket key) ≡ normalize_key bucket key
    → str_eq (normalize_key bucket key) (normalize_key bucket other) ≡ false
    → (get_json bucket c (put_json bucket c key v files).0 (put_json bucket c key v files).1 ≡ ok v)
      × (get_json bucket c key (put_json bucket c key v files).1 ≡ ok v)
      × (get_json bucket c other (put_json bucket c key v files).1 ≡ get_json bucket c other files)
unfolding put_json get_json
get-put bucket c key other v files codec own apart =
    let path = normalize_key bucket key in
    let uri : normalize_key bucket (to_uri bucket path) ≡ path =
      normalize_key-to_uri bucket path ∙ own in
    let found : read_file path (write_file path (c.dumps v) files) ≡ some (c.dumps v) =
      read-write path (c.dumps v) files in
    (
      rw (get_json, put_json, uri, found, codec) refl,
      rw (get_json, put_json, found, codec) refl,
      rw
          (
            get_json,
            put_json,
            read-write_other path (normalize_key bucket other) (c.dumps v) files apart,
          )
          refl,
    )
