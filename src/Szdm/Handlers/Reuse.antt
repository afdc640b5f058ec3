-- ===== src/Szdm/Handlers/Reuse.antt =====
-- workers/modules/szdm.py: which results are used again.
use amsz_web.Table.Order.{count-order_by}
use amsz_web.Storage.{ends_with, text_before}
use amsz_web.Base.{
  ℕ, suc, ◌+◌, ◌≡◌, ◌≤◌, String, Option, none, some, List, [], ◌∷◌, refl, true, false, count,
  Bool-cases, inl, inr, str_eq, Option-cases, leb, arith, str_eq_refl, ◌<◌, sym, ◌∙◌,
}
use amsz_web.Session.{ok, seconds}
use amsz_web.Szdm.{SzdmItem}
use amsz_web.Szdm.Handlers.{
  HandlerEnv, find_reusable, first_reusable, is_reusable, timestamp_of, descending, item_prefix,
}

-- a key of a result of the item that is not older than the window
pub record IsReusable (h : HandlerEnv) (now window : ℕ) (key : String) : Type 0 where
  pub named : ends_with "/result.json" key ≡ true
  pub time : ℕ
  pub stamped : timestamp_of h.strptime key ≡ some time
  pub fresh : now ≤ time + seconds window

is_reusable-IsReusable :
    (h : HandlerEnv) (now window : ℕ) (key : String)
    → is_reusable h.strptime now window key ≡ true
    → IsReusable h now window key
is_reusable-IsReusable h now window key e = elim (Bool-cases (ends_with "/result.json" key)) [
  | inr n ↦ cc (rw n at e)
  | inl y ↦ elim (Option-cases (timestamp_of h.strptime key)) [
    | inl m ↦ cc (rw (y, m) at e)
    | inr (t, s) ↦
        let late : leb now (t + seconds window) ≡ true = rw (y, s) at e in
        record { named = y; time = t; stamped = s; fresh = ground (arith, late) }
  ]
]

-- what the search gives: a fresh key of the list, or none where none is fresh
abbrev pub Searched : HandlerEnv → ℕ → ℕ → List String → Option String → Type 0
Searched h now window keys (some k) = IsReusable h now window k × (0 < count (str_eq k) keys)
Searched h now window keys none = count (is_reusable h.strptime now window) keys ≡ 0

module _ (h : HandlerEnv) (now window : ℕ) where
  Searched-past :
      (k : String) (ks : List String) (o : Option String)
      → is_reusable h.strptime now window k ≡ false
      → Searched h now window ks o
      → Searched h now window (k ∷ ks) o
  Searched-past k ks none n s = rw n s
  Searched-past k ks (some c) n s = (s.0, ground (arith, s.1))

  first_reusable-Searched :
      (keys : List String) → Searched h now window keys (first_reusable h.strptime now window keys)
  unfolding first_reusable
  first_reusable-Searched [] = refl
  first_reusable-Searched (k ∷ ks) = elim (Bool-cases (is_reusable h.strptime now window k)) [
    | inl y ↦
        rw (first_reusable, y)
          (is_reusable-IsReusable h now window k y, ground (arith, str_eq_refl k))
    | inr n ↦
        rw (first_reusable, n)
          (Searched-past k ks (first_reusable h.strptime now window ks) n
            (first_reusable-Searched ks))
  ]

  Searched-descending :
      (keys : List String) (o : Option String)
      → Searched h now window (descending keys) o
      → Searched h now window keys o
  Searched-descending keys none s =
      sym (count-order_by (λ a b. text_before b a) (is_reusable h.strptime now window) keys) ∙ s
  Searched-descending keys (some k) s =
      (s.0, rw (count-order_by (λ a b. text_before b a) (str_eq k) keys) at s.1)

-- Where the job's window is positive and the bucket lists the item's results: the result that is used
-- again in place of a new one is one of them, has its time in its key, and is not older than the
-- window; and none is used only if none of them is like that.
pub find_reusable-Searched :
    (h : HandlerEnv) (now window : ℕ) (i : SzdmItem) (keys : List String)
    → h.list_json_keys (item_prefix i.item_key i.condition_key) ≡ ok keys
    → (o : Option String) × (find_reusable h now i (suc window) ≡ ok o)
      × Searched h now (suc window) keys o
unfolding find_reusable
find_reusable-Searched h now window i keys e = (
  first_reusable h.strptime now (suc window) (descending keys),
  rw (find_reusable, e) refl,
  Searched-descending h now (suc window) keys _
      (first_reusable-Searched h now (suc window) (descending keys)),
)
