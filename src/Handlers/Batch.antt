-- ===== src/Handlers/Batch.antt =====
-- workers/modules/batch.py: batch_sleep_echo_aggregate_handler, on the results of the children.
use amsz_web.Table.Order.{
  All-order_by, order_by, insert_by, order_by-perm, length-order_by, All-insert_by,
}
use amsz_web.Domain.{Json, Items, Fields}
use amsz_web.Base.{
  ap, ◌∙◌, refl, if◌then◌else◌, Option, ℕ, List, Bool, leb, length, or_else, ◌∷◌, ◌++◌, [], All,
  ◌≡◌, Bool-cases, ◌≤◌, inl, refl, arith, All-map, inr,
}
use amsz_web.Base.{none, some, length}
use mathlib.Core.List.{Perm}
use amsz_web.Tasks.Family.Summary.{ChildResult}
use amsz_web.Services.Fanout.{get_field, to_list}
use amsz_web.Polymarket.Values.{Builtins, truth}
use amsz_web.Polymarket.Sync.{as_list}
use amsz_web.Session.{◌>>=◌, Result, ok, err, Error}

-- items.extend(result_payload.get("items", [])): what can be iterated is
abbrev extended : Option Json → Result (List Json)
extended none = ok []
extended (some v) = as_list v

abbrev items_of : Json → Result (List Json)
items_of (Json.obj p) = extended (get_field "items" p)
items_of _ = err (Error.raised "AttributeError" "the result has no get")

-- child_result.get("result") or {}
abbrev items_or : Builtins → Option Json → Result (List Json)
items_or b none = ok []
items_or b (some v) = if truth b v then items_of v else ok []

abbrev pub result_items : Builtins → ChildResult → Result (List Json)
result_items b r = items_or b r.result

-- sorted(child_results, key=lambda item: item["shard_index"] or 0): the sort is stable
abbrev pub shard_position : ChildResult → ℕ
shard_position r = or_else r.shard_index 0

-- the new entry goes behind those with the same key, and entries are taken from the end
abbrev pub position_before : ChildResult → ChildResult → Bool
position_before r q = leb (shard_position r) (shard_position q)

unfoldable pub ordered_results : List ChildResult → List ChildResult
ordered_results rs = order_by position_before rs

unfoldable pub extend_all : Builtins → List ChildResult → Result (List Json)
extend_all b [] = ok []
extend_all b (r ∷ rs) = do xs ← result_items b r; ys ← extend_all b rs; ok (xs ++ ys)

-- the counters and the items that the handler returns
pub record Aggregated : Type 0 where
  pub child_count : ℕ
  pub total_items : ℕ
  pub items : List Json

unfoldable pub aggregate_results : Builtins → List ChildResult → Result Aggregated
aggregate_results b rs = do
  items ← extend_all b (ordered_results rs)
  ok (record {
    child_count = length (ordered_results rs);
    total_items = length items;
    items = items;
  })

-- no entry has a smaller position than one in front of it
abbrev pub Ascending : List ChildResult → Type 0
Ascending [] = Unit
Ascending (r ∷ rs) = All (λ q. shard_position r ≤ shard_position q) rs × Ascending rs

insert_by-Ascending :
    (r : ChildResult) (rs : List ChildResult)
    → Ascending rs
    → Ascending (insert_by position_before r rs)
insert_by-Ascending r [] h = (tt, tt)
insert_by-Ascending r (q ∷ rs) h = elim (Bool-cases (position_before r q)) [
  | inl e ↦
      let first : shard_position r ≤ shard_position q = ground (arith, e) in
      rw e (
        (
          first,
          All-map (λ p. shard_position q ≤ shard_position p)
              (λ p. shard_position r ≤ shard_position p) rs (λ p g. omega (arith, first, g)) h.0,
        ),
        h,
      )
  | inr e ↦
      let first : shard_position q ≤ shard_position r = ground (arith, e) in
      rw e (
        All-insert_by position_before (λ p. shard_position q ≤ shard_position p) r rs first h.0,
        insert_by-Ascending r rs h.1,
      )
]

order_by-Ascending : (rs : List ChildResult) → Ascending (order_by position_before rs)
order_by-Ascending [] = tt
order_by-Ascending (r ∷ rs) =
    insert_by-Ascending r (order_by position_before rs) (order_by-Ascending rs)

-- the items of a result of the shard handler, whose "items" are a list; a child without a result, or
-- whose result has none, has no items
pub data HasItems (r : ChildResult) : List Json → Type 0 where
  no_result : r.result ≡ none → HasItems r []
  no_items :
      (p : Fields) → r.result ≡ some (Json.obj p) → get_field "items" p ≡ none → HasItems r []
  listed :
      (p : Fields) (xs : Items)
      → r.result ≡ some (Json.obj p)
      → get_field "items" p ≡ some (Json.arr xs)
      → HasItems r (to_list xs)

-- the items of the results, one after another
pub data Joined : List ChildResult → List Json → Type 0 where
  nil : Joined [] []
  cons :
      {r : ChildResult} {rs : List ChildResult} {xs ys : List Json}
      → HasItems r xs
      → Joined rs ys
      → Joined (r ∷ rs) (xs ++ ys)

-- what the aggregate is of the results
pub record Collects (rs : List ChildResult) (a : Aggregated) : Type 0 where
  pub sorted : List ChildResult
  pub same : Perm sorted rs
  pub ascending : Ascending sorted
  pub items : Joined sorted a.items
  pub total : a.total_items ≡ length a.items
  pub children : a.child_count ≡ length rs

items_or-obj :
    (b : Builtins) (p : Fields) → items_or b (some (Json.obj p)) ≡ extended (get_field "items" p)
items_or-obj b Fields.end = refl
items_or-obj b (Fields.field k v rest) = refl

result_items-HasItems :
    (b : Builtins) (r : ChildResult) (xs : List Json) → HasItems r xs → result_items b r ≡ ok xs
result_items-HasItems b r _ (HasItems.no_result e) = ap (items_or b) e
result_items-HasItems b r _ (HasItems.no_items p e g) =
    ap (items_or b) e ∙ items_or-obj b p ∙ ap extended g
result_items-HasItems b r _ (HasItems.listed p xs e g) =
    ap (items_or b) e ∙ items_or-obj b p ∙ ap extended g

joined :
    (b : Builtins) (rs : List ChildResult)
    → All (λ r. (xs : List Json) × HasItems r xs) rs
    → (ys : List Json) × (extend_all b rs ≡ ok ys) × Joined rs ys
unfolding extend_all
joined b [] h = ([], refl, Joined.nil)
joined b (r ∷ rs) h =
    let (ys, e, j) = joined b rs h.1 in
    (h.0.0 ++ ys, rw (result_items-HasItems b r h.0.0 h.0.1, e) refl, Joined.cons h.0.1 j)

-- The aggregate handler, where each result is missing or an object whose "items" are a list or missing:
-- it returns the items of all results, in the order of the shards, whatever the order in which it
-- gets the results, and the numbers of the items and of the results. A result without a shard index
-- counts as the first shard.
pub aggregate_results-Collects :
    (b : Builtins) (rs : List ChildResult)
    → All (λ r. (xs : List Json) × HasItems r xs) rs
    → (a : Aggregated) × (aggregate_results b rs ≡ ok a) × Collects rs a
unfolding aggregate_results ordered_results
aggregate_results-Collects b rs h =
    let (ys, e, j) =
      joined b (order_by position_before rs)
        (All-order_by position_before (λ r. (xs : List Json) × HasItems r xs) rs h) in
    (
      record {
        child_count = length (order_by position_before rs);
        total_items = length ys;
        items = ys;
      },
      rw e refl,
      record {
        sorted = order_by position_before rs;
        same = order_by-perm position_before rs;
        ascending = order_by-Ascending rs;
        items = j;
        total = refl;
        children = length-order_by position_before rs;
      },
    )
