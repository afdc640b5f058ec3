-- ===== src/Examples/Items.antt =====
-- The handler of a szdm item, and the theorems on it, at concrete arguments.
use amsz_web.Szdm.Handlers.Reuse.{Searched, find_reusable-Searched}
use amsz_web.Szdm.Handlers.Ended.{ItemEnded, szdm_sub_handler-ItemEnded}
use amsz_web.Base.{String, Option, none, some, [], ◌∷◌, ◌≡◌, refl}
use amsz_web.Domain.{Json}
use amsz_web.Session.{ok, err, Error}
use amsz_web.Szdm.Handlers.{HandlerEnv, find_reusable, szdm_sub_handler}
use amsz_web.Examples.Data.{env_at}
use amsz_web.Examples.Jobs.{small_board, item_at, small_job}

abbrev old_key : String
old_key = "szdm/items/item/default/T/result.json"

abbrev handler_env : HandlerEnv
handler_env = record {
  env = env_at;
  attempt_no = 1;
  canceled = ok tt;
  progress = λ n stage. ok tt;
  list_json_keys = λ prefix. ok (old_key ∷ []);
  get_json = λ key. err (Error.raised "FileNotFoundError" "no such file");
  put_json = λ key v. ok key;
  to_uri = λ key. key;
  strptime = λ t. some 3;
  strftime = λ t. "T";
  score = λ n. Json.num n;
  as_dict = λ v. ok v;
  error_code = λ e. none;
  message = λ e. "no such file";
  total = λ xs. ok (Json.num 0);
  average = λ v n. v;
  report_hash = λ v. "hash";
}

find_reusable-Searched_example :
    (o : Option String) × (find_reusable handler_env 5 (item_at 0) 10 ≡ ok o)
    × Searched handler_env 5 10 (old_key ∷ []) o
find_reusable-Searched_example =
    find_reusable-Searched handler_env 5 9 (item_at 0) (old_key ∷ []) refl

szdm_sub_handler-ItemEnded_example :
    ItemEnded handler_env 1 (szdm_sub_handler handler_env 1 1 small_board)
szdm_sub_handler-ItemEnded_example =
    szdm_sub_handler-ItemEnded handler_env 1 1 (item_at 0) small_job small_board refl refl
