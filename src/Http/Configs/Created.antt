-- ===== src/Http/Configs/Created.antt =====
-- routes/runtime_config.py: a revision that a POST makes.
use amsz_web.Templates.{build_runtime_settings}
use amsz_web.Http.Configs.{
  RuntimeConfigRevisionCreateRequest, serve_config, RuntimeConfigRevisionResponse, revision_args,
  build_revision_response, created_revision, config_route, create_checked, ConfigBody,
  ConfigRequest,
}
use amsz_web.Table.Laws.{get-flush, get-add, Below-flush}
use amsz_web.Configs.Actions.{commit_configs}
use amsz_web.Domain.{Fields, Json}
use amsz_web.Table.{get, flush}
use amsz_web.Templates.{Environment}
use amsz_web.Base.{
  ℕ, String, Option, none, some, ◌≡◌, refl, Option-cases, inl, subst, inr, ◌∙◌, Bool-cases, some_eq,
  true, ◌+◌,
}
use amsz_web.Session.{◌>>=◌, Result, ok, err, ok-injective}
use amsz_web.Configs.{
  Configs, Revision, NewRevision, add_revision, create_revision, new_revision, is_base, max_version,
  get_active_revision, with_state,
}
use amsz_web.Configs.Consistency.{Consistent, with_state-Consistent}
use amsz_web.Http.{Answer, HttpEnv, Headers, end_request, with_api_key, is_value_error}

-- A new revision stands under the id that is returned.
add_revision-found :
    (a : NewRevision) (c : Configs)
    → Consistent c
    → get c.next_revision_id (commit_configs (add_revision a c).1).revisions
      ≡ some (add_revision a c).0.1
add_revision-found a c h =
    get-flush c.next_revision_id _
    ∙ get-add c.next_revision_id (new_revision a (max_version c.revisions + 1)) (flush c.revisions)
        (Below-flush c.next_revision_id c.revisions h.below)

Found : Configs → (ℕ × Revision) × Configs → Type 0
Found c x = get x.0.0 (commit_configs x.1).revisions ≡ some x.0.1

create_revision-Found :
    (a : NewRevision) (c : Configs) (x : (ℕ × Revision) × Configs)
    → Consistent c
    → create_revision a c ≡ ok x
    → Found c x
unfolding create_revision Found
create_revision-Found a c x h e = elim (Option-cases a.base_revision_id) [
  | inl n ↦ subst (Found c) (ok-injective (rw (create_revision, n) at e)) (add_revision-found a c h)
  | inr (base, s) ↦ elim (Bool-cases (is_base base (get_active_revision c).0)) [
    | inr n ↦ cc (rw (create_revision, s, n) at e)
    | inl y ↦
        subst (Found c) (ok-injective (rw (create_revision, s, y) at e))
          (add_revision-found a (with_state c) (with_state-Consistent c h))
  ]
]

module _ (getenv : Environment) (dump : Fields → Result Json) where
  create_checked-Found :
      (r : RuntimeConfigRevisionCreateRequest) (client : Option String) (c : Configs)
      (checked : Result Json) (x : (ℕ × Revision) × Configs)
      → Consistent c
      → (checked >>= λ _. create_revision (revision_args r client) c) ≡ ok x
      → Found c x
  create_checked-Found r client c (err e) x h q = cc q
  create_checked-Found r client c (ok v) x h q =
      create_revision-Found (revision_args r client) c x h q

  -- a response whose body is that of a new revision
  record Responded (c : Configs) (x : Result ((ℕ × Revision) × Configs))
      (resp : RuntimeConfigRevisionResponse) (db' : Configs) : Type 0 where
    made : (ℕ × Revision) × Configs
    succeeded : x ≡ ok made
    body : resp ≡ build_revision_response made.0.0 made.0.1 none
    committed : db' ≡ commit_configs made.1

  responded :
      (h : HttpEnv) (db db' : Configs) (resp : RuntimeConfigRevisionResponse)
      (x : Result ((ℕ × Revision) × Configs))
      → end_request commit_configs db (created_revision h x)
        ≡ (Answer.answers 201 (ConfigBody.revision resp), db')
      → Responded db x resp db'
  responded h db db' resp (err e) q = elim (Bool-cases (is_value_error e)) [
    | inl y ↦ cc (rw y at q)
    | inr n ↦ cc (rw n at q)
  ]
  responded h db db' resp (ok ((id, r), c)) q = record {
    made = ((id, r), c);
    succeeded = refl;
    body = cc q;
    committed = cc q;
  }

  show-found :
      (h : HttpEnv) (headers : Headers) (db : Configs) (id : ℕ) (r : Revision)
      → some_eq headers.x_api_key h.api_key ≡ true
      → get id db.revisions ≡ some r
      → (serve_config getenv dump h headers (ConfigRequest.show id) db).0
        ≡ Answer.answers 200 (ConfigBody.revision (build_revision_response id r none))
  unfolding serve_config with_api_key config_route
  show-found h headers db id r key e = rw (serve_config, with_api_key, key, config_route, e) refl

  show-response :
      (h : HttpEnv) (headers : Headers) (db : Configs) (resp : RuntimeConfigRevisionResponse)
      (made : (ℕ × Revision) × Configs)
      → some_eq headers.x_api_key h.api_key ≡ true
      → resp ≡ build_revision_response made.0.0 made.0.1 none
      → db ≡ commit_configs made.1
      → get made.0.0 (commit_configs made.1).revisions ≡ some made.0.1
      → (serve_config getenv dump h headers (ConfigRequest.show resp.revision_id) db).0
        ≡ Answer.answers 200 (ConfigBody.revision resp)
  show-response h headers db resp made key body committed found =
      rw (body, committed)
        (show-found h headers (commit_configs made.1) made.0.0 made.0.1 key found)

  -- A POST of a configuration that is answered with 201, on a consistent database: a later GET, with
  -- the right API key, of the id in its response is answered with 200 and the same response.
  pub create_then_show :
      (h h' : HttpEnv) (headers headers' : Headers) (r : RuntimeConfigRevisionCreateRequest)
      (db db' : Configs) (resp : RuntimeConfigRevisionResponse)
      → Consistent db
      → some_eq headers'.x_api_key h'.api_key ≡ true
      → serve_config getenv dump h headers (ConfigRequest.create r) db
        ≡ (Answer.answers 201 (ConfigBody.revision resp), db')
      → (serve_config getenv dump h' headers' (ConfigRequest.show resp.revision_id) db').0
        ≡ Answer.answers 200 (ConfigBody.revision resp)
  unfolding serve_config with_api_key config_route create_checked Found
  create_then_show h h' headers headers' r db db' resp c key q =
      elim (Bool-cases (some_eq headers.x_api_key h.api_key)) [
        | inr n ↦ cc (rw (serve_config, with_api_key, n) at q)
        | inl y ↦
            let w : Responded db (create_checked getenv dump r headers.x_client_id db) resp db' =
              responded h db db' resp (create_checked getenv dump r headers.x_client_id db)
                (rw (serve_config, with_api_key, y) at q) in
            let found : get w.made.0.0 (commit_configs w.made.1).revisions ≡ some w.made.0.1 =
              create_checked-Found r headers.x_client_id db
                (build_runtime_settings getenv dump r.config) w.made c w.succeeded in
            show-response h' headers' db' resp w.made key w.body w.committed found
      ]
