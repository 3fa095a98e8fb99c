-- ===== src/Api/Reads.antt =====
-- api/main.py: the start of the application and its read endpoints.
use rtace.Base.{
  ℕ, String, ◌≡◌, ◌≢◌, ◌⊎◌, refl, inl, inr, Bool, true, Option, none, some, [], ◌==◌, eq_iff, List,
  if◌then◌else◌, Bool-cases,
}
use rtace.Redis.{Redis}
use rtace.Config.{RedisConfig}
use rtace.Enforcement.Listing.{Rules, list_rules}
use rtace.Api.{
  Request, Response, http_exception, Override, App, check_token, require_read, require_write, serve,
}
use rtace.Base.{false}
use rtace.Api.Access.{comparable, check_token-cases, status}

-- `os.getenv("RTACE_API_TOKEN") or None`
unfoldable pub token_of : Option String → Option String
token_of none = none
token_of (some t) = if t == "" then none else some t

-- What `lifespan` puts into `app.state`; the producer of audit records is made when one is due.
unfoldable pub lifespan : {Db : Type 0} → Option String → Db → App Db
lifespan getenv_token db = record { token = token_of getenv_token; db = db; audits = [] }

-- The answers of the read endpoints; the text of `/metrics` is the Prometheus client's.
pub data Answer : Type 0 where
  refused : Response → Answer
  connected : Answer
  rules : Rules → Answer
  exposition : String → Answer
  info : Answer

pub data Endpoint : Type 0 where
  get_health get_metrics get_enforcement get_root : Endpoint

abbrev pub disabled : Response
disabled = http_exception 503 "Manual overrides are disabled: set RTACE_API_TOKEN to enable them"

abbrev pub unauthorised : Response
unauthorised = http_exception 401 "Missing or invalid bearer token"

-- the answer to an exception that no handler takes
abbrev server_error : Response
server_error = http_exception 500 "Internal Server Error"

module _ {F : Type 0} {fle : F → F → Bool} (r : Redis F fle) (config : RedisConfig F)
    (scan : r.Db → String → List String) (ping : r.Db → Option String)
    (generate_latest : String) where
  open r use {Db}

  -- `ping` gives the text of the exception if it raises.
  unfoldable pub health : App Db → Answer
  health app = elim (ping app.db) [ none ↦ connected | some e ↦ refused (http_exception 503 e) ]

  unfoldable pub get_rules : Request → App Db → Answer
  get_rules request app =
      let listing = rules (list_rules r scan app.db) in
      elim (require_read app.token request) [ some refusal ↦ refused refusal | none ↦ listing ]

  -- A read endpoint changes nothing.
  unfoldable pub answer : Endpoint → Request → App Db → Answer
  answer get_health request app = health app
  answer get_metrics request app = exposition generate_latest
  answer get_enforcement request app = get_rules request app
  answer get_root request app = info

  -- An override is refused with this status, and nothing changes.
  abbrev pub RefusedWith : ℕ → Override → Request → App Db → Type 0
  RefusedWith code o request app =
      (status (serve r config o request app).0 ≡ code) × ((serve r config o request app).1 ≡ app)

  get_rules-granted :
      (t : String) (request : Request) (app : App Db)
      → app.token ≡ some t
      → check_token t request.credentials ≡ none
      → answer get_enforcement request app ≡ rules (list_rules r scan app.db)
  unfolding answer get_rules require_read
  get_rules-granted t request app set fine = rw (answer, get_rules, set, require_read, fine) refl

  get_rules-refused :
      (t : String) (request : Request) (app : App Db) (e : Response)
      → app.token ≡ some t
      → check_token t request.credentials ≡ some e
      → answer get_enforcement request app ≡ refused e
  unfolding answer get_rules require_read
  get_rules-refused t request app e set bad = rw (answer, get_rules, set, require_read, bad) refl

  -- `app` has no token set: reads are open, writes are off.
  abbrev pub Open : App Db → Type 0
  Open app =
      ((request : Request) → answer get_enforcement request app ≡ rules (list_rules r scan app.db))
      × ((o : Override) (request : Request) → RefusedWith 503 o request app)

  -- A request to list, or to override, is refused with this response.
  abbrev Refuses : Response → Request → App Db → Type 0
  Refuses e request app =
      (answer get_enforcement request app ≡ refused e)
      × ((o : Override) → RefusedWith (status e) o request app)

  -- `app` has this token set: it is asked for everywhere.
  abbrev pub Guarded : String → App Db → Type 0
  Guarded t app =
      (request : Request)
      → ((request.credentials ≡ some t)
          × (comparable t request.credentials ≡ true)
          × (answer get_enforcement request app ≡ rules (list_rules r scan app.db)))
        ⊎ ((request.credentials ≢ some t)
            × (comparable t request.credentials ≡ true)
            × Refuses unauthorised request app)
        ⊎ ((comparable t request.credentials ≡ false) × Refuses server_error request app)

  serve-refuses :
      (o : Override) (request : Request) (app : App Db) (e : Response)
      → require_write app.token request ≡ some e
      → RefusedWith (status e) o request app
  unfolding serve
  serve-refuses o request app e closed = rw (closed, serve) (refl, refl)

  unset-Open : (app : App Db) → app.token ≡ none → Open app
  unfolding answer get_rules require_read require_write
  unset-Open app unset = (
    λ request. rw (unset, answer, get_rules, require_read) refl,
    λ o request. serve-refuses o request app disabled (rw (unset, require_write) refl),
  )

  set-Guarded : (t : String) (app : App Db) → app.token ≡ some t → Guarded t app
  unfolding require_write require_read
  set-Guarded t app set request = elim (check_token-cases t request.credentials) [
    | inl (given, ascii, fine) ↦ inl (given, ascii, get_rules-granted t request app set fine)
    | inr (inl (other, ascii, bad)) ↦ inr (inl (other, ascii, all unauthorised bad))
    | inr (inr (outside, bad)) ↦ inr (inr (outside, all server_error bad))
  ]
    where
      all : (e : Response) → check_token t request.credentials ≡ some e → Refuses e request app
      all e bad = (
        get_rules-refused t request app e set bad,
        λ o. serve-refuses o request app e (rw (set, require_write, require_read) bad),
      )

  -- After a start without RTACE_API_TOKEN, or with an empty one, anyone may list the rules, and
  -- every override is answered 503 and changes nothing. With a token set, the rules are listed for
  -- the requests that carry it; any other request, to list or to override, is answered 401 and
  -- changes nothing. But where the token set or the one carried is not ASCII, the answer is 500,
  -- even to a request that carries the token, and nothing changes.
  pub lifespan_guards :
      (getenv_token : Option String) (db : Db)
      → ((token_of getenv_token ≡ none) × Open (lifespan getenv_token db))
        ⊎ ((t : String) × (getenv_token ≡ some t) × (t ≢ "") × Guarded t (lifespan getenv_token db))
  unfolding lifespan token_of
  lifespan_guards none db = inl (refl, unset-Open (lifespan none db) refl)
  lifespan_guards (some t) db = elim (Bool-cases (t == "")) [
    | inl empty ↦
        let unset : token_of (some t) ≡ none = rw (empty, token_of) refl in
        inl (unset, unset-Open (lifespan (some t) db) unset)
    | inr other ↦
        let set : token_of (some t) ≡ some t = rw (other, token_of) refl in
        inr (
          t,
          refl,
          λ same. let q : (t == "") ≡ true = (eq_iff t "").1 same in cc,
          set-Guarded t (lifespan (some t) db) set,
        )
  ]
