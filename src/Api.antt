-- ===== src/Api.antt =====
-- api/main.py: the tokens and the manual overrides of the control API. A `ttl_seconds` that FastAPI
-- has refused never reaches a handler.
pub mod Access
pub mod Reads
mod Tests
use Prim.Native.Char.{code}
use rtace.Base.{
  ℕ, zero, suc, String, ◌++◌, Bool, true, false, Option, none, some, List, [], ◌∷◌, ◌==◌, append,
  is_some, ltb, ◌&&◌, if◌then◌else◌,
}
use rtace.Redis.{Redis}
use rtace.Config.{RedisConfig}
use rtace.Enforcement.{quarantine_key, step_up_key, ip_block_key, exists}

-- What a handler reads of a request: the bearer token, and for the audit record the time and the
-- client's host.
pub record Request : Type 0 where
  pub credentials : Option String
  pub timestamp : String
  pub client : Option String

-- The record that `_audit` writes.
pub record Audited : Type 0 where
  pub action : String
  pub timestamp : String
  pub client : Option String
  pub subject : String
  pub ttl_seconds : Option ℕ
  pub reason : Option String

-- `HTTPException(status_code, detail)`, or the body with the status of the route.
pub data Response : Type 0 where
  http_exception : ℕ → String → Response
  body : ℕ → String → String → Option ℕ → Response

-- One call of a route that changes the rules.
pub data Override : Type 0 where
  quarantine : String → Option ℕ → String → Override
  lift_quarantined step_up_done : String → Override
  ip_block : String → Option ℕ → String → Override
  lift_blocked : String → Override

-- `app.state` of one process: its token, its Redis, and the audit records written so far, the newest
-- last.
pub record App (Db : Type 0) : Type 0 where
  pub token : Option String
  pub db : Db
  pub audits : List Audited

-- `ttl_seconds or default`
unfoldable pub ttl_or : ℕ → Option ℕ → ℕ
ttl_or default none = default
ttl_or default (some zero) = default
ttl_or default (some (suc n)) = suc n

-- `s.isascii()`
unfoldable pub is_ascii : String → Bool
is_ascii String.[] = true
is_ascii (String.◌∷◌ c s) = ltb (code c) 128 && is_ascii s

-- `secrets.compare_digest` of two texts, `none` where it raises: it raises a TypeError for text that
-- is not ASCII.
unfoldable pub compare_digest : String → String → Option Bool
compare_digest a b = if is_ascii a && is_ascii b then some (a == b) else none

-- `require_read` with a token set: the refusal, if any. An exception that no handler takes is
-- answered by the server with 500.
unfoldable pub check_token : String → Option String → Option Response
unfolding compare_digest
check_token token none = some (http_exception 401 "Missing or invalid bearer token")
check_token token (some given) = elim (compare_digest given token) [
  | none ↦ some (http_exception 500 "Internal Server Error")
  | some same ↦ if same then none else some (http_exception 401 "Missing or invalid bearer token")
]

unfoldable pub require_read : Option String → Request → Option Response
require_read none request = none
require_read (some token) request = check_token token request.credentials

unfoldable pub require_write : Option String → Request → Option Response
require_write none request =
    some (http_exception 503 "Manual overrides are disabled: set RTACE_API_TOKEN to enable them")
require_write (some token) request = require_read (some token) request

module _ {F : Type 0} {fle : F → F → Bool} (r : Redis F fle) (config : RedisConfig F) where
  open r use {Db, lookup, set_ex, delete}

  -- `_audit`
  abbrev audit : Request → String → String → Option ℕ → Option String → List Audited → List Audited
  audit request action subject ttl reason audits = append audits (
      record {
        action = action;
        timestamp = request.timestamp;
        client = request.client;
        subject = subject;
        ttl_seconds = ttl;
        reason = reason;
      }
      ∷ [])

  unfoldable pub add_quarantine : String → Option ℕ → String → Request → App Db → Response × App Db
  add_quarantine user_id ttl_seconds reason request app =
      let ttl = ttl_or config.quarantine_ttl_seconds ttl_seconds in
      (
        body 201 user_id "quarantine" (some ttl),
        record app {
          db = set_ex (quarantine_key user_id) ttl ("api:" ++ reason) app.db;
          audits = audit request "manual_quarantine" user_id (some ttl) (some reason) app.audits;
        },
      )

  unfoldable pub lift_quarantine : String → Request → App Db → Response × App Db
  lift_quarantine user_id request app =
      let removed = exists r app.db (quarantine_key user_id) in
      let db' = delete (quarantine_key user_id) app.db in
      if removed
      then (
        body 200 user_id "lift_quarantine" none,
        record app {
          db = db';
          audits = audit request "lift_quarantine" user_id none none app.audits;
        },
      )
      else (http_exception 404 ("No quarantine for user " ++ user_id), record app { db = db' })

  unfoldable pub clear_step_up : String → Request → App Db → Response × App Db
  clear_step_up user_id request app =
      let removed = exists r app.db (step_up_key user_id) in
      let db' = delete (step_up_key user_id) app.db in
      if removed
      then (
        body 200 user_id "clear_step_up" none,
        record app {
          db = db';
          audits = audit request "clear_step_up" user_id none none app.audits;
        },
      )
      else (http_exception 404 ("No pending step-up for user " ++ user_id), record app { db = db' })

  unfoldable pub add_ip_block : String → Option ℕ → String → Request → App Db → Response × App Db
  add_ip_block ip ttl_seconds reason request app =
      let ttl = ttl_or config.ip_block_ttl_seconds ttl_seconds in
      (
        body 201 ip "ip_block" (some ttl),
        record app {
          db = set_ex (ip_block_key ip) ttl ("api:" ++ reason) app.db;
          audits = audit request "manual_ip_block" ip (some ttl) (some reason) app.audits;
        },
      )

  unfoldable pub lift_ip_block : String → Request → App Db → Response × App Db
  lift_ip_block ip request app =
      let removed = exists r app.db (ip_block_key ip) in
      let db' = delete (ip_block_key ip) app.db in
      if removed
      then (
        body 200 ip "lift_ip_block" none,
        record app { db = db'; audits = audit request "lift_ip_block" ip none none app.audits },
      )
      else (http_exception 404 ("No block for IP " ++ ip), record app { db = db' })

  unfoldable pub route : Override → Request → App Db → Response × App Db
  route (quarantine user_id ttl reason) request app = add_quarantine user_id ttl reason request app
  route (lift_quarantined user_id) request app = lift_quarantine user_id request app
  route (step_up_done user_id) request app = clear_step_up user_id request app
  route (ip_block ip ttl reason) request app = add_ip_block ip ttl reason request app
  route (lift_blocked ip) request app = lift_ip_block ip request app

  -- Every route that changes the rules depends on `require_write`.
  unfoldable pub serve : Override → Request → App Db → Response × App Db
  serve override request app =
      let served = route override request app in
      elim (require_write app.token request) [ some refusal ↦ (refusal, app) | none ↦ served ]
