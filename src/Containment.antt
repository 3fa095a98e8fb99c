-- ===== src/Containment.antt =====
-- containment_engine/containment_actions.py: the actions that a detection calls for, and the
-- transaction that applies them.
mod Writes
pub mod Atomic
pub mod Receipt
pub mod Policy
pub mod Pipeline
pub mod Engine
pub mod Contained
mod Tests
mod EngineTests
use rtace.Base.{
  ℕ, String, ◌++◌, Bool, false, Option, none, some, List, [], ◌∷◌, ◌==◌, ◌||◌, ◌&&◌, not,
  if◌then◌else◌,
}
use rtace.Platform.{Platform, Json}
use rtace.Redis.{Redis}
use rtace.Config.{RedisConfig}
use rtace.Models.{DetectionEvent, get_detail, is_text}
use rtace.Enforcement.{quarantine_key, step_up_key, ip_block_key, exists}

abbrev pub receipt_prefix : String
receipt_prefix = "containment:applied:"

unfoldable pub receipt_key : String → String
receipt_key detection_id = receipt_prefix ++ detection_id

-- `dtype in HARD_QUARANTINE_TYPES`
abbrev pub is_hard : String → Bool
is_hard dtype = dtype == "replay_attack" || dtype == "fraud_burst"

-- `if detection.ip_address`: there, and not empty
abbrev pub present : Option String → Bool
present none = false
present (some ip) = not (ip == "")

abbrev pub or_empty : Option String → String
or_empty none = ""
or_empty (some ip) = ip

-- `details.get("scope", "user")` is the text "ip"
abbrev pub is_ip_scope : {F : Type 0} → List (String × Json F) → Bool
is_ip_scope details = is_text (get_detail "scope" details) "ip"

-- How EXEC ends, as the server and the connection decide: it runs; a watched key has changed; the
-- connection is lost before it runs, or after it ran and before its reply came.
pub data Verdict : Type 0 where
  executed conflict lost unacknowledged : Verdict

-- `none`: a Redis error was raised.
pub data Outcome : Type 0 where
  returned : List String → Outcome
  raised : Outcome

module _ (p : Platform) (r : Redis p.F p.fle) (config : RedisConfig p.F) where
  open p use {F, dumps, loads}
  open r use {Db, lookup, set_ex}

  -- the `(key, ttl)` of each rule
  abbrev pub quarantine_write : DetectionEvent p → String × ℕ
  quarantine_write d = (quarantine_key d.user_id, config.quarantine_ttl_seconds)

  abbrev pub step_up_write : DetectionEvent p → String × ℕ
  step_up_write d = (step_up_key d.user_id, config.step_up_ttl_seconds)

  abbrev pub ip_block_write : DetectionEvent p → String × ℕ
  ip_block_write d = (ip_block_key (or_empty d.ip_address), config.ip_block_ttl_seconds)

  -- `_plan`: the actions and the writes, given whether a step-up is pending.
  pub plan : Bool → DetectionEvent p → List String × List (String × ℕ)
  plan pending d =
      if is_hard d.detection_type
      then ("quarantine" ∷ [], quarantine_write d ∷ [])
      else if d.detection_type == "credential_stuffing"
      then (if is_ip_scope d.details && present d.ip_address
          then ("quarantine" ∷ "ip_block" ∷ [], quarantine_write d ∷ ip_block_write d ∷ [])
          else ("quarantine" ∷ [], quarantine_write d ∷ []))
      else if d.detection_type == "geo_velocity_anomaly"
      then (if pending
          then ("step_up_auth" ∷ "quarantine" ∷ [], step_up_write d ∷ quarantine_write d ∷ [])
          else ("step_up_auth" ∷ [], step_up_write d ∷ []))
      else ([], [])

  -- The SETEX of each write, with the detection's id.
  pub write_all : String → List (String × ℕ) → Db → Db
  write_all id [] db = db
  write_all id ((key, ttl) ∷ writes) db = write_all id writes (set_ex key ttl id db)

  -- The queued commands of MULTI: the receipt, then the rules.
  pub commit : DetectionEvent p → List String → List (String × ℕ) → Db → Db
  unfolding write_all
  commit d actions writes db = write_all d.detection_id writes (
      set_ex (receipt_key d.detection_id) config.containment_receipt_ttl_seconds (dumps actions) db)

  -- One pass of the retry loop: what other clients do to the database between the reads and EXEC,
  -- and how EXEC ends.
  pub record Round : Type 0 where
    pub between : Db → Db
    pub verdict : Verdict

  -- The end of a pass by how EXEC ended; `none` is the `continue` after a WatchError.
  pub execute :
      Verdict → DetectionEvent p → List String → List (String × ℕ) → Db → Option Outcome × Db
  execute executed d actions writes db = (some (returned actions), commit d actions writes db)
  execute conflict d actions writes db = (none, db)
  execute lost d actions writes db = (some raised, db)
  execute unacknowledged d actions writes db = (some raised, commit d actions writes db)

  -- No action, no transaction.
  pub finish : Round → DetectionEvent p → List String × List (String × ℕ) → Db → Option Outcome × Db
  finish round d ([], writes) db = (some (returned []), db)
  finish round d (action ∷ actions, writes) db =
      execute round.verdict d (action ∷ actions) writes (round.between db)

  -- One pass: the reads see `db`, and EXEC sees `between db`.
  pub attempt : Round → DetectionEvent p → Db → Option Outcome × Db
  attempt round d db = elim (lookup db (receipt_key d.detection_id)) [
    | some prior ↦ (some (returned (loads prior.value)), db)
    | none ↦ finish round d (plan (exists r db (step_up_key d.user_id)) d) db
  ]

  -- `apply_containment` over the passes that its `while True` makes; `none` after the last one
  -- means that it is still in the loop.
  pub apply_containment : List Round → DetectionEvent p → Db → Option Outcome × Db
  apply_containment [] d db = (none, db)
  apply_containment (round ∷ rounds) d db =
      let (outcome, db') = attempt round d db in
      let again = apply_containment rounds d db' in
      elim outcome [ none ↦ again | some o ↦ (some o, db') ]
