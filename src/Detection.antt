-- ===== src/Detection.antt =====
-- detection_engine/pipeline.py: from a batch of records to detections, phase by phase.
pub mod Batch
pub mod Gate
pub mod Faults
pub mod Interrupted
pub mod LostReply
pub mod Engine
pub mod Blocking
pub mod Identity
mod Tests
mod FaultTests
use rtace.Base.{
  ℕ, ◌*◌, String, ◌++◌, Bool, true, false, not, ◌&&◌, ◌||◌, Option, none, some, List, [], ◌∷◌, map,
  ◌==◌, append, if◌then◌else◌,
}
use rtace.Platform.{Platform, Json, text, null}
use rtace.Redis.{Redis, Stored}
use rtace.Config.{RedisConfig}
use rtace.Models.{TransactionEvent, AuthEvent, DetectionEvent, stable_detection_id, get_detail}
use rtace.Enforcement.{quarantine_key, ip_block_key, exists}
use rtace.Scripts.{
  TxResult, TxArgs, AuthArgs, ReplayStatus, prescored, redelivery, tx_check, auth_check,
}
use rtace.Detectors.{Fresh}
use rtace.Detectors.Replay.{replay_key}
use rtace.Detectors.Burst.{burst_key}
use rtace.Detectors.Geo.{session_key}
use rtace.Detectors.Stuffing.{user_key, ip_key}
use rtace.Detectors.Replay
use rtace.Detectors.Geo
use rtace.Detectors.Burst
use rtace.Detectors.Stuffing

unfoldable pub record_ref : (ℕ → String) → String → ℕ → ℕ → String
record_ref str topic partition offset = topic ++ (":" ++ (str partition ++ (":" ++ str offset)))

-- `dict.get` on `_ID_PREFIX`
unfoldable pub id_prefix : String → String
id_prefix dtype =
    if dtype == "replay_attack"
    then "replay"
    else if dtype == "geo_velocity_anomaly"
    then "geo"
    else if dtype == "fraud_burst"
    then "burst"
    else if dtype == "credential_stuffing"
    then "cred"
    else "det"

-- `{**details, key: value}`
unfoldable pub put :
    {F : Type 0} → String → Json F → List (String × Json F) → List (String × Json F)
put k v [] = (k, v) ∷ []
put k v ((j, w) ∷ l) = let rest = put k v l in if j == k then (j, v) ∷ l else (j, w) ∷ rest

-- The counters of the pipeline, one entry for each increment.
pub data Metric : Type 0 where
  blocked_event : String → String → Metric
  processed : String → Metric
  redelivered : Metric
  detected : String → String → Metric

-- The audit record of a refused event.
pub record Audit : Type 0 where
  pub event : String
  pub reason : String
  pub user_id : String
  pub event_id : String
  pub ip_address : Option String

-- What the decision service left about an event: its reasons and its verdict.
pub record Reason (F : Type 0) : Type 0 where
  pub kind : Option String
  pub details : List (String × Json F)

pub record Decision (F : Type 0) : Type 0 where
  pub reasons : List (Reason F)
  pub verdict : Option String

module _ (p : Platform) where
  pub data Event : Type 0 where
    transaction : TransactionEvent p → Event
    login : AuthEvent p → Event

  pub data Result : Type 0 where
    unchecked : Result
    of_tx : TxResult → Result
    of_auth : ℕ → ℕ → Result

  -- `_Item`
  pub record Item : Type 0 where
    pub index : ℕ
    pub event : Event
    pub ref : String
    pub blocked : Bool
    pub result : Result
    pub candidates : List (DetectionEvent p)

  -- `details.get("scope", default)` as a text
  abbrev pub scope_or : String → DetectionEvent p → String
  scope_or default d = elim (get_detail "scope" d.details) [
    | none ↦ default
    | some (text s) ↦ s
    | some v ↦ p.show v
  ]

  unfoldable pub assign_stable_id : String → DetectionEvent p → DetectionEvent p
  assign_stable_id ref d =
      let scope = scope_or "" d in
      let prefix = id_prefix d.detection_type in
      let scoped =
        if d.detection_type == "credential_stuffing" && not (scope == "")
        then prefix ++ ("-" ++ scope)
        else prefix in
      record d { detection_id = stable_detection_id p scoped ref d.detection_type scope }

  -- `_count`
  unfoldable pub count : DetectionEvent p → List Metric
  count d =
      let dtype = d.detection_type in
      if dtype == "replay_attack" || (dtype == "geo_velocity_anomaly" || dtype == "fraud_burst")
      then detected dtype dtype ∷ []
      else if dtype == "credential_stuffing"
      then detected dtype (scope_or "user" d) ∷ []
      else []

  -- `_blocked`: the metrics and the audit record of a refused event.
  unfoldable pub blocked_metrics : Event → List Metric
  blocked_metrics (transaction tx) =
      blocked_event "transaction" "quarantine" ∷ processed "blocked" ∷ []
  blocked_metrics (login auth) = blocked_event "auth" "ip_block" ∷ []

  unfoldable pub blocked_audit : Event → Audit
  blocked_audit (transaction tx) = record {
    event = "transaction_blocked";
    reason = "quarantine";
    user_id = tx.user_id;
    event_id = tx.event_id;
    ip_address = none;
  }
  blocked_audit (login auth) = record {
    event = "auth_blocked";
    reason = "ip_block";
    user_id = auth.user_id;
    event_id = auth.event_id;
    ip_address = some auth.ip_address;
  }

  -- The key whose rule refuses the event.
  unfoldable pub enforcement_key : Event → String
  enforcement_key (transaction tx) = quarantine_key tx.user_id
  enforcement_key (login auth) = ip_block_key auth.ip_address

  -- `it.is_tx or not it.event.success`
  unfoldable pub is_checked : Event → Bool
  is_checked (transaction tx) = true
  is_checked (login auth) = not auth.success

  unfoldable pub active : Item → Bool
  active it = not it.blocked && is_checked it.event

  abbrev pub to_list : Option (DetectionEvent p) → List (DetectionEvent p)
  to_list none = []
  to_list (some d) = d ∷ []

  unfoldable pub is_prescored : Result → Bool
  is_prescored (of_tx res) = elim res.replay_status [ prescored ↦ true | _ ↦ false ]
  is_prescored _ = false

  -- `dtype in ("replay_attack", "geo_velocity_anomaly", "fraud_burst")`
  abbrev pub decided_type : String → Bool
  decided_type t = t == "replay_attack" || (t == "geo_velocity_anomaly" || t == "fraud_burst")

  unfoldable pub detections_of_reasons :
      TransactionEvent p → Json p.F → List (Reason p.F) → List (DetectionEvent p)
  detections_of_reasons tx verdict [] = []
  detections_of_reasons tx verdict (reason ∷ reasons) =
      let out = detections_of_reasons tx verdict reasons in
      elim reason.kind [
        | none ↦ out
        | some dtype ↦
            if decided_type dtype
            then record {
              detection_id = "pending";
              detection_type = dtype;
              severity = "high";
              user_id = tx.user_id;
              transaction_id = tx.event_id;
              timestamp = tx.timestamp;
              ip_address = none;
              details =
                  put "verdict" verdict (put "source" (text "decision-service") reason.details);
            }
              ∷ out
            else out
      ]

  abbrev verdict_of : Option String → Json p.F
  verdict_of none = null
  verdict_of (some v) = text v

  -- `loads_decision` is `json.loads` of what the decision service wrote, `none` its JSONDecodeError.
  unfoldable pub detections_from_decision :
      (String → Option (Decision p.F))
      → TransactionEvent p
      → Option Stored
      → List (DetectionEvent p)
  detections_from_decision loads_decision tx none = []
  detections_from_decision loads_decision tx (some raw) =
      if raw.value == "" then [] else elim (loads_decision raw.value) [
        | none ↦ []
        | some decision ↦ detections_of_reasons tx (verdict_of decision.verdict) decision.reasons
      ]

  module _ (config : RedisConfig p.F) (fresh : ℕ → String → Fresh p) where
    -- `_queue_tx_check` and `_queue_auth_check`: the arguments of the scripts.
    unfoldable pub tx_args : TransactionEvent p → String → TxArgs p.F
    tx_args tx ref =
        let now_ts = p.timestamp tx.timestamp in
        record {
          replay_key = replay_key p tx;
          burst_key = burst_key p tx.user_id;
          session_key = session_key p tx.user_id;
          record_ref = ref;
          replay_ttl_s = config.replay_ttl_hours * 3600;
          event_id = tx.event_id;
          now_ts = now_ts;
          burst_cutoff = p.fsub now_ts (p.of_nat config.burst_window_seconds);
          burst_key_ttl_s = config.burst_key_ttl_seconds;
          latitude = tx.latitude;
          longitude = tx.longitude;
          session_ttl_s = config.session_ttl_days * 86400;
          max_velocity_kmh = config.geo_max_velocity_kmh;
          min_time_s = p.of_nat 1;
        }

    unfoldable pub auth_args : AuthEvent p → AuthArgs p.F
    auth_args auth =
        let now_ts = p.timestamp auth.timestamp in
        record {
          user_key = user_key p auth;
          ip_key = ip_key p auth;
          event_id = auth.event_id;
          now_ts = now_ts;
          cutoff = p.fsub now_ts (p.of_nat config.auth_fail_window_seconds);
          key_ttl_s = config.auth_fail_key_ttl_seconds;
        }

    -- The three detectors on the result of a transaction.
    unfoldable pub interpret_tx : ℕ → TransactionEvent p → TxResult → List (DetectionEvent p)
    interpret_tx i tx res =
        append (to_list (Replay.interpret p (fresh i "replay") tx res.replay_status res.stored_ref))
          (append (to_list (Geo.interpret p (fresh i "geo") tx res config))
            (to_list (Burst.interpret p (fresh i "burst") tx res.burst_count config)))

    unfoldable pub interpret_auth : ℕ → AuthEvent p → ℕ → ℕ → List (DetectionEvent p)
    interpret_auth i auth cu ci =
        let (user, ip) = Stuffing.interpret p (fresh i "user") (fresh i "ip") auth cu ci config in
        append (to_list user) (to_list ip)

    -- The candidates of an item that was checked; a prescored one waits for phase C.
    unfoldable pub interpret : ℕ → Event → Result → List (DetectionEvent p)
    interpret i (transaction tx) (of_tx res) =
        if is_prescored (of_tx res) then [] else interpret_tx i tx res
    interpret i (login auth) (of_auth cu ci) = interpret_auth i auth cu ci
    interpret i (transaction tx) _ = []
    interpret i (login auth) _ = []
