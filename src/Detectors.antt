-- ===== src/Detectors.antt =====
-- The four detectors (detection_engine/*_detector.py): the keys of their state in Redis, and the
-- detection that each makes of a script's result.
pub mod Replay
pub mod Geo
pub mod Burst
pub mod Stuffing
use rtace.Base.{ℕ, String, ◌++◌, Bool, Option, none, some, List, [], ◌∷◌, leb, ltb, if◌then◌else◌}
use rtace.Platform.{Platform, Json, integer, double, text, array, nil, cons}
use rtace.Config.{RedisConfig}
use rtace.Models.{TransactionEvent, AuthEvent, DetectionEvent, replay_hash, new_detection_id}
use rtace.Enforcement.{sanitize_ip_for_key}
use rtace.Scripts.{TxResult, ReplayStatus, first, redelivery, prescored, replay, GeoStatus, anomaly}

-- The random UUID and the time that a detector draws.
pub record Fresh (p : Platform) : Type 0 where
  pub uuid4 : String
  pub now : p.Time

module _ (p : Platform) where
  open p use {F, of_nat, flt, fadd, fsub, fmul, fdiv, pi, fsin, fcos, fasin, fsqrt, parse}

  -- A detection about a transaction.
  abbrev pub about :
      Fresh p → String → String → TransactionEvent p → List (String × Json F) → DetectionEvent p
  about f prefix dtype tx details = record {
    detection_id = new_detection_id p f.uuid4 prefix;
    detection_type = dtype;
    severity = "high";
    user_id = tx.user_id;
    transaction_id = tx.event_id;
    timestamp = f.now;
    ip_address = none;
    details = details;
  }
