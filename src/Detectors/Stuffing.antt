-- ===== src/Detectors/Stuffing.antt =====
-- detection_engine/credential_stuffing_detector.py: too many failed logins of a user or an address.
use rtace.Base.{ℕ, String, ◌++◌, Option, none, some, [], ◌∷◌, ltb, if◌then◌else◌}
use rtace.Platform.{Platform, integer, text}
use rtace.Config.{RedisConfig}
use rtace.Models.{AuthEvent, DetectionEvent, new_detection_id}
use rtace.Enforcement.{sanitize_ip_for_key}
use rtace.Detectors.{Fresh}

module _ (p : Platform) where
  open p use {F, of_nat, flt, fadd, fsub, fmul, fdiv, pi, fsin, fcos, fasin, fsqrt, parse}

  unfoldable pub user_key : AuthEvent p → String
  user_key auth = "auth:fail:user:" ++ (auth.user_id ++ ":1m")

  unfoldable pub ip_key : AuthEvent p → String
  ip_key auth = "auth:fail:ip:" ++ (sanitize_ip_for_key auth.ip_address ++ ":1m")

  unfoldable pub detection :
      Fresh p → AuthEvent p → RedisConfig F → String → ℕ → ℕ → DetectionEvent p
  detection f auth config scope count threshold = record {
    detection_id = new_detection_id p f.uuid4 ("cred-" ++ scope);
    detection_type = "credential_stuffing";
    severity = "high";
    user_id = auth.user_id;
    transaction_id = auth.event_id;
    timestamp = f.now;
    ip_address = some auth.ip_address;
    details =
        ("scope", text scope)
        ∷ ("count_in_window", integer count)
        ∷ ("window_seconds", integer config.auth_fail_window_seconds)
        ∷ ("threshold", integer threshold)
        ∷ [];
  }

  unfoldable pub interpret :
      Fresh p
      → Fresh p
      → AuthEvent p
      → ℕ
      → ℕ
      → RedisConfig F
      → Option (DetectionEvent p) × Option (DetectionEvent p)
  interpret fu fi auth count_user count_ip config = (
    (if ltb config.auth_fail_user_threshold count_user
        then some (detection fu auth config "user" count_user config.auth_fail_user_threshold)
        else none),
    (if ltb config.auth_fail_ip_threshold count_ip
        then some (detection fi auth config "ip" count_ip config.auth_fail_ip_threshold)
        else none),
  )
