-- ===== src/Models.antt =====
-- common/models.py: the events, the replay hash and the stable detection ids.
use rtace.Base.{String, ◌++◌, Bool, false, Option, none, some, List, [], ◌∷◌, ◌==◌, if◌then◌else◌}
use rtace.Platform.{Platform, Json, text}

module _ (p : Platform) where
  open p use {F, Time, fmt2, isoformat, sha256, uuid5}

  pub record TransactionEvent : Type 0 where
    pub event_id : String
    pub user_id : String
    pub amount : F
    pub merchant : String
    pub timestamp : Time
    pub location : String
    pub latitude : F
    pub longitude : F

  -- The text that `replay_hash` hashes.
  pub replay_payload : TransactionEvent → String
  replay_payload tx =
      tx.user_id
      ++ ("|"
          ++ (fmt2 tx.amount
              ++ ("|"
                  ++ (tx.merchant ++ ("|" ++ (isoformat tx.timestamp ++ ("|" ++ tx.location)))))))

  pub replay_hash : TransactionEvent → String
  unfolding replay_payload
  replay_hash tx = sha256 (replay_payload tx)

  pub record AuthEvent : Type 0 where
    pub event_id : String
    pub user_id : String
    pub ip_address : String
    pub success : Bool
    pub timestamp : Time

  pub record DetectionEvent : Type 0 where
    pub detection_id : String
    pub detection_type : String
    pub severity : String
    pub user_id : String
    pub transaction_id : String
    pub timestamp : Time
    pub ip_address : Option String
    pub details : List (String × Json F)

  -- `det-{prefix}-{uuid4}`, with the random UUID that was drawn
  pub new_detection_id : String → String → String
  new_detection_id uuid4 prefix = "det-" ++ (prefix ++ ("-" ++ uuid4))

  pub stable_detection_id : String → String → String → String → String
  stable_detection_id prefix ref detection_type scope =
      let identity = ref ++ (":" ++ (detection_type ++ (":" ++ scope))) in
      "det-" ++ (prefix ++ ("-" ++ uuid5 identity))

-- `details.get(key)`
abbrev pub get_detail : {F : Type 0} → String → List (String × Json F) → Option (Json F)
get_detail k [] = none
get_detail k ((j, v) ∷ l) = if j == k then some v else get_detail k l

-- `value == s`, for a value that may be missing
abbrev pub is_text : {F : Type 0} → Option (Json F) → String → Bool
is_text (some (text t)) s = t == s
is_text _ s = false
