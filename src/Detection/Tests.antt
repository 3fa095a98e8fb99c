-- ===== src/Detection/Tests.antt =====
-- A transaction of a user under quarantine and one of another user; and a batch of which one record
-- does not validate.
use rtace.Base.{
  ℕ, ◌≡◌, ◌⊎◌, refl, true, Option, none, some, List, [], ◌∷◌, map, append, String, leb, arith,
}
use rtace.Platform.{Json, text, null}
use rtace.Platform.Sample.{sample}
use rtace.Redis.{Redis}
use rtace.Redis.Memory.{memory, nothing}
use rtace.Config.{RedisConfig, default_config, default_kafka_config}
use rtace.Models.{TransactionEvent, AuthEvent, DetectionEvent}
use rtace.Detectors.{Fresh}
use rtace.Kafka.{Producer, acknowledged}
use rtace.Kafka.Delivery.{outbox}
use rtace.ConsumerLoop.{Decoded, Handled, failures, raises, kafka_error, LoopSettings}
use rtace.Detection.{Audit, Decision, Item, transaction, blocked_audit, blocked_metrics}
use rtace.Detection.Batch.{Ran, run, item_of, concat_map}
use rtace.Detection.Gate.{
  detection_handler, failing, handled, messages_of, analysed, delivered_or_released,
}
use rtace.Detection.Blocking.{admitted, turned_away, refused_leave_no_trace}

abbrev pub server : Redis ℕ leb
server = memory ℕ leb

abbrev pub config : RedisConfig ℕ
config = default_config 900

abbrev pub decide : String → Option (Decision ℕ)
decide s = some (record {
  reasons = record { kind = some "fraud_burst"; details = [] } ∷ [];
  verdict = some "deny";
})

abbrev pub fresh : ℕ → String → Fresh sample
fresh i s = record { uuid4 = s; now = i }

abbrev pub tx : String → String → TransactionEvent sample
tx id user = record {
  event_id = id;
  user_id = user;
  amount = 10;
  merchant = "m";
  timestamp = 100;
  location = "l";
  latitude = 1;
  longitude = 2;
}

abbrev items : List (Item sample)
items =
    item_of sample server config decide fresh 0 (transaction (tx "e1" "u1")) "tx-events:0:1"
    ∷ item_of sample server config decide fresh 1 (transaction (tx "e2" "u2")) "tx-events:0:2"
    ∷ []

-- u1 is under quarantine
abbrev pub ruled : server.Db
ruled = server.set_ex "enforce:quarantine:user:u1" 60 "d0" (nothing ℕ leb)

abbrev ran : Ran sample server.Db
ran = run sample server config decide fresh items ruled

refused_leave_no_trace_example :
    let without =
      run sample server config decide fresh
        (admitted sample server config decide fresh ruled items)
        ruled in
    (ran.emitted ≡ without.emitted)
    × (ran.claimed ≡ without.claimed)
    × (ran.db ≡ without.db)
    × (ran.audits
        ≡ map (blocked_audit sample) (turned_away sample server config decide fresh ruled items))
    × (ran.suppressed ≡ without.suppressed)
    × (ran.metrics
        ≡ append
            (concat_map
              (blocked_metrics sample)
              (turned_away sample server config decide fresh ruled items))
            without.metrics)
refused_leave_no_trace_example =
    refused_leave_no_trace sample server config decide fresh items ruled (refl, (refl, tt))

abbrev pub parse_tx : Json ℕ → Option (TransactionEvent sample)
parse_tx (text s) = some (tx s s)
parse_tx _ = none

abbrev pub parse_auth : Json ℕ → Option (AuthEvent sample)
parse_auth _ = none

abbrev pub producer : Producer String
producer = record {
  fates = λ n. acknowledged;
  sends = 0;
  buffered = [];
  delivered = [];
  last_error = none;
  send_failures = [];
}

abbrev pub records : List (Decoded ℕ)
records =
    record { topic = "tx-events"; partition = 0; offset = 1; value = text "u1" }
    ∷ record { topic = "tx-events"; partition = 0; offset = 2; value = null }
    ∷ []

abbrev pub of_audit : Audit → String
of_audit audit = audit.event

abbrev pub of_detection : DetectionEvent sample → String
of_detection d = d.detection_id

abbrev after : Handled × Producer String × server.Db
after =
    detection_handler sample server config decide fresh default_kafka_config parse_tx parse_auth
      String of_audit of_detection records producer ruled

abbrev done : Ran sample server.Db × List ℕ
done =
    handled sample server config decide fresh default_kafka_config parse_tx parse_auth String
      of_audit of_detection records ruled

delivered_or_released_example :
    ((after.0 ≡ failures (failing done.1))
      × (after.1.buffered ≡ [])
      × (after.1.delivered
          ≡ append (outbox producer) (
              messages_of sample server config decide fresh default_kafka_config parse_tx parse_auth
                String of_audit of_detection done.0)))
    ⊎ ((after.0 ≡ raises kafka_error)
        × ((j : String)
            → server.lookup after.2 j
              ≡ server.lookup
                  (analysed sample server config decide fresh default_kafka_config parse_tx
                    parse_auth String of_audit of_detection records ruled)
                  j))
delivered_or_released_example =
    delivered_or_released sample server config decide fresh default_kafka_config parse_tx parse_auth
      String of_audit of_detection records producer ruled (omega arith)

abbrev pub settings : LoopSettings ℕ
settings = record {
  stage = "detection";
  retry_initial_seconds = 1;
  retry_max_seconds = 30;
  kafka_error_pause_seconds = 1;
  has_producer = true;
  dlq_topic = some "rtace-dlq";
}
