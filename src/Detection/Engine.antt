-- ===== src/Detection/Engine.antt =====
-- detection_engine/consumer.py: `run_detection_engine`, the handler in the consumer loop.
use rtace.Base.{ℕ, String, ◌≡◌, refl, true, Option, some, List, append, All}
use rtace.Platform.{Platform, Json}
use rtace.Redis.{Redis}
use rtace.Config.{RedisConfig, KafkaConfig}
use rtace.Models.{TransactionEvent, AuthEvent, DetectionEvent}
use rtace.Detectors.{Fresh}
use rtace.ConsumerLoop.{LoopSettings, Engine, DeadLetter}
use rtace.ConsumerLoop.Run.{Pass, Phase, run_consumer_loop}
use rtace.ConsumerLoop.Commits.{Offsets, Justified}
use rtace.ConsumerLoop.Classified.{In}
use rtace.ConsumerLoop.AtLeastOnce.{Covered, run_commits_delivered}
use rtace.Detection.{Audit, Decision}
use rtace.Detection.Interrupted.{World, interface, sent_for_batch, faulty_handler-Sends}

-- `LoopSettings(stage=..., poll_timeout_ms=...)` with its defaults, and a producer and a topic for
-- dead letters.
abbrev pub engine_settings : {F : Type 0} → String → F → F → F → String → LoopSettings F
engine_settings stage initial longest pause dlq_topic = record {
  stage = stage;
  retry_initial_seconds = initial;
  retry_max_seconds = longest;
  kafka_error_pause_seconds = pause;
  has_producer = true;
  dlq_topic = some dlq_topic;
}

module _ (p : Platform) (r : Redis p.F p.fle) (config : RedisConfig p.F)
    (loads_decision : String → Option (Decision p.F)) (fresh : ℕ → String → Fresh p)
    (kafka_config : KafkaConfig) (parse_tx : Json p.F → Option (TransactionEvent p))
    (parse_auth : Json p.F → Option (AuthEvent p)) (V : Type 0) (of_audit : Audit → V)
    (of_detection : DetectionEvent p → V) (loads : List ℕ → Option (Json p.F))
    (of_dead_letter : DeadLetter → V) (key_text : List ℕ → String)
    (initial longest pause : p.F) where
  abbrev pub Detecting : Type 0
  Detecting =
      World p r config loads_decision fresh kafka_config parse_tx parse_auth V of_audit of_detection

  abbrev pub settings : LoopSettings p.F
  settings = engine_settings "detection" initial longest pause kafka_config.dlq_topic

  -- One run of the engine over what the environment does in each pass.
  unfoldable pub run_detection_engine :
      List Pass → Engine p.F V Detecting → Phase × Engine p.F V Detecting
  run_detection_engine passes s =
      run_consumer_loop p V Detecting
        (interface p r config loads_decision fresh kafka_config parse_tx parse_auth V of_audit
          of_detection loads of_dead_letter key_text)
        settings passes s

  -- A commit that the run from the state makes in one of its passes, of the records polled there, with
  -- all that their batch has sent at the broker.
  abbrev pub Confirmed : List Pass → Engine p.F V Detecting → Offsets → Type 0
  Confirmed =
      Covered p V Detecting
        (interface p r config loads_decision fresh kafka_config parse_tx parse_auth V of_audit
          of_detection loads of_dead_letter key_text)
        settings
        (sent_for_batch p r config loads_decision fresh kafka_config parse_tx parse_auth V of_audit
          of_detection)

  -- A commit of a pass of the run whose handling has finished.
  abbrev pub Finished : List Pass → Engine p.F V Detecting → Offsets → Type 0
  Finished =
      Justified p V Detecting
        (interface p r config loads_decision fresh kafka_config parse_tx parse_auth V of_audit
          of_detection loads of_dead_letter key_text)
        settings

  -- The detection engine delivers before it commits. Whatever Kafka and Redis do, each commit
  -- that a run adds is made in one of its passes, of the very records polled in that pass, whose
  -- handling from the state of that moment has finished with the broker having acknowledged, in
  -- order, every audit record and every detection of the last attempt, and every dead letter;
  -- and no batch that finishes, and whose commit succeeds, is missed.
  pub detections_before_commits :
      (passes : List Pass) (s : Engine p.F V Detecting)
      → (cs : List Offsets) × ((run_detection_engine passes s).1.commits ≡ append s.commits cs)
        × All (Confirmed passes s) cs
        × ((c : Offsets) → Finished passes s c → In c cs)
  unfolding run_detection_engine
  detections_before_commits passes s =
      run_commits_delivered p V Detecting _ settings _ passes s refl (
        faulty_handler-Sends p r config loads_decision fresh kafka_config parse_tx parse_auth V
          of_audit of_detection loads of_dead_letter key_text settings)
