-- ===== src/Detection/FaultTests.antt =====
-- A batch that a failure of Redis interrupts, and one run of the detection engine.
use rtace.Base.{
  append, ℕ, ◌≡◌, refl, true, false, none, some, List, [], ◌∷◌, String, All, length, leb, arith,
}
use rtace.Platform.{text}
use rtace.Platform.Sample.{sample}
use rtace.Redis.Memory.{memory, nothing}
use rtace.Config.{RedisConfig, default_kafka_config}
use rtace.Kafka.{Producer}
use rtace.Kafka.Delivery.{send_all}
use rtace.Cooldown.{filter_cooled_down}
use rtace.ConsumerLoop.{connection_error, Engine, Handled, raises}
use rtace.ConsumerLoop.Run.{Pass, batch}
use rtace.ConsumerLoop.Commits.{Offsets}
use rtace.ConsumerLoop.Classified.{In}
use rtace.Detection.{Audit}
use rtace.Detection.Tests.{
  server, config, decide, fresh, ruled, parse_tx, parse_auth, producer, records, of_audit,
  of_detection,
}
use rtace.Detection.Faults.{Fault, in_checks, in_cooldown, Detecting, faulty_handler, is_empty}
use rtace.Detection.Interrupted.{faulty_handler-Survives, audit_messages, Survives}
use rtace.Detection.LostReply.{lost_reply_suppresses, found}
use rtace.Detection.Batch.{
  analyse, check_all, validate, parse, with_candidates, candidates_of, check, enforce, check_event,
}
use rtace.Detection.{
  active, is_checked, is_prescored, assign_stable_id, enforcement_key, id_prefix,
  interpret as interpret_detection, interpret_tx, record_ref, tx_args,
}
use rtace.Scripts.{
  tx_check, score_unless, claim_replay, score, advance_session, advance_window, compare_geo, geo_of,
  session_of, status_of, whole_session,
}
use rtace.Detectors.Burst.{burst_key, interpret as interpret_burst}
use rtace.Detectors.Geo.{interpret as interpret_geo, session_key}
use rtace.Detectors.Replay.{interpret as interpret_replay, replay_key}
use rtace.Enforcement.{quarantine_key}
use rtace.Detection.Engine.{run_detection_engine, Confirmed, Finished, detections_before_commits}

-- Redis fails after the first script of the batch
abbrev broken : List Fault
broken = in_checks 1 connection_error ∷ []

abbrev interrupted :
    Handled
    × Producer String
    × Detecting sample server config decide fresh default_kafka_config parse_tx parse_auth String
        of_audit of_detection
interrupted =
    faulty_handler sample server config decide fresh default_kafka_config parse_tx parse_auth String
      of_audit of_detection records producer (record { db = ruled; faults = broken })

faulty_handler-Survives_example :
    Survives sample server config decide fresh default_kafka_config parse_tx parse_auth String
      of_audit of_detection
      (in_checks 1 connection_error)
      records
      producer
      ruled
      interrupted
faulty_handler-Survives_example =
    faulty_handler-Survives sample server config decide fresh default_kafka_config parse_tx
      parse_auth String of_audit of_detection records producer ruled (in_checks 1 connection_error)
      []

-- a batch that is polled, of which the handler's first call fails
abbrev passes : List Pass
passes =
    record {
      is_set = false;
      polled = batch (
          record {
            topic = "tx-events";
            partition = 0;
            offset = 1;
            key = none;
            value = some (1 ∷ []);
          }
          ∷ []);
      waits =
          record { before_sleep = false; after_sleep = false }
          ∷ record { before_sleep = false; after_sleep = false }
          ∷ [];
      commit_succeeds = true;
      resolved = 1;
    }
    ∷ []

abbrev engine : Engine ℕ String (
    Detecting sample server config decide fresh default_kafka_config parse_tx parse_auth String
      of_audit of_detection)
engine = record {
  producer = producer;
  world = record { db = ruled; faults = broken };
  counts = [];
  sleeps = [];
  commits = [];
}

detections_before_commits_example :
    (cs : List Offsets) × ((run_detection_engine sample server config decide fresh
        default_kafka_config parse_tx parse_auth String of_audit of_detection
        (λ bytes. some (text "u1"))
        (λ d. d.stage)
        (λ k. "k")
        1
        30
        1
        passes
        engine).1.commits
      ≡ append engine.commits cs)
    × All
        (Confirmed sample server config decide fresh default_kafka_config parse_tx parse_auth String
          of_audit of_detection
          (λ bytes. some (text "u1"))
          (λ d. d.stage)
          (λ k. "k")
          1
          30
          1
          passes
          engine)
        cs
    × ((c : Offsets)
        → Finished sample server config decide fresh default_kafka_config parse_tx parse_auth String
            of_audit of_detection
            (λ bytes. some (text "u1"))
            (λ d. d.stage)
            (λ k. "k")
            1
            30
            1
            passes
            engine
            c
        → In c cs)
detections_before_commits_example =
    detections_before_commits sample server config decide fresh default_kafka_config parse_tx
      parse_auth String of_audit of_detection (λ bytes. some (text "u1")) (λ d. d.stage) (λ k. "k")
      1 30 1 passes engine

-- a rule that the first transaction in the window breaks
abbrev strict : RedisConfig ℕ
strict = record config { burst_threshold = 0 }

abbrev empty : server.Db
empty = nothing ℕ leb

found_one :
    (is_empty (
        found sample server strict decide fresh default_kafka_config parse_tx parse_auth String
          of_audit of_detection records empty)
      ≡ false)
    × (length (
          found sample server strict decide fresh default_kafka_config parse_tx parse_auth String
            of_audit of_detection records empty)
        ≡ 1)
unfolding analyse check_all validate parse with_candidates candidates_of check enforce check_event
    active is_checked is_prescored assign_stable_id enforcement_key id_prefix interpret_detection
    interpret_tx record_ref tx_args memory tx_check score_unless claim_replay score advance_session
    advance_window compare_geo geo_of session_of status_of whole_session burst_key interpret_burst
    interpret_geo session_key interpret_replay replay_key quarantine_key
found_one = (refl, refl)

lost_reply_suppresses_example :
    let after =
      faulty_handler sample server strict decide fresh default_kafka_config parse_tx parse_auth
        String of_audit of_detection records producer
        (record { db = empty; faults = in_cooldown 9 connection_error ∷ [] }) in
    (after.0 ≡ raises connection_error)
    × ((audits : List Audit) × (after.1
          ≡ send_all
              (audit_messages sample server strict decide fresh default_kafka_config parse_tx
                parse_auth String of_audit of_detection audits)
              producer))
    × ((filter_cooled_down sample server strict
          (found sample server strict decide fresh default_kafka_config parse_tx parse_auth String
            of_audit of_detection records empty)
          after.2.db).allowed
        ≡ [])
lost_reply_suppresses_example =
    lost_reply_suppresses sample server strict decide fresh default_kafka_config parse_tx parse_auth
      String of_audit of_detection records producer empty 9 connection_error [] (omega arith)
      found_one.0 (omega (arith, found_one.1))
