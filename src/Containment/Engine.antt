-- ===== src/Containment/Engine.antt =====
-- containment_engine/consumer.py: the pipeline's `handle_record`, one record at a time, in the
-- consumer loop, with the audit records that it sends.
use rtace.Base.{ℕ, String, Option, none, some, List, [], ◌∷◌, map, eqb, if◌then◌else◌}
use rtace.Platform.{Platform, Json}
use rtace.Redis.{Redis}
use rtace.Config.{RedisConfig, KafkaConfig}
use rtace.Models.{DetectionEvent}
use rtace.Kafka.{Message, Producer}
use rtace.Kafka.Delivery.{send_all}
use rtace.ConsumerLoop.{Exception, validation_error, Decoded, Handled, failures, raises}
use rtace.ConsumerLoop.PerRecord.{per_record, Outcome, returns, raised}
use rtace.Containment.{Round, Verdict, executed, conflict, lost, unacknowledged, apply_containment}
use rtace.Containment
use rtace.Containment.Pipeline.{Audit, Containing, handle_record}

module _ (p : Platform) (r : Redis p.F p.fle) (config : RedisConfig p.F) where
  open r use {Db}

  -- How the last EXEC of a call ends: it is no conflict.
  pub data LastVerdict : Type 0 where
    runs drops runs_unacknowledged : LastVerdict

  abbrev pub verdict_of : LastVerdict → Verdict
  verdict_of runs = executed
  verdict_of drops = lost
  verdict_of runs_unacknowledged = unacknowledged

  -- What the outside does to one call of `apply_containment`: the other clients in each pass whose
  -- EXEC is refused, then in the last one, how its EXEC ends, and the Redis error if it fails.
  pub record Contention : Type 0 where
    pub refused : List (Db → Db)
    pub last : Db → Db
    pub verdict : LastVerdict
    pub error : Exception

  abbrev pub passes_of : List (Db → Db) → Round p r config → List (Round p r config)
  passes_of [] final = final ∷ []
  passes_of (f ∷ fs) final = record { between = f; verdict = conflict } ∷ passes_of fs final

  abbrev pub rounds_of : Contention → List (Round p r config)
  rounds_of c = passes_of c.refused (record { between = c.last; verdict = verdict_of c.verdict })

  module _ (kafka_config : KafkaConfig) (parse : Json p.F → Option (DetectionEvent p)) (V : Type 0)
      (of_audit : Audit p.F → V) where
    -- What the engine works on beside the producer: Redis, `containment_actions_total`, and what its
    -- next calls will meet.
    pub record Engaging : Type 0 where
      pub db : Db
      pub counts : List (String × String)
      pub contentions : List Contention

    -- `emit_audit`
    abbrev pub audit_message : Audit p.F → Message V
    audit_message audit = record {
      topic = kafka_config.audit_log_topic;
      value = of_audit audit;
      key = some audit.user_id;
    }

    -- With no contention left, no other client is there and EXEC runs.
    abbrev uncontended : Exception → Contention
    uncontended e = record { refused = []; last = λ db. db; verdict = runs; error = e }

    abbrev pub next_contention : List Contention → Contention
    next_contention [] = uncontended validation_error
    next_contention (c ∷ cs) = c

    abbrev later_contentions : List Contention → List Contention
    later_contentions [] = []
    later_contentions (c ∷ cs) = cs

    -- The exception of a call, by how it ended; its loop has ended (`contended_call_ends`).
    unfoldable pub error_of : Exception → Option (Option Containment.Outcome) → Option Exception
    error_of e none = some validation_error
    error_of e (some none) = none
    error_of e (some (some Containment.raised)) = some e
    error_of e (some (some (Containment.returned actions))) = none

    -- One call of `handle_record`: how it ended, and what it did to Redis, the counter and the audits.
    abbrev pub call_one :
        Decoded p.F → Engaging → Option (Option Containment.Outcome) × Containing p.F Db
    call_one rec w =
        handle_record p r config parse (rounds_of (next_contention w.contentions)) rec.value
          (record { db = w.db; counts = w.counts; audits = [] })

    abbrev pub error_one : Decoded p.F → Engaging → Option Exception
    error_one rec w = error_of (next_contention w.contentions).error (call_one rec w).0

    abbrev pub after_one : Decoded p.F → Engaging → Engaging
    after_one rec w = record {
      db = (call_one rec w).1.db;
      counts = (call_one rec w).1.counts;
      contentions = later_contentions w.contentions;
    }

    abbrev pub messages_one : Decoded p.F → Engaging → List (Message V)
    messages_one rec w = map audit_message (call_one rec w).1.audits

    unfoldable pub handle_one :
        Decoded p.F → Producer V × Engaging → Option Exception × (Producer V × Engaging)
    handle_one rec (pr, w) = (error_one rec w, (send_all (messages_one rec w) pr, after_one rec w))

    abbrev pub found_at : List (ℕ × Exception) → ℕ → Option Exception
    found_at [] i = none
    found_at ((j, e) ∷ l) i = if eqb j i then some e else found_at l i

    abbrev handled_of : Outcome handle_one → Handled
    handled_of (returns l) = failures (found_at l)
    handled_of (raised e) = raises e

    -- `per_record(pipeline.handle_record)`
    unfoldable pub containment_handler :
        List (Decoded p.F) → Producer V → Engaging → Handled × Producer V × Engaging
    containment_handler records pr w =
        let (outcome, (pr', w')) = per_record handle_one 0 records (pr, w) in
        (handled_of outcome, pr', w')
