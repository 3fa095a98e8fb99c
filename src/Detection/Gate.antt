-- ===== src/Detection/Gate.antt =====
-- detection_engine/consumer.py: the handler that the consumer loop calls, with its durability gate.
use rtace.Base.{
  ℕ, String, true, ◌≡◌, ◌<◌, ◌⊎◌, inl, inr, refl, Option, none, some, List, [], ◌∷◌, map, append,
  eqb, arith, Bool-cases, if◌then◌else◌,
}
use rtace.Platform.{Platform, Json}
use rtace.Redis.{Redis}
use rtace.Config.{RedisConfig, KafkaConfig}
use rtace.Models.{TransactionEvent, AuthEvent, DetectionEvent}
use rtace.Detectors.{Fresh}
use rtace.Kafka.{Message, Producer, flush, flush_and_verify}
use rtace.Kafka.Delivery.{
  Sends, start, flushed, outbox, flush_and_verify_delivers, send_all, send_all-Sends,
}
use rtace.Cooldown.{release_cooldown}
use rtace.Cooldown.Release.{release_undoes}
use rtace.ConsumerLoop.{
  Exception, kafka_error, validation_error, is_transient, Decoded, Handled, failures, raises,
  Interface, DeadLetter,
}
use rtace.Detection.{Audit, Decision, Item}
use rtace.Detection.Batch.{
  Ran, run, handle_batch, validate, analyse, concat_map, candidates, check_all,
}

-- The permanent failures of a batch, by index.
abbrev pub failing : List ℕ → ℕ → Option Exception
failing [] i = none
failing (j ∷ js) i = if eqb j i then some validation_error else failing js i

module _ (p : Platform) (r : Redis p.F p.fle) (config : RedisConfig p.F)
    (loads_decision : String → Option (Decision p.F)) (fresh : ℕ → String → Fresh p)
    (kafka_config : KafkaConfig) (parse_tx : Json p.F → Option (TransactionEvent p))
    (parse_auth : Json p.F → Option (AuthEvent p)) (V : Type 0) (of_audit : Audit → V)
    (of_detection : DetectionEvent p → V) where
  open r use {Db, lookup}

  -- `emit_audit` and `emit`
  abbrev pub audit_message : Audit → Message V
  audit_message audit = record {
    topic = kafka_config.audit_log_topic;
    value = of_audit audit;
    key = some audit.user_id;
  }

  abbrev pub detection_message : DetectionEvent p → Message V
  detection_message d = record {
    topic = kafka_config.detections_topic;
    value = of_detection d;
    key = some d.user_id;
  }

  -- What the pipeline makes of the batch, and the messages that it sends, in order.
  abbrev pub handled : List (Decoded p.F) → Db → Ran p Db × List ℕ
  handled records db =
      handle_batch p r config loads_decision fresh kafka_config parse_tx parse_auth records db

  abbrev pub messages_of : Ran p Db → List (Message V)
  messages_of ran = append (map audit_message ran.audits) (map detection_message ran.emitted)

  -- The end of the handler: a flush that fails releases the cooldown keys, and raises.
  unfoldable pub gate : Ran p Db → List ℕ → Producer V → Handled × Producer V × Db
  gate ran fails pr =
      let (ok, pr') = flush_and_verify pr in
      if ok
      then (failures (failing fails), pr', ran.db)
      else (raises kafka_error, pr', release_cooldown p r config ran.claimed ran.db)

  -- `handle_batch` of consumer.py
  unfoldable pub detection_handler :
      List (Decoded p.F) → Producer V → Db → Handled × Producer V × Db
  detection_handler records pr db =
      let (ran, fails) = handled records db in gate ran fails (send_all (messages_of ran) pr)

  -- The database of a batch before the cooldown: what the scripts made of it.
  abbrev pub analysed : List (Decoded p.F) → Db → Db
  analysed records db =
      (analyse p r config loads_decision fresh
        (validate p r config loads_decision fresh kafka_config parse_tx parse_auth 0 records).0
        db).1

  run_releases :
      (items : List (Item p)) (db : Db) (j : String)
      → 0 < config.detection_cooldown_seconds
      → let ran = run p r config loads_decision fresh items db in
        lookup (release_cooldown p r config ran.claimed ran.db) j
        ≡ lookup (analyse p r config loads_decision fresh items db).1 j
  unfolding run analyse release_cooldown check_all
  run_releases [] db j pos = refl
  run_releases (it ∷ items) db j pos =
      let after = analyse p r config loads_decision fresh (it ∷ items) db in
      release_undoes p r config (concat_map (candidates p r config loads_decision fresh) after.0)
        after.1 j pos

  -- The handler of the detection engine has two endings. It returns the indices of the records that
  -- do not validate, and then every audit record and every detection of the batch has been
  -- acknowledged, in order, after what was waiting. Or it raises a KafkaError, which is transient,
  -- and then every text key of Redis is what it was before the cooldown step: no key that the batch
  -- reserved is left to suppress the retry.
  pub delivered_or_released :
      (records : List (Decoded p.F)) (pr : Producer V) (db : Db)
      → 0 < config.detection_cooldown_seconds
      → let ran = handled records db in
        let after = detection_handler records pr db in
        ((after.0 ≡ failures (failing ran.1))
          × (after.1.buffered ≡ [])
          × (after.1.delivered ≡ append (outbox pr) (messages_of ran.0)))
        ⊎ ((after.0 ≡ raises kafka_error)
            × ((j : String) → lookup after.2 j ≡ lookup (analysed records db) j))
  unfolding detection_handler gate handle_batch
  delivered_or_released records pr db pos =
      let ms = messages_of (handled records db).0 in
      let items =
        (validate p r config loads_decision fresh kafka_config parse_tx parse_auth 0 records).0 in
      elim (Bool-cases (flush_and_verify (send_all ms pr)).0) [
        | inl ok ↦
            let d =
              flush_and_verify_delivers pr ms (send_all ms pr) (send_all-Sends ms pr pr [] start)
                ok in
            inl (rw ok (refl, d.1, d.2))
        | inr failed ↦ inr (rw failed (refl, λ j. run_releases items db j pos))
      ]

  -- What the loop is given: the handler, beside `json.loads` and the form of dead letters.
  abbrev pub interface :
      (List ℕ → Option (Json p.F)) → (DeadLetter → V) → (List ℕ → String) → Interface p V Db
  interface loads of_dead_letter key_text = record {
    loads = loads;
    of_dead_letter = of_dead_letter;
    key_text = key_text;
    handler = detection_handler;
  }

  flush_and_verify-flush :
      (pr : Producer V) → (flush_and_verify pr).0 ≡ true → (flush_and_verify pr).1 ≡ flush pr
  unfolding flush_and_verify
  flush_and_verify-flush pr h = ground arith

  -- The exception that a result asks a retry for, as the consumer loop reads it.
  abbrev pub asks : Handled → Option Exception
  asks (failures fails) = none
  asks (raises exc) = if is_transient exc then some exc else none

  pub gate-Sends :
      (ran : Ran p Db) (fails : List ℕ) (pr pr' : Producer V) (ms : List (Message V))
      → Sends pr ms pr'
      → asks (gate ran fails pr').0 ≡ none
      → Sends pr ms (gate ran fails pr').1
  unfolding gate is_transient
  gate-Sends ran fails pr pr' ms sends h = elim (Bool-cases (flush_and_verify pr').0) [
    | inl ok ↦ rw (ok, flush_and_verify-flush pr' ok) (flushed sends)
    | inr failed ↦ let q : some kafka_error ≡ none = rw failed at h in cc
  ]
