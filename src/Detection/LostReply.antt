-- ===== src/Detection/LostReply.antt =====
-- A batch of the detection engine whose cooldown claims reached Redis, and whose reply was lost.
use rtace.Base.{
  ℕ, zero, suc, ◌≤◌, ◌<◌, String, ◌≡◌, refl, ap, false, Option, List, [], ◌∷◌, length, arith,
}
use rtace.Platform.{Platform, Json}
use rtace.Redis.{Redis}
use rtace.Config.{RedisConfig, KafkaConfig}
use rtace.Models.{TransactionEvent, AuthEvent, DetectionEvent}
use rtace.Detectors.{Fresh}
use rtace.Kafka.{Producer}
use rtace.Kafka.Delivery.{send_all}
use rtace.Cooldown.{claim_all, filter_cooled_down}
use rtace.Cooldown.Window.{on}
use rtace.Cooldown.Repeat.{claimed_are_suppressed}
use rtace.ConsumerLoop.{Exception, Decoded, raises}
use rtace.Detection.{Audit, Metric, Decision, Item}
use rtace.Detection.Batch.{check_all, analyse}
use rtace.Detection.Faults.{
  Fault, in_cooldown, interrupted, take, is_empty, claim_first, found_in, audits_in, metrics_c,
  faulty_run, end_batch, faulty_handler,
}
use rtace.Detection.Interrupted.{valid_items, audit_messages}

take_all {ℓ} : {A : Type ℓ} (xs : List A) (k : ℕ) → length xs ≤ k → take k xs ≡ xs
take_all [] zero h = refl
take_all [] (suc k) h = refl
take_all (x ∷ xs) zero h = absurd (omega arith)
take_all (x ∷ xs) (suc k) h = ap (λ l. x ∷ l) (take_all xs k (omega arith))

module _ (p : Platform) (r : Redis p.F p.fle) (config : RedisConfig p.F)
    (loads_decision : String → Option (Decision p.F)) (fresh : ℕ → String → Fresh p) where
  open r use {Db}

  claim_first_all :
      (ds : List (DetectionEvent p)) (k : ℕ) (db : Db)
      → length ds ≤ k
      → claim_first p r config loads_decision fresh k ds db ≡ (claim_all p r config ds db).db
  unfolding claim_first
  claim_first_all ds k db h = ap (λ l. (claim_all p r config l db).db) (take_all ds k h)

  run-lost :
      (items : List (Item p)) (db : Db) (k : ℕ) (e : Exception)
      → 0 < config.detection_cooldown_seconds
      → let after = analyse p r config loads_decision fresh items db in
        let ds = found_in p r config loads_decision fresh after.0 in
        is_empty ds ≡ false
        → length ds ≤ k
        → (ms : List Metric) × (audits : List Audit) × (faulty_run p r config loads_decision fresh
              (in_cooldown k e)
              items
              db
            ≡ interrupted e ms audits (claim_all p r config ds after.1).db)
  unfolding faulty_run analyse check_all
  run-lost [] db k e pos some_found enough = cc
  run-lost (it ∷ items) db k e pos some_found enough =
      let after = analyse p r config loads_decision fresh (it ∷ items) db in
      let ds = found_in p r config loads_decision fresh after.0 in
      let metrics = metrics_c p r config loads_decision fresh after.0 in
      let audits = audits_in p r config loads_decision fresh after.0 in
      (
        metrics,
        audits,
        rw (some_found, on p r config config.detection_cooldown_seconds pos)
            (ap (interrupted e metrics audits) (claim_first_all ds k after.1 enough)),
      )

  module _ (kafka_config : KafkaConfig) (parse_tx : Json p.F → Option (TransactionEvent p))
      (parse_auth : Json p.F → Option (AuthEvent p)) (V : Type 0) (of_audit : Audit → V)
      (of_detection : DetectionEvent p → V) where
    -- The detections that a batch found, before the cooldown.
    abbrev pub found : List (Decoded p.F) → Db → List (DetectionEvent p)
    found records db =
        found_in p r config loads_decision fresh
          (analyse p r config loads_decision fresh
            (valid_items p r config loads_decision fresh kafka_config parse_tx parse_auth V of_audit
              of_detection records)
            db).0

    -- Where the reply to the SETs of the cooldown is lost, which the handler reports by the exception
    -- of the connection, it has sent no detection, and has not released the keys that the server
    -- has set: a retry that finds the same detections emits none of them.
    pub lost_reply_suppresses :
        (records : List (Decoded p.F)) (pr : Producer V) (db : Db) (k : ℕ) (e : Exception)
        (rest : List Fault)
        → 0 < config.detection_cooldown_seconds
        → is_empty (found records db) ≡ false
        → length (found records db) ≤ k
        → let after =
            faulty_handler p r config loads_decision fresh kafka_config parse_tx parse_auth V
              of_audit of_detection records pr
              (record { db = db; faults = in_cooldown k e ∷ rest }) in
          (after.0 ≡ raises e)
          × ((audits : List Audit) × (after.1
                ≡ send_all
                    (audit_messages p r config loads_decision fresh kafka_config parse_tx parse_auth
                      V of_audit of_detection audits)
                    pr))
          × ((filter_cooled_down p r config (found records db) after.2.db).allowed ≡ [])
    unfolding faulty_handler end_batch
    lost_reply_suppresses records pr db k e rest pos some_found enough =
        let (metrics, audits, ended) =
          run-lost
            (valid_items p r config loads_decision fresh kafka_config parse_tx parse_auth V of_audit
              of_detection records)
            db k e pos some_found enough in
        rw ended (
          refl,
          (audits, refl),
          claimed_are_suppressed p r config (found records db)
              (analyse p r config loads_decision fresh
                (valid_items p r config loads_decision fresh kafka_config parse_tx parse_auth V
                  of_audit of_detection records)
                db).1
              pos,
        )
