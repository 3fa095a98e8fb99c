-- ===== src/Detection/Faults.antt =====
-- detection_engine/pipeline.py and consumer.py where Redis fails: a pipeline of commands (without a
-- transaction) of which the server ran some, and whose `execute` raised.
use rtace.Base.{
  ℕ, zero, suc, String, Bool, true, false, ◌||◌, Option, List, [], ◌∷◌, map, append, leb,
  if◌then◌else◌,
}
use rtace.Platform.{Platform, Json}
use rtace.Redis.{Redis}
use rtace.Config.{RedisConfig, KafkaConfig}
use rtace.Models.{TransactionEvent, AuthEvent, DetectionEvent}
use rtace.Detectors.{Fresh}
use rtace.Kafka.{Producer}
use rtace.Cooldown.{claim_all}
use rtace.ConsumerLoop.{Exception, Decoded, Handled, raises}
use rtace.Detection.{
  Audit, Metric, Decision, Item, active, is_prescored, blocked_metrics, blocked_audit, count,
}
use rtace.Detection.Batch.{
  Ran, run, validate, enforce, refused, check, check_all, analyse, concat_map, candidates,
  interpret_metrics, prescored_metrics,
}
use rtace.Kafka.Delivery.{send_all}
use rtace.Detection.Gate.{gate, audit_message, messages_of}

-- Where a batch meets a failure of Redis, with the exception that `execute` raises, and how many
-- commands of the pipeline the server had run. EXISTS and GET change nothing.
pub data Fault : Type 0 where
  no_fault : Fault
  in_enforcement : Exception → Fault
  in_checks : ℕ → Exception → Fault
  in_decisions : Exception → Fault
  in_cooldown : ℕ → Exception → Fault

-- How `_run` ends: it returns, or it raises after it has counted, audited and changed Redis.
pub data Ended (p : Platform) (Db : Type 0) : Type 0 where
  completed : Ran p Db → Ended p Db
  interrupted : Exception → List Metric → List Audit → Db → Ended p Db

abbrev pub take {ℓ} : {A : Type ℓ} → ℕ → List A → List A
take zero xs = []
take (suc n) [] = []
take (suc n) (x ∷ xs) = x ∷ take n xs

abbrev pub any {ℓ} : {A : Type ℓ} → (A → Bool) → List A → Bool
any f [] = false
any f (x ∷ xs) = if f x then true else any f xs

abbrev pub is_empty {ℓ} : {A : Type ℓ} → List A → Bool
is_empty [] = true
is_empty (x ∷ xs) = false

module _ (p : Platform) (r : Redis p.F p.fle) (config : RedisConfig p.F)
    (loads_decision : String → Option (Decision p.F)) (fresh : ℕ → String → Fresh p) where
  open r use {Db}

  -- The first `k` scripts of the active items.
  unfoldable pub check_first : ℕ → List (Item p) → Db → Db
  check_first zero items db = db
  check_first (suc k) [] db = db
  check_first (suc k) (it ∷ items) db =
      let checked = check_first k items (check p r config loads_decision fresh it db).1 in
      let skipped = check_first (suc k) items db in if active p it then checked else skipped

  -- The first `k` SETs of the cooldown.
  unfoldable pub claim_first : ℕ → List (DetectionEvent p) → Db → Db
  claim_first k ds db = (claim_all p r config (take k ds) db).db

  -- the candidates of a batch
  abbrev pub found_in : List (Item p) → List (DetectionEvent p)
  found_in items = concat_map (candidates p r config loads_decision fresh) items

  -- What has been counted and audited by the end of phase A, by the interpretation, and by phase C.
  abbrev pub audits_in : List (Item p) → List Audit
  audits_in items = map (blocked_audit p) (refused p r config loads_decision fresh items)

  abbrev pub metrics_a : List (Item p) → List Metric
  metrics_a items = concat_map (blocked_metrics p) (refused p r config loads_decision fresh items)

  abbrev pub metrics_b : List (Item p) → List Metric
  metrics_b items =
      append (metrics_a items)
        (concat_map (interpret_metrics p r config loads_decision fresh) items)

  abbrev pub metrics_c : List (Item p) → List Metric
  metrics_c items = append (metrics_b items) (
      append (concat_map (prescored_metrics p r config loads_decision fresh) items)
        (concat_map (count p) (found_in items)))

  -- The pipelines that a batch does not need are not executed, and cannot fail.
  unfoldable pub faulty_run : Fault → List (Item p) → Db → Ended p Db
  faulty_run fault [] db = completed (run p r config loads_decision fresh [] db)
  faulty_run no_fault (it ∷ items) db =
      completed (run p r config loads_decision fresh (it ∷ items) db)
  faulty_run (in_enforcement e) (it ∷ items) db = interrupted e [] [] db
  faulty_run (in_checks k e) (it ∷ items) db =
      let enforced = map (enforce p r config loads_decision fresh db) (it ∷ items) in
      if any (active p) enforced
      then interrupted e (metrics_a enforced) (audits_in enforced) (check_first k enforced db)
      else completed (run p r config loads_decision fresh (it ∷ items) db)
  faulty_run (in_decisions e) (it ∷ items) db =
      let enforced = map (enforce p r config loads_decision fresh db) (it ∷ items) in
      let (checked, db') = check_all p r config loads_decision fresh enforced db in
      if any (λ (i : Item p). is_prescored p i.result) checked
      then interrupted e (metrics_b checked) (audits_in checked) db'
      else completed (run p r config loads_decision fresh (it ∷ items) db)
  faulty_run (in_cooldown k e) (it ∷ items) db =
      let (analysed, db') = analyse p r config loads_decision fresh (it ∷ items) db in
      let found = found_in analysed in
      if is_empty found || leb config.detection_cooldown_seconds 0
      then completed (run p r config loads_decision fresh (it ∷ items) db)
      else interrupted e (metrics_c analysed) (audits_in analysed) (claim_first k found db')

  module _ (kafka_config : KafkaConfig) (parse_tx : Json p.F → Option (TransactionEvent p))
      (parse_auth : Json p.F → Option (AuthEvent p)) (V : Type 0) (of_audit : Audit → V)
      (of_detection : DetectionEvent p → V) where
    -- What the handler works on: Redis, and the failures that its next calls will meet.
    pub record Detecting : Type 0 where
      pub db : Db
      pub faults : List Fault

    abbrev pub next_fault : List Fault → Fault
    next_fault [] = no_fault
    next_fault (f ∷ fs) = f

    abbrev later_faults : List Fault → List Fault
    later_faults [] = []
    later_faults (f ∷ fs) = fs

    -- The handler's `try` around `flush_and_verify` does not cover the pipeline: its exception goes
    -- to the loop, after the audit records that were sent.
    unfoldable pub end_batch :
        Ended p Db → List ℕ → List Fault → Producer V → Handled × Producer V × Detecting
    end_batch (completed ran) fails faults pr =
        let ms =
          messages_of p r config loads_decision fresh kafka_config parse_tx parse_auth V of_audit
            of_detection ran in
        let (result, pr', db') =
          gate p r config loads_decision fresh kafka_config parse_tx parse_auth V of_audit
            of_detection ran fails (send_all ms pr) in
        (result, pr', record { db = db'; faults = faults })
    end_batch (interrupted e metrics audits db') fails faults pr =
        let ms =
          map
            (audit_message p r config loads_decision fresh kafka_config parse_tx parse_auth V
              of_audit of_detection)
            audits in
        (raises e, send_all ms pr, record { db = db'; faults = faults })

    unfoldable pub faulty_handler :
        List (Decoded p.F) → Producer V → Detecting → Handled × Producer V × Detecting
    faulty_handler records pr w =
        let (items, fails) =
          validate p r config loads_decision fresh kafka_config parse_tx parse_auth 0 records in
        end_batch (faulty_run (next_fault w.faults) items w.db) fails (later_faults w.faults) pr
