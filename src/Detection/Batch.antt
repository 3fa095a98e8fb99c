-- ===== src/Detection/Batch.antt =====
-- detection_engine/pipeline.py: `_run` and `handle_batch`, on one batch of records.
use rtace.Base.{
  ℕ, suc, String, ◌++◌, Bool, true, false, Option, none, some, List, [], ◌∷◌, map, ◌==◌, append,
  if◌then◌else◌,
}
use rtace.Platform.{Platform, Json}
use rtace.Redis.{Redis}
use rtace.Config.{RedisConfig, KafkaConfig}
use rtace.Models.{TransactionEvent, AuthEvent, DetectionEvent}
use rtace.Enforcement.{exists}
use rtace.Scripts.{redelivery, tx_check, auth_check}
use rtace.Detectors.{Fresh}
use rtace.Cooldown.{filter_cooled_down}
use rtace.ConsumerLoop.{Decoded}
use rtace.Detection.{
  Metric, processed, redelivered, Audit, Decision, Event, transaction, login, Result, unchecked,
  of_tx, of_auth, Item, record_ref, active, is_prescored, enforcement_key, blocked_metrics,
  blocked_audit, tx_args, auth_args, interpret, detections_from_decision, assign_stable_id, count,
}

-- What `_run` returns and does: the detections that it emits, in order; the cooldown keys claimed;
-- the types suppressed; the metrics; the audit records; and the database.
pub record Ran (p : Platform) (Db : Type 0) : Type 0 where
  pub emitted : List (DetectionEvent p)
  pub claimed : List String
  pub suppressed : List String
  pub metrics : List Metric
  pub audits : List Audit
  pub db : Db

abbrev pub concat_map {ℓ κ} : {A : Type ℓ} {B : Type κ} → (A → List B) → List A → List B
concat_map f [] = []
concat_map f (x ∷ xs) = append (f x) (concat_map f xs)

abbrev nonempty {ℓ} : {A : Type ℓ} → List A → Bool
nonempty [] = false
nonempty (x ∷ xs) = true

module _ (p : Platform) (r : Redis p.F p.fle) (config : RedisConfig p.F)
    (loads_decision : String → Option (Decision p.F)) (fresh : ℕ → String → Fresh p) where
  open r use {Db, lookup}

  -- Phase A, on one item: EXISTS of the rule that refuses it.
  unfoldable pub enforce : Db → Item p → Item p
  enforce db it = record it { blocked = exists r db (enforcement_key p it.event) }

  abbrev pub refused : List (Item p) → List (Event p)
  refused [] = []
  refused (it ∷ items) = let rest = refused items in if it.blocked then it.event ∷ rest else rest

  -- Phase B: the scripts of the active items, one after the other.
  unfoldable pub check_event : Event p → String → Db → Result p × Db
  check_event (transaction tx) ref db =
      let (res, db') = tx_check p.number r (tx_args p config fresh tx ref) db in (of_tx res, db')
  check_event (login auth) ref db =
      let ((cu, ci), db') = auth_check p.number r (auth_args p config fresh auth) db in
      (of_auth cu ci, db')

  unfoldable pub check : Item p → Db → Item p × Db
  check it db =
      let (result, db') = check_event it.event it.ref db in
      if active p it then (record it { result = result }, db') else (it, db)

  unfoldable pub check_all : List (Item p) → Db → List (Item p) × Db
  check_all [] db = ([], db)
  check_all (it ∷ items) db =
      let (it', db') = check it db in
      let (items', db'') = check_all items db' in (it' ∷ items', db'')

  -- The interpretation of an item, and phase C for a prescored one.
  unfoldable pub candidates_of : Db → Item p → List (DetectionEvent p)
  candidates_of db it =
      if active p it
      then (if is_prescored p it.result
          then elim it.event [
            | transaction tx ↦
                detections_from_decision p loads_decision tx
                  (lookup db ("decision:result:" ++ tx.event_id))
            | login auth ↦ []
          ]
          else interpret p config fresh it.index it.event it.result)
      else []

  unfoldable pub interpret_metrics : Item p → List Metric
  interpret_metrics it = elim it.result [
    | of_tx res ↦
        if is_prescored p it.result
        then []
        else append (elim res.replay_status [ redelivery ↦ redelivered ∷ [] | _ ↦ [] ])
            (processed (
                if nonempty (interpret p config fresh it.index it.event it.result)
                then "detected"
                else "clean")
              ∷ [])
    | _ ↦ []
  ]

  unfoldable pub prescored_metrics : Item p → List Metric
  prescored_metrics it = if is_prescored p it.result then processed "prescored" ∷ [] else []

  unfoldable pub with_candidates : Db → Item p → Item p
  with_candidates db it = record it {
    candidates = map (assign_stable_id p it.ref) (candidates_of db it);
  }

  abbrev pub candidates : Item p → List (DetectionEvent p)
  candidates it = it.candidates

  -- The items and the database up to the cooldown.
  unfoldable pub analyse : List (Item p) → Db → List (Item p) × Db
  analyse items db =
      let (checked, db') = check_all (map (enforce db) items) db in
      (map (with_candidates db') checked, db')

  -- `_run`; no item, no call.
  unfoldable pub run : List (Item p) → Db → Ran p Db
  run [] db = record {
    emitted = [];
    claimed = [];
    suppressed = [];
    metrics = [];
    audits = [];
    db = db;
  }
  run (it ∷ items) db =
      let (analysed, db') = analyse (it ∷ items) db in
      let found = concat_map candidates analysed in
      let passed = filter_cooled_down p r config found db' in
      record {
        emitted = passed.allowed;
        claimed = passed.claimed;
        suppressed = passed.suppressed;
        metrics = append (concat_map (blocked_metrics p) (refused analysed)) (
            append (concat_map interpret_metrics analysed)
              (append (concat_map prescored_metrics analysed) (concat_map (count p) found)));
        audits = map (blocked_audit p) (refused analysed);
        db = passed.db;
      }

  abbrev pub item_of : ℕ → Event p → String → Item p
  item_of i event ref = record {
    index = i;
    event = event;
    ref = ref;
    blocked = false;
    result = unchecked;
    candidates = [];
  }

  -- `handle_transaction` with a delivery ref, and `handle_auth`
  unfoldable pub handle_transaction : TransactionEvent p → String → Db → Ran p Db
  handle_transaction tx ref db = run (item_of 0 (transaction tx) ref ∷ []) db

  unfoldable pub handle_auth : AuthEvent p → Db → Ran p Db
  handle_auth auth db = run (item_of 0 (login auth) ("direct-auth:" ++ auth.event_id) ∷ []) db

  -- `parse_tx` and `parse_auth` are the `model_validate` of the events, `none` a ValidationError.
  module _ (kafka_config : KafkaConfig) (parse_tx : Json p.F → Option (TransactionEvent p))
      (parse_auth : Json p.F → Option (AuthEvent p)) where
    unfoldable pub parse : String → Json p.F → Option (Event p)
    parse topic value =
        if topic == kafka_config.auth_events_topic
        then elim (parse_auth value) [ none ↦ none | some e ↦ some (login e) ]
        else elim (parse_tx value) [ none ↦ none | some e ↦ some (transaction e) ]

    -- The items of the records that validate, from index `i` on, and the indices of the others.
    unfoldable pub validate : ℕ → List (Decoded p.F) → List (Item p) × List ℕ
    validate i [] = ([], [])
    validate i (rec ∷ records) =
        let (items, failures) = validate (suc i) records in
        elim (parse rec.topic rec.value) [
          | some event ↦ (
            item_of i event (record_ref p.str rec.topic rec.partition rec.offset) ∷ items,
            failures,
          )
          | none ↦ (items, i ∷ failures)
        ]

    unfoldable pub handle_batch : List (Decoded p.F) → Db → Ran p Db × List ℕ
    handle_batch records db = let (items, failures) = validate 0 records in (run items db, failures)
