-- ===== src/Detection/Interrupted.antt =====
-- A batch of the detection engine that a failure of Redis interrupts.
use rtace.Base.{
  ℕ, String, ◌≡◌, ◌⊎◌, refl, sym, ap, ◌∙◌, inl, inr, ◌||◌, Option, none, List, [], ◌∷◌, map, leb,
  subst, Bool-cases,
}
use rtace.Platform.{Platform, Json}
use rtace.Redis.{Redis}
use rtace.Config.{RedisConfig, KafkaConfig}
use rtace.Models.{TransactionEvent, AuthEvent, DetectionEvent}
use rtace.Detectors.{Fresh}
use rtace.Kafka.{Message, Producer}
use rtace.Kafka.Delivery.{Sends, start, send_all, send_all-Sends}
use rtace.ConsumerLoop.{Exception, Decoded, Handled, raises, DeadLetter, Interface, LoopSettings}
use rtace.ConsumerLoop.AtLeastOnce.{SendsExactly}
use rtace.Detection.{Audit, Decision, Item, active, is_prescored, blocked_audit}
use rtace.Detection.Batch.{
  Ran, run, handle_batch, validate, enforce, refused, check_all, analyse, with_candidates,
}
use rtace.Detection.Gate.{asks, gate-Sends, audit_message, messages_of, detection_handler}
use rtace.Detection.Blocking.{turned_away, refused-check_all}
use rtace.Detection.Faults.{
  Fault, no_fault, in_enforcement, in_checks, in_decisions, in_cooldown, Ended, completed,
  interrupted, any, is_empty, found_in, faulty_run, Detecting, next_fault, end_batch,
  faulty_handler,
}

module _ (p : Platform) (r : Redis p.F p.fle) (config : RedisConfig p.F)
    (loads_decision : String → Option (Decision p.F)) (fresh : ℕ → String → Fresh p) where
  open r use {Db}

  -- The audit records of a batch that raised: those of the refused events, or none yet.
  abbrev pub Audited : Db → List (Item p) → List Audit → Type 0
  Audited db items audits =
      (audits ≡ [])
      ⊎ (audits ≡ map (blocked_audit p) (turned_away p r config loads_decision fresh db items))

  -- The batch went on as if Redis had not failed, or it raised the exception of the failure.
  abbrev pub Interrupts : Fault → Exception → Type 0
  Interrupts no_fault e = ⊥
  Interrupts (in_enforcement e') e = e' ≡ e
  Interrupts (in_checks k e') e = e' ≡ e
  Interrupts (in_decisions e') e = e' ≡ e
  Interrupts (in_cooldown k e') e = e' ≡ e

  abbrev pub Ends : Fault → List (Item p) → Db → Ended p Db → Type 0
  Ends fault items db (completed ran) = ran ≡ run p r config loads_decision fresh items db
  Ends fault items db (interrupted e metrics audits db') =
      Interrupts fault e × Audited db items audits

  refused-enforce :
      (e : Db) (items : List (Item p))
      → refused p r config loads_decision fresh
          (map (enforce p r config loads_decision fresh e) items)
        ≡ turned_away p r config loads_decision fresh e items
  unfolding enforce
  refused-enforce e [] = refl
  refused-enforce e (it ∷ items) = rw (refused-enforce e items) refl

  refused-with_candidates :
      (d : Db) (items : List (Item p))
      → refused p r config loads_decision fresh
          (map (with_candidates p r config loads_decision fresh d) items)
        ≡ refused p r config loads_decision fresh items
  unfolding with_candidates
  refused-with_candidates d [] = refl
  refused-with_candidates d (it ∷ items) = rw (refused-with_candidates d items) refl

  pub faulty_run-Ends :
      (fault : Fault) (items : List (Item p)) (db : Db)
      → Ends fault items db (faulty_run p r config loads_decision fresh fault items db)
  unfolding faulty_run analyse
  faulty_run-Ends fault [] db = refl
  faulty_run-Ends no_fault (it ∷ items) db = refl
  faulty_run-Ends (in_enforcement e) (it ∷ items) db = (refl, inl refl)
  faulty_run-Ends (in_checks k e) (it ∷ items) db =
      let enforced = map (enforce p r config loads_decision fresh db) (it ∷ items) in
      elim (Bool-cases (any (active p) enforced)) [
        | inl some_active ↦
            rw some_active
              (refl, inr (ap (map (blocked_audit p)) (refused-enforce db (it ∷ items))))
        | inr idle ↦ rw idle refl
      ]
  faulty_run-Ends (in_decisions e) (it ∷ items) db =
      let checked =
        check_all p r config loads_decision fresh
          (map (enforce p r config loads_decision fresh db) (it ∷ items)) db in
      let names =
        sym (refused-with_candidates db checked.0)
        ∙ refused-check_all p r config loads_decision fresh db db (it ∷ items) db in
      elim (Bool-cases (any (λ (i : Item p). is_prescored p i.result) checked.0)) [
        | inl fetch ↦ rw fetch (refl, inr (ap (map (blocked_audit p)) names))
        | inr idle ↦ rw idle refl
      ]
  faulty_run-Ends (in_cooldown k e) (it ∷ items) db =
      let after = analyse p r config loads_decision fresh (it ∷ items) db in
      let names = refused-check_all p r config loads_decision fresh db after.1 (it ∷ items) db in
      elim (Bool-cases (
        is_empty (found_in p r config loads_decision fresh after.0)
        || leb config.detection_cooldown_seconds 0)) [
          | inl idle ↦ rw idle refl
          | inr claims ↦ rw claims (refl, inr (ap (map (blocked_audit p)) names))
        ]

  module _ (kafka_config : KafkaConfig) (parse_tx : Json p.F → Option (TransactionEvent p))
      (parse_auth : Json p.F → Option (AuthEvent p)) (V : Type 0) (of_audit : Audit → V)
      (of_detection : DetectionEvent p → V) where
    abbrev pub World : Type 0
    World =
        Detecting p r config loads_decision fresh kafka_config parse_tx parse_auth V of_audit
          of_detection

    abbrev Result : Type 0
    Result = Handled × Producer V × World

    abbrev handle : List (Decoded p.F) → Producer V → World → Result
    handle =
        faulty_handler p r config loads_decision fresh kafka_config parse_tx parse_auth V of_audit
          of_detection

    abbrev pub calm : List (Decoded p.F) → Producer V → Db → Handled × Producer V × Db
    calm =
        detection_handler p r config loads_decision fresh kafka_config parse_tx parse_auth V
          of_audit of_detection

    abbrev pub valid_items : List (Decoded p.F) → List (Item p)
    valid_items records =
        (validate p r config loads_decision fresh kafka_config parse_tx parse_auth 0 records).0

    abbrev pub audit_messages : List Audit → List (Message V)
    audit_messages audits =
        map
          (audit_message p r config loads_decision fresh kafka_config parse_tx parse_auth V of_audit
            of_detection)
          audits

    -- The call is the one without a failure, or it raises the exception of the failure and has sent
    -- only audit records of refused events.
    abbrev pub Survives : Fault → List (Decoded p.F) → Producer V → Db → Result → Type 0
    Survives fault records pr db after =
        ((after.0 ≡ (calm records pr db).0)
          × (after.1 ≡ (calm records pr db).1)
          × (after.2.db ≡ (calm records pr db).2))
        ⊎ ((e : Exception) × (audits : List Audit) × Interrupts fault e
            × Audited db (valid_items records) audits
            × (after.0 ≡ raises e)
            × (after.1 ≡ send_all (audit_messages audits) pr))

    end_batch-Survives :
        (fault : Fault) (records : List (Decoded p.F)) (pr : Producer V) (db : Db)
        (rest : List Fault) (ended : Ended p Db)
        → Ends fault (valid_items records) db ended
        → Survives fault records pr db (
            end_batch p r config loads_decision fresh kafka_config parse_tx parse_auth V of_audit
              of_detection ended
              (validate p r config loads_decision fresh kafka_config parse_tx parse_auth 0
                records).1
              rest
              pr)
    unfolding end_batch detection_handler handle_batch
    end_batch-Survives fault records pr db rest (completed ran) same =
        inl (rw same (refl, refl, refl))
    end_batch-Survives fault records pr db rest (interrupted e metrics audits db') (f, a) =
        inr (e, audits, f, a, refl, refl)

    -- Whatever pipeline of a batch Redis fails in, the handler either does what it does without a
    -- failure, or it raises the exception of the failure, having sent to Kafka no detection and
    -- nothing but the audit records of the events that a rule refused, or not even these.
    pub faulty_handler-Survives :
        (records : List (Decoded p.F)) (pr : Producer V) (db : Db) (fault : Fault)
        (rest : List Fault)
        → Survives fault records pr db
            (handle records pr (record { db = db; faults = fault ∷ rest }))
    unfolding faulty_handler
    faulty_handler-Survives records pr db fault rest =
        end_batch-Survives fault records pr db rest _
          (faulty_run-Ends fault (valid_items records) db)

    abbrev all_messages : Ran p Db → List (Message V)
    all_messages =
        messages_of p r config loads_decision fresh kafka_config parse_tx parse_auth V of_audit
          of_detection

    -- What a batch that ended so has sent.
    abbrev pub sent_of : Ended p Db → List (Message V)
    sent_of (completed ran) = all_messages ran
    sent_of (interrupted e metrics audits db') = audit_messages audits

    pub end_batch-Sends :
        (ended : Ended p Db) (fails : List ℕ) (rest : List Fault) (pr : Producer V)
        (result : Handled) (pr' : Producer V) (w : World)
        → end_batch p r config loads_decision fresh kafka_config parse_tx parse_auth V of_audit
            of_detection ended fails rest pr
          ≡ (result, pr', w)
        → asks p r config loads_decision fresh kafka_config parse_tx parse_auth V of_audit
            of_detection result
          ≡ none
        → Sends pr (sent_of ended) pr'
    unfolding end_batch
    end_batch-Sends (completed ran) fails rest pr result pr' w e h =
        let ms = all_messages ran in
        subst (Sends pr ms) (ap (λ x. x.1) e) (
          gate-Sends p r config loads_decision fresh kafka_config parse_tx parse_auth V of_audit
            of_detection ran fails pr (send_all ms pr) ms (send_all-Sends ms pr pr [] start)
            (ap
                (λ x.
                  asks p r config loads_decision fresh kafka_config parse_tx parse_auth V of_audit
                    of_detection x.0)
                e
              ∙ h))
    end_batch-Sends (interrupted exc metrics audits db') fails rest pr result pr' w e h =
        let ms = audit_messages audits in
        subst (Sends pr ms) (ap (λ x. x.1) e) (send_all-Sends ms pr pr [] start)

    abbrev pub interface :
        (List ℕ → Option (Json p.F)) → (DeadLetter → V) → (List ℕ → String) → Interface p V World
    interface loads of_dead_letter key_text = record {
      loads = loads;
      of_dead_letter = of_dead_letter;
      key_text = key_text;
      handler = handle;
    }

    -- The messages of a call, by the failure that it meets.
    abbrev pub sent_for_batch : List (Decoded p.F) → World → List (Message V)
    sent_for_batch records w = sent_of (
        faulty_run p r config loads_decision fresh
          (next_fault p r config loads_decision fresh kafka_config parse_tx parse_auth V of_audit
            of_detection w.faults)
          (valid_items records) w.db)

    pub faulty_handler-Sends :
        (loads : List ℕ → Option (Json p.F)) (of_dead_letter : DeadLetter → V)
        (key_text : List ℕ → String) (settings : LoopSettings p.F)
        → SendsExactly p V World (interface loads of_dead_letter key_text) settings sent_for_batch
    unfolding faulty_handler
    faulty_handler-Sends loads of_dead_letter key_text settings records pr w h =
        end_batch-Sends _ _ _ pr _ _ _ refl h
