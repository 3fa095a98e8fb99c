-- ===== src/Containment/Contained.antt =====
-- The containment engine of containment_engine/consumer.py: what it does to each record, and what it
-- sends before a commit.
use rtace.Base.{
  ℕ, suc, String, ◌≡◌, ◌≢◌, ◌⊎◌, refl, sym, ◌∙◌, subst, inl, inr, Bool, false, Option, none, some,
  List, [], ◌∷◌, map, append, append-nil, All, if◌then◌else◌, Bool-cases,
}
use rtace.Platform.{Platform, Json}
use rtace.Redis.{Redis}
use rtace.Config.{RedisConfig, KafkaConfig}
use rtace.Models.{DetectionEvent}
use rtace.Kafka.{Message, Producer}
use rtace.Kafka.Delivery.{Sends, start, send_all, send_all-Sends, send_all-append}
use rtace.ConsumerLoop.{
  Exception, is_transient, Decoded, Interface, DeadLetter, LoopSettings, Engine,
}
use rtace.ConsumerLoop.PerRecord.{per_record}
use rtace.ConsumerLoop.Run.{Pass, Phase, run_consumer_loop}
use rtace.ConsumerLoop.Commits.{Offsets, Justified}
use rtace.ConsumerLoop.Classified.{In}
use rtace.ConsumerLoop.AtLeastOnce.{SendsExactly, Covered, run_commits_delivered}
use rtace.Detection.Engine.{engine_settings}
use rtace.Containment.{Round, Verdict, executed, conflict, lost, unacknowledged, apply_containment}
use rtace.Containment
use rtace.Containment.Atomic.{Watched, Seen, Explains, apply_containment_ends}
use rtace.Containment.Pipeline.{
  Audit, Containing, handle_record, handle_detection, audit_of, audits_of, handle_detection_audits,
  report-adds,
}
use rtace.Containment.Engine.{
  Contention, LastVerdict, runs, drops, runs_unacknowledged, verdict_of, passes_of, rounds_of,
  Engaging, audit_message, next_contention, error_of, call_one, error_one, after_one, messages_one,
  handle_one, containment_handler,
}

module _ (p : Platform) (r : Redis p.F p.fle) (config : RedisConfig p.F) where
  open r use {Db}

  passes_of-last :
      (fs : List (Db → Db)) (final : Round p r config)
      → All (λ (round : Round p r config). round.verdict ≡ conflict) (passes_of p r config fs final)
      → final.verdict ≡ conflict
  passes_of-last [] final h = h.0
  passes_of-last (f ∷ fs) final h = passes_of-last fs final h.1

  verdict_of-ne-conflict : (v : LastVerdict p r config) → verdict_of p r config v ≢ conflict
  verdict_of-ne-conflict runs h = cc
  verdict_of-ne-conflict drops h = cc
  verdict_of-ne-conflict runs_unacknowledged h = cc

  -- A call whose last EXEC is no conflict ends its loop.
  pub contended_call_ends :
      (c : Contention p r config) (d : DetectionEvent p) (db : Db)
      → (apply_containment p r config (rounds_of p r config c) d db).0 ≢ none
  contended_call_ends c d db h = verdict_of-ne-conflict c.verdict (
      passes_of-last c.refused _
        (apply_containment_ends p r config (rounds_of p r config c) d db h))

  module _ (kafka_config : KafkaConfig) (parse : Json p.F → Option (DetectionEvent p)) (V : Type 0)
      (of_audit : Audit p.F → V) where
    abbrev pub World : Type 0
    World = Engaging p r config kafka_config parse V of_audit

    abbrev handle : Decoded p.F → Producer V × World → Option Exception × (Producer V × World)
    handle = handle_one p r config kafka_config parse V of_audit

    abbrev messages : Decoded p.F → World → List (Message V)
    messages = messages_one p r config kafka_config parse V of_audit

    abbrev error : Decoded p.F → World → Option Exception
    error = error_one p r config kafka_config parse V of_audit

    abbrev after : Decoded p.F → World → World
    after = after_one p r config kafka_config parse V of_audit

    -- does the adapter stop at this error?
    abbrev stops : Option Exception → Bool
    stops none = false
    stops (some e) = is_transient e

    -- The specification of what a batch sends: the audit records of its records in order, up to the
    -- first transient error.
    unfoldable pub trail : List (Decoded p.F) → World → List (Message V)
    trail [] w = []
    trail (rec ∷ records) w =
        let rest = trail records (after rec w) in
        append (messages rec w) (if stops (error rec w) then [] else rest)

    step-trail :
        (i : ℕ) (rec : Decoded p.F) (records : List (Decoded p.F)) (pr : Producer V) (w : World)
        (o : Option Exception)
        → error rec w ≡ o
        → (per_record handle (suc i) records (send_all (messages rec w) pr, after rec w)).1.0
          ≡ send_all (trail records (after rec w)) (send_all (messages rec w) pr)
        → (per_record handle i (rec ∷ records) (pr, w)).1.0
          ≡ send_all
              (append (messages rec w) (if stops o then [] else trail records (after rec w)))
              pr
    unfolding per_record handle_one
    step-trail i rec records pr w none h ih =
        rw (h, per_record) (ih ∙ sym (send_all-append (messages rec w) _ pr))
    step-trail i rec records pr w (some e) h ih = elim (Bool-cases (is_transient e)) [
      | inl retries ↦ rw (h, per_record, retries, append-nil (messages rec w)) refl
      | inr goes_on ↦ rw (h, per_record, goes_on) (ih ∙ sym (send_all-append (messages rec w) _ pr))
    ]

    per_record-trail :
        (i : ℕ) (records : List (Decoded p.F)) (pr : Producer V) (w : World)
        → (per_record handle i records (pr, w)).1.0 ≡ send_all (trail records w) pr
    unfolding per_record handle_one trail
    per_record-trail i [] pr w = refl
    per_record-trail i (rec ∷ records) pr w =
        step-trail i rec records pr w (error rec w) refl
          (per_record-trail (suc i) records (send_all (messages rec w) pr) (after rec w))

    abbrev pub interface :
        (List ℕ → Option (Json p.F)) → (DeadLetter → V) → (List ℕ → String) → Interface p V World
    interface loads of_dead_letter key_text = record {
      loads = loads;
      of_dead_letter = of_dead_letter;
      key_text = key_text;
      handler = containment_handler p r config kafka_config parse V of_audit;
    }

    pub containment_handler-Sends :
        (loads : List ℕ → Option (Json p.F)) (of_dead_letter : DeadLetter → V)
        (key_text : List ℕ → String) (settings : LoopSettings p.F)
        → SendsExactly p V World (interface loads of_dead_letter key_text) settings trail
    unfolding containment_handler
    containment_handler-Sends loads of_dead_letter key_text settings records pr w h =
        subst (Sends pr (trail records w)) (sym (per_record-trail 0 records pr w))
          (send_all-Sends (trail records w) pr pr [] start)

    -- `parse` reads the record as a detection.
    module _ (rec : Decoded p.F) (w : World) (d : DetectionEvent p) where
      abbrev pub contention : Contention p r config
      contention = next_contention p r config kafka_config parse V of_audit w.contentions

      abbrev begun : Containing p.F Db
      begun = record { db = w.db; counts = w.counts; audits = [] }

      abbrev pub called : Option Containment.Outcome × Containing p.F Db
      called = handle_detection p r config (rounds_of p r config contention) d begun

      -- What the call has done: the one indivisible step at a database that it ran through, audited,
      -- or an error, after that step or after none.
      abbrev pub Done :
          Option Containment.Outcome → Db → Option Exception → List (Message V) → Type 0
      Done o db' err ms =
          (e : Db) × Seen p r config (rounds_of p r config contention) w.db e
          × Explains p r config d e (o, db')
          × (((actions : List String) × (o ≡ some (Containment.returned actions))
                × (err ≡ none)
                × (ms
                    ≡ audit_message p r config kafka_config parse V of_audit
                        (audit_of p r config d actions)
                      ∷ []))
              ⊎ ((o ≡ some Containment.raised) × (err ≡ some contention.error) × (ms ≡ [])))

      outcome-Done :
          (o : Option Containment.Outcome) (db' : Db) (audits : List (Audit p.F)) (e : Db)
          → o ≢ none
          → Seen p r config (rounds_of p r config contention) w.db e
          → Explains p r config d e (o, db')
          → audits ≡ audits_of p r config d o
          → Done o db'
              (error_of p r config kafka_config parse V of_audit contention.error (some o))
              (map (audit_message p r config kafka_config parse V of_audit) audits)
      unfolding error_of
      outcome-Done none db' audits e ends seen explained same = absurd (ends refl)
      outcome-Done (some Containment.raised) db' audits e ends seen explained same =
          (e, seen, explained, inr (refl, refl, rw same refl))
      outcome-Done (some (Containment.returned actions)) db' audits e ends seen explained same =
          (e, seen, explained, inl (actions, refl, refl, rw same refl))

      called-ends : called.0 ≢ none
      unfolding handle_detection
      called-ends h =
          contended_call_ends contention d w.db (sym (report-adds p r config d _ _ begun).0 ∙ h)

      call_one-called :
          parse rec.value ≡ some d
          → call_one p r config kafka_config parse V of_audit rec w ≡ (some called.0, called.1)
      unfolding handle_record
      call_one-called h = rw (h, handle_record) refl

      -- The containment engine handles one record. Where the server keeps the promise of WATCH, and
      -- the last EXEC of the call is no conflict, a record that is a detection is contained at once
      -- and as one step, at a database that the call ran through, with one audit record sent, and no
      -- error; or the record fails with the Redis error that its EXEC met, with that step done or
      -- none, and nothing sent.
      pub handle_one_contains :
          parse rec.value ≡ some d
          → Watched p r config (rounds_of p r config contention) d w.db
          → Done called.0 (after rec w).db (error rec w) (messages rec w)
      handle_one_contains valid watched =
          let ((e, seen, explained), audited, counted) =
            handle_detection_audits p r config (rounds_of p r config contention) d begun watched in
          subst
            (λ c.
              Done called.0 c.1.db
                (error_of p r config kafka_config parse V of_audit contention.error c.0)
                (map (audit_message p r config kafka_config parse V of_audit) c.1.audits))
            (sym (call_one-called valid))
            (outcome-Done called.0 called.1.db called.1.audits e called-ends seen explained audited)

    module _ (loads : List ℕ → Option (Json p.F)) (of_dead_letter : DeadLetter → V)
        (key_text : List ℕ → String) (initial longest pause : p.F) where
      abbrev pub settings : LoopSettings p.F
      settings = engine_settings "containment" initial longest pause kafka_config.dlq_topic

      -- One run of the engine over what the environment does in each pass.
      unfoldable pub run_containment_engine :
          List Pass → Engine p.F V World → Phase × Engine p.F V World
      run_containment_engine passes s =
          run_consumer_loop p V World (interface loads of_dead_letter key_text) settings passes s

      abbrev pub Confirmed : List Pass → Engine p.F V World → Offsets → Type 0
      Confirmed = Covered p V World (interface loads of_dead_letter key_text) settings trail

      -- A commit of a pass of the run whose handling has finished.
      abbrev pub Finished : List Pass → Engine p.F V World → Offsets → Type 0
      Finished = Justified p V World (interface loads of_dead_letter key_text) settings

      -- The containment engine audits before it commits. Whatever Kafka, Redis and the other clients
      -- do, each commit that a run adds is made in one of its passes, of the very records polled in
      -- that pass, whose handling from the state of that moment has finished with the broker having
      -- acknowledged the audit record of each detection that the last attempt contained, in order,
      -- and every dead letter; and no batch that finishes, and whose commit succeeds, is missed.
      pub audits_before_commits :
          (passes : List Pass) (s : Engine p.F V World)
          → (cs : List Offsets) × ((run_containment_engine passes s).1.commits
              ≡ append s.commits cs)
            × All (Confirmed passes s) cs
            × ((c : Offsets) → Finished passes s c → In c cs)
      unfolding run_containment_engine
      audits_before_commits passes s =
          run_commits_delivered p V World _ settings _ passes s refl
            (containment_handler-Sends loads of_dead_letter key_text settings)
