-- ===== src/Containment/Pipeline.antt =====
-- containment_engine/pipeline.py: containment, its counts and its audit record.
use rtace.Base.{
  String, ◌++◌, ◌≡◌, refl, sym, ap, ◌∙◌, Option, none, some, List, [], ◌∷◌, map, append, append-nil,
}
use rtace.Platform.{Platform, Json}
use rtace.Redis.{Redis}
use rtace.Config.{RedisConfig}
use rtace.Models.{DetectionEvent}
use rtace.Containment.{Round, Outcome, returned, raised, apply_containment}
use rtace.Containment.Atomic.{Watched, Seen, Explains, apply_containment-Explains}

-- The audit record of a detection.
pub record Audit (F : Type 0) : Type 0 where
  pub detection_id : String
  pub detection_type : String
  pub user_id : String
  pub ip_address : Option String
  pub actions : List String
  pub action : String
  pub timestamp : String
  pub details : List (String × Json F)

-- What the pipeline has: Redis, `containment_actions_total` by type and action, and the audit records
-- handed to `emit_audit`, the newest last.
pub record Containing (F Db : Type 0) : Type 0 where
  pub db : Db
  pub counts : List (String × String)
  pub audits : List (Audit F)

-- `"+".join(actions) if actions else "none"`
unfoldable pub joined : String → List String → String
joined a [] = a
joined a (b ∷ rest) = a ++ ("+" ++ joined b rest)

unfoldable pub action_text : List String → String
action_text [] = "none"
action_text (a ∷ rest) = joined a rest

module _ (p : Platform) (r : Redis p.F p.fle) (config : RedisConfig p.F) where
  open r use {Db}

  unfoldable pub audit_of : DetectionEvent p → List String → Audit p.F
  audit_of d actions = record {
    detection_id = d.detection_id;
    detection_type = d.detection_type;
    user_id = d.user_id;
    ip_address = d.ip_address;
    actions = actions;
    action = action_text actions;
    timestamp = p.isoformat d.timestamp;
    details = d.details;
  }

  abbrev count : DetectionEvent p → List String → List (String × String)
  count d [] = []
  count d (a ∷ rest) = (d.detection_type, a) ∷ count d rest

  -- The steps after `apply_containment`; an exception leaves the metrics and the audit alone.
  unfoldable pub report :
      DetectionEvent p
      → Option Outcome × Db
      → Containing p.F Db
      → Option Outcome × Containing p.F Db
  report d (none, db) s = (none, record s { db = db })
  report d (some raised, db) s = (some raised, record s { db = db })
  report d (some (returned actions), db) s = (
    some (returned actions),
    record s {
      db = db;
      counts = append s.counts (count d actions);
      audits = append s.audits (audit_of d actions ∷ []);
    },
  )

  unfoldable pub handle_detection :
      List (Round p r config)
      → DetectionEvent p
      → Containing p.F Db
      → Option Outcome × Containing p.F Db
  handle_detection rounds d s = report d (apply_containment p r config rounds d s.db) s

  -- `handle_record`, with the `model_validate` of DetectionEvent; `none` is its ValidationError.
  unfoldable pub handle_record :
      (Json p.F → Option (DetectionEvent p))
      → List (Round p r config)
      → Json p.F
      → Containing p.F Db
      → Option (Option Outcome) × Containing p.F Db
  handle_record parse rounds value s = elim (parse value) [
    | none ↦ (none, s)
    | some d ↦ let (o, s') = handle_detection rounds d s in (some o, s')
  ]

  -- What an outcome adds to the audit topic and to the counter.
  abbrev pub audits_of : DetectionEvent p → Option Outcome → List (Audit p.F)
  audits_of d (some (returned actions)) = audit_of d actions ∷ []
  audits_of d (some raised) = []
  audits_of d none = []

  abbrev pub counts_of : DetectionEvent p → Option Outcome → List (String × String)
  counts_of d (some (returned actions)) = map (λ a. (d.detection_type, a)) actions
  counts_of d (some raised) = []
  counts_of d none = []

  count-map :
      (d : DetectionEvent p) (actions : List String)
      → count d actions ≡ map (λ a. (d.detection_type, a)) actions
  count-map d [] = refl
  count-map d (a ∷ rest) = ap (λ l. (d.detection_type, a) ∷ l) (count-map d rest)

  pub report-adds :
      (d : DetectionEvent p) (o : Option Outcome) (db : Db) (s : Containing p.F Db)
      → ((report d (o, db) s).0 ≡ o)
        × ((report d (o, db) s).1.db ≡ db)
        × ((report d (o, db) s).1.audits ≡ append s.audits (audits_of d o))
        × ((report d (o, db) s).1.counts ≡ append s.counts (counts_of d o))
  unfolding report
  report-adds d none db s = (refl, refl, sym (append-nil _), sym (append-nil _))
  report-adds d (some raised) db s = (refl, refl, sym (append-nil _), sym (append-nil _))
  report-adds d (some (returned actions)) db s =
      (refl, refl, refl, ap (append s.counts) (count-map d actions))

  -- Where the server keeps the promise of WATCH, handling a detection is one indivisible containment
  -- on a database that the call ran through, whatever other clients did meanwhile. And it is audited
  -- exactly if its actions were returned: then one audit record that names them is written, and one
  -- count is made for each; after an exception, and while it still retries, there is neither.
  pub handle_detection_audits :
      (rounds : List (Round p r config)) (d : DetectionEvent p) (s : Containing p.F Db)
      → Watched p r config rounds d s.db
      → let after = handle_detection rounds d s in
        ((e : Db) × Seen p r config rounds s.db e × Explains p r config d e (after.0, after.1.db))
        × (after.1.audits ≡ append s.audits (audits_of d after.0))
        × (after.1.counts ≡ append s.counts (counts_of d after.0))
  unfolding handle_detection
  handle_detection_audits rounds d s watched =
      let result = apply_containment p r config rounds d s.db in
      let adds = report-adds d result.0 result.1 s in
      let (e, seen, explained) = apply_containment-Explains p r config rounds d s.db watched in
      (
        (e, seen, rw (adds.0, adds.1) explained),
        adds.2 ∙ ap (λ o. append s.audits (audits_of d o)) (sym adds.0),
        adds.3 ∙ ap (λ o. append s.counts (counts_of d o)) (sym adds.0),
      )
