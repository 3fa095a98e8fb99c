-- ===== src/Detection/Blocking.antt =====
-- Refused events: phase A of `_run` in detection_engine/pipeline.py, and what it keeps from the rest.
use rtace.Base.{
  ℕ, String, Bool, true, false, ◌≡◌, refl, sym, ap, ◌∙◌, inl, inr, Option, List, [], ◌∷◌, map,
  append, All, subst, if◌then◌else◌, Bool-cases, leb,
}
use rtace.Platform.{Platform}
use rtace.Redis.{Redis}
use rtace.Config.{RedisConfig}
use rtace.Models.{DetectionEvent}
use rtace.Enforcement.{exists}
use rtace.Detectors.{Fresh}
use rtace.Cooldown.{filter_cooled_down, claim_all, sort_out, Filtered}
use rtace.Detection.{
  Decision, Item, Event, active, enforcement_key, blocked_audit, blocked_metrics, Metric, unchecked,
  is_prescored, count,
}
use rtace.Detection.Batch.{
  concat_map, enforce, refused, check, check_all, candidates_of, with_candidates, candidates,
  analyse, interpret_metrics, prescored_metrics, run,
}

module _ (p : Platform) (r : Redis p.F p.fle) (config : RedisConfig p.F)
    (loads_decision : String → Option (Decision p.F)) (fresh : ℕ → String → Fresh p) where
  open r use {Db}

  -- whether a rule refuses the item
  abbrev is_refused : Db → Item p → Bool
  is_refused db it = exists r db (enforcement_key p it.event)

  -- the items that no rule refuses, and the events that one does, in order
  abbrev pub admitted : Db → List (Item p) → List (Item p)
  admitted db [] = []
  admitted db (it ∷ items) =
      let rest = admitted db items in if is_refused db it then rest else it ∷ rest

  abbrev pub turned_away : Db → List (Item p) → List (Event p)
  turned_away db [] = []
  turned_away db (it ∷ items) =
      let rest = turned_away db items in if is_refused db it then it.event ∷ rest else rest

  abbrev checked : Db → List (Item p) → Db → List (Item p) × Db
  checked e items db =
      check_all p r config loads_decision fresh
        (map (enforce p r config loads_decision fresh e) items) db

  abbrev found : Db → List (Item p) → List (DetectionEvent p)
  found db items =
      concat_map (candidates p r config loads_decision fresh)
        (map (with_candidates p r config loads_decision fresh db) items)

  check-refused :
      (e : Db) (it : Item p) (db : Db)
      → is_refused e it ≡ true
      → check p r config loads_decision fresh (enforce p r config loads_decision fresh e it) db
        ≡ (enforce p r config loads_decision fresh e it, db)
  unfolding check enforce active
  check-refused e it db h = rw h refl

  found-refused :
      (e db : Db) (it : Item p) (items : List (Item p))
      → is_refused e it ≡ true
      → found db (enforce p r config loads_decision fresh e it ∷ items) ≡ found db items
  unfolding with_candidates candidates_of enforce active
  found-refused e db it items h = rw h refl

  -- The same database, and the same detections whatever the decision service left.
  abbrev Same : List (Item p) × Db → List (Item p) × Db → Type 0
  Same a b = (a.1 ≡ b.1) × ((d : Db) → found d a.0 ≡ found d b.0)

  admitted-refused :
      (e : Db) (it : Item p) (items : List (Item p))
      → is_refused e it ≡ true
      → admitted e (it ∷ items) ≡ admitted e items
  admitted-refused e it items h = rw h refl

  admitted-kept :
      (e : Db) (it : Item p) (items : List (Item p))
      → is_refused e it ≡ false
      → admitted e (it ∷ items) ≡ it ∷ admitted e items
  admitted-kept e it items h = rw h refl

  checked-admitted :
      (e : Db) (items : List (Item p)) (db : Db)
      → Same (checked e items db) (checked e (admitted e items) db)
  unfolding check_all
  checked-admitted e [] db = (refl, λ d. refl)
  checked-admitted e (it ∷ items) db = elim (Bool-cases (is_refused e it)) [
    | inl bad ↦
        let ih = checked-admitted e items db in
        let kept = checked e (admitted e items) db in
        subst (λ l. Same (checked e (it ∷ items) db) (checked e l db))
          (sym (admitted-refused e it items bad))
          (subst (λ st. Same (st.0 ∷ (checked e items st.1).0, (checked e items st.1).1) kept)
            (sym (check-refused e it db bad))
            (ih.0, λ d. found-refused e d it (checked e items db).0 bad ∙ ih.1 d))
    | inr good ↦
        let step =
          check p r config loads_decision fresh (enforce p r config loads_decision fresh e it) db in
        let ih = checked-admitted e items step.1 in
        subst (λ l. Same (checked e (it ∷ items) db) (checked e l db))
          (sym (admitted-kept e it items good))
          (
            ih.0,
            λ d.
                ap (append (with_candidates p r config loads_decision fresh d step.0).candidates)
                  (ih.1 d),
          )
  ]

  check-blocked :
      (it : Item p) (db : Db)
      → ((check p r config loads_decision fresh it db).0.blocked ≡ it.blocked)
        × ((check p r config loads_decision fresh it db).0.event ≡ it.event)
  unfolding check
  check-blocked it db = elim (Bool-cases (active p it)) [
    | inl on ↦ rw on (refl, refl)
    | inr off ↦ rw off (refl, refl)
  ]

  pub refused-check_all :
      (e d : Db) (items : List (Item p)) (db : Db)
      → refused p r config loads_decision fresh
          (map (with_candidates p r config loads_decision fresh d) (checked e items db).0)
        ≡ turned_away e items
  unfolding check_all with_candidates enforce
  refused-check_all e d [] db = refl
  refused-check_all e d (it ∷ items) db =
      let it' = enforce p r config loads_decision fresh e it in
      let step = check p r config loads_decision fresh it' db in
      let same = check-blocked it' db in
      rw (same.0, same.1, refused-check_all e d items step.1) refl

  -- The cooldown on what an analysis found.
  abbrev passed : Db → List (Item p) × Db → Filtered p Db
  passed e a = filter_cooled_down p r config (found a.1 a.0) a.1

  run-passed :
      (items : List (Item p)) (db : Db)
      → let ran = run p r config loads_decision fresh items db in
        let f = passed db (checked db items db) in
        (ran.emitted ≡ f.allowed)
        × (ran.claimed ≡ f.claimed)
        × (ran.db ≡ f.db)
        × (ran.audits ≡ map (blocked_audit p) (turned_away db items))
        × (ran.suppressed ≡ f.suppressed)
  unfolding run analyse check_all filter_cooled_down claim_all sort_out
  run-passed [] db = elim (Bool-cases (leb config.detection_cooldown_seconds 0)) [
    | inl off ↦ rw off (refl, refl, refl, refl, refl)
    | inr on ↦ rw on (refl, refl, refl, refl, refl)
  ]
  run-passed (it ∷ items) db = (
    refl,
    refl,
    refl,
    ap (map (blocked_audit p))
        (refused-check_all db (checked db (it ∷ items) db).1 (it ∷ items) db),
    refl,
  )

  passed-admitted :
      (items : List (Item p)) (db : Db)
      → passed db (checked db items db) ≡ passed db (checked db (admitted db items) db)
  passed-admitted items db =
      let same = checked-admitted db items db in
      rw same.0 (
        ap (λ ds. filter_cooled_down p r config ds (checked db (admitted db items) db).1)
          (same.1 (checked db (admitted db items) db).1))

  -- before the checks
  abbrev pub IsUnchecked : Item p → Type 0
  IsUnchecked it = it.result ≡ unchecked

  abbrev gathered : (Item p → List Metric) → Db → List (Item p) → List Metric
  gathered g d items = concat_map g (map (with_candidates p r config loads_decision fresh d) items)

  -- What is counted of the items that were checked is counted of those that no rule refuses.
  gathered-admitted :
      (g : Item p → List Metric)
      → ((it : Item p) → IsUnchecked it → g it ≡ [])
      → (e d : Db) (items : List (Item p)) (db : Db) → All IsUnchecked items
      → gathered g d (checked e items db).0 ≡ gathered g d (checked e (admitted e items) db).0
  unfolding check_all with_candidates enforce
  gathered-admitted g silent e d [] db h = refl
  gathered-admitted g silent e d (it ∷ items) db h = elim (Bool-cases (is_refused e it)) [
    | inl bad ↦
        let kept = gathered g d (checked e (admitted e items) db).0 in
        let it' = enforce p r config loads_decision fresh e it in
        subst (λ l. gathered g d (checked e (it ∷ items) db).0 ≡ gathered g d (checked e l db).0)
          (sym (admitted-refused e it items bad))
          (subst (λ st. gathered g d (st.0 ∷ (checked e items st.1).0) ≡ kept)
            (sym (check-refused e it db bad))
            (ap (λ l. append l (gathered g d (checked e items db).0))
                (silent (with_candidates p r config loads_decision fresh d it') h.0)
              ∙ gathered-admitted g silent e d items db h.1))
    | inr good ↦
        let step =
          check p r config loads_decision fresh (enforce p r config loads_decision fresh e it) db in
        subst (λ l. gathered g d (checked e (it ∷ items) db).0 ≡ gathered g d (checked e l db).0)
          (sym (admitted-kept e it items good))
          (ap (append (g (with_candidates p r config loads_decision fresh d step.0)))
            (gathered-admitted g silent e d items step.1 h.1))
  ]

  turned_away-admitted : (e : Db) (items : List (Item p)) → turned_away e (admitted e items) ≡ []
  turned_away-admitted e [] = refl
  turned_away-admitted e (it ∷ items) = elim (Bool-cases (is_refused e it)) [
    | inl bad ↦ rw bad (turned_away-admitted e items)
    | inr good ↦ rw (good, good) (turned_away-admitted e items)
  ]

  -- what is counted beside the refused events
  abbrev counted : List (Item p) × Db → List Metric
  counted a = append (gathered (interpret_metrics p r config loads_decision fresh) a.1 a.0) (
      append (gathered (prescored_metrics p r config loads_decision fresh) a.1 a.0)
        (concat_map (count p) (found a.1 a.0)))

  counted-admitted :
      (e : Db) (items : List (Item p)) (db : Db)
      → All IsUnchecked items
      → counted (checked e items db) ≡ counted (checked e (admitted e items) db)
  unfolding interpret_metrics prescored_metrics is_prescored
  counted-admitted e items db h =
      let same = checked-admitted e items db in
      let d = (checked e items db).1 in
      let silent_interpret : (it : Item p)
          → IsUnchecked it
          → interpret_metrics p r config loads_decision fresh it ≡ [] =
        λ it u. rw (u, interpret_metrics) refl in
      let silent_prescored : (it : Item p)
          → IsUnchecked it
          → prescored_metrics p r config loads_decision fresh it ≡ [] =
        λ it u. rw (u, prescored_metrics) refl in
      ap3 (gathered-admitted _ silent_interpret e d items db h)
        (gathered-admitted _ silent_prescored e d items db h) (ap (concat_map (count p)) (same.1 d))
      ∙ ap (λ d'. counted ((checked e (admitted e items) db).0, d')) same.0
    where
      ap3 :
          {a a' b b' c c' : List Metric}
          → a ≡ a'
          → b ≡ b'
          → c ≡ c'
          → append a (append b c) ≡ append a' (append b' c')
      ap3 ea eb ec i = append (ea i) (append (eb i) (ec i))

  run-metrics :
      (items : List (Item p)) (db : Db)
      → (run p r config loads_decision fresh items db).metrics
        ≡ append
            (concat_map (blocked_metrics p) (turned_away db items))
            (counted (checked db items db))
  unfolding run analyse check_all
  run-metrics [] db = refl
  run-metrics (it ∷ items) db =
      ap (λ es. append (concat_map (blocked_metrics p) es) (counted (checked db (it ∷ items) db)))
        (refused-check_all db (checked db (it ∷ items) db).1 (it ∷ items) db)

  -- A batch of unchecked events is handled as if the events that a rule refuses, a quarantine for a
  -- transaction and an address block for a login, were not in it: the same detections are emitted,
  -- the same keys claimed and the same types suppressed, and Redis ends the same, so no window,
  -- baseline or counter sees a refused event. What a refused event leaves is its audit record, one
  -- for each, in order, and its own metrics, counted before all that the batch without it counts.
  pub refused_leave_no_trace :
      (items : List (Item p)) (db : Db)
      → All IsUnchecked items
      → let ran = run p r config loads_decision fresh items db in
        let without = run p r config loads_decision fresh (admitted db items) db in
        (ran.emitted ≡ without.emitted)
        × (ran.claimed ≡ without.claimed)
        × (ran.db ≡ without.db)
        × (ran.audits ≡ map (blocked_audit p) (turned_away db items))
        × (ran.suppressed ≡ without.suppressed)
        × (ran.metrics
            ≡ append (concat_map (blocked_metrics p) (turned_away db items)) without.metrics)
  refused_leave_no_trace items db unchecked_yet =
      let a = run-passed items db in
      let b = run-passed (admitted db items) db in
      let same = passed-admitted items db in
      let blocked = concat_map (blocked_metrics p) (turned_away db items) in
      let without_metrics =
        run-metrics (admitted db items) db
        ∙ ap
            (λ es.
              append (concat_map (blocked_metrics p) es)
                (counted (checked db (admitted db items) db)))
            (turned_away-admitted db items) in
      (
        a.0 ∙ ap (λ f. f.allowed) same ∙ sym b.0,
        a.1 ∙ ap (λ f. f.claimed) same ∙ sym b.1,
        a.2 ∙ ap (λ f. f.db) same ∙ sym b.2,
        a.3,
        a.4 ∙ ap (λ f. f.suppressed) same ∙ sym b.4,
        run-metrics items db
            ∙ ap (append blocked)
                (counted-admitted db items db unchecked_yet ∙ sym without_metrics),
      )
