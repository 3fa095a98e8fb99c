-- ===== src/Containment/Atomic.antt =====
-- The retry loop of `apply_containment` against one indivisible step.
use rtace.Base.{
  ℕ, String, ◌≡◌, ◌≢◌, refl, sym, ◌∙◌, subst, ◌⊎◌, inl, inr, Option, none, some, List, [], ◌∷◌, ap,
  arith, All, Option-cases,
}
use rtace.Platform.{Platform}
use rtace.Redis.{Redis, Stored}
use rtace.Config.{RedisConfig}
use rtace.Models.{DetectionEvent}
use rtace.Enforcement.{step_up_key, exists}
use rtace.Containment.{
  plan, commit, Round, attempt, apply_containment, finish, execute, receipt_key, Outcome, returned,
  raised, Verdict, executed, conflict, lost, unacknowledged,
}

module _ (p : Platform) (r : Redis p.F p.fle) (config : RedisConfig p.F) where
  open p use {loads}
  open r use {Db, lookup}

  -- What a transaction with actions to apply does at once.
  abbrev pub settle : DetectionEvent p → List String × List (String × ℕ) → Db → List String × Db
  settle d ([], writes) db = ([], db)
  settle d (action ∷ actions, writes) db =
      (action ∷ actions, commit p r config d (action ∷ actions) writes db)

  -- The specification: with no other client in between, the actions of the receipt if there is one,
  -- and otherwise those of the plan, applied together with the receipt.
  unfoldable pub atomic : DetectionEvent p → Db → List String × Db
  atomic d db = elim (lookup db (receipt_key d.detection_id)) [
    | some prior ↦ (loads prior.value, db)
    | none ↦ settle d (plan p r config (exists r db (step_up_key d.user_id)) d) db
  ]

  -- What the server promises of WATCH: unless EXEC is refused, the watched keys have not changed
  -- between the reads and EXEC. It speaks of each pass where it begins.
  abbrev pub Watched : List (Round p r config) → DetectionEvent p → Db → Type 0
  Watched [] d db = Unit
  Watched (round ∷ rounds) d db =
      (round.verdict ≢ conflict
        → (lookup (round.between db) (receipt_key d.detection_id)
            ≡ lookup db (receipt_key d.detection_id))
          × (lookup (round.between db) (step_up_key d.user_id) ≡ lookup db (step_up_key d.user_id)))
      × Watched rounds d (round.between db)

  -- How a call that ended so is explained by the one step at the database `e`.
  abbrev pub Explains : DetectionEvent p → Db → Option Outcome × Db → Type 0
  Explains d e (none, db') = db' ≡ e
  Explains d e (some raised, db') = (db' ≡ e) ⊎ (db' ≡ (atomic d e).1)
  Explains d e (some (returned actions), db') = (actions ≡ (atomic d e).0) × (db' ≡ (atomic d e).1)

  -- The database is one that the passes of a call run through.
  pub data Seen : List (Round p r config) → Db → Db → Type 0 where
    now : {rounds : List (Round p r config)} {db : Db} → Seen rounds db db
    later :
        {round : Round p r config} {rounds : List (Round p r config)} {db e : Db}
        → Seen rounds (round.between db) e
        → Seen (round ∷ rounds) db e

  execute-Explains :
      (v : Verdict) (d : DetectionEvent p) (action : String) (actions : List String)
      (writes : List (String × ℕ)) (e : Db)
      → (v ≢ conflict → atomic d e ≡ settle d (action ∷ actions, writes) e)
      → Explains d e (execute p r config v d (action ∷ actions) writes e)
  unfolding execute
  execute-Explains executed d action actions writes e k =
      let h = k (λ q. cc q) in (sym (ap (λ t. t.0) h), sym (ap (λ t. t.1) h))
  execute-Explains conflict d action actions writes e k = refl
  execute-Explains lost d action actions writes e k = inl refl
  execute-Explains unacknowledged d action actions writes e k =
      inr (sym (ap (λ t. t.1) (k (λ q. cc q))))

  finish-Explains :
      (round : Round p r config) (d : DetectionEvent p) (todo : List String × List (String × ℕ))
      (db : Db)
      → atomic d db ≡ settle d todo db
      → (round.verdict ≢ conflict → atomic d (round.between db) ≡ settle d todo (round.between db))
      → Explains d db (finish p r config round d todo db)
        ⊎ Explains d (round.between db) (finish p r config round d todo db)
  unfolding finish
  finish-Explains round d ([], writes) db h k = inl (sym (ap (λ t. t.0) h), sym (ap (λ t. t.1) h))
  finish-Explains round d (action ∷ actions, writes) db h k =
      inr (execute-Explains round.verdict d action actions writes (round.between db) k)

  -- Without a receipt the step applies the plan that the reads of the step-up key give.
  atomic-eq-settle :
      (d : DetectionEvent p) (db e : Db)
      → lookup e (receipt_key d.detection_id) ≡ none
      → lookup e (step_up_key d.user_id) ≡ lookup db (step_up_key d.user_id)
      → atomic d e ≡ settle d (plan p r config (exists r db (step_up_key d.user_id)) d) e
  unfolding atomic
  atomic-eq-settle d db e fresh same = rw (fresh, atomic) (rw same)

  attempt-fresh :
      (round : Round p r config) (d : DetectionEvent p) (db : Db)
      → lookup db (receipt_key d.detection_id) ≡ none
      → attempt p r config round d db
        ≡ finish p r config round d (plan p r config (exists r db (step_up_key d.user_id)) d) db
  unfolding attempt
  attempt-fresh round d db fresh = rw (fresh, attempt)

  attempt-prior :
      (round : Round p r config) (d : DetectionEvent p) (db : Db) (prior : Stored)
      → lookup db (receipt_key d.detection_id) ≡ some prior
      → attempt p r config round d db ≡ (some (returned (atomic d db).0), (atomic d db).1)
  unfolding attempt atomic
  attempt-prior round d db prior e = rw (e, attempt) (rw (e, atomic))

  attempt-Explains :
      (round : Round p r config) (rounds : List (Round p r config)) (d : DetectionEvent p) (db : Db)
      → Watched (round ∷ rounds) d db
      → Explains d db (attempt p r config round d db)
        ⊎ Explains d (round.between db) (attempt p r config round d db)
  attempt-Explains round rounds d db w =
      elim (Option-cases (lookup db (receipt_key d.detection_id))) [
        | inl fresh ↦ subst Explained (sym (attempt-fresh round d db fresh)) (
            finish-Explains round d _ db (atomic-eq-settle d db db fresh refl)
              (λ v. atomic-eq-settle d db (round.between db) ((w.0 v).0 ∙ fresh) (w.0 v).1))
        | inr (prior, e) ↦
            subst Explained (sym (attempt-prior round d db prior e)) (inl (refl, refl))
      ]
    where
      Explained : Option Outcome × Db → Type 0
      Explained x = Explains d db x ⊎ Explains d (round.between db) x

  Seen-later :
      (round : Round p r config) (rounds : List (Round p r config)) (d : DetectionEvent p) (db : Db)
      (x : Option Outcome × Db)
      → Explains d db x ⊎ Explains d (round.between db) x
      → (e : Db) × Seen (round ∷ rounds) db e × Explains d e x
  Seen-later round rounds d db x (inl h) = (db, now, h)
  Seen-later round rounds d db x (inr h) = (round.between db, later now, h)

  -- A pass that ends in `continue` leaves the database as the other clients did.
  attempt-conflict :
      (round : Round p r config) (d : DetectionEvent p) (db : Db)
      → (attempt p r config round d db).0 ≡ none
      → (attempt p r config round d db).1 ≡ round.between db
  unfolding attempt finish execute
  attempt-conflict round d db h = ground arith

  attempt_again :
      (round : Round p r config) (d : DetectionEvent p) (db : Db)
      → (attempt p r config round d db).0 ≡ none
      → round.verdict ≡ conflict
  unfolding attempt finish execute
  attempt_again round d db h = ground arith

  loop_again :
      (round : Round p r config) (rounds : List (Round p r config)) (d : DetectionEvent p) (db : Db)
      → (attempt p r config round d db).0 ≡ none
      → apply_containment p r config (round ∷ rounds) d db
        ≡ apply_containment p r config rounds d (round.between db)
  unfolding apply_containment
  loop_again round rounds d db h = rw (h, apply_containment) (rw (attempt-conflict round d db h))

  loop_done :
      (round : Round p r config) (rounds : List (Round p r config)) (d : DetectionEvent p) (db : Db)
      (o : Outcome)
      → (attempt p r config round d db).0 ≡ some o
      → apply_containment p r config (round ∷ rounds) d db ≡ attempt p r config round d db
  unfolding apply_containment
  loop_done round rounds d db o h = rw (h, apply_containment) refl

  -- However many passes the retry loop makes, whatever other clients do between the reads and EXEC
  -- of each, and whichever connection is lost: if the server keeps the promise of WATCH, a call of
  -- `apply_containment` that returns actions has done exactly what the one indivisible step does
  -- at one of the databases that its passes ran through, with the same actions; a call that raises
  -- has done that or nothing; and one that is still in its loop has written nothing.
  pub apply_containment-Explains :
      (rounds : List (Round p r config)) (d : DetectionEvent p) (db : Db)
      → Watched rounds d db
      → (e : Db) × Seen rounds db e × Explains d e (apply_containment p r config rounds d db)
  unfolding apply_containment
  apply_containment-Explains [] d db w = (db, now, refl)
  apply_containment-Explains (round ∷ rounds) d db w =
      elim (Option-cases (attempt p r config round d db).0) [
        | inl again ↦
            let (e, seen, h) = apply_containment-Explains rounds d (round.between db) w.1 in
            (e, later seen, subst (Explains d e) (sym (loop_again round rounds d db again)) h)
        | inr (o, done) ↦
            let (e, seen, h) =
              Seen-later round rounds d db _ (attempt-Explains round rounds d db w) in
            (e, seen, subst (Explains d e) (sym (loop_done round rounds d db o done)) h)
      ]

  -- The call is still in its loop only while every pass has met a conflict: the first pass that
  -- meets none ends it, by a return or by an error.
  pub apply_containment_ends :
      (rounds : List (Round p r config)) (d : DetectionEvent p) (db : Db)
      → (apply_containment p r config rounds d db).0 ≡ none
      → All (λ round. round.verdict ≡ conflict) rounds
  unfolding apply_containment
  apply_containment_ends [] d db h = tt
  apply_containment_ends (round ∷ rounds) d db h =
      elim (Option-cases (attempt p r config round d db).0) [
        | inl again ↦ (
          attempt_again round d db again,
          apply_containment_ends rounds d (round.between db)
              (sym (ap (λ t. t.0) (loop_again round rounds d db again)) ∙ h),
        )
        | inr (o, done) ↦
            let e = ap (λ t. t.0) (loop_done round rounds d db o done) in
            let q : (attempt p r config round d db).0 ≡ none = sym e ∙ h in cc
      ]
