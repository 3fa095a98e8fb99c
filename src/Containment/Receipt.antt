-- ===== src/Containment/Receipt.antt =====
-- The receipt of containment_engine/containment_actions.py, and the redelivery of a detection.
use rtace.Base.{
  ℕ, zero, ◌+◌, ◌-◌, ◌<◌, String, ◌≡◌, refl, sym, ap, ◌∙◌, ◌≢◌, ◌⊎◌, inl, inr, Bool, false, none,
  some, List, [], ◌∷◌, ◌==◌, eq_iff, arith, All, Bool-cases, Option-cases,
}
use rtace.Platform.{Platform}
use rtace.Redis.{Redis, Stored}
use rtace.Config.{RedisConfig, IsPositive}
use rtace.Models.{DetectionEvent}
use rtace.Enforcement.{exists, step_up_key}
use rtace.Containment.{plan, commit, receipt_key, or_empty}
use rtace.Containment.Atomic.{atomic, settle}
use rtace.Containment.Policy.{lookup-atomic}
use rtace.Containment.Writes.{
  ttl_of, lookup-write_all, plan-HasExpiry, HasExpiry, quarantine_key-ne-receipt_key,
  step_up_key-ne-receipt_key, ip_block_key-ne-receipt_key,
}

module _ (p : Platform) (r : Redis p.F p.fle) (config : RedisConfig p.F) where
  open p use {F, dumps, loads, loads-dumps}
  open r use {Db, lookup, set_ex, delete, elapse, lookup-set_ex, lookup-delete, lookup-elapse}

  -- What happens to the database in `t` seconds: time passes, detections are delivered, again or
  -- for the first time, and clients write and delete keys other than the receipt of `d`.
  pub data Life (d : DetectionEvent p) : ℕ → Db → Db → Type 0 where
    begin : {db : Db} → Life d zero db db
    wait : {t u : ℕ} {a b : Db} → Life d t a b → (n : ℕ) → u ≡ t + n → Life d u a (elapse n b)
    deliver :
        {t : ℕ} {a b : Db}
        → Life d t a b
        → (e : DetectionEvent p) → Life d t a (atomic p r config e b).1
    write :
        {t : ℕ} {a b : Db}
        → Life d t a b
        → (key : String) (ttl : ℕ) (value : String) → 0 < ttl
        → (key == receipt_key d.detection_id) ≡ false
        → Life d t a (set_ex key ttl value b)
    remove :
        {t : ℕ} {a b : Db}
        → Life d t a b
        → (key : String) → (key == receipt_key d.detection_id) ≡ false
        → Life d t a (delete key b)

  -- the receipt of `d` for these actions, `t` seconds after it was written
  abbrev HasReceipt : DetectionEvent p → List String → ℕ → Db → Type 0
  HasReceipt d actions t db =
      lookup db (receipt_key d.detection_id)
      ≡ some (record { value = dumps actions; ttl = config.containment_receipt_ttl_seconds - t })

  plan_no_receipt :
      (pending : Bool) (e : DetectionEvent p) (i : String)
      → ttl_of (receipt_key i) (plan p r config pending e).1 ≡ none
  unfolding plan
  plan_no_receipt pending e i = ground (
    arith,
    quarantine_key-ne-receipt_key i e.user_id,
    step_up_key-ne-receipt_key i e.user_id,
    ip_block_key-ne-receipt_key i (or_empty e.ip_address),
  )

  atomic-prior :
      (e : DetectionEvent p) (db : Db) (prior : Stored)
      → lookup db (receipt_key e.detection_id) ≡ some prior
      → atomic p r config e db ≡ (loads prior.value, db)
  unfolding atomic
  atomic-prior e db prior h = rw (h, atomic)

  -- No delivery touches a receipt that is there.
  deliver-HasReceipt :
      (d e : DetectionEvent p) (actions : List String) (t : ℕ) (db : Db)
      → IsPositive p.F config
      → HasReceipt d actions t db
      → HasReceipt d actions t (atomic p r config e db).1
  deliver-HasReceipt d e actions t db c h =
      elim (Option-cases (lookup db (receipt_key e.detection_id))) [
        | inr (prior, q) ↦ rw (atomic-prior e db prior q) h
        | inl fresh ↦ elim (Bool-cases (receipt_key e.detection_id == receipt_key d.detection_id)) [
          | inl same ↦
              let k = ap (lookup db) ((eq_iff _ _).0 same) in
              let absurdity : none ≡ some _ = sym fresh ∙ k ∙ h in cc
          | inr other ↦
              lookup-atomic p r config e db _ c fresh other
              ∙ rw (plan_no_receipt (exists r db (step_up_key e.user_id)) e d.detection_id) h
        ]
      ]

  Life-HasReceipt :
      (d : DetectionEvent p) (actions : List String) {t : ℕ} {a b : Db}
      → IsPositive p.F config
      → HasReceipt d actions 0 a
      → Life d t a b
      → t < config.containment_receipt_ttl_seconds
      → HasReceipt d actions t b
  Life-HasReceipt d actions c h begin lt = h
  Life-HasReceipt d actions c h (wait {t = t} {u = u} {b = b} life n e) lt =
      lookup-elapse n b _ ∙ rw (Life-HasReceipt d actions c h life (omega arith)) (ground arith)
  Life-HasReceipt d actions c h (deliver {t = t} {b = b} life e) lt =
      deliver-HasReceipt d e actions t b c (Life-HasReceipt d actions c h life lt)
  Life-HasReceipt d actions c h (write {b = b} life key ttl value pos other) lt =
      lookup-set_ex key _ ttl value b pos ∙ rw other (Life-HasReceipt d actions c h life lt)
  Life-HasReceipt d actions c h (remove {b = b} life key other) lt =
      lookup-delete key _ b ∙ rw other (Life-HasReceipt d actions c h life lt)

  settle-HasReceipt :
      (d : DetectionEvent p) (todo : List String × List (String × ℕ)) (db : Db)
      → IsPositive p.F config
      → All HasExpiry todo.1
      → ttl_of (receipt_key d.detection_id) todo.1 ≡ none
      → ((settle p r config d todo db).0 ≡ [])
        ⊎ HasReceipt d (settle p r config d todo db).0 0 (settle p r config d todo db).1
  unfolding commit
  settle-HasReceipt d ([], writes) db c h apart = inl refl
  settle-HasReceipt d (action ∷ actions, writes) db c h apart = inr (
      lookup-write_all p r config d.detection_id writes _ _ h
      ∙ rw apart (
          lookup-set_ex _ _ config.containment_receipt_ttl_seconds _ db c.receipt
          ∙ rw ((eq_iff _ _).1 refl) (ground arith)))

  atomic-fresh :
      (d : DetectionEvent p) (db : Db)
      → lookup db (receipt_key d.detection_id) ≡ none
      → atomic p r config d db
        ≡ settle p r config d (plan p r config (exists r db (step_up_key d.user_id)) d) db
  unfolding atomic
  atomic-fresh d db h = rw (h, atomic)

  atomic-HasReceipt :
      (d : DetectionEvent p) (db : Db)
      → IsPositive p.F config
      → lookup db (receipt_key d.detection_id) ≡ none
      → ((atomic p r config d db).0 ≡ [])
        ⊎ HasReceipt d (atomic p r config d db).0 0 (atomic p r config d db).1
  atomic-HasReceipt d db c fresh =
      let pending = exists r db (step_up_key d.user_id) in
      rw (atomic-fresh d db fresh) (
        settle-HasReceipt d (plan p r config pending d) db c (plan-HasExpiry p r config pending d c)
          (plan_no_receipt pending d d.detection_id))

  -- Exactly once. A detection that calls for some action is applied for the first time, and its
  -- receipt's time to live has not passed since: whatever detections have been delivered in
  -- between, this one included, and whatever keys but the receipt other clients have written or
  -- deleted, a redelivery reports the actions of the first delivery and changes nothing. No rule
  -- is renewed, brought back or escalated by it.
  pub redelivery_changes_nothing :
      (d : DetectionEvent p) (db later : Db) (t : ℕ)
      → IsPositive p.F config
      → lookup db (receipt_key d.detection_id) ≡ none
      → (atomic p r config d db).0 ≢ []
      → Life d t (atomic p r config d db).1 later
      → t < config.containment_receipt_ttl_seconds
      → atomic p r config d later ≡ ((atomic p r config d db).0, later)
  redelivery_changes_nothing d db later t c fresh some_action life lt =
      elim (atomic-HasReceipt d db c fresh) [
        | inl empty ↦ absurd (some_action empty)
        | inr kept ↦
            atomic-prior d later _ (Life-HasReceipt d _ c kept life lt)
            ∙ ap (λ (l : List String). (l, later)) (loads-dumps _)
      ]
