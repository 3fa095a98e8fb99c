-- ===== src/Containment/Writes.antt =====
-- What a transaction writes, read key by key.
use rtace.Base.{
  ℕ, ◌<◌, String, ◌≡◌, refl, ap, ◌∙◌, Bool, false, Option, none, some, List, [], ◌∷◌, ◌==◌, arith,
  All, if◌then◌else◌,
}
use rtace.Base.Text.{diverge, ne_of_diverge}
use rtace.Platform.{Platform}
use rtace.Redis.{Redis, Stored}
use rtace.Config.{RedisConfig, IsPositive}
use rtace.Models.{DetectionEvent}
use rtace.Enforcement.{
  quarantine_key, step_up_key, ip_block_key, quarantine_key_prefix, step_up_key_prefix,
  ip_block_key_prefix,
}
use rtace.Containment.{plan, commit, write_all, receipt_key, receipt_prefix}

module _ (i u : String) where
  pub receipt_key-ne-quarantine_key : (receipt_key i == quarantine_key u) ≡ false
  unfolding receipt_key quarantine_key diverge
  receipt_key-ne-quarantine_key = ne_of_diverge receipt_prefix quarantine_key_prefix refl _ _

  pub receipt_key-ne-step_up_key : (receipt_key i == step_up_key u) ≡ false
  unfolding receipt_key step_up_key diverge
  receipt_key-ne-step_up_key = ne_of_diverge receipt_prefix step_up_key_prefix refl _ _

  pub receipt_key-ne-ip_block_key : (receipt_key i == ip_block_key u) ≡ false
  unfolding receipt_key ip_block_key diverge
  receipt_key-ne-ip_block_key = ne_of_diverge receipt_prefix ip_block_key_prefix refl _ _

  pub quarantine_key-ne-receipt_key : (quarantine_key u == receipt_key i) ≡ false
  unfolding receipt_key quarantine_key diverge
  quarantine_key-ne-receipt_key = ne_of_diverge quarantine_key_prefix receipt_prefix refl _ _

  pub step_up_key-ne-receipt_key : (step_up_key u == receipt_key i) ≡ false
  unfolding receipt_key step_up_key diverge
  step_up_key-ne-receipt_key = ne_of_diverge step_up_key_prefix receipt_prefix refl _ _

  pub ip_block_key-ne-receipt_key : (ip_block_key u == receipt_key i) ≡ false
  unfolding receipt_key ip_block_key diverge
  ip_block_key-ne-receipt_key = ne_of_diverge ip_block_key_prefix receipt_prefix refl _ _

-- The expiry of the last write to the key.
abbrev pub ttl_of : String → List (String × ℕ) → Option ℕ
ttl_of j [] = none
ttl_of j ((k, ttl) ∷ writes) =
    let rest = ttl_of j writes in
    elim rest [ some t ↦ some t | none ↦ if k == j then some ttl else none ]

abbrev pub HasExpiry : String × ℕ → Type 0
HasExpiry (key, ttl) = 0 < ttl

-- The entry that a write with the expiry `t` leaves, over the old one.
abbrev pub overwritten : String → Option ℕ → Option Stored → Option Stored
overwritten id none old = old
overwritten id (some t) old = some (record { value = id; ttl = t })

module _ (p : Platform) (r : Redis p.F p.fle) (config : RedisConfig p.F) where
  open r use {Db, lookup, set_ex, lookup-set_ex}

  pub lookup-write_all :
      (id : String) (writes : List (String × ℕ)) (db : Db) (j : String)
      → All HasExpiry writes
      → lookup (write_all p r config id writes db) j
        ≡ overwritten id (ttl_of j writes) (lookup db j)
  unfolding write_all
  lookup-write_all id [] db j h = refl
  lookup-write_all id ((k, ttl) ∷ writes) db j h =
      lookup-write_all id writes (set_ex k ttl id db) j h.1
      ∙ ground (arith, lookup-set_ex k j ttl id db h.0)

  -- Every write of a plan has an expiry that Redis accepts.
  pub plan-HasExpiry :
      (pending : Bool) (d : DetectionEvent p)
      → IsPositive p.F config
      → All HasExpiry (plan p r config pending d).1
  unfolding plan
  plan-HasExpiry pending d h = ground arith

  -- A plan with no action has no write.
  pub plan_empty :
      (pending : Bool) (d : DetectionEvent p)
      → (plan p r config pending d).0 ≡ []
      → (plan p r config pending d).1 ≡ []
  unfolding plan
  plan_empty pending d h = ground arith

  -- Of a key that is not the receipt, the transaction changes what its writes say.
  pub lookup-commit :
      (d : DetectionEvent p) (actions : List String) (writes : List (String × ℕ)) (db : Db)
      (j : String)
      → IsPositive p.F config
      → All HasExpiry writes
      → (receipt_key d.detection_id == j) ≡ false
      → lookup (commit p r config d actions writes db) j
        ≡ overwritten d.detection_id (ttl_of j writes) (lookup db j)
  unfolding commit
  lookup-commit d actions writes db j c h other =
      lookup-write_all d.detection_id writes _ j h
      ∙ ap (overwritten d.detection_id (ttl_of j writes))
          (rw (lookup-set_ex _ j _ _ db c.receipt, other))
