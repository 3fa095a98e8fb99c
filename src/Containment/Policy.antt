-- ===== src/Containment/Policy.antt =====
-- The containment policy: which rules are in force after a detection has been applied.
use rtace.Base.{
  ℕ, String, ◌≡◌, refl, sym, ◌∙◌, subst, Bool, true, false, Option, none, some, List, [], ◌∷◌, All,
  ◌==◌, eq_iff, ◌||◌, ◌&&◌, arith, if◌then◌else◌,
}
use rtace.Platform.{Platform}
use rtace.Redis.{Redis, Stored}
use rtace.Config.{RedisConfig, IsPositive}
use rtace.Models.{DetectionEvent}
use rtace.Enforcement.{exists, quarantine_key, step_up_key, ip_block_key, sanitize_ip_for_key}
use rtace.Enforcement.Keys.{
  quarantine_key-eq, step_up_key-eq, ip_block_key-eq, quarantine_key-ne-step_up_key,
  quarantine_key-ne-ip_block_key, step_up_key-ne-quarantine_key, step_up_key-ne-ip_block_key,
  ip_block_key-ne-quarantine_key, ip_block_key-ne-step_up_key,
}
use rtace.Containment.{plan, receipt_key, is_hard, is_ip_scope, present, or_empty}
use rtace.Containment.Atomic.{atomic, settle}
use rtace.Containment.Writes.{
  ttl_of, overwritten, plan-HasExpiry, plan_empty, lookup-commit, HasExpiry,
  receipt_key-ne-quarantine_key, receipt_key-ne-step_up_key, receipt_key-ne-ip_block_key,
}

-- The types are told apart: the tests of the policy do not overlap.
geo_only :
    (t : String)
    → (t == "geo_velocity_anomaly") ≡ true
    → (is_hard t ≡ false) × ((t == "credential_stuffing") ≡ false)
geo_only t h = subst Apart (sym ((eq_iff t "geo_velocity_anomaly").0 h)) (refl, refl)
  where
    Apart : String → Type 0
    Apart x = (is_hard x ≡ false) × ((x == "credential_stuffing") ≡ false)

stuffing_only : (t : String) → (t == "credential_stuffing") ≡ true → is_hard t ≡ false
stuffing_only t h = subst (λ x. is_hard x ≡ false) (sym ((eq_iff t "credential_stuffing").0 h)) refl

module _ (p : Platform) (r : Redis p.F p.fle) (config : RedisConfig p.F) where
  open r use {Db, lookup}

  lookup-settle :
      (d : DetectionEvent p) (todo : List String × List (String × ℕ)) (db : Db) (j : String)
      → IsPositive p.F config
      → All HasExpiry todo.1
      → (todo.0 ≡ [] → todo.1 ≡ [])
      → (receipt_key d.detection_id == j) ≡ false
      → lookup (settle p r config d todo db).1 j
        ≡ overwritten d.detection_id (ttl_of j todo.1) (lookup db j)
  lookup-settle d ([], writes) db j c h empty other = rw (empty refl)
  lookup-settle d (action ∷ actions, writes) db j c h empty other =
      lookup-commit p r config d (action ∷ actions) writes db j c h other

  pub lookup-atomic :
      (d : DetectionEvent p) (db : Db) (j : String)
      → IsPositive p.F config
      → lookup db (receipt_key d.detection_id) ≡ none
      → (receipt_key d.detection_id == j) ≡ false
      → lookup (atomic p r config d db).1 j
        ≡ overwritten d.detection_id
            (ttl_of j (plan p r config (exists r db (step_up_key d.user_id)) d).1)
            (lookup db j)
  unfolding atomic
  lookup-atomic d db j c fresh other =
      rw (fresh, atomic)
        (lookup-settle d (plan p r config (exists r db (step_up_key d.user_id)) d) db j c
          (plan-HasExpiry p r config _ d c) (plan_empty p r config _ d) other)

  -- The policy, by the type of the detection and what it carries.
  abbrev pub is_geo : DetectionEvent p → Bool
  is_geo d = d.detection_type == "geo_velocity_anomaly"

  abbrev pub is_stuffing : DetectionEvent p → Bool
  is_stuffing d = d.detection_type == "credential_stuffing"

  -- The detection quarantines the user `u`: hard signals and credential stuffing always, a geo
  -- anomaly where a step-up is pending.
  abbrev pub quarantines : Bool → DetectionEvent p → String → Bool
  quarantines pending d u =
      (is_hard d.detection_type || is_stuffing d || is_geo d && pending) && d.user_id == u

  abbrev pub steps_up : DetectionEvent p → String → Bool
  steps_up d u = is_geo d && d.user_id == u

  -- only an IP-scope detection that names its address
  abbrev pub blocks : DetectionEvent p → String → Bool
  blocks d ip =
      is_stuffing d
      && is_ip_scope d.details
      && present d.ip_address
      && sanitize_ip_for_key (or_empty d.ip_address) == sanitize_ip_for_key ip

  abbrev pub ruled : Bool → String → ℕ → Option Stored → Option Stored
  ruled b id ttl old = if b then some (record { value = id; ttl = ttl }) else old

  plan-quarantines :
      (pending : Bool) (d : DetectionEvent p) (u : String) (old : Option Stored)
      → overwritten d.detection_id (ttl_of (quarantine_key u) (plan p r config pending d).1) old
        ≡ ruled (quarantines pending d u) d.detection_id config.quarantine_ttl_seconds old
  unfolding plan
  plan-quarantines pending d u old = ground (
    arith,
    geo_only d.detection_type,
    quarantine_key-eq d.user_id u,
    step_up_key-ne-quarantine_key d.user_id u,
    ip_block_key-ne-quarantine_key (or_empty d.ip_address) u,
  )

  plan-steps_up :
      (pending : Bool) (d : DetectionEvent p) (u : String) (old : Option Stored)
      → overwritten d.detection_id (ttl_of (step_up_key u) (plan p r config pending d).1) old
        ≡ ruled (steps_up d u) d.detection_id config.step_up_ttl_seconds old
  unfolding plan
  plan-steps_up pending d u old = ground (
    arith,
    geo_only d.detection_type,
    step_up_key-eq d.user_id u,
    quarantine_key-ne-step_up_key d.user_id u,
    ip_block_key-ne-step_up_key (or_empty d.ip_address) u,
  )

  plan-blocks :
      (pending : Bool) (d : DetectionEvent p) (ip : String) (old : Option Stored)
      → overwritten d.detection_id (ttl_of (ip_block_key ip) (plan p r config pending d).1) old
        ≡ ruled (blocks d ip) d.detection_id config.ip_block_ttl_seconds old
  unfolding plan
  plan-blocks pending d ip old = ground (
    arith,
    stuffing_only d.detection_type,
    ip_block_key-eq (or_empty d.ip_address) ip,
    quarantine_key-ne-ip_block_key d.user_id ip,
    step_up_key-ne-ip_block_key d.user_id ip,
  )

  -- The policy. After the first delivery of a detection, the quarantine of each user, the step-up of
  -- each user and the block of each address is the detection's, with its configured time to live,
  -- exactly where the policy asks for it, and is what it was before everywhere else: a hard signal
  -- or credential stuffing quarantines its user, an IP-scope detection that names an address also
  -- blocks it, and a geo anomaly asks for step-up authentication, and quarantines its user exactly
  -- if a step-up was pending.
  pub atomic_policy :
      (d : DetectionEvent p) (db : Db)
      → IsPositive p.F config
      → lookup db (receipt_key d.detection_id) ≡ none
      → let db' = (atomic p r config d db).1 in
        let pending = exists r db (step_up_key d.user_id) in
        ((u : String)
          → lookup db' (quarantine_key u)
            ≡ ruled
                (quarantines pending d u)
                d.detection_id
                config.quarantine_ttl_seconds
                (lookup db (quarantine_key u)))
        × ((u : String)
            → lookup db' (step_up_key u)
              ≡ ruled
                  (steps_up d u)
                  d.detection_id
                  config.step_up_ttl_seconds
                  (lookup db (step_up_key u)))
        × ((ip : String)
            → lookup db' (ip_block_key ip)
              ≡ ruled
                  (blocks d ip)
                  d.detection_id
                  config.ip_block_ttl_seconds
                  (lookup db (ip_block_key ip)))
  atomic_policy d db c fresh =
      let pending = exists r db (step_up_key d.user_id) in
      (
        λ u.
            lookup-atomic d db (quarantine_key u) c fresh
              (receipt_key-ne-quarantine_key d.detection_id u)
            ∙ plan-quarantines pending d u (lookup db (quarantine_key u)),
        λ u.
            lookup-atomic d db (step_up_key u) c fresh (receipt_key-ne-step_up_key d.detection_id u)
            ∙ plan-steps_up pending d u (lookup db (step_up_key u)),
        λ ip.
            lookup-atomic d db (ip_block_key ip) c fresh
              (receipt_key-ne-ip_block_key d.detection_id ip)
            ∙ plan-blocks pending d ip (lookup db (ip_block_key ip)),
      )
