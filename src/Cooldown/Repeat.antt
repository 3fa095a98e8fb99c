-- ===== src/Cooldown/Repeat.antt =====
-- `filter_cooled_down` of detection_engine/cooldown.py on keys that an earlier call has set.
use rtace.Base.{
  ◌<◌, String, ◌≡◌, refl, ◌∙◌, inl, inr, Bool, true, List, [], ◌∷◌, eq_iff, arith, is_some, All,
  Option-cases,
}
use rtace.Platform.{Platform}
use rtace.Redis.{Redis}
use rtace.Config.{RedisConfig}
use rtace.Models.{DetectionEvent}
use rtace.Cooldown.{cooldown_key, set_nx, claim_all, filter_cooled_down}
use rtace.Cooldown.Window.{first_of, filter_cooled_down_first}

module _ (p : Platform) (r : Redis p.F p.fle) (config : RedisConfig p.F) where
  open r use {Db, lookup, set_ex, lookup-set_ex}

  -- the key is there
  abbrev there : Db → String → Bool
  there db j = is_some (lookup db j)

  set_nx-keeps :
      (key value : String) (db : Db) (j : String)
      → 0 < config.detection_cooldown_seconds
      → there db j ≡ true
      → there (set_nx p r config key config.detection_cooldown_seconds value db).1 j ≡ true
  unfolding set_nx
  set_nx-keeps key value db j pos h = elim (Option-cases (lookup db key)) [
    | inl new ↦
        rw (new, set_nx)
          (ground (arith, lookup-set_ex key j config.detection_cooldown_seconds value db pos, h))
    | inr (e, old) ↦ rw (old, set_nx) h
  ]

  set_nx-there :
      (key value : String) (db : Db)
      → 0 < config.detection_cooldown_seconds
      → there (set_nx p r config key config.detection_cooldown_seconds value db).1 key ≡ true
  unfolding set_nx
  set_nx-there key value db pos = elim (Option-cases (lookup db key)) [
    | inl new ↦
        rw (new, set_nx)
          (rw
            (
              lookup-set_ex key key config.detection_cooldown_seconds value db pos,
              (eq_iff key key).1 refl,
            )
            refl)
    | inr (e, old) ↦ rw (old, set_nx, old) refl
  ]

  claim_all-keeps :
      (ds : List (DetectionEvent p)) (db : Db) (j : String)
      → 0 < config.detection_cooldown_seconds
      → there db j ≡ true
      → there (claim_all p r config ds db).db j ≡ true
  unfolding claim_all
  claim_all-keeps [] db j pos h = h
  claim_all-keeps (d ∷ ds) db j pos h =
      claim_all-keeps ds _ j pos (set_nx-keeps (cooldown_key p d) d.detection_id db j pos h)

  -- After the SETs of some detections, the keys of all of them are there.
  pub claim_all-there :
      (ds : List (DetectionEvent p)) (db : Db)
      → 0 < config.detection_cooldown_seconds
      → All (λ d. there (claim_all p r config ds db).db (cooldown_key p d) ≡ true) ds
  unfolding claim_all
  claim_all-there [] db pos = tt
  claim_all-there (d ∷ ds) db pos = (
    claim_all-keeps ds _ (cooldown_key p d) pos
        (set_nx-there (cooldown_key p d) d.detection_id db pos),
    claim_all-there ds _ pos,
  )

  first_of-taken :
      (taken : String → Bool) (ds : List (DetectionEvent p))
      → All (λ d. taken (cooldown_key p d) ≡ true) ds
      → first_of p taken ds ≡ []
  first_of-taken taken [] h = refl
  first_of-taken taken (d ∷ ds) (hd, hs) = rw hd (first_of-taken taken ds hs)

  -- A second call for detections whose SETs have run, with nothing released in between, allows none
  -- of them.
  pub claimed_are_suppressed :
      (ds : List (DetectionEvent p)) (db : Db)
      → 0 < config.detection_cooldown_seconds
      → (filter_cooled_down p r config ds (claim_all p r config ds db).db).allowed ≡ []
  claimed_are_suppressed ds db pos =
      (filter_cooled_down_first p r config ds (claim_all p r config ds db).db pos).0
      ∙ first_of-taken _ ds (claim_all-there ds db pos)
