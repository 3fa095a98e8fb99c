-- ===== src/Cooldown/Window.antt =====
-- Which detections pass the cooldown.
use rtace.Base.{
  ℕ, ◌+◌, ◌<◌, String, ◌≡◌, refl, ap, ◌∙◌, inl, inr, Bool, false, ◌||◌, none, some, List, [], ◌∷◌,
  map, ◌==◌, leb, arith, length, is_some, if◌then◌else◌, Option-cases,
}
use mathlib.Core.Path.{fun_ext}
use rtace.Platform.{Platform}
use rtace.Redis.{Redis, Stored}
use rtace.Config.{RedisConfig}
use rtace.Models.{DetectionEvent}
use rtace.Cooldown.{cooldown_key, set_nx, claim_all, sort_out, filter_cooled_down, Filtered}

module _ (p : Platform) where
  -- The specification, with no database: a detection passes unless its key is taken, and then takes
  -- it.
  abbrev pub first_of : (String → Bool) → List (DetectionEvent p) → List (DetectionEvent p)
  first_of taken [] = []
  first_of taken (d ∷ ds) =
      let kept = first_of taken ds in
      let rest = first_of (λ k. (cooldown_key p d == k) || taken k) ds in
      if taken (cooldown_key p d) then kept else d ∷ rest

module _ (p : Platform) (r : Redis p.F p.fle) (config : RedisConfig p.F) where
  open r use {Db, lookup, set_ex, lookup-set_ex}

  abbrev ttl : ℕ
  ttl = config.detection_cooldown_seconds

  -- The part of `filter_cooled_down` that talks to Redis.
  abbrev pub claimed_out : List (DetectionEvent p) → Db → Filtered p Db
  claimed_out ds db =
      sort_out p r config ds (claim_all p r config ds db).acquired (claim_all p r config ds db).db

  -- One detection more, whose key is not there.
  abbrev with_new : DetectionEvent p → Filtered p Db → Filtered p Db
  with_new d f = record f { allowed = d ∷ f.allowed; claimed = cooldown_key p d ∷ f.claimed }

  -- One detection more, whose key is there.
  abbrev with_old : DetectionEvent p → Filtered p Db → Filtered p Db
  with_old d f = record f { suppressed = d.detection_type ∷ f.suppressed }

  module _ (d : DetectionEvent p) (ds : List (DetectionEvent p)) (db : Db) where
    pub claimed_out_new :
        lookup db (cooldown_key p d) ≡ none
        → claimed_out (d ∷ ds) db
          ≡ with_new d (claimed_out ds (set_ex (cooldown_key p d) ttl d.detection_id db))
    unfolding claim_all sort_out set_nx
    claimed_out_new h = rw (h, set_nx)

    pub claimed_out_old :
        (e : Stored)
        → lookup db (cooldown_key p d) ≡ some e
        → claimed_out (d ∷ ds) db ≡ with_old d (claimed_out ds db)
    unfolding claim_all sort_out set_nx
    claimed_out_old e h = rw (h, set_nx)

  pub on : (n : ℕ) → 0 < n → leb n 0 ≡ false
  on n pos = ground arith

  taken_after :
      (k v : String) (db : Db)
      → 0 < ttl
      → ◌≡◌ {A = String → Bool}
          (λ j. is_some (lookup (set_ex k ttl v db) j))
          (λ j. (k == j) || is_some (lookup db j))
  taken_after k v db pos = fun_ext λ j. ground (arith, lookup-set_ex k j ttl v db pos)

  claimed_out-first_of :
      (ds : List (DetectionEvent p)) (db : Db)
      → 0 < ttl
      → ((claimed_out ds db).allowed ≡ first_of p (λ j. is_some (lookup db j)) ds)
        × ((claimed_out ds db).claimed ≡ map (cooldown_key p) (claimed_out ds db).allowed)
        × (length (claimed_out ds db).allowed + length (claimed_out ds db).suppressed ≡ length ds)
  unfolding claim_all sort_out
  claimed_out-first_of [] db pos = (refl, refl, refl)
  claimed_out-first_of (d ∷ ds) db pos = elim (Option-cases (lookup db (cooldown_key p d))) [
    | inl new ↦
        let ih = claimed_out-first_of ds (set_ex (cooldown_key p d) ttl d.detection_id db) pos in
        rw (claimed_out_new d ds db new, new)
          (
            ap (λ l. d ∷ l) (ih.0 ∙ ap (λ t. first_of p t ds) (taken_after _ _ db pos)),
            ap (λ l. cooldown_key p d ∷ l) ih.1,
            omega (arith, ih.2),
          )
    | inr (e, old) ↦
        let ih = claimed_out-first_of ds db pos in
        rw (claimed_out_old d ds db e old, old) (ih.0, ih.1, omega (arith, ih.2))
  ]

  -- With a cooldown set, a detection passes exactly if its key is not there, neither in Redis
  -- before the call nor for an earlier detection of the batch: the first of each type and subject,
  -- in order. The keys claimed are those of the detections that pass, and every other detection is
  -- counted as suppressed.
  pub filter_cooled_down_first :
      (ds : List (DetectionEvent p)) (db : Db)
      → 0 < ttl
      → let f = filter_cooled_down p r config ds db in
        (f.allowed ≡ first_of p (λ j. is_some (lookup db j)) ds)
        × (f.claimed ≡ map (cooldown_key p) f.allowed)
        × (length f.allowed + length f.suppressed ≡ length ds)
  unfolding filter_cooled_down
  filter_cooled_down_first ds db pos = rw (on ttl pos) (claimed_out-first_of ds db pos)
