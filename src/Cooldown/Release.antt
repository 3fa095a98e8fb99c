-- ===== src/Cooldown/Release.antt =====
-- `release_cooldown` of detection_engine/cooldown.py, after a call of `filter_cooled_down`.
use rtace.Base.{
  ℕ, ◌<◌, String, ◌≡◌, refl, sym, ap, ◌∙◌, inl, inr, Bool, false, ◌||◌, none, List, [], ◌∷◌, ◌==◌,
  eq_iff, arith, if◌then◌else◌, Bool-cases, Option-cases,
}
use rtace.Platform.{Platform}
use rtace.Redis.{Redis}
use rtace.Config.{RedisConfig}
use rtace.Models.{DetectionEvent}
use rtace.Cooldown.{cooldown_key, claim_all, sort_out, filter_cooled_down, release_cooldown}
use rtace.Cooldown.Window.{claimed_out, claimed_out_new, claimed_out_old, on}

abbrev pub member : String → List String → Bool
member j [] = false
member j (k ∷ ks) = (k == j) || member j ks

if-else : {A : Type 0} (b : Bool) (x y : A) → b ≡ false → (if b then x else y) ≡ y
if-else b x y h = rw (h) refl

module _ (p : Platform) (r : Redis p.F p.fle) (config : RedisConfig p.F) where
  open r use {Db, lookup, set_ex, delete, lookup-set_ex, lookup-delete}

  abbrev ttl : ℕ
  ttl = config.detection_cooldown_seconds

  lookup-release :
      (ks : List String) (db : Db) (j : String)
      → lookup (release_cooldown p r config ks db) j ≡ (if member j ks then none else lookup db j)
  unfolding release_cooldown
  lookup-release [] db j = refl
  lookup-release (k ∷ ks) db j =
      lookup-release ks (delete k db) j ∙ ground (arith, lookup-delete k j db)

  -- A claimed key was not there, and the others are as they were.
  claimed_out-lookup :
      (ds : List (DetectionEvent p)) (db : Db) (j : String)
      → 0 < ttl
      → (if member j (claimed_out p r config ds db).claimed
          then none
          else lookup (claimed_out p r config ds db).db j)
        ≡ lookup db j
  unfolding claim_all sort_out
  claimed_out-lookup [] db j pos = refl
  claimed_out-lookup (d ∷ ds) db j pos = elim (Option-cases (lookup db (cooldown_key p d))) [
    | inl new ↦
        let db' = set_ex (cooldown_key p d) ttl d.detection_id db in
        rw (claimed_out_new p r config d ds db new) (elim (Bool-cases (cooldown_key p d == j)) [
          | inl same ↦ rw (same) (sym new ∙ ap (lookup db) ((eq_iff _ _).0 same))
          | inr other ↦ rw (other) (
              claimed_out-lookup ds db' j pos
              ∙ lookup-set_ex (cooldown_key p d) j ttl d.detection_id db pos
              ∙ if-else _ _ _ other)
        ])
    | inr (e, old) ↦ rw (claimed_out_old p r config d ds db e old) (claimed_out-lookup ds db j pos)
  ]

  -- Releasing the keys that a call claimed undoes the call: every text key reads as before it.
  pub release_undoes :
      (ds : List (DetectionEvent p)) (db : Db) (j : String)
      → 0 < ttl
      → let f = filter_cooled_down p r config ds db in
        lookup (release_cooldown p r config f.claimed f.db) j ≡ lookup db j
  unfolding filter_cooled_down
  release_undoes ds db j pos = rw (on p r config ttl pos) (
      lookup-release (claimed_out p r config ds db).claimed (claimed_out p r config ds db).db j
      ∙ claimed_out-lookup ds db j pos)
