-- ===== src/Cooldown.antt =====
-- detection_engine/cooldown.py: the first detection of a type about a subject reserves a key, and
-- repeats are suppressed while the key lives.
pub mod Release
pub mod Repeat
pub mod Window
mod Tests
use rtace.Base.{
  ℕ, String, ◌++◌, Bool, true, false, ◌&&◌, Option, none, some, List, [], ◌∷◌, ◌==◌, leb, append,
  if◌then◌else◌,
}
use rtace.Platform.{Platform}
use rtace.Redis.{Redis}
use rtace.Config.{RedisConfig}
use rtace.Models.{DetectionEvent}
use rtace.Enforcement.{replace}
use rtace.Containment.{is_ip_scope, present, or_empty}

-- SET key value NX EX ttl: the reply, and the database.
pub record Claims (Db : Type 0) : Type 0 where
  pub acquired : List Bool
  pub db : Db

module _ (p : Platform) where
  -- The address for a detection of IP scope that names one, and otherwise the user.
  unfoldable pub cooldown_subject : DetectionEvent p → String
  cooldown_subject d =
      if is_ip_scope d.details && present d.ip_address
      then "ip:" ++ replace ":" "-" (or_empty d.ip_address)
      else "user:" ++ d.user_id

  unfoldable pub cooldown_key : DetectionEvent p → String
  cooldown_key d = "cooldown:" ++ (d.detection_type ++ (":" ++ cooldown_subject d))

-- What `filter_cooled_down` returns and does: the allowed detections, the keys that it set, the types
-- of the suppressed ones (`detections_suppressed_total`), and the database.
pub record Filtered (p : Platform) (Db : Type 0) : Type 0 where
  pub allowed : List (DetectionEvent p)
  pub claimed : List String
  pub suppressed : List String
  pub db : Db

module _ (p : Platform) (r : Redis p.F p.fle) (config : RedisConfig p.F) where
  open r use {Db, lookup, set_ex, delete}

  -- `SET key value NX EX ttl`: it sets only a key that is not there, and says whether it did.
  unfoldable pub set_nx : String → ℕ → String → Db → Bool × Db
  set_nx key ttl value db = elim (lookup db key) [
    | none ↦ (true, set_ex key ttl value db)
    | some _ ↦ (false, db)
  ]

  -- The pipeline of SET commands, and its replies.
  unfoldable pub claim_all : List (DetectionEvent p) → Db → Claims Db
  claim_all [] db = record { acquired = []; db = db }
  claim_all (d ∷ ds) db =
      let (ok, db') =
        set_nx (cooldown_key p d) config.detection_cooldown_seconds d.detection_id db in
      let rest = claim_all ds db' in record { acquired = ok ∷ rest.acquired; db = rest.db }

  -- `zip(detections, acquired)`, into what is allowed, claimed and suppressed.
  unfoldable pub sort_out : List (DetectionEvent p) → List Bool → Db → Filtered p Db
  sort_out [] oks db = record { allowed = []; claimed = []; suppressed = []; db = db }
  sort_out (d ∷ ds) [] db = record { allowed = []; claimed = []; suppressed = []; db = db }
  sort_out (d ∷ ds) (ok ∷ oks) db =
      let rest = sort_out ds oks db in
      if ok
      then record rest { allowed = d ∷ rest.allowed; claimed = cooldown_key p d ∷ rest.claimed }
      else record rest { suppressed = d.detection_type ∷ rest.suppressed }

  unfoldable pub filter_cooled_down : List (DetectionEvent p) → Db → Filtered p Db
  filter_cooled_down ds db =
      let claims = claim_all ds db in
      if leb config.detection_cooldown_seconds 0
      then record { allowed = ds; claimed = []; suppressed = []; db = db }
      else sort_out ds claims.acquired claims.db

  -- One DEL of all the keys.
  unfoldable pub release_cooldown : List String → Db → Db
  release_cooldown [] db = db
  release_cooldown (k ∷ ks) db = release_cooldown ks (delete k db)

  abbrev nonempty : List (DetectionEvent p) → Bool
  nonempty [] = false
  nonempty (d ∷ ds) = true

  unfoldable pub should_emit : DetectionEvent p → Db → Bool
  should_emit d db = nonempty (filter_cooled_down (d ∷ []) db).allowed
