-- ===== src/Detection/Identity.antt =====
-- The stable ids of detection_engine/pipeline.py, over a whole batch.
use rtace.Base.{ℕ, String, ◌++◌, ◌==◌, ◌&&◌, not, if◌then◌else◌, ◌≡◌, Option, List, [], ◌∷◌}
use rtace.Platform.{Platform}
use rtace.Redis.{Redis}
use rtace.Config.{RedisConfig}
use rtace.Models.{DetectionEvent, stable_detection_id}
use rtace.Detectors.{Fresh}
use rtace.Detection.{Decision, Item, id_prefix, scope_or}

module _ (p : Platform) (r : Redis p.F p.fle) (config : RedisConfig p.F)
    (loads_decision : String → Option (Decision p.F)) (fresh : ℕ → String → Fresh p) where
  open r use {Db}

  abbrev pub refs : List (Item p) → List String
  refs [] = []
  refs (it ∷ items) = it.ref ∷ refs items

  -- the text is in the list
  pub data Among (s : String) : List String → Type 0 where
    at : {l : List String} → Among s (s ∷ l)
    later : {t : String} {l : List String} → Among s l → Among s (t ∷ l)

  -- The id of a detection of this type and scope that a delivery gives rise to. The scope also stands in
  -- the prefix where it tells two detections of credential stuffing apart.
  abbrev pub id_for : String → String → String → String
  id_for ref detection_type scope =
      stable_detection_id p
        (if detection_type == "credential_stuffing" && not (scope == "")
          then id_prefix detection_type ++ ("-" ++ scope)
          else id_prefix detection_type)
        ref detection_type scope

  -- The detection carries the id of one of the deliveries, for its type and scope.
  abbrev pub IsStable : List String → DetectionEvent p → Type 0
  IsStable l d =
      (ref : String) × Among ref l
      × (d.detection_id ≡ id_for ref d.detection_type (scope_or p "" d))
