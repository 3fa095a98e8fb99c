-- ===== src/Detectors/Geo.antt =====
-- detection_engine/geo_velocity_detector.py: impossible travel.
use rtace.Base.{String, ◌++◌, Option, none, some, List, [], ◌∷◌, if◌then◌else◌}
use rtace.Platform.{Platform, Json, double, array, nil, cons}
use rtace.Config.{RedisConfig}
use rtace.Models.{TransactionEvent, DetectionEvent}
use rtace.Scripts.{TxResult, anomaly}
use rtace.Detectors.{Fresh, about}

module _ (p : Platform) where
  open p use {F, of_nat, flt, fadd, fsub, fmul, fdiv, pi, fsin, fcos, fasin, fsqrt, parse}

  unfoldable pub session_key : String → String
  session_key user_id = "session:" ++ user_id

  -- The reference implementation of the distance.
  pub radians : F → F
  radians x = fmul x (fdiv pi (of_nat 180))

  unfoldable pub haversine_km : F → F → F → F → F
  unfolding radians
  haversine_km lat1 lon1 lat2 lon2 =
      let phi1 = radians lat1 in
      let phi2 = radians lat2 in
      let dphi = radians (fsub lat2 lat1) in
      let dlambda = radians (fsub lon2 lon1) in
      let half_phi = fsin (fdiv dphi (of_nat 2)) in
      let half_lambda = fsin (fdiv dlambda (of_nat 2)) in
      let a =
        fadd (fmul half_phi half_phi)
          (fmul (fmul (fcos phi1) (fcos phi2)) (fmul half_lambda half_lambda)) in
      let least = if flt (of_nat 1) a then of_nat 1 else a in
      fmul (fmul (of_nat 2) (of_nat 6371)) (fasin (fsqrt least))

  abbrev pair : F → F → Json F
  pair a b = array (cons (double a) (cons (double b) nil))

  unfoldable pub details_of : TransactionEvent p → TxResult → RedisConfig F → List (String × Json F)
  details_of tx result config =
      ("distance_km", double (parse result.distance_km))
      ∷ ("elapsed_seconds", double (parse result.elapsed_s))
      ∷ ("velocity_kmh", double (parse result.velocity_kmh))
      ∷ ("threshold_kmh", double config.geo_max_velocity_kmh)
      ∷ ("from_location", pair (parse result.prev_lat) (parse result.prev_lon))
      ∷ ("to_location", pair tx.latitude tx.longitude)
      ∷ []

  unfoldable pub interpret :
      Fresh p → TransactionEvent p → TxResult → RedisConfig F → Option (DetectionEvent p)
  interpret f tx result config = elim result.geo_status [
    | anomaly ↦ some (about p f "geo" "geo_velocity_anomaly" tx (details_of tx result config))
    | _ ↦ none
  ]
