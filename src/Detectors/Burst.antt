-- ===== src/Detectors/Burst.antt =====
-- detection_engine/fraud_burst_detector.py: too many transactions in a window.
use rtace.Base.{ℕ, String, ◌++◌, Option, none, some, [], ◌∷◌, leb, if◌then◌else◌}
use rtace.Platform.{Platform, integer}
use rtace.Config.{RedisConfig}
use rtace.Models.{TransactionEvent, DetectionEvent}
use rtace.Detectors.{Fresh, about}

module _ (p : Platform) where
  open p use {F, of_nat, flt, fadd, fsub, fmul, fdiv, pi, fsin, fcos, fasin, fsqrt, parse}

  unfoldable pub burst_key : String → String
  burst_key user_id = "burst:" ++ (user_id ++ ":1m")

  unfoldable pub interpret :
      Fresh p → TransactionEvent p → ℕ → RedisConfig F → Option (DetectionEvent p)
  interpret f tx count config =
      if leb count config.burst_threshold
      then none
      else some (
          about p f "burst" "fraud_burst" tx (
            ("count_in_window", integer count)
            ∷ ("window_seconds", integer config.burst_window_seconds)
            ∷ ("threshold", integer config.burst_threshold)
            ∷ []))
