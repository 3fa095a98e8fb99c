-- ===== src/Detectors/Replay.antt =====
-- detection_engine/replay_detector.py: the same payload through another delivery.
use rtace.Base.{String, ◌++◌, Option, none, some, [], ◌∷◌}
use rtace.Platform.{Platform, text}
use rtace.Models.{TransactionEvent, DetectionEvent, replay_hash}
use rtace.Scripts.{ReplayStatus, first, redelivery, prescored, replay}
use rtace.Detectors.{Fresh, about}

module _ (p : Platform) where
  open p use {F, of_nat, flt, fadd, fsub, fmul, fdiv, pi, fsin, fcos, fasin, fsqrt, parse}

  unfoldable pub replay_key : TransactionEvent p → String
  replay_key tx = "replay:seen:" ++ replay_hash p tx

  unfoldable pub interpret :
      Fresh p → TransactionEvent p → ReplayStatus → String → Option (DetectionEvent p)
  interpret f tx replay stored_ref =
      some (about p f "replay" "replay_attack" tx (("first_seen_record", text stored_ref) ∷ []))
  interpret f tx first stored_ref = none
  interpret f tx redelivery stored_ref = none
  interpret f tx prescored stored_ref = none
