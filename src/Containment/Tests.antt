-- ===== src/Containment/Tests.antt =====
-- The containment of two geo anomalies of one user, and of their redelivery.
use rtace.Base.{
  ℕ, ◌≡◌, ◌≢◌, refl, sym, ◌∙◌, append, Option, none, some, List, [], ◌∷◌, arith, All, String,
}
use rtace.Platform.Sample.{sample}
use rtace.Redis.{Redis}
use rtace.Redis.Memory.{memory, nothing}
use rtace.Base.{leb}
use rtace.Config.{RedisConfig, IsPositive, default_config}
use rtace.Models.{DetectionEvent}
use rtace.Enforcement.{quarantine_key, step_up_key, ip_block_key, exists}
use rtace.Containment.{
  Round, executed, conflict, apply_containment, receipt_key, Outcome, returned, attempt, finish,
  execute, plan, commit,
}
use rtace.Containment.Atomic.{
  atomic, Watched, Seen, Explains, apply_containment-Explains, apply_containment_ends,
}
use rtace.Containment.Policy.{ruled, quarantines, steps_up, blocks, atomic_policy}
use rtace.Containment.Receipt.{begin, wait, deliver, redelivery_changes_nothing}
use rtace.Containment.Pipeline.{
  Containing, handle_detection, audits_of, counts_of, handle_detection_audits,
}

abbrev pub server : Redis ℕ leb
server = memory ℕ leb

abbrev pub config : RedisConfig ℕ
config = default_config 900

config-IsPositive : IsPositive ℕ config
config-IsPositive = omega arith

abbrev pub anomaly : String → DetectionEvent sample
anomaly id = record {
  detection_id = id;
  detection_type = "geo_velocity_anomaly";
  severity = "high";
  user_id = "u1";
  transaction_id = "t1";
  timestamp = 5;
  ip_address = none;
  details = [];
}

abbrev calm : Round sample server config
calm = record { between = λ db. db; verdict = executed }

abbrev pub contested : Round sample server config
contested = record {
  between = λ db. (atomic sample server config (anomaly "d0") db).1;
  verdict = conflict;
}

abbrev pub empty : server.Db
empty = nothing ℕ leb

-- the first delivery, and the second anomaly
abbrev once : server.Db
once = (atomic sample server config (anomaly "d1") empty).1

first_actions : (atomic sample server config (anomaly "d1") empty).0 ≡ "step_up_auth" ∷ []
unfolding memory atomic plan commit receipt_key step_up_key quarantine_key
first_actions = refl

second_actions :
    (atomic sample server config (anomaly "d2") once).0 ≡ "step_up_auth" ∷ "quarantine" ∷ []
unfolding memory atomic plan commit receipt_key step_up_key quarantine_key
second_actions = refl

contested_run :
    (apply_containment sample server config (contested ∷ calm ∷ []) (anomaly "d1") empty).0
    ≡ some (returned ("step_up_auth" ∷ "quarantine" ∷ []))
unfolding memory atomic plan commit receipt_key step_up_key quarantine_key apply_containment attempt
    finish execute
contested_run = refl

fresh : server.lookup empty (receipt_key "d1") ≡ none
unfolding memory
fresh = refl

-- other clients deliver another anomaly during the first pass, whose EXEC is then refused
abbrev rounds : List (Round sample server config)
rounds = contested ∷ calm ∷ []

rounds-Watched : Watched sample server config rounds (anomaly "d1") empty
rounds-Watched = ((λ ne. absurd (ne refl)), ((λ ne. (refl, refl)), tt))

apply_containment-Explains_example :
    (e : server.Db) × Seen sample server config rounds empty e
    × Explains sample server config
        (anomaly "d1")
        e
        (apply_containment sample server config rounds (anomaly "d1") empty)
apply_containment-Explains_example =
    apply_containment-Explains sample server config rounds (anomaly "d1") empty rounds-Watched

still_contested :
    (apply_containment sample server config (contested ∷ []) (anomaly "d1") empty).0 ≡ none
unfolding memory plan commit receipt_key step_up_key quarantine_key apply_containment attempt finish
    execute
still_contested = refl

apply_containment_ends_example :
    All (λ (round : Round sample server config). round.verdict ≡ conflict) (contested ∷ [])
apply_containment_ends_example =
    apply_containment_ends sample server config (contested ∷ []) (anomaly "d1") empty
      still_contested

atomic_policy_example :
    let db' = (atomic sample server config (anomaly "d1") empty).1 in
    let pending = exists server empty (step_up_key "u1") in
    ((u : String)
      → server.lookup db' (quarantine_key u)
        ≡ ruled sample server config
            (quarantines sample server config pending (anomaly "d1") u)
            "d1"
            3600
            (server.lookup empty (quarantine_key u)))
    × ((u : String)
        → server.lookup db' (step_up_key u)
          ≡ ruled sample server config
              (steps_up sample server config (anomaly "d1") u)
              "d1"
              900
              (server.lookup empty (step_up_key u)))
    × ((ip : String)
        → server.lookup db' (ip_block_key ip)
          ≡ ruled sample server config
              (blocks sample server config (anomaly "d1") ip)
              "d1"
              3600
              (server.lookup empty (ip_block_key ip)))
atomic_policy_example =
    atomic_policy sample server config (anomaly "d1") empty config-IsPositive fresh

some_action : (atomic sample server config (anomaly "d1") empty).0 ≢ []
some_action h = let q : ◌≡◌ {A = List String} ("step_up_auth" ∷ []) [] = sym first_actions ∙ h in cc

-- a minute later, after a second anomaly that escalated
abbrev minute_later : server.Db
minute_later = (atomic sample server config (anomaly "d2") (server.elapse 60 once)).1

redelivery_changes_nothing_example :
    atomic sample server config (anomaly "d1") minute_later
    ≡ ((atomic sample server config (anomaly "d1") empty).0, minute_later)
redelivery_changes_nothing_example =
    redelivery_changes_nothing sample server config (anomaly "d1") empty minute_later 60
      config-IsPositive fresh some_action (deliver (wait begin 60 refl) (anomaly "d2"))
      (omega arith)

abbrev engine_state : Containing ℕ server.Db
engine_state = record { db = empty; counts = []; audits = [] }

abbrev handled : Option Outcome × Containing ℕ server.Db
handled = handle_detection sample server config rounds (anomaly "d1") engine_state

handle_detection_audits_example :
    ((e : server.Db) × Seen sample server config rounds empty e
      × Explains sample server config (anomaly "d1") e (handled.0, handled.1.db))
    × (handled.1.audits ≡ append [] (audits_of sample server config (anomaly "d1") handled.0))
    × (handled.1.counts ≡ append [] (counts_of sample server config (anomaly "d1") handled.0))
handle_detection_audits_example =
    handle_detection_audits sample server config rounds (anomaly "d1") engine_state rounds-Watched
