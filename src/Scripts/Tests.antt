-- ===== src/Scripts/Tests.antt =====
-- A transaction, its redelivery, and the same payload through another delivery.
use rtace.Base.{ℕ, ◌≡◌, ◌⊎◌, refl, none, String, leb, arith}
use rtace.Platform.Sample.{whole}
use rtace.Redis.{Redis}
use rtace.Redis.Memory.{memory, nothing}
use rtace.Scripts.{
  TxArgs, first, prescored, replay, baseline, tx_check, status_of, claim_replay, score,
  score_unless, geo_of, advance_window, advance_session, session_of, whole_session,
}
use rtace.Scripts.{AuthArgs, auth_check}
use rtace.Scripts.Windows.{entered, auth_check_windows}
use rtace.Redis.{Stored, untrimmed}
use rtace.Base.{inl, some, ◌||◌, ◌==◌, if◌then◌else◌}
use rtace.Scripts.Delivery.{second_delivery}
use rtace.Scripts.Baseline.{trusted, tx_check_keeps_trust}

abbrev server : Redis ℕ leb
server = memory ℕ leb

abbrev delivery : String → ℕ → TxArgs ℕ
delivery ref now = record {
  replay_key = "replay:seen:h";
  burst_key = "burst:u1:1m";
  session_key = "session:u1";
  record_ref = ref;
  replay_ttl_s = 86400;
  event_id = "e1";
  now_ts = now;
  burst_cutoff = 0;
  burst_key_ttl_s = 120;
  latitude = 1;
  longitude = 2;
  session_ttl_s = 604800;
  max_velocity_kmh = 900;
  min_time_s = 1;
}

abbrev once : server.Db
once = (tx_check whole server (delivery "tx-events:0:1" 9) (nothing ℕ leb)).1

first_seen : server.lookup (nothing ℕ leb) "replay:seen:h" ≡ none
unfolding memory
first_seen = refl

becomes_baseline :
    (tx_check whole server (delivery "tx-events:0:1" 9) (nothing ℕ leb)).0.geo_status ≡ baseline
unfolding memory tx_check claim_replay score_unless score geo_of session_of whole_session
    advance_window
becomes_baseline = refl

counted_once : (tx_check whole server (delivery "tx-events:0:1" 9) once).0.burst_count ≡ 1
unfolding memory tx_check claim_replay score_unless score geo_of session_of whole_session
    advance_window advance_session status_of
counted_once = refl

-- a minute later
abbrev later : server.Db
later = server.elapse 60 once

abbrev claim : ℕ → Stored
claim ttl = record { value = "tx-events:0:1"; ttl = ttl }

claims :
    (server.lookup once "replay:seen:h" ≡ some (claim 86400))
    × (server.lookup later "replay:seen:h" ≡ some (claim 86340))
unfolding memory tx_check claim_replay score_unless score geo_of session_of whole_session
    advance_window advance_session
claims = (refl, refl)

second_delivery_example :
    ((tx_check whole server (delivery "tx-events:0:1" 9) (nothing ℕ leb)).0.replay_status ≡ first)
    × ((tx_check whole server (delivery "tx-events:0:2" 9) later).0.replay_status ≡ replay)
    × ((tx_check whole server (delivery "tx-events:0:2" 9) later).0.stored_ref ≡ "tx-events:0:1")
second_delivery_example =
    second_delivery whole server (delivery "tx-events:0:1" 9) (delivery "tx-events:0:2" 9)
      (nothing ℕ leb) later (claim 86400) (claim 86340) (omega arith) (refl, refl) first_seen refl
      claims.0 claims.1 refl

tx_check_keeps_trust_example :
    let after = tx_check whole server (delivery "tx-events:0:2" 9) once in
    (session_of whole server after.1 "session:u1"
      ≡ trusted whole server after.0.geo_status
          (delivery "tx-events:0:2" 9)
          (session_of whole server once "session:u1"))
    × ((after.0.replay_status ≡ prescored)
        ⊎ (after.0.geo_status
            ≡ (geo_of whole
                (delivery "tx-events:0:2" 9)
                (session_of whole server once "session:u1")).status))
tx_check_keeps_trust_example =
    tx_check_keeps_trust whole server (delivery "tx-events:0:2" 9) once (omega arith) (omega arith)

abbrev attempt : AuthArgs ℕ
attempt = record {
  user_key = "auth:fail:user:u1:1m";
  ip_key = "auth:fail:ip:10.0.0.1:1m";
  event_id = "a1";
  now_ts = 100;
  cutoff = 40;
  key_ttl_s = 120;
}

-- an attempt of a minute ago is in the window of the user
abbrev earlier : server.Db
earlier = server.zadd "auth:fail:user:u1:1m" 40 "a0" (nothing ℕ leb)

abbrev tried : server.Db
tried = (auth_check whole server attempt earlier).1

counts : (auth_check whole server attempt earlier).0 ≡ (1, 1)
unfolding memory auth_check advance_window
counts = refl

auth_check_windows_example :
    (server.zscore tried "auth:fail:user:u1:1m" "a1" ≡ some 100)
    × (untrimmed leb 40 (server.zscore tried "auth:fail:user:u1:1m" "a0")
        ≡ server.zscore tried "auth:fail:user:u1:1m" "a0")
    × ((j i : String)
        → server.zscore tried j i ≡ (
            if ("auth:fail:user:u1:1m" == j) || ("auth:fail:ip:10.0.0.1:1m" == j)
            then entered whole server "a1" 100 40 i (server.zscore earlier j i)
            else server.zscore earlier j i))
    × ((j i : String)
        → server.zscore (auth_check whole server attempt tried).1 j i ≡ server.zscore tried j i)
auth_check_windows_example =
    auth_check_windows whole server attempt earlier "auth:fail:user:u1:1m" "a0" (omega arith) refl
      (inl refl)
