-- ===== src/Scripts/LateTests.antt =====
-- A transaction far from home, one at home an hour later, and the first one again.
use rtace.Base.{ℕ, String, ◌≡◌, ◌⊎◌, refl, true, arith}
use rtace.Platform.Signed.{ℤ, pos, signed}
use rtace.Redis.{Redis}
use rtace.Redis.Memory.{memory, nothing}
use rtace.Scripts.{
  TxArgs, anomaly, out_of_order, prescored, tx_check, claim_replay, status_of, score_unless, score,
  geo_of, compare_geo, haversine_km, session_of, whole_session, advance_window, advance_session,
  advances,
}
use rtace.Scripts.Late.{recheck_is_out_of_order}

abbrev server : Redis ℤ signed.fle
server = memory ℤ signed.fle

abbrev home : server.Db
home = server.hset "session:u1" "lat" (pos 0) (
    server.hset "session:u1" "lon" (pos 0)
      (server.hset "session:u1" "ts" (pos 0) (nothing ℤ signed.fle)))

abbrev seen_at : String → ℕ → ℕ → TxArgs ℤ
seen_at key time lat = record {
  replay_key = key;
  burst_key = "burst:u1:1m";
  session_key = "session:u1";
  record_ref = "tx-events:0:1";
  replay_ttl_s = 86400;
  event_id = "e1";
  now_ts = pos time;
  burst_cutoff = pos 0;
  burst_key_ttl_s = 120;
  latitude = pos lat;
  longitude = pos 0;
  session_ttl_s = 604800;
  max_velocity_kmh = pos 900;
  min_time_s = pos 1;
}

abbrev away : TxArgs ℤ
away = seen_at "replay:seen:a" 3600 50

abbrev back : TxArgs ℤ
back = seen_at "replay:seen:b" 7200 0

abbrev after_away : server.Db
after_away = (tx_check signed server away home).1

abbrev after_back : server.Db
after_back = (tx_check signed server back after_away).1

is_anomaly : (tx_check signed server away home).0.geo_status ≡ anomaly
unfolding memory tx_check claim_replay status_of score_unless score geo_of compare_geo haversine_km
    session_of whole_session advance_window advance_session
is_anomaly = refl

then_home : advances (tx_check signed server back after_away).0.geo_status ≡ true
unfolding memory tx_check claim_replay status_of score_unless score geo_of compare_geo haversine_km
    session_of whole_session advance_window advance_session
then_home = refl

-- the retry does not see the anomaly any more
forgotten : (tx_check signed server away after_back).0.geo_status ≡ out_of_order
unfolding memory tx_check claim_replay status_of score_unless score geo_of compare_geo haversine_km
    session_of whole_session advance_window advance_session
forgotten = refl

recheck_is_out_of_order_example :
    ((tx_check signed server away after_back).0.replay_status ≡ prescored)
    ⊎ ((tx_check signed server away after_back).0.geo_status ≡ out_of_order)
recheck_is_out_of_order_example =
    recheck_is_out_of_order signed server away back home (omega arith) (omega arith) (omega arith)
      (omega arith) refl refl then_home
