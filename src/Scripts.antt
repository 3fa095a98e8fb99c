-- ===== src/Scripts.antt =====
-- lua/tx_check.lua and lua/auth_check.lua, which the detection engine runs through
-- detection_engine/scripts.py: one atomic call each, so a function of the database.
pub mod Baseline
pub mod Windows
pub mod Delivery
pub mod Late
mod Tests
mod LateTests
use rtace.Base.{
  ℕ, String, ◌++◌, Bool, true, false, ◌||◌, Option, none, some, List, [], ◌∷◌, ◌==◌, if◌then◌else◌,
}
use rtace.Number.{Number}
use rtace.Redis.{Redis, Stored}

pub data ReplayStatus : Type 0 where
  first redelivery prescored replay : ReplayStatus

pub data GeoStatus : Type 0 where
  baseline ok anomaly out_of_order skipped : GeoStatus

-- `geo_status == 'baseline' or geo_status == 'ok'`
abbrev pub advances : GeoStatus → Bool
advances baseline = true
advances ok = true
advances _ = false

-- What tx_check.lua returns, in the order of its fields.
pub record TxResult : Type 0 where
  pub replay_status : ReplayStatus
  pub stored_ref : String
  pub burst_count : ℕ
  pub geo_status : GeoStatus
  pub distance_km : String
  pub elapsed_s : String
  pub velocity_kmh : String
  pub prev_lat : String
  pub prev_lon : String

-- KEYS and ARGV of tx_check.lua.
pub record TxArgs (F : Type 0) : Type 0 where
  pub replay_key : String
  pub burst_key : String
  pub session_key : String
  pub record_ref : String
  pub replay_ttl_s : ℕ
  pub event_id : String
  pub now_ts : F
  pub burst_cutoff : F
  pub burst_key_ttl_s : ℕ
  pub latitude : F
  pub longitude : F
  pub session_ttl_s : ℕ
  pub max_velocity_kmh : F
  pub min_time_s : F

-- KEYS and ARGV of auth_check.lua.
pub record AuthArgs (F : Type 0) : Type 0 where
  pub user_key : String
  pub ip_key : String
  pub event_id : String
  pub now_ts : F
  pub cutoff : F
  pub key_ttl_s : ℕ

-- The trusted baseline that HMGET finds: all three fields, or none.
pub record Session (F : Type 0) : Type 0 where
  pub lat : F
  pub lon : F
  pub ts : F

-- The geo part of the result.
pub record Geo (F : Type 0) : Type 0 where
  pub status : GeoStatus
  pub dist : F
  pub elapsed : F
  pub vel : F
  pub prev_lat : String
  pub prev_lon : String

module _ (n : Number) where
  open n use {F, of_nat, flt, fle, fadd, fsub, fmul, fdiv, pi, fsin, fcos, fasin, fsqrt, fmt3, repr}

  unfoldable pub haversine_km : F → F → F → F → F
  haversine_km lat1 lon1 lat2 lon2 =
      let rad = fdiv pi (of_nat 180) in
      let dphi = fmul (fsub lat2 lat1) rad in
      let dl = fmul (fsub lon2 lon1) rad in
      let half_phi = fsin (fdiv dphi (of_nat 2)) in
      let half_l = fsin (fdiv dl (of_nat 2)) in
      let a =
        fadd (fmul half_phi half_phi)
          (fmul (fmul (fcos (fmul lat1 rad)) (fcos (fmul lat2 rad))) (fmul half_l half_l)) in
      let a' = if flt (of_nat 1) a then of_nat 1 else a in
      fmul (fmul (of_nat 2) (of_nat 6371)) (fasin (fsqrt a'))

  abbrev zero_km : F
  zero_km = of_nat 0

  -- The comparison with a baseline that is there.
  unfoldable pub compare_geo : TxArgs F → Session F → Geo F
  compare_geo args s =
      let elapsed = fsub args.now_ts s.ts in
      let dist = haversine_km s.lat s.lon args.latitude args.longitude in
      let longer = if flt elapsed args.min_time_s then args.min_time_s else elapsed in
      let vel = fdiv dist (fdiv longer (of_nat 3600)) in
      if flt elapsed (of_nat 0)
      then record {
        status = out_of_order;
        dist = zero_km;
        elapsed = elapsed;
        vel = zero_km;
        prev_lat = repr s.lat;
        prev_lon = repr s.lon;
      }
      else record {
        status = if flt args.max_velocity_kmh vel then anomaly else ok;
        dist = dist;
        elapsed = elapsed;
        vel = vel;
        prev_lat = repr s.lat;
        prev_lon = repr s.lon;
      }

  unfoldable pub geo_of : TxArgs F → Option (Session F) → Geo F
  geo_of args none = record {
    status = baseline;
    dist = zero_km;
    elapsed = zero_km;
    vel = zero_km;
    prev_lat = "";
    prev_lon = "";
  }
  geo_of args (some s) = compare_geo args s

  -- The status of a replay key that is there, by the delivery that it names.
  unfoldable pub status_of : String → TxArgs F → ReplayStatus
  status_of stored args =
      if stored == args.record_ref
      then redelivery
      else if stored == ("decision:" ++ args.event_id)
      then prescored
      else replay

  unfoldable pub whole_session : Option F → Option F → Option F → Option (Session F)
  whole_session (some lat) (some lon) (some ts) = some (record { lat = lat; lon = lon; ts = ts })
  whole_session (some lat) (some lon) none = none
  whole_session (some lat) none ts = none
  whole_session none lon ts = none

  module _ (r : Redis F fle) where
    open r use {Db, lookup, set_ex, zcard, zadd, zremrangebyscore, hget, hset, expire}

    -- SET NX EX, and GET when it set nothing.
    unfoldable pub claim_replay : TxArgs F → Db → (ReplayStatus × String) × Db
    claim_replay args db = elim (lookup db args.replay_key) [
      | none ↦
          ((first, args.record_ref), set_ex args.replay_key args.replay_ttl_s args.record_ref db)
      | some e ↦ ((status_of e.value args, e.value), db)
    ]

    -- ZREMRANGEBYSCORE, ZADD, ZCARD and EXPIRE of one window.
    unfoldable pub advance_window : String → String → F → F → ℕ → Db → ℕ × Db
    advance_window key event_id now cutoff ttl db =
        let added = zadd key now event_id (zremrangebyscore key cutoff db) in
        (zcard added key, expire key ttl added)

    -- HMGET of the session, and `s[1] and s[2] and s[3]`.
    unfoldable pub session_of : Db → String → Option (Session F)
    session_of db key = whole_session (hget db key "lat") (hget db key "lon") (hget db key "ts")

    unfoldable pub advance_session : TxArgs F → Db → Db
    advance_session args db = expire args.session_key args.session_ttl_s (
        hset args.session_key "ts" args.now_ts (
          hset args.session_key "lon" args.longitude
            (hset args.session_key "lat" args.latitude db)))

    -- Parts 2 and 3 of the script.
    unfoldable pub score : ReplayStatus → String → TxArgs F → Db → TxResult × Db
    score status stored args db =
        let (count, db1) =
          advance_window args.burst_key args.event_id args.now_ts args.burst_cutoff
            args.burst_key_ttl_s db in
        let geo = geo_of args (session_of db1 args.session_key) in
        let db2 = advance_session args db1 in
        (
          record {
            replay_status = status;
            stored_ref = stored;
            burst_count = count;
            geo_status = geo.status;
            distance_km = fmt3 geo.dist;
            elapsed_s = fmt3 geo.elapsed;
            velocity_kmh = fmt3 geo.vel;
            prev_lat = geo.prev_lat;
            prev_lon = geo.prev_lon;
          },
          (if advances geo.status then db2 else db1),
        )

    unfoldable pub untouched : String → TxResult
    untouched stored = record {
      replay_status = prescored;
      stored_ref = stored;
      burst_count = 0;
      geo_status = skipped;
      distance_km = "0";
      elapsed_s = "0";
      velocity_kmh = "0";
      prev_lat = "";
      prev_lon = "";
    }

    -- The early return for a transaction that the decision service has scored.
    unfoldable pub score_unless : ReplayStatus → String → TxArgs F → Db → TxResult × Db
    score_unless prescored stored args db = (untouched stored, db)
    score_unless first stored args db = score first stored args db
    score_unless redelivery stored args db = score redelivery stored args db
    score_unless replay stored args db = score replay stored args db

    unfoldable pub tx_check : TxArgs F → Db → TxResult × Db
    tx_check args db =
        let ((status, stored), db') = claim_replay args db in score_unless status stored args db'

    unfoldable pub auth_check : AuthArgs F → Db → (ℕ × ℕ) × Db
    auth_check args db =
        let (count_user, db1) =
          advance_window args.user_key args.event_id args.now_ts args.cutoff args.key_ttl_s db in
        let (count_ip, db2) =
          advance_window args.ip_key args.event_id args.now_ts args.cutoff args.key_ttl_s db1 in
        ((count_user, count_ip), db2)
