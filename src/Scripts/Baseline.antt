-- ===== src/Scripts/Baseline.antt =====
-- The trusted baseline of the geo check: who may move it.
use rtace.Base.{
  ℕ, ◌<◌, String, ◌≡◌, ◌⊎◌, subst, refl, sym, ap, ◌∙◌, inl, inr, Option, some, ◌==◌, eq_iff,
  if◌then◌else◌, Bool-cases, Option-cases,
}
use rtace.Number.{Number}
use rtace.Redis.{Redis}
use rtace.Scripts.{
  ReplayStatus, first, redelivery, prescored, replay, TxResult, TxArgs, claim_replay, score,
  score_unless, untouched, tx_check, geo_of, advances, advance_window, advance_session, session_of,
  whole_session, Session, Geo, GeoStatus, baseline, ok, anomaly, out_of_order, skipped,
}

module _ (n : Number) (r : Redis n.F n.fle) where
  open n use {F, fle}
  open r use {
    Db, lookup, hget, hset, hget-hset, hget-zadd, hget-zremrangebyscore, hget-set_ex, hget-expire,
  }

  hget-advance_window :
      (key event_id : String) (now cutoff : F) (ttl : ℕ) (db : Db) (k g : String)
      → 0 < ttl
      → hget (advance_window n r key event_id now cutoff ttl db).1 k g ≡ hget db k g
  unfolding advance_window
  hget-advance_window key event_id now cutoff ttl db k g pos =
      hget-expire key ttl _ k g pos
      ∙ hget-zadd key event_id now _ k g
      ∙ hget-zremrangebyscore key cutoff db k g

  hget-claim_replay :
      (args : TxArgs F) (db : Db) (k g : String)
      → hget (claim_replay n r args db).1 k g ≡ hget db k g
  unfolding claim_replay
  hget-claim_replay args db k g = elim (Option-cases (lookup db args.replay_key)) [
    | inl new ↦ rw (new, claim_replay) (hget-set_ex _ _ _ db k g)
    | inr (e, old) ↦ rw (old, claim_replay) refl
  ]

  session_of-cong :
      (db db' : Db) (key : String)
      → ((g : String) → hget db' key g ≡ hget db key g)
      → session_of n r db' key ≡ session_of n r db key
  unfolding session_of
  session_of-cong db db' key h = rw (h "lat", h "lon", h "ts") refl

  abbrev pub here : TxArgs F → Session F
  here args = record { lat = args.latitude; lon = args.longitude; ts = args.now_ts }

  hget-advance_session :
      (args : TxArgs F) (db : Db) (g : String)
      → 0 < args.session_ttl_s
      → hget (advance_session n r args db) args.session_key g ≡ (
          if "ts" == g
          then some args.now_ts
          else if "lon" == g
          then some args.longitude
          else if "lat" == g
          then some args.latitude
          else hget db args.session_key g)
  unfolding advance_session
  hget-advance_session args db g pos =
      let k = args.session_key in
      let self = (eq_iff k k).1 refl in
      hget-expire k args.session_ttl_s _ k g pos
      ∙ hget-hset k "ts" args.now_ts _ k g
      ∙ rw
          (
            self,
            hget-hset k "lon" args.longitude (hset k "lat" args.latitude db) k g,
            self,
            hget-hset k "lat" args.latitude db k g,
            self,
          )
          refl

  session_of-advance_session :
      (args : TxArgs F) (db : Db)
      → 0 < args.session_ttl_s
      → session_of n r (advance_session n r args db) args.session_key ≡ some (here args)
  unfolding session_of whole_session
  session_of-advance_session args db pos =
      rw
        (
          hget-advance_session args db "lat" pos,
          hget-advance_session args db "lon" pos,
          hget-advance_session args db "ts" pos,
        )
        refl

  -- The geo part of a scored call, by the baseline before it.
  abbrev geo_before : TxArgs F → Db → Geo F
  geo_before args db = geo_of n args (session_of n r db args.session_key)

  score-session :
      (status : ReplayStatus) (stored : String) (args : TxArgs F) (db : Db)
      → 0 < args.session_ttl_s
      → 0 < args.burst_key_ttl_s
      → ((score n r status stored args db).0.geo_status ≡ (geo_before args db).status)
        × (session_of n r (score n r status stored args db).1 args.session_key ≡ (
            if advances (geo_before args db).status
            then some (here args)
            else session_of n r db args.session_key))
  unfolding score
  score-session status stored args db pos posb =
      let w =
        advance_window n r args.burst_key args.event_id args.now_ts args.burst_cutoff
          args.burst_key_ttl_s db in
      let same = session_of-cong db w.1 args.session_key (λ g.
        hget-advance_window args.burst_key args.event_id args.now_ts args.burst_cutoff
          args.burst_key_ttl_s db args.session_key g posb) in
      rw same (
        refl,
        elim (Bool-cases (advances (geo_before args db).status)) [
          | inl moves ↦ rw moves (session_of-advance_session args w.1 pos)
          | inr stays ↦ rw stays same
        ],
      )

  -- The specification: an anomaly and a late event leave the baseline, and so does an event that is
  -- not scored; any other event becomes the baseline.
  abbrev pub trusted : GeoStatus → TxArgs F → Option (Session F) → Option (Session F)
  trusted baseline args s = some (here args)
  trusted ok args s = some (here args)
  trusted anomaly args s = s
  trusted out_of_order args s = s
  trusted skipped args s = s

  trusted-advances :
      (g : GeoStatus) (args : TxArgs F) (s : Option (Session F))
      → (if advances g then some (here args) else s) ≡ trusted g args s
  trusted-advances baseline args s = refl
  trusted-advances ok args s = refl
  trusted-advances anomaly args s = refl
  trusted-advances out_of_order args s = refl
  trusted-advances skipped args s = refl

  -- The baseline after a result is the one that the specification says, by the result's geo status;
  -- and a result that is not "prescored" has the geo status of the baseline before it.
  abbrev Trusts : TxArgs F → Db → TxResult × Db → Type 0
  Trusts args db (result, db') =
      (session_of n r db' args.session_key
        ≡ trusted result.geo_status args (session_of n r db args.session_key))
      × ((result.replay_status ≡ prescored) ⊎ (result.geo_status ≡ (geo_before args db).status))

  score-Trusts :
      (status : ReplayStatus) (stored : String) (args : TxArgs F) (db : Db)
      → 0 < args.session_ttl_s
      → 0 < args.burst_key_ttl_s
      → Trusts args db (score n r status stored args db)
  score-Trusts status stored args db pos posb =
      let step = score-session status stored args db pos posb in
      (
        step.1
            ∙ trusted-advances (geo_before args db).status args (session_of n r db args.session_key)
            ∙ ap (λ g. trusted g args (session_of n r db args.session_key)) (sym step.0),
        inr step.0,
      )

  score_unless-Trusts :
      (status : ReplayStatus) (stored : String) (args : TxArgs F) (db : Db)
      → 0 < args.session_ttl_s
      → 0 < args.burst_key_ttl_s
      → Trusts args db (score_unless n r status stored args db)
  unfolding score_unless untouched
  score_unless-Trusts first stored args db pos posb = score-Trusts first stored args db pos posb
  score_unless-Trusts redelivery stored args db pos posb =
      score-Trusts redelivery stored args db pos posb
  score_unless-Trusts replay stored args db pos posb = score-Trusts replay stored args db pos posb
  score_unless-Trusts prescored stored args db pos posb = (refl, inl refl)

  -- With positive expiries, tx_check.lua moves a user's trusted baseline to the transaction exactly
  -- if it says "baseline" or "ok": an anomaly, a late event and an event that the decision service
  -- has scored leave it as it was. And unless it says "prescored", its geo status is the one that
  -- the baseline before the call gives, whatever the replay and burst parts did.
  pub tx_check_keeps_trust :
      (args : TxArgs F) (db : Db)
      → 0 < args.session_ttl_s
      → 0 < args.burst_key_ttl_s
      → let after = tx_check n r args db in
        (session_of n r after.1 args.session_key
          ≡ trusted after.0.geo_status args (session_of n r db args.session_key))
        × ((after.0.replay_status ≡ prescored)
            ⊎ (after.0.geo_status ≡ (geo_of n args (session_of n r db args.session_key)).status))
  unfolding tx_check
  tx_check_keeps_trust args db pos posb =
      let claim = claim_replay n r args db in
      let same =
        session_of-cong db claim.1 args.session_key
          (λ g. hget-claim_replay args db args.session_key g) in
      subst
        (λ s.
          (session_of n r (tx_check n r args db).1 args.session_key
            ≡ trusted (tx_check n r args db).0.geo_status args s)
          × (((tx_check n r args db).0.replay_status ≡ prescored)
              ⊎ ((tx_check n r args db).0.geo_status ≡ (geo_of n args s).status)))
        same (score_unless-Trusts claim.0.0 claim.0.1 args claim.1 pos posb)
