-- ===== src/Scripts/Delivery.antt =====
-- Replay verdicts: which delivery of a payload is a replay.
use rtace.Base.{
  sym, subst, ℕ, ◌<◌, String, ◌++◌, ◌≡◌, refl, ap, ◌∙◌, inl, inr, false, none, some, ◌==◌, eq_iff,
  if◌then◌else◌, Bool-cases,
}
use rtace.Number.{Number}
use rtace.Redis.{Redis, Stored}
use rtace.Scripts.{
  ReplayStatus, first, redelivery, prescored, replay, TxArgs, status_of, claim_replay, score,
  score_unless, untouched, tx_check, geo_of, advances, advance_window, advance_session, session_of,
}

module _ (n : Number) (r : Redis n.F n.fle) where
  open n use {F, fle}
  open r use {
    Db, lookup, set_ex, zscore, lookup-set_ex, lookup-zadd, lookup-zremrangebyscore, lookup-hset,
    lookup-expire, zscore-zadd, zscore-zremrangebyscore, zscore-expire,
  }

  -- The replay key is none of the two keys that the script expires.
  abbrev pub Apart : TxArgs F → String → Type 0
  Apart args k = ((args.burst_key == k) ≡ false) × ((args.session_key == k) ≡ false)

  lookup-advance_window :
      (key event_id : String) (now cutoff : F) (ttl : ℕ) (db : Db) (k : String)
      → (key == k) ≡ false
      → lookup (advance_window n r key event_id now cutoff ttl db).1 k ≡ lookup db k
  unfolding advance_window
  lookup-advance_window key event_id now cutoff ttl db k h =
      lookup-expire key ttl _ k h
      ∙ lookup-zadd key event_id now _ k
      ∙ lookup-zremrangebyscore key cutoff db k

  lookup-advance_session :
      (args : TxArgs F) (db : Db) (k : String)
      → (args.session_key == k) ≡ false
      → lookup (advance_session n r args db) k ≡ lookup db k
  unfolding advance_session
  lookup-advance_session args db k h =
      lookup-expire args.session_key args.session_ttl_s _ k h
      ∙ lookup-hset _ _ _ _ k
      ∙ lookup-hset _ _ _ _ k
      ∙ lookup-hset _ _ _ _ k

  lookup-score :
      (status : ReplayStatus) (stored : String) (args : TxArgs F) (db : Db) (k : String)
      → Apart args k
      → lookup (score n r status stored args db).1 k ≡ lookup db k
  unfolding score
  lookup-score status stored args db k (hb, hs) =
      let w =
        advance_window n r args.burst_key args.event_id args.now_ts args.burst_cutoff
          args.burst_key_ttl_s db in
      let geo = geo_of n args (session_of n r w.1 args.session_key) in
      let step =
        lookup-advance_window args.burst_key args.event_id args.now_ts args.burst_cutoff
          args.burst_key_ttl_s db k hb in
      elim (Bool-cases (advances geo.status)) [
        | inl moves ↦ rw moves (lookup-advance_session args w.1 k hs ∙ step)
        | inr stays ↦ rw stays step
      ]

  lookup-score_unless :
      (status : ReplayStatus) (stored : String) (args : TxArgs F) (db : Db) (k : String)
      → Apart args k
      → lookup (score_unless n r status stored args db).1 k ≡ lookup db k
  unfolding score_unless
  lookup-score_unless first stored args db k h = lookup-score first stored args db k h
  lookup-score_unless redelivery stored args db k h = lookup-score redelivery stored args db k h
  lookup-score_unless replay stored args db k h = lookup-score replay stored args db k h
  lookup-score_unless prescored stored args db k h = refl

  result-status :
      (status : ReplayStatus) (stored : String) (args : TxArgs F) (db : Db)
      → ((score_unless n r status stored args db).0.replay_status ≡ status)
        × ((score_unless n r status stored args db).0.stored_ref ≡ stored)
  unfolding score_unless score untouched
  result-status first stored args db = (refl, refl)
  result-status redelivery stored args db = (refl, refl)
  result-status replay stored args db = (refl, refl)
  result-status prescored stored args db = (refl, refl)

  -- What the first delivery of a payload leaves under its replay key.
  first_claim :
      (args : TxArgs F) (db : Db)
      → 0 < args.replay_ttl_s
      → Apart args args.replay_key
      → lookup db args.replay_key ≡ none
      → ((tx_check n r args db).0.replay_status ≡ first)
        × (lookup (tx_check n r args db).1 args.replay_key
            ≡ some (record { value = args.record_ref; ttl = args.replay_ttl_s }))
  unfolding tx_check claim_replay
  first_claim args db pos apart new =
      let db' = set_ex args.replay_key args.replay_ttl_s args.record_ref db in
      rw (new, claim_replay)
        (
          (result-status first args.record_ref args db').0,
          lookup-score_unless first args.record_ref args db' args.replay_key apart
              ∙ lookup-set_ex args.replay_key args.replay_key args.replay_ttl_s args.record_ref db
                  pos
              ∙ rw ((eq_iff args.replay_key args.replay_key).1 refl) refl,
        )

  known :
      (args : TxArgs F) (db : Db) (e : Stored)
      → lookup db args.replay_key ≡ some e
      → ((tx_check n r args db).0.replay_status ≡ status_of n e.value args)
        × ((tx_check n r args db).0.stored_ref ≡ e.value)
  unfolding tx_check claim_replay
  known args db e h =
      rw (h, claim_replay) (result-status (status_of n e.value args) e.value args db)

  left_value :
      (left : Stored) (v : String) (t : ℕ)
      → some left ≡ some (record { value = v; ttl = t })
      → left.value ≡ v
  left_value left v t e = ap (λ o. elim o [ some x ↦ x.value | none ↦ v ]) e

  -- Let the script see a payload for the first time, and then the same payload again before the key
  -- expires: any time, and anything else, has gone by in between, as long as there is still a replay
  -- key with the value that the first call left in it, whatever is left of its expiry. The first call says
  -- "first". The second says "redelivery" if it is the same delivery, "prescored" if the first was
  -- the decision service's call for the second one's event, and otherwise "replay", naming the first
  -- delivery: neither a redelivery of Kafka nor the decision service makes a false replay, and no
  -- true one is missed.
  pub second_delivery :
      (a b : TxArgs F) (db db' : Db) (left found : Stored)
      → 0 < a.replay_ttl_s
      → Apart a a.replay_key
      → lookup db a.replay_key ≡ none
      → b.replay_key ≡ a.replay_key
      → lookup (tx_check n r a db).1 a.replay_key ≡ some left
      → lookup db' a.replay_key ≡ some found
      → found.value ≡ left.value
      → ((tx_check n r a db).0.replay_status ≡ first)
        × ((tx_check n r b db').0.replay_status ≡ (
            if a.record_ref == b.record_ref
            then redelivery
            else if a.record_ref == ("decision:" ++ b.event_id)
            then prescored
            else replay))
        × ((tx_check n r b db').0.stored_ref ≡ a.record_ref)
  unfolding status_of
  second_delivery a b db db' left found pos apart new same after still kept =
      let f = first_claim a db pos apart new in
      let mine : found.value ≡ a.record_ref =
        kept ∙ left_value left a.record_ref _ (sym after ∙ f.1) in
      let k = known b db' found (ap (lookup db') same ∙ still) in
      (
        f.0,
        subst (λ s. (tx_check n r b db').0.replay_status ≡ status_of n s b) mine k.0,
        k.1 ∙ mine,
      )
