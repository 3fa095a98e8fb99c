-- ===== src/Scripts/Late.antt =====
-- tx_check.lua on a transaction that is checked again after a later one of the same user.
use rtace.Base.{◌<◌, ◌≡◌, ◌⊎◌, refl, sym, ap, ◌∙◌, subst, inl, inr, true, Option, some}
use rtace.Number.{Number}
use rtace.Redis.{Redis}
use rtace.Scripts.{
  prescored, TxArgs, GeoStatus, baseline, ok, anomaly, out_of_order, skipped, advances, Session,
  geo_of, compare_geo, session_of, tx_check,
}
use rtace.Scripts.Baseline.{here, trusted, tx_check_keeps_trust}

module _ (n : Number) (r : Redis n.F n.fle) where
  open n use {F, flt, fsub, of_nat}
  open r use {Db}

  trusted_if_advances :
      (g : GeoStatus) (args : TxArgs F) (s : Option (Session F))
      → advances g ≡ true
      → trusted n r g args s ≡ some (here n r args)
  trusted_if_advances baseline args s h = refl
  trusted_if_advances ok args s h = refl
  trusted_if_advances anomaly args s h = cc
  trusted_if_advances out_of_order args s h = cc
  trusted_if_advances skipped args s h = cc

  earlier_than :
      (args later : TxArgs F)
      → flt (fsub args.now_ts later.now_ts) (of_nat 0) ≡ true
      → (geo_of n args (some (here n r later))).status ≡ out_of_order
  unfolding geo_of compare_geo
  earlier_than args later h = rw h refl

  -- Let a transaction and then a later one of the same user be checked, of which the second becomes
  -- the trusted baseline, as it does when the first is an anomaly and the second is made at home.
  -- When the first is checked again after that, as in the retry of their batch, then the script
  -- does not call it an anomaly any more, whatever it called it before: it is out of order (or the
  -- decision service has scored it in the meantime).
  pub recheck_is_out_of_order :
      (a b : TxArgs F) (db : Db)
      → 0 < a.session_ttl_s
      → 0 < a.burst_key_ttl_s
      → 0 < b.session_ttl_s
      → 0 < b.burst_key_ttl_s
      → a.session_key ≡ b.session_key
      → flt (fsub a.now_ts b.now_ts) (of_nat 0) ≡ true
      → advances (tx_check n r b (tx_check n r a db).1).0.geo_status ≡ true
      → let again = tx_check n r a (tx_check n r b (tx_check n r a db).1).1 in
        (again.0.replay_status ≡ prescored) ⊎ (again.0.geo_status ≡ out_of_order)
  recheck_is_out_of_order a b db pa pb qa qb same earlier moved =
      let first = tx_check n r a db in
      let second = tx_check n r b first.1 in
      let moved_to =
        (tx_check_keeps_trust n r b first.1 qa qb).0
        ∙ trusted_if_advances second.0.geo_status b _ moved in
      let now_there =
        subst (λ k. session_of n r second.1 k ≡ some (here n r b)) (sym same) moved_to in
      elim (tx_check_keeps_trust n r a second.1 pa pb).1 [
        | inl scored ↦ inl scored
        | inr status ↦
            inr (status ∙ ap (λ s. (geo_of n a s).status) now_there ∙ earlier_than a b earlier)
      ]
