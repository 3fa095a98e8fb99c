-- ===== src/Scripts/Windows.antt =====
-- The sliding windows of failed logins.
use rtace.Base.{
  ℕ, ◌<◌, String, ◌≡◌, refl, sym, ap, ◌∙◌, inl, inr, true, false, ◌||◌, ◌⊎◌, Option, none, some,
  ◌==◌, eq_iff, if◌then◌else◌, Bool-cases, arith,
}
use rtace.Number.{Number}
use rtace.Redis.{Redis, untrimmed}
use rtace.Scripts.{AuthArgs, advance_window, auth_check}

module _ (n : Number) (r : Redis n.F n.fle) where
  open n use {F, fle}
  open r use {
    Db, zscore, zadd, zremrangebyscore, zscore-zadd, zscore-zremrangebyscore, zscore-expire,
  }

  -- What a window holds of a member after the event came, by what it held before.
  abbrev pub entered : String → F → F → String → Option F → Option F
  entered event_id now cutoff m score =
      if event_id == m then some now else untrimmed fle cutoff score

  -- The same for the members of every sorted set, of which one is the window.
  abbrev step : String → String → F → F → String → String → Option F → Option F
  step key event_id now cutoff j m score =
      if key == j then entered event_id now cutoff m score else score

  zscore-advance_window :
      (key event_id : String) (now cutoff : F) (ttl : ℕ) (db : Db) (j m : String)
      → 0 < ttl
      → zscore (advance_window n r key event_id now cutoff ttl db).1 j m
        ≡ step key event_id now cutoff j m (zscore db j m)
  unfolding advance_window
  zscore-advance_window key event_id now cutoff ttl db j m pos =
      zscore-expire key ttl _ j m pos
      ∙ zscore-zadd key event_id now _ j m
      ∙ rw (zscore-zremrangebyscore key cutoff db j m)
          (elim (Bool-cases (key == j)) [ inl same ↦ rw same refl | inr other ↦ rw other refl ])

  -- The two windows one after the other.
  abbrev both : AuthArgs F → String → String → Option F → Option F
  both args j m score =
      step args.ip_key args.event_id args.now_ts args.cutoff j m
        (step args.user_key args.event_id args.now_ts args.cutoff j m score)

  zscore-auth_check :
      (args : AuthArgs F) (db : Db) (j m : String)
      → 0 < args.key_ttl_s
      → zscore (auth_check n r args db).1 j m ≡ both args j m (zscore db j m)
  unfolding auth_check
  zscore-auth_check args db j m pos =
      zscore-advance_window args.ip_key args.event_id args.now_ts args.cutoff args.key_ttl_s _ j m
        pos
      ∙ ap (step args.ip_key args.event_id args.now_ts args.cutoff j m) (
          zscore-advance_window args.user_key args.event_id args.now_ts args.cutoff args.key_ttl_s
            db j m pos)

  entered-entered :
      (event_id : String) (now cutoff : F) (m : String) (score : Option F)
      → entered event_id now cutoff m (entered event_id now cutoff m score)
        ≡ entered event_id now cutoff m score
  entered-entered event_id now cutoff m none = ground arith
  entered-entered event_id now cutoff m (some s) = ground arith

  both-both :
      (args : AuthArgs F) (j m : String) (score : Option F)
      → both args j m (both args j m score) ≡ both args j m score
  both-both args j m score =
      let e = entered-entered args.event_id args.now_ts args.cutoff m in
      elim (Bool-cases (args.user_key == j)) [
        | inl user ↦ elim (Bool-cases (args.ip_key == j)) [
          | inl ip ↦ rw (user, ip) (e _ ∙ e _ ∙ refl)
          | inr other ↦ rw (user, other) (e score)
        ]
        | inr not_user ↦ elim (Bool-cases (args.ip_key == j)) [
          | inl ip ↦ rw (not_user, ip) (e score)
          | inr other ↦ rw (not_user, other) refl
        ]
      ]

  -- Trimming again drops nothing.
  untrimmed-entered :
      (event_id : String) (now cutoff : F) (m : String) (score : Option F)
      → fle now cutoff ≡ false
      → untrimmed fle cutoff (entered event_id now cutoff m score)
        ≡ entered event_id now cutoff m score
  untrimmed-entered event_id now cutoff m none h = ground (arith, h)
  untrimmed-entered event_id now cutoff m (some s) h = ground (arith, h)

  -- A window of the call, as it stands after it.
  both-entered :
      (args : AuthArgs F) (j m : String) (score : Option F)
      → ((args.user_key == j) ≡ true) ⊎ ((args.ip_key == j) ≡ true)
      → both args j m score ≡ entered args.event_id args.now_ts args.cutoff m score
  both-entered args j m score is_window =
      let e = entered-entered args.event_id args.now_ts args.cutoff m score in
      elim (Bool-cases (args.user_key == j)) [
        | inl user ↦ elim (Bool-cases (args.ip_key == j)) [
          | inl ip ↦ rw (user, ip) e
          | inr other ↦ rw (user, other) refl
        ]
        | inr not_user ↦ elim is_window [
          | inl user ↦ let q : false ≡ true = sym not_user ∙ user in cc
          | inr ip ↦ rw (not_user, ip) refl
        ]
      ]

  both-outside :
      (args : AuthArgs F) (j m : String) (score : Option F)
      → both args j m score ≡ (
          if (args.user_key == j) || (args.ip_key == j)
          then entered args.event_id args.now_ts args.cutoff m score
          else score)
  both-outside args j m score = elim (Bool-cases (args.user_key == j)) [
    | inl user ↦ both-entered args j m score (inl user) ∙ rw user refl
    | inr not_user ↦ elim (Bool-cases (args.ip_key == j)) [
      | inl ip ↦ both-entered args j m score (inr ip) ∙ rw (not_user, ip) refl
      | inr other ↦ rw (not_user, other) refl
    ]
  ]

  -- With a positive expiry, and an attempt later than the cutoff, auth_check.lua leaves the attempt
  -- in both windows, with its time, and no member at or before the cutoff in either: trimming one
  -- again would drop nothing. It touches no other sorted set. And the same attempt delivered again
  -- at once changes no score, so that a redelivery is not counted twice.
  pub auth_check_windows :
      (args : AuthArgs F) (db : Db) (window m : String)
      → 0 < args.key_ttl_s
      → fle args.now_ts args.cutoff ≡ false
      → ((args.user_key == window) ≡ true) ⊎ ((args.ip_key == window) ≡ true)
      → let after = (auth_check n r args db).1 in
        (zscore after window args.event_id ≡ some args.now_ts)
        × (untrimmed fle args.cutoff (zscore after window m) ≡ zscore after window m)
        × ((j i : String)
            → zscore after j i ≡ (
                if (args.user_key == j) || (args.ip_key == j)
                then entered args.event_id args.now_ts args.cutoff i (zscore db j i)
                else zscore db j i))
        × ((j i : String) → zscore (auth_check n r args after).1 j i ≡ zscore after j i)
  auth_check_windows args db window m pos later is_window =
      let after = (auth_check n r args db).1 in
      let at = λ (i : String).
        zscore-auth_check args db window i pos
        ∙ both-entered args window i (zscore db window i) is_window in
      (
        at args.event_id ∙ rw ((eq_iff args.event_id args.event_id).1 refl) refl,
        rw (at m)
            (untrimmed-entered args.event_id args.now_ts args.cutoff m (zscore db window m) later),
        λ j i. zscore-auth_check args db j i pos ∙ both-outside args j i (zscore db j i),
        λ j i.
            zscore-auth_check args after j i pos
            ∙ ap (both args j i) (zscore-auth_check args db j i pos)
            ∙ both-both args j i (zscore db j i)
            ∙ sym (zscore-auth_check args db j i pos),
      )
