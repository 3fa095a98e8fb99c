-- ===== src/Api/Access.antt =====
-- Who may override a rule, and what an override does.
use rtace.Base.{
  ℕ, String, ◌++◌, ◌≡◌, ◌≢◌, ◌⊎◌, true, false, ◌&&◌, refl, ap, inl, inr, Bool, Option, none, some,
  ◌==◌, eq_iff, if◌then◌else◌, Bool-cases,
}
use rtace.Redis.{Redis, Stored}
use rtace.Config.{RedisConfig}
use rtace.Enforcement.{quarantine_key, step_up_key, ip_block_key, exists}
use rtace.Api.{
  Request, Response, http_exception, body, Override, quarantine, lift_quarantined, step_up_done,
  ip_block, lift_blocked, App, ttl_or, is_ascii, compare_digest, check_token, route,
}

-- `compare_digest` can compare what the request carries with the token.
abbrev pub comparable : String → Option String → Bool
comparable t none = true
comparable t (some given) = is_ascii given && is_ascii t

-- A token is set, which `compare_digest` takes, and the request carries it.
abbrev pub IsAuthorised : Option String → Request → Type 0
IsAuthorised token request =
    (t : String) × (token ≡ some t)
    × (request.credentials ≡ some t)
    × (comparable t request.credentials ≡ true)

abbrev pub status : Response → ℕ
status (http_exception code detail) = code
status (body code subject action ttl) = code

-- The status that refuses a request, and why.
abbrev pub IsRefused : Option String → Request → ℕ → Type 0
IsRefused token request code =
    ((token ≡ none) × (code ≡ 503))
    ⊎ ((t : String) × (token ≡ some t)
        × (((request.credentials ≢ some t)
              × (comparable t request.credentials ≡ true)
              × (code ≡ 401))
            ⊎ ((comparable t request.credentials ≡ false) × (code ≡ 500))))

-- the three answers of the check
pub check_token-cases :
    (t : String) (c : Option String)
    → ((c ≡ some t) × (comparable t c ≡ true) × (check_token t c ≡ none))
      ⊎ ((c ≢ some t)
          × (comparable t c ≡ true)
          × (check_token t c ≡ some (http_exception 401 "Missing or invalid bearer token")))
      ⊎ ((comparable t c ≡ false)
          × (check_token t c ≡ some (http_exception 500 "Internal Server Error")))
unfolding check_token compare_digest
check_token-cases t none = inr (inl ((λ h. cc), refl, refl))
check_token-cases t (some given) = elim (Bool-cases (is_ascii given && is_ascii t)) [
  | inr outside ↦ inr (inr (outside, rw (check_token, compare_digest, outside) refl))
  | inl ascii ↦ elim (Bool-cases (given == t)) [
    | inl same ↦ inl (
      ap some ((eq_iff given t).0 same),
      ascii,
      rw (check_token, compare_digest, ascii, same) refl,
    )
    | inr other ↦ inr (
        inl (
          (λ h.
              let q : (given == t) ≡ true =
                (eq_iff given t).1 (ap (λ o. elim o [ some x ↦ x | none ↦ t ]) h) in
              cc),
          ascii,
          rw (check_token, compare_digest, ascii, other) refl,
        ))
  ]
]

module _ {F : Type 0} {fle : F → F → Bool} (r : Redis F fle) (config : RedisConfig F) where
  open r use {Db, lookup, lookup-set_ex, lookup-delete}

  -- The rule that an override is about, and what becomes of it.
  abbrev pub key_of : Override → String
  key_of (quarantine user_id ttl reason) = quarantine_key user_id
  key_of (lift_quarantined user_id) = quarantine_key user_id
  key_of (step_up_done user_id) = step_up_key user_id
  key_of (ip_block ip ttl reason) = ip_block_key ip
  key_of (lift_blocked ip) = ip_block_key ip

  abbrev pub rule_after : Override → Option Stored
  rule_after (quarantine user_id ttl reason) =
      some (record { value = "api:" ++ reason; ttl = ttl_or config.quarantine_ttl_seconds ttl })
  rule_after (ip_block ip ttl reason) =
      some (record { value = "api:" ++ reason; ttl = ttl_or config.ip_block_ttl_seconds ttl })
  rule_after (lift_quarantined user_id) = none
  rule_after (step_up_done user_id) = none
  rule_after (lift_blocked ip) = none

  -- 201 for a rule made, 200 for one lifted, and 404 where there was none to lift.
  abbrev pub status_after : Override → Bool → ℕ
  status_after (quarantine user_id ttl reason) there = 201
  status_after (ip_block ip ttl reason) there = 201
  status_after (lift_quarantined user_id) there = if there then 200 else 404
  status_after (step_up_done user_id) there = if there then 200 else 404
  status_after (lift_blocked ip) there = if there then 200 else 404

  -- What a route does: its status, and every text key.
  abbrev Effect : Override → Request → App Db → Type 0
  Effect o request app =
      (status (route r config o request app).0 ≡ status_after o (exists r app.db (key_of o)))
      × ((k : String)
          → lookup (route r config o request app).1.db k
            ≡ (if key_of o == k then rule_after o else lookup app.db k))
