-- ===== src/Enforcement/Tests.antt =====
-- A listing of one quarantine and of the blocks of an IPv4 and an IPv6 address.
use rtace.Base.{ℕ, ◌≡◌, refl, true, false, List, [], ◌∷◌, map, String, ◌==◌, leb, if◌then◌else◌}
use rtace.Redis.{Redis}
use rtace.Redis.Memory.{memory, nothing}
use rtace.Enforcement.{
  quarantine_key, step_up_key, ip_block_key, quarantine_key_prefix, ip_block_key_prefix,
  sanitize_ip_for_key, replace, is_user_quarantined, is_ip_blocked, is_step_up_pending,
}
use rtace.Enforcement.Listing.{list_rules, entry, ip_of, strip, has, list_rules_subjects}

abbrev server : Redis ℕ leb
server = memory ℕ leb

abbrev scan : server.Db → String → List String
scan db prefix =
    if prefix == quarantine_key_prefix
    then "enforce:quarantine:user:u1" ∷ []
    else if prefix == ip_block_key_prefix
    then "block:ip:10.0.0.1" ∷ "block:ip:fe80--1" ∷ []
    else []

abbrev ruled : server.Db
ruled =
    server.set_ex "block:ip:fe80--1" 60 "d2"
      (server.set_ex "enforce:quarantine:user:u1" 30 "d1" (nothing ℕ leb))

user_found : is_user_quarantined server ruled "u1" ≡ true
unfolding memory is_user_quarantined quarantine_key
user_found = refl

address_found : is_ip_blocked server ruled "fe80::1" ≡ true
unfolding memory is_ip_blocked ip_block_key sanitize_ip_for_key replace
address_found = refl

no_step_up : is_step_up_pending server ruled "u1" ≡ false
unfolding memory is_step_up_pending step_up_key
no_step_up = refl

-- a dash that was there before comes back as a colon
dash_is_lost : ip_of ip_block_key_prefix (ip_block_key "host-1") ≡ "host:1"
unfolding ip_of strip has ip_block_key sanitize_ip_for_key replace
dash_is_lost = refl

list_rules_subjects_example :
    let rules = list_rules server scan ruled in
    (rules.quarantines ≡ map (entry server scan quarantine_key ruled) ("u1" ∷ []))
    × (rules.step_ups ≡ map (entry server scan step_up_key ruled) [])
    × (rules.ip_blocks ≡ map (entry server scan ip_block_key ruled) ("10.0.0.1" ∷ "fe80::1" ∷ []))
    × (rules.count ≡ 3)
unfolding quarantine_key ip_block_key sanitize_ip_for_key replace has
list_rules_subjects_example =
    list_rules_subjects server scan ruled ("u1" ∷ []) [] ("10.0.0.1" ∷ "fe80::1" ∷ []) refl refl
      refl (refl, (refl, tt))
