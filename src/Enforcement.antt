-- ===== src/Enforcement.antt =====
-- common/enforcement.py: the key layout of the rules in Redis, and the reads of them.
pub mod Keys
pub mod Listing
mod Tests
use rtace.Base.{
  ℕ, suc, ◌+◌, String, ◌++◌, Bool, Option, none, some, List, [], ◌∷◌, ◌==◌, length, eqb, is_some,
  if◌then◌else◌,
}
use rtace.Redis.{Redis, Stored}
use Prim.Native.Char.{Char, code}

abbrev pub quarantine_key_prefix : String
quarantine_key_prefix = "enforce:quarantine:user:"

abbrev pub step_up_key_prefix : String
step_up_key_prefix = "enforce:step_up:user:"

abbrev pub ip_block_key_prefix : String
ip_block_key_prefix = "block:ip:"

-- `s.replace(a, b)` for two single characters
unfoldable pub replace : Char → Char → String → String
replace a b String.[] = ""
replace a b (String.◌∷◌ c s) = String.◌∷◌ (if eqb (code c) (code a) then b else c) (replace a b s)

unfoldable pub sanitize_ip_for_key : String → String
sanitize_ip_for_key ip = replace ":" "-" ip

unfoldable pub quarantine_key : String → String
quarantine_key user_id = quarantine_key_prefix ++ user_id

unfoldable pub step_up_key : String → String
step_up_key user_id = step_up_key_prefix ++ user_id

unfoldable pub ip_block_key : String → String
ip_block_key ip = ip_block_key_prefix ++ sanitize_ip_for_key ip

module _ {F : Type 0} {fle : F → F → Bool} (r : Redis F fle) where
  open r use {Db, lookup}

  -- EXISTS
  abbrev pub exists : Db → String → Bool
  exists db k = is_some (lookup db k)

  unfoldable pub is_user_quarantined : Db → String → Bool
  is_user_quarantined db user_id = exists db (quarantine_key user_id)

  unfoldable pub is_ip_blocked : Db → String → Bool
  is_ip_blocked db ip = exists db (ip_block_key ip)

  unfoldable pub is_step_up_pending : Db → String → Bool
  is_step_up_pending db user_id = exists db (step_up_key user_id)
