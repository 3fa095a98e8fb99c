-- ===== src/Enforcement/Keys.antt =====
-- The keys of the rules in common/enforcement.py, compared.
use rtace.Base.{String, ◌≡◌, refl, false, ◌==◌}
use rtace.Base.Text.{diverge, eq-append_left, ne_of_diverge}
use rtace.Enforcement.{
  quarantine_key, step_up_key, ip_block_key, quarantine_key_prefix, step_up_key_prefix,
  ip_block_key_prefix, sanitize_ip_for_key,
}

module _ (u v : String) where
  pub quarantine_key-eq : (quarantine_key u == quarantine_key v) ≡ (u == v)
  unfolding quarantine_key
  quarantine_key-eq = eq-append_left quarantine_key_prefix u v

  pub step_up_key-eq : (step_up_key u == step_up_key v) ≡ (u == v)
  unfolding step_up_key
  step_up_key-eq = eq-append_left step_up_key_prefix u v

  pub ip_block_key-eq :
      (ip_block_key u == ip_block_key v) ≡ (sanitize_ip_for_key u == sanitize_ip_for_key v)
  unfolding ip_block_key
  ip_block_key-eq = eq-append_left ip_block_key_prefix _ _

  pub quarantine_key-ne-step_up_key : (quarantine_key u == step_up_key v) ≡ false
  unfolding quarantine_key step_up_key diverge
  quarantine_key-ne-step_up_key = ne_of_diverge quarantine_key_prefix step_up_key_prefix refl _ _

  pub quarantine_key-ne-ip_block_key : (quarantine_key u == ip_block_key v) ≡ false
  unfolding quarantine_key ip_block_key diverge
  quarantine_key-ne-ip_block_key = ne_of_diverge quarantine_key_prefix ip_block_key_prefix refl _ _

  pub step_up_key-ne-quarantine_key : (step_up_key u == quarantine_key v) ≡ false
  unfolding step_up_key quarantine_key diverge
  step_up_key-ne-quarantine_key = ne_of_diverge step_up_key_prefix quarantine_key_prefix refl _ _

  pub step_up_key-ne-ip_block_key : (step_up_key u == ip_block_key v) ≡ false
  unfolding step_up_key ip_block_key diverge
  step_up_key-ne-ip_block_key = ne_of_diverge step_up_key_prefix ip_block_key_prefix refl _ _

  pub ip_block_key-ne-quarantine_key : (ip_block_key u == quarantine_key v) ≡ false
  unfolding ip_block_key quarantine_key diverge
  ip_block_key-ne-quarantine_key = ne_of_diverge ip_block_key_prefix quarantine_key_prefix refl _ _

  pub ip_block_key-ne-step_up_key : (ip_block_key u == step_up_key v) ≡ false
  unfolding ip_block_key step_up_key diverge
  ip_block_key-ne-step_up_key = ne_of_diverge ip_block_key_prefix step_up_key_prefix refl _ _

pub ruleset key_tests = (
  quarantine_key-eq, step_up_key-eq, ip_block_key-eq, quarantine_key-ne-step_up_key,
  quarantine_key-ne-ip_block_key, step_up_key-ne-quarantine_key, step_up_key-ne-ip_block_key,
  ip_block_key-ne-quarantine_key, ip_block_key-ne-step_up_key,
)
