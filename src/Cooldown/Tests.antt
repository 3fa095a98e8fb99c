-- ===== src/Cooldown/Tests.antt =====
-- Two anomalies of one user in a batch, and one of another user who is on cooldown already.
use rtace.Base.{
  ℕ, ◌+◌, ◌≡◌, refl, false, none, List, [], ◌∷◌, map, String, length, is_some, leb, arith,
}
use rtace.Platform.Sample.{sample}
use rtace.Redis.{Redis}
use rtace.Redis.Memory.{memory, nothing}
use rtace.Config.{RedisConfig, default_config}
use rtace.Models.{DetectionEvent}
use rtace.Cooldown.{
  Filtered, filter_cooled_down, release_cooldown, cooldown_key, cooldown_subject, claim_all,
  sort_out, set_nx, should_emit,
}
use rtace.Cooldown.Window.{first_of, filter_cooled_down_first}
use rtace.Cooldown.Release.{release_undoes}

abbrev server : Redis ℕ leb
server = memory ℕ leb

abbrev config : RedisConfig ℕ
config = default_config 900

abbrev anomaly : String → String → DetectionEvent sample
anomaly id user = record {
  detection_id = id;
  detection_type = "geo_velocity_anomaly";
  severity = "high";
  user_id = user;
  transaction_id = "t1";
  timestamp = 5;
  ip_address = none;
  details = [];
}

abbrev batch : List (DetectionEvent sample)
batch = anomaly "d1" "u1" ∷ anomaly "d2" "u1" ∷ anomaly "d3" "u2" ∷ []

abbrev cooling : server.Db
cooling = server.set_ex "cooldown:geo_velocity_anomaly:user:u2" 30 "d0" (nothing ℕ leb)

abbrev filtered : Filtered sample server.Db
filtered = filter_cooled_down sample server config batch cooling

emits_first : filtered.allowed ≡ anomaly "d1" "u1" ∷ []
unfolding memory filter_cooled_down claim_all sort_out set_nx cooldown_key cooldown_subject
emits_first = refl

counts_others : filtered.suppressed ≡ "geo_velocity_anomaly" ∷ "geo_velocity_anomaly" ∷ []
unfolding memory filter_cooled_down claim_all sort_out set_nx cooldown_key cooldown_subject
counts_others = refl

emits_one : should_emit sample server config (anomaly "d4" "u2") cooling ≡ false
unfolding memory filter_cooled_down claim_all sort_out set_nx cooldown_key cooldown_subject
    should_emit
emits_one = refl

filter_cooled_down_first_example :
    (filtered.allowed ≡ first_of sample (λ j. is_some (server.lookup cooling j)) batch)
    × (filtered.claimed ≡ map (cooldown_key sample) filtered.allowed)
    × (length filtered.allowed + length filtered.suppressed ≡ 3)
filter_cooled_down_first_example =
    filter_cooled_down_first sample server config batch cooling (omega arith)

release_undoes_example :
    server.lookup (release_cooldown sample server config filtered.claimed filtered.db) "k"
    ≡ server.lookup cooling "k"
release_undoes_example = release_undoes sample server config batch cooling "k" (omega arith)
