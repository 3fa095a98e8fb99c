-- ===== src/Config/Tests.antt =====
-- An environment that sets nothing, and one with a text for a number.
use Prim.Native.Char.{Char, code}
use rtace.Base.{
  ℕ, Bool, leb, ◌&&◌, ◌+◌, ◌-◌, ◌*◌, String, ◌≡◌, refl, ◌==◌, Option, none, some, if◌then◌else◌,
}
use rtace.Config.{default_config, default_kafka_config}
use rtace.Config.Env.{
  loaded, value_error, get, read_int, read_float, redis_from_env, kafka_from_env, Reading, natural,
  negative, no_number, starts_with_negative,
}

-- decimal digits
abbrev is_digit : Char → Bool
is_digit c = leb 48 (code c) && leb (code c) 57

abbrev read : ℕ → String → Option ℕ
read n String.[] = some n
read n (String.◌∷◌ c text) =
    let rest = read (n * 10 + (code c - 48)) text in if is_digit c then rest else none

abbrev float : String → Option ℕ
float String.[] = none
float (String.◌∷◌ c text) = read 0 (String.◌∷◌ c text)

abbrev int : String → Reading
int text = elim (float text) [
  | some n ↦ natural n
  | none ↦ if text == "-1" then negative else no_number
]

abbrev unset : String → Option String
unset name = none

defaults :
    (redis_from_env ℕ unset int float ≡ loaded (default_config 900))
    × (kafka_from_env ℕ unset int float ≡ loaded default_kafka_config)
unfolding redis_from_env kafka_from_env read_int read_float get
defaults = (refl, refl)

abbrev mistyped : String → Option String
mistyped name = if name == "REDIS_BURST_THRESHOLD" then some "2O" else none

stops : redis_from_env ℕ mistyped int float ≡ value_error "REDIS_BURST_THRESHOLD"
unfolding redis_from_env read_int read_float get
stops = refl

abbrev switched_off : String → Option String
switched_off name = if name == "DETECTION_COOLDOWN_SECONDS" then some "-1" else none

starts : redis_from_env ℕ switched_off int float ≡ starts_with_negative "DETECTION_COOLDOWN_SECONDS"
unfolding redis_from_env read_int read_float get
starts = refl
