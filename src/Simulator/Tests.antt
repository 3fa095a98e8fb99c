-- ===== src/Simulator/Tests.antt =====
-- simulator/transaction_simulator.py on concrete inputs: a generator that counts, and two users.
use Prim.Native.Nat.{◌%◌}
use rtace.Base.{
  ℕ, suc, String, ◌≡◌, refl, true, false, Option, some, List, [], ◌∷◌, ◌<◌, ◌==◌, ◌&&◌,
  if◌then◌else◌,
}
use rtace.Platform.Sample.{sample}
use rtace.Config.{default_config, default_kafka_config}
use rtace.Simulator.{
  Location, us_ca, uk_lon, Scenario, normal, impossible_travel, Random, Yield, emitted, sleep,
  SimulatorSettings, Sim, tx_event, choose, fresh_event, normal_event, travel_from, auth_event,
  scheduled_burst, scheduled_stuffing_user, scheduled_stuffing_ip, make_transaction, make_auth,
  generate_events, iterate, burst_size, stuffing_user_fails, stuffing_ip_fails,
}
use rtace.Config.Env.{Reading, natural, loaded}
use rtace.Simulator.Settings.{Flags, default_settings, read_or, settings_from_env, parse_args}
use rtace.Simulator.Past.{Each}
use rtace.Simulator.Stream.{Faithful}
use rtace.Simulator.Traffic.{generate_events-Faithful}
use rtace.Models.{TransactionEvent, AuthEvent}
use rtace.Kafka.{acknowledged, send_message, flush, resolve, resolve_all}
use rtace.Simulator.Publish.{
  Exchange, url_error, ask_decision, Publishing, run_simulator, publish_all, publish_one, ask_first,
  answered, other_value,
}
use rtace.Simulator.Counting.{count, in_burst, in_stuffing, in_ip_stuffing}
use rtace.Simulator.Attacks.{iterate_attacks}

abbrev counting : Random ℕ
counting = record {
  G = ℕ;
  random = λ g. (g % 10, suc g);
  choice = λ n g. (g % n, suc g);
  amount = λ g. (g, suc g);
}

abbrev stamp : ℕ → String × ℕ
stamp n = ("e", n)

-- A roll below 5 replays, one of 5 or 6 travels.
abbrev settings : SimulatorSettings sample counting
settings = record {
  interval_seconds = 0;
  num_users = 2;
  replay_probability = 5;
  impossible_travel_probability = 2;
  auth_fail_probability = 1;
  burst_every = 2;
  stuffing_user_every = 3;
  stuffing_ip_every = 0;
  seed = Option.none;
  decision_url = some "http://localhost:8090/v1/decide";
}

abbrev home : String → Location
home v = if v == "user_1" then us_ca else uk_lon

abbrev sim : ℕ → Sim sample counting
sim g = record { rng = g; made = 0; last_tx = [] }

abbrev scenarios : List (Yield sample counting) → List (Option Scenario)
scenarios [] = []
scenarios (emitted e scenario ∷ ys) = some scenario ∷ scenarios ys
scenarios (sleep ∷ ys) = Option.none ∷ scenarios ys

-- The third pass replays what the first one made.
first_passes :
    scenarios
      (generate_events sample counting stamp settings "user_1" ("user_2" ∷ []) home 1 1 (sim 4)).0
    ≡ some impossible_travel ∷ some normal ∷ Option.none ∷ []
unfolding generate_events iterate tx_event choose fresh_event normal_event travel_from auth_event
    scheduled_burst scheduled_stuffing_user scheduled_stuffing_ip make_transaction make_auth
first_passes = refl

generate_events-Faithful_example :
    Each
      (Faithful sample counting stamp settings "user_1" ("user_2" ∷ []) home)
      []
      (generate_events sample counting stamp settings "user_1" ("user_2" ∷ []) home 3 1 (sim 0)).0
generate_events-Faithful_example =
    generate_events-Faithful sample counting stamp settings "user_1" ("user_2" ∷ []) home 3 1
      (sim 0) refl

iterate_attacks_example :
    ((v : String) × ((w : String)
        → count
            (in_burst sample counting w)
            (iterate sample counting stamp settings "user_1" ("user_2" ∷ []) home 2 (sim 0)).0
          ≡ (if true && (v == w) then burst_size else 0)))
    × ((v : String) × ((w : String)
          → count
              (in_stuffing sample counting w)
              (iterate sample counting stamp settings "user_1" ("user_2" ∷ []) home 2 (sim 0)).0
            ≡ (if false && (v == w) then stuffing_user_fails else 0)))
    × (count
          (in_ip_stuffing sample counting)
          (iterate sample counting stamp settings "user_1" ("user_2" ∷ []) home 2 (sim 0)).0
        ≡ 0)
    × ((default_config {F = ℕ} 900).burst_threshold < burst_size)
    × ((default_config {F = ℕ} 900).auth_fail_user_threshold < stuffing_user_fails)
    × ((default_config {F = ℕ} 900).auth_fail_ip_threshold < stuffing_ip_fails)
iterate_attacks_example =
    iterate_attacks sample counting stamp settings "user_1" ("user_2" ∷ []) home 900 2 (sim 0)

abbrev of_tx : TransactionEvent sample → String
of_tx tx = tx.event_id

abbrev of_auth : AuthEvent sample → String
of_auth a = a.event_id

-- the service is down
abbrev exchange : TransactionEvent sample → Exchange
exchange tx = url_error

abbrev begin :
    Publishing sample counting String of_tx of_auth default_kafka_config settings exchange
begin = record {
  producer = record {
    fates = λ n. acknowledged;
    sends = 0;
    buffered = [];
    delivered = [];
    last_error = Option.none;
    send_failures = [];
  };
  sent = 0;
  verdicts = [];
  sleeps = [];
}

abbrev one_pass : List (Yield sample counting)
one_pass =
    (generate_events sample counting stamp settings "user_1" ("user_2" ∷ []) home 1 1 (sim 4)).0

abbrev published :
    Publishing sample counting String of_tx of_auth default_kafka_config settings exchange
published =
    run_simulator sample counting String of_tx of_auth default_kafka_config settings exchange
      one_pass begin

all_sent : (published.producer.last_error ≡ Option.none) × (published.sent ≡ 2)
unfolding generate_events iterate tx_event choose fresh_event normal_event travel_from auth_event
    scheduled_burst scheduled_stuffing_user scheduled_stuffing_ip make_transaction make_auth
    run_simulator publish_all publish_one ask_first ask_decision send_message flush resolve
    resolve_all
all_sent = (refl, refl)

-- the service answers the first transaction with a JSON list
abbrev listing : TransactionEvent sample → Exchange
listing tx = answered other_value

abbrev crashed :
    Publishing sample counting String of_tx of_auth default_kafka_config settings listing
crashed =
    run_simulator sample counting String of_tx of_auth default_kafka_config settings listing
      one_pass (record { producer = begin.producer; sent = 0; verdicts = []; sleeps = [] })

none_sent : (crashed.sent ≡ 0) × (crashed.verdicts ≡ [])
unfolding generate_events iterate tx_event choose fresh_event normal_event travel_from auth_event
    scheduled_burst scheduled_stuffing_user scheduled_stuffing_ip make_transaction make_auth
    run_simulator publish_all publish_one ask_first ask_decision send_message flush resolve
    resolve_all
none_sent = (refl, refl)

abbrev getenv : String → Option String
getenv name = if name == "SIM_USERS" then some "7" else Option.none

abbrev seven : String → Reading
seven text = natural 7

abbrev seven_float : String → Option ℕ
seven_float text = some 7

abbrev flags : Flags ℕ
flags = record {
  interval = Option.none;
  users = Option.none;
  replay_p = Option.none;
  travel_p = Option.none;
  auth_fail_p = Option.none;
  burst_every = some 0;
  stuffing_user_every = Option.none;
  stuffing_ip_every = Option.none;
  seed = some 3;
  decision_url = some "";
}

-- A flag wins over the environment, and that over the default; an empty address is none.
flags_win :
    (settings_from_env sample counting getenv seven seven_float
        (default_settings sample counting getenv seven seven_float 1 1 1 1)
      ≡ loaded (record (default_settings sample counting getenv seven seven_float 1 1 1 1) {
        num_users = 7;
      }))
    × (parse_args sample counting getenv seven seven_float flags settings
        ≡ record settings { burst_every = 0; seed = some 3; decision_url = Option.none })
unfolding settings_from_env read_or parse_args
flags_win = (refl, refl)
