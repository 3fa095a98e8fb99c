-- ===== src/Simulator/Settings.antt =====
-- The settings of simulator/transaction_simulator.py: the defaults, `from_env` and `_parse_args`.
use rtace.Base.{ℕ, String, Option, none, some, ◌==◌, if◌then◌else◌}
use rtace.Platform.{Platform}
use rtace.Config.Env.{Loaded, loaded, Reading, number, parsed, ◌>>=◌}
use rtace.Simulator.{Random, SimulatorSettings}

-- `text or None`
abbrev nonempty : Option String → Option String
nonempty none = none
nonempty (some text) = if text == "" then none else some text

-- a flag of the command line, or its default
abbrev flag_or {ℓ} : {A : Type ℓ} → A → Option A → A
flag_or default none = default
flag_or default (some a) = a

-- the same where the default may be None
abbrev flag_else {ℓ} : {A : Type ℓ} → Option A → Option A → Option A
flag_else default none = default
flag_else default (some a) = some a

-- The flags given.
pub record Flags (F : Type 0) : Type 0 where
  pub interval : Option F
  pub users : Option ℕ
  pub replay_p : Option F
  pub travel_p : Option F
  pub auth_fail_p : Option F
  pub burst_every : Option ℕ
  pub stuffing_user_every : Option ℕ
  pub stuffing_ip_every : Option ℕ
  pub seed : Option ℕ
  pub decision_url : Option String

module _ (p : Platform) (rnd : Random p.F) (getenv : String → Option String)
    (int : String → Reading) (float : String → Option p.F) where
  -- `SimulatorSettings()`, over the doubles of 0.5, 0.05, 0.02 and 0.10
  abbrev pub default_settings : p.F → p.F → p.F → p.F → SimulatorSettings p rnd
  default_settings interval replay travel fail = record {
    interval_seconds = interval;
    num_users = 100;
    replay_probability = replay;
    impossible_travel_probability = travel;
    auth_fail_probability = fail;
    burst_every = 200;
    stuffing_user_every = 150;
    stuffing_ip_every = 400;
    seed = none;
    decision_url = none;
  }

  -- the two parsers, which name the variable where they fail
  abbrev int_of : String → String → Loaded ℕ
  int_of name text = number name (int text)

  abbrev float_of : String → String → Loaded p.F
  float_of name text = parsed name (float text)

  -- `parse(os.getenv(name, default))`, which leaves a default that is a number as it is
  unfoldable pub read_or : {A : Type 0} → (String → String → Loaded A) → String → A → Loaded A
  read_or parse name default = elim (getenv name) [
    | none ↦ loaded default
    | some text ↦ parse name text
  ]

  abbrev seed_of : Option String → Loaded (Option ℕ)
  seed_of none = loaded none
  seed_of (some text) = do n ← int_of "SIM_SEED" text; loaded (some n)

  -- `SimulatorSettings.from_env()`
  unfoldable pub settings_from_env : SimulatorSettings p rnd → Loaded (SimulatorSettings p rnd)
  settings_from_env d = do
    interval_seconds ← read_or float_of "SIM_INTERVAL_SECONDS" d.interval_seconds
    num_users ← read_or int_of "SIM_USERS" d.num_users
    replay_probability ← read_or float_of "SIM_REPLAY_PROBABILITY" d.replay_probability
    impossible_travel_probability ←
        read_or float_of "SIM_IMPOSSIBLE_TRAVEL_PROBABILITY" d.impossible_travel_probability
    auth_fail_probability ← read_or float_of "SIM_AUTH_FAIL_PROBABILITY" d.auth_fail_probability
    burst_every ← read_or int_of "SIM_BURST_EVERY" d.burst_every
    stuffing_user_every ← read_or int_of "SIM_STUFFING_USER_EVERY" d.stuffing_user_every
    stuffing_ip_every ← read_or int_of "SIM_STUFFING_IP_EVERY" d.stuffing_ip_every
    seed ← seed_of (nonempty (getenv "SIM_SEED"))
    loaded (record {
      interval_seconds = interval_seconds;
      num_users = num_users;
      replay_probability = replay_probability;
      impossible_travel_probability = impossible_travel_probability;
      auth_fail_probability = auth_fail_probability;
      burst_every = burst_every;
      stuffing_user_every = stuffing_user_every;
      stuffing_ip_every = stuffing_ip_every;
      seed = seed;
      decision_url = nonempty (getenv "SIM_DECISION_URL");
    })

  -- `_parse_args`: what `from_env` gave are the defaults of the flags.
  unfoldable pub parse_args : Flags p.F → SimulatorSettings p rnd → SimulatorSettings p rnd
  parse_args flags env = record {
    interval_seconds = flag_or env.interval_seconds flags.interval;
    num_users = flag_or env.num_users flags.users;
    replay_probability = flag_or env.replay_probability flags.replay_p;
    impossible_travel_probability = flag_or env.impossible_travel_probability flags.travel_p;
    auth_fail_probability = flag_or env.auth_fail_probability flags.auth_fail_p;
    burst_every = flag_or env.burst_every flags.burst_every;
    stuffing_user_every = flag_or env.stuffing_user_every flags.stuffing_user_every;
    stuffing_ip_every = flag_or env.stuffing_ip_every flags.stuffing_ip_every;
    seed = flag_else env.seed flags.seed;
    decision_url = nonempty (flag_else env.decision_url flags.decision_url);
  }
