-- ===== src/Simulator.antt =====
-- simulator/transaction_simulator.py: the stream of events, one iteration at a time. The random
-- generator, the clock and the random ids are outside, and enter as arguments.
pub mod Past
pub mod Stream
pub mod Traffic
pub mod Counting
pub mod Attacks
pub mod Publish
mod Settings
mod Tests
use Prim.Native.Nat.{◌%◌}
use rtace.Base.{
  ℕ, zero, suc, ◌+◌, String, ◌++◌, Bool, true, false, not, ◌&&◌, Option, none, some, List, [], ◌∷◌,
  ◌==◌, append, length, eqb, if◌then◌else◌,
}
use rtace.Platform.{Platform}
use rtace.Models.{TransactionEvent, AuthEvent}
use rtace.Detection.{Event, transaction, login}

-- The keys of LOCATION_COORDS.
pub data Location : Type 0 where
  us_ca us_ny us_tx uk_lon de_ber fr_par jp_tyo au_syd us_fl us_wa : Location

-- A key with its coordinates, as they are written.
abbrev pub location_coords : Location → String × String × String
location_coords us_ca = ("US-CA", "37.0", "-122.0")
location_coords us_ny = ("US-NY", "40.7", "-74.0")
location_coords us_tx = ("US-TX", "29.8", "-95.4")
location_coords uk_lon = ("UK-LON", "51.5", "-0.1")
location_coords de_ber = ("DE-BER", "52.5", "13.4")
location_coords fr_par = ("FR-PAR", "48.9", "2.4")
location_coords jp_tyo = ("JP-TYO", "35.7", "139.7")
location_coords au_syd = ("AU-SYD", "-33.9", "151.2")
location_coords us_fl = ("US-FL", "25.8", "-80.2")
location_coords us_wa = ("US-WA", "47.6", "-122.3")

abbrev pub code : Location → String
code l = (location_coords l).0

abbrev pub locations : List Location
locations = us_ca ∷ us_ny ∷ us_tx ∷ uk_lon ∷ de_ber ∷ fr_par ∷ jp_tyo ∷ au_syd ∷ us_fl ∷ us_wa ∷ []

-- MERCHANTS, the first and the others.
abbrev merchants : String × List String
merchants = (
  "Amazon",
  "Stripe" ∷ "PayPal" ∷ "Walmart" ∷ "Target" ∷ "Best Buy" ∷ "Netflix" ∷ "Spotify" ∷ "Uber" ∷ "Lyft"
      ∷ [],
)

abbrev sample_ips : String × List String
sample_ips =
    ("198.51.100.10", "198.51.100.11" ∷ "203.0.113.50" ∷ "192.0.2.100" ∷ "192.0.2.200" ∷ [])

abbrev pub stuffing_user_ip : String
stuffing_user_ip = "203.0.113.99"

abbrev pub stuffing_attack_ip : String
stuffing_attack_ip = "198.51.100.250"

abbrev pub burst_size : ℕ
burst_size = 25

abbrev pub stuffing_user_fails : ℕ
stuffing_user_fails = 12

abbrev pub stuffing_ip_fails : ℕ
stuffing_ip_fails = 52

pub data Scenario : Type 0 where
  normal replay impossible_travel fraud_burst stuffing_user stuffing_ip : Scenario

-- `random.Random`: `random()`, the index that `choice` draws for a list of so many items, and
-- `round(uniform(5.0, 500.0), 2)`.
pub record Random (F : Type 0) : Type 1 where
  pub G : Type 0
  pub random : G → F × G
  pub choice : ℕ → G → ℕ × G
  pub amount : G → F × G

abbrev pub get_or {ℓ} : {A : Type ℓ} → A → List A → ℕ → A
get_or d [] i = d
get_or d (x ∷ xs) zero = x
get_or d (x ∷ xs) (suc i) = get_or d xs i

-- `settings.x_every and iteration % settings.x_every == 0`
abbrev pub due : ℕ → ℕ → Bool
due zero iteration = false
due (suc every) iteration = eqb (iteration % suc every) 0

-- `[loc for loc in LOCATIONS if loc != home]`
abbrev pub others_in : List Location → Location → List Location
others_in [] home = []
others_in (l ∷ ls) home =
    let rest = others_in ls home in if code l == code home then rest else l ∷ rest

module _ (p : Platform) (rnd : Random p.F) where
  open p use {F, Time, flt, fle, fadd, parse}
  open rnd use {G, random, choice, amount}

  -- What the generator yields: an event with its scenario, or the pacing marker.
  pub data Yield : Type 0 where
    emitted : Event p → Scenario → Yield
    sleep : Yield

  pub record SimulatorSettings : Type 0 where
    pub interval_seconds : F
    pub num_users : ℕ
    pub replay_probability : F
    pub impossible_travel_probability : F
    pub auth_fail_probability : F
    pub burst_every : ℕ
    pub stuffing_user_every : ℕ
    pub stuffing_ip_every : ℕ
    pub seed : Option ℕ
    pub decision_url : Option String

  -- The generator's variables: the random generator, the number of events made, and `last_tx`.
  pub record Sim : Type 0 where
    pub rng : G
    pub made : ℕ
    pub last_tx : List (String × TransactionEvent p)

  -- `rng.choice` of a list that is not empty
  unfoldable pub choose {ℓ} : {A : Type ℓ} → A → List A → Sim → A × Sim
  choose x xs s =
      let (i, g) = choice (suc (length xs)) s.rng in (get_or x (x ∷ xs) i, record s { rng = g })

  abbrev pub find : String → List (String × TransactionEvent p) → Option (TransactionEvent p)
  find u [] = none
  find u ((v, tx) ∷ rest) = if v == u then some tx else find u rest

  -- `last_tx[user_id] = tx`
  abbrev pub store :
      String
      → TransactionEvent p
      → List (String × TransactionEvent p)
      → List (String × TransactionEvent p)
  store u tx [] = (u, tx) ∷ []
  store u tx ((v, old) ∷ rest) = if v == u then (v, tx) ∷ rest else (v, old) ∷ store u tx rest

  -- `stamp` gives the n-th event its random id and its time.
  module _ (stamp : ℕ → String × Time) (settings : SimulatorSettings) where
    unfoldable pub make_transaction : String → Location → Sim → TransactionEvent p × Sim
    make_transaction user_id location s =
        let (sum, g) = amount s.rng in
        let (merchant, s') = choose merchants.0 merchants.1 (record s { rng = g }) in
        (
          record {
            event_id = (stamp s.made).0;
            user_id = user_id;
            amount = sum;
            merchant = merchant;
            timestamp = (stamp s.made).1;
            location = code location;
            latitude = parse (location_coords location).1;
            longitude = parse (location_coords location).2;
          },
          record s' { made = suc s.made },
        )

    unfoldable pub make_auth : String → String → Bool → Sim → AuthEvent p × Sim
    make_auth user_id ip_address success s = (
      record {
        event_id = (stamp s.made).0;
        user_id = user_id;
        ip_address = ip_address;
        success = success;
        timestamp = (stamp s.made).1;
      },
      record s { made = suc s.made },
    )

    -- Of the users `u ∷ us` and the homes of all.
    module _ (u : String) (us : List String) (home : String → Location) where
      -- One transaction from home, stored as the user's last.
      unfoldable pub normal_event : String → Sim → Yield × Sim
      normal_event user_id s =
          let (tx, s') = make_transaction user_id (home user_id) s in
          (emitted (transaction tx) normal, record s' { last_tx = store user_id tx s'.last_tx })

      -- A home that is every location has no other; LOCATIONS has ten.
      unfoldable pub travel_from : List Location → String → Sim → Yield × Sim
      travel_from [] user_id s = normal_event user_id s
      travel_from (l ∷ ls) user_id s =
          let (away, s') = choose l ls s in
          let (tx, s'') = make_transaction user_id away s' in
          (emitted (transaction tx) impossible_travel, s'')

      -- What is not a replay, by `roll`.
      unfoldable pub fresh_event : F → String → Sim → Yield × Sim
      fresh_event roll user_id s =
          if fle settings.replay_probability roll
            && flt roll (fadd settings.replay_probability settings.impossible_travel_probability)
          then travel_from (others_in locations (home user_id)) user_id s
          else normal_event user_id s

      unfoldable pub tx_event : String → Sim → Yield × Sim
      tx_event user_id s =
          let (roll, g) = random s.rng in
          let s' = record s { rng = g } in
          let fresh = fresh_event roll user_id s' in
          elim (find user_id s.last_tx) [
            | none ↦ fresh
            | some tx ↦
                if flt roll settings.replay_probability
                then (emitted (transaction tx) replay, s')
                else fresh
          ]

      -- One login, mostly successful.
      unfoldable pub auth_event : Sim → Yield × Sim
      auth_event s =
          let (au_user, s1) = choose u us s in
          let (roll, g) = random s1.rng in
          let success = fle settings.auth_fail_probability roll in
          let (ip, s2) = choose sample_ips.0 sample_ips.1 (record s1 { rng = g }) in
          let (auth, s3) = make_auth au_user ip success s2 in (emitted (login auth) normal, s3)

      unfoldable pub burst_events : ℕ → String → Sim → List Yield × Sim
      burst_events zero victim s = ([], s)
      burst_events (suc n) victim s =
          let (tx, s') = make_transaction victim (home victim) s in
          let (rest, s'') = burst_events n victim s' in
          (emitted (transaction tx) fraud_burst ∷ rest, s'')

      unfoldable pub stuffing_user_events : ℕ → String → Sim → List Yield × Sim
      stuffing_user_events zero victim s = ([], s)
      stuffing_user_events (suc n) victim s =
          let (auth, s') = make_auth victim stuffing_user_ip false s in
          let (rest, s'') = stuffing_user_events n victim s' in
          (emitted (login auth) stuffing_user ∷ rest, s'')

      -- `n` more logins, the `i`-th on: `user_ids[i % len(user_ids)]`
      unfoldable pub stuffing_ip_events : ℕ → ℕ → Sim → List Yield × Sim
      stuffing_ip_events zero i s = ([], s)
      stuffing_ip_events (suc n) i s =
          let uid = get_or u (u ∷ us) (i % suc (length us)) in
          let (auth, s') = make_auth uid stuffing_attack_ip false s in
          let (rest, s'') = stuffing_ip_events n (suc i) s' in
          (emitted (login auth) stuffing_ip ∷ rest, s'')

      unfoldable pub scheduled_burst : ℕ → Sim → List Yield × Sim
      scheduled_burst iteration s =
          let (victim, s') = choose u us s in
          let attack = burst_events burst_size victim s' in
          if due settings.burst_every iteration then attack else ([], s)

      unfoldable pub scheduled_stuffing_user : ℕ → Sim → List Yield × Sim
      scheduled_stuffing_user iteration s =
          let (victim, s') = choose u us s in
          let attack = stuffing_user_events stuffing_user_fails victim s' in
          if due settings.stuffing_user_every iteration then attack else ([], s)

      unfoldable pub scheduled_stuffing_ip : ℕ → Sim → List Yield × Sim
      scheduled_stuffing_ip iteration s =
          let attack = stuffing_ip_events stuffing_ip_fails 0 s in
          if due settings.stuffing_ip_every iteration then attack else ([], s)

      -- One pass of the generator's `while True`.
      unfoldable pub iterate : ℕ → Sim → List Yield × Sim
      iterate iteration s =
          let (user_id, s1) = choose u us s in
          let (first, s2) = tx_event user_id s1 in
          let (second, s3) = auth_event s2 in
          let (bursts, s4) = scheduled_burst iteration s3 in
          let (users, s5) = scheduled_stuffing_user iteration s4 in
          let (ips, s6) = scheduled_stuffing_ip iteration s5 in
          (first ∷ second ∷ append bursts (append users (append ips (sleep ∷ []))), s6)

      -- What the generator has yielded after so many iterations, from the given one on.
      unfoldable pub generate_events : ℕ → ℕ → Sim → List Yield × Sim
      generate_events zero iteration s = ([], s)
      generate_events (suc n) iteration s =
          let (yields, s') = iterate iteration s in
          let (rest, s'') = generate_events n (suc iteration) s' in (append yields rest, s'')
