-- ===== src/Simulator/Publish.antt =====
-- simulator/transaction_simulator.py: `ask_decision` and `run_simulator`, which publishes what the
-- generator yields.
use rtace.Base.{
  ◌&&◌, is_some, ℕ, suc, ◌+◌, String, ◌≡◌, false, not, Bool, Option, none, some, List, [], ◌∷◌,
  ◌==◌, append, length, if◌then◌else◌,
}
use rtace.Platform.{Platform}
use rtace.Config.{KafkaConfig}
use rtace.Models.{TransactionEvent, AuthEvent}
use rtace.Kafka.{Message, Producer, send_message, flush}
use rtace.Kafka.Delivery.{send_all}
use rtace.Detection.{transaction, login}
use rtace.Simulator.{Random, Yield, emitted, sleep, SimulatorSettings}

-- `decision.get("verdict", "?")`
abbrev verdict_field : List (String × String) → String
verdict_field [] = "?"
verdict_field ((k, v) ∷ decision) = if k == "verdict" then v else verdict_field decision

-- What `json.loads` makes of an answer: an object; a value that is false, such as null; or any other
-- value, which has no `get`.
pub data Answer : Type 0 where
  decision : List (String × String) → Answer
  falsy other_value : Answer

-- What becomes of the request to the decision service.
pub data Exchange : Type 0 where
  answered : Answer → Exchange
  url_error timeout_error json_decode_error other_error : Exchange

-- `none`: the exception is not caught.
unfoldable pub ask_decision : Exchange → Option (Option Answer)
ask_decision (answered answer) = some (some answer)
ask_decision url_error = some none
ask_decision timeout_error = some none
ask_decision json_decode_error = some none
ask_decision other_error = none

-- The verdict of a decision or None; `none` where `get` raises an AttributeError.
abbrev pub verdict_of : Option Answer → Option String
verdict_of none = some "UNAVAILABLE"
verdict_of (some falsy) = some "UNAVAILABLE"
verdict_of (some (decision [])) = some "UNAVAILABLE"
verdict_of (some (decision ((k, v) ∷ fields))) = some (verdict_field ((k, v) ∷ fields))
verdict_of (some other_value) = none

abbrev is_url : Option String → Bool
is_url none = false
is_url (some url) = not (url == "")

module _ (p : Platform) (rnd : Random p.F) (V : Type 0) (of_tx : TransactionEvent p → V)
    (of_auth : AuthEvent p → V) (kafka_config : KafkaConfig) (settings : SimulatorSettings p rnd)
    (exchange : TransactionEvent p → Exchange) where
  -- `if settings.decision_url`
  abbrev pub url_set : Bool
  url_set = is_url settings.decision_url

  -- The variables of `run_simulator`: the producer, the number of events sent, the verdicts in their
  -- order, and the sleeps.
  pub record Publishing : Type 0 where
    pub producer : Producer V
    pub sent : ℕ
    pub verdicts : List String
    pub sleeps : List p.F

  abbrev pub tx_message : TransactionEvent p → Message V
  tx_message tx = record {
    topic = kafka_config.tx_events_topic;
    value = of_tx tx;
    key = some tx.user_id;
  }

  abbrev pub auth_message : AuthEvent p → Message V
  auth_message a = record {
    topic = kafka_config.auth_events_topic;
    value = of_auth a;
    key = some a.user_id;
  }

  -- The verdict on a transaction, or `none` where the loop is left with an exception.
  abbrev pub verdict : TransactionEvent p → Option String
  verdict tx = elim (ask_decision (exchange tx)) [ none ↦ none | some answer ↦ verdict_of answer ]

  -- The decision service is asked first, where its address is set.
  unfoldable pub ask_first : TransactionEvent p → Publishing → Option Publishing
  ask_first tx s =
      let asked : Option Publishing = elim (verdict tx) [
        | none ↦ none
        | some v ↦ some (record s { verdicts = append s.verdicts (v ∷ []) })
      ] in
      if url_set then asked else some s

  -- One item of the loop; `none` where an exception leaves the loop.
  unfoldable pub publish_one : Yield p rnd → Publishing → Option Publishing
  publish_one sleep s =
      some (record s { sleeps = append s.sleeps (settings.interval_seconds ∷ []) })
  publish_one (emitted (transaction tx) scenario) s = elim (ask_first tx s) [
    | none ↦ none
    | some s' ↦
        some (record s' { producer = send_message (tx_message tx) s'.producer; sent = suc s'.sent })
  ]
  publish_one (emitted (login a) scenario) s =
      some (record s { producer = send_message (auth_message a) s.producer; sent = suc s.sent })

  unfoldable pub publish_all : List (Yield p rnd) → Publishing → Publishing
  publish_all [] s = s
  publish_all (y ∷ ys) s = elim (publish_one y s) [ none ↦ s | some s' ↦ publish_all ys s' ]

  -- The items until the interrupt, or an exception, and the `finally` block.
  unfoldable pub run_simulator : List (Yield p rnd) → Publishing → Publishing
  run_simulator ys s = let s' = publish_all ys s in record s' { producer = flush s'.producer }

  -- The specification of the verdict: of an object that is not empty its own, or a question mark;
  -- without an answer, or with one that is false, that the service is unavailable; otherwise none.
  abbrev pub expected : Exchange → Option String
  expected (answered (decision [])) = some "UNAVAILABLE"
  expected (answered (decision (field ∷ fields))) = some (verdict_field (field ∷ fields))
  expected (answered falsy) = some "UNAVAILABLE"
  expected (answered other_value) = none
  expected url_error = some "UNAVAILABLE"
  expected timeout_error = some "UNAVAILABLE"
  expected json_decode_error = some "UNAVAILABLE"
  expected other_error = none

  -- The items before the first transaction whose verdict is an exception.
  abbrev pub is_lost : Yield p rnd → Bool
  is_lost (emitted (transaction tx) scenario) = url_set && not (is_some (expected (exchange tx)))
  is_lost (emitted (login a) scenario) = false
  is_lost sleep = false

  abbrev pub reached : List (Yield p rnd) → List (Yield p rnd)
  reached [] = []
  reached (y ∷ ys) = let rest = reached ys in if is_lost y then [] else y ∷ rest

  -- Each event is one message, to the topic of its kind, under its user.
  abbrev pub message_of : Yield p rnd → List (Message V)
  message_of sleep = []
  message_of (emitted (transaction tx) scenario) = tx_message tx ∷ []
  message_of (emitted (login a) scenario) = auth_message a ∷ []

  abbrev pub messages_of : List (Yield p rnd) → List (Message V)
  messages_of [] = []
  messages_of (y ∷ ys) = append (message_of y) (messages_of ys)

  -- the verdicts on the transactions, if the service is asked
  abbrev pub verdict_on : Yield p rnd → List String
  verdict_on (emitted (transaction tx) scenario) =
      if url_set then elim (expected (exchange tx)) [ none ↦ [] | some v ↦ v ∷ [] ] else []
  verdict_on (emitted (login a) scenario) = []
  verdict_on sleep = []

  abbrev pub verdicts_on : List (Yield p rnd) → List String
  verdicts_on [] = []
  verdicts_on (y ∷ ys) = append (verdict_on y) (verdicts_on ys)

  -- what one item adds
  abbrev Step : Yield p rnd → Publishing → Publishing → Type 0
  Step y s s' =
      (s'.producer ≡ send_all (message_of y) s.producer)
      × (s'.sent ≡ s.sent + length (message_of y))
      × (s'.verdicts ≡ append s.verdicts (verdict_on y))

  -- what some items add
  abbrev Adds : List (Yield p rnd) → Publishing → Publishing → Type 0
  Adds ys s s' =
      (s'.producer ≡ send_all (messages_of ys) s.producer)
      × (s'.sent ≡ s.sent + length (messages_of ys))
      × (s'.verdicts ≡ append s.verdicts (verdicts_on ys))
