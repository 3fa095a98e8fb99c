-- ===== src/ConsumerLoop.antt =====
-- common/consumer_loop.py: poll, handle with retry and dead-lettering, commit.
pub mod Retry
pub mod Run
pub mod Durable
pub mod Classified
pub mod Splitting
mod Frame
pub mod Passes
pub mod Retried
pub mod Endings
pub mod Covering
pub mod Commits
pub mod Backoff
pub mod Recovery
pub mod PerRecord
pub mod AtLeastOnce
mod Tests
mod RecoveryTests
use rtace.Base.{
  ℕ, suc, String, Bool, true, false, Option, none, some, List, [], ◌∷◌, ◌==◌, append, if◌then◌else◌,
}
use rtace.Platform.{Platform, Json}
use rtace.Kafka.{Message, Producer, send_message, decode_json}

-- The exceptions that the loop tells apart; `other` is any exception of another class, by its name.
pub data Exception : Type 0 where
  connection_error timeout_error busy_loading_error out_of_memory_error read_only_error : Exception
  transient_error kafka_error value_error validation_error : Exception
  other : String → Exception

unfoldable pub is_transient : Exception → Bool
is_transient value_error = false
is_transient validation_error = false
is_transient (other name) = false
is_transient _ = true

-- A Kafka record as `poll` returns it.
pub record Record : Type 0 where
  pub topic : String
  pub partition : ℕ
  pub offset : ℕ
  pub key : Option (List ℕ)
  pub value : Option (List ℕ)

-- `DecodedRecord`
pub record Decoded (F : Type 0) : Type 0 where
  pub topic : String
  pub partition : ℕ
  pub offset : ℕ
  pub value : Json F

-- What a batch handler does: it returns the permanent failures by index, or it raises.
pub data Handled : Type 0 where
  failures : (ℕ → Option Exception) → Handled
  raises : Exception → Handled

-- The counters of the loop, one entry for each increment, the newest last.
pub data Count : Type 0 where
  skipped processed dead_lettered permanent transient dlq_message : Count

pub record LoopSettings (F : Type 0) : Type 0 where
  pub stage : String
  pub retry_initial_seconds : F
  pub retry_max_seconds : F
  pub kafka_error_pause_seconds : F
  -- `producer is not None`, and the truth of `dlq_topic`
  pub has_producer : Bool
  pub dlq_topic : Option String

-- The loop's own state, beside what the handler keeps (`world`).
pub record Engine (F V W : Type 0) : Type 0 where
  pub producer : Producer V
  pub world : W
  pub counts : List Count
  pub sleeps : List F
  -- the offsets of each commit that the consumer accepted
  pub commits : List (List (String × ℕ × ℕ))

-- The value of a dead-letter message.
pub record DeadLetter : Type 0 where
  pub stage : String
  pub source_topic : String
  pub partition : ℕ
  pub offset : ℕ
  pub key : Option (List ℕ)
  pub value : Option (List ℕ)
  pub error : Exception

-- What the shutdown event shows at the two places where a retry reads it.
pub record Wait : Type 0 where
  pub before_sleep : Bool
  pub after_sleep : Bool

-- How one attempt at a batch ends, and how the handling of a batch ends.
pub data Attempt : Type 0 where
  retry : Exception → Attempt
  complete : Attempt

pub data Ending : Type 0 where
  finished shutdown_requested : Ending

-- One record after its value was decoded.
pub data Class (F : Type 0) : Type 0 where
  undecodable tombstone : Class F
  value_of : Json F → Class F

module _ (p : Platform) (V W : Type 0) where
  open p use {F}

  -- What the loop takes from outside: `json.loads` of bytes, the dictionary of a dead letter as a
  -- message value, the text of a key, and the handler, which has the producer and a world of its
  -- own.
  pub record Interface : Type 0 where
    pub loads : List ℕ → Option (Json F)
    pub of_dead_letter : DeadLetter → V
    pub key_text : List ℕ → String
    pub handler : List (Decoded F) → Producer V → W → Handled × Producer V × W

module _ (p : Platform) (V W : Type 0) (io : Interface p V W) (settings : LoopSettings p.F) where
  open p use {F}
  open io use {loads, of_dead_letter, key_text}

  abbrev pub State : Type 0
  State = Engine F V W

  abbrev pub count : Count → State → State
  count c s = record s { counts = append s.counts (c ∷ []) }

  pub class_of : Record → Class F
  class_of r = elim (decode_json loads r.value) [
    | none ↦ undecodable
    | some none ↦ tombstone
    | some (some v) ↦ value_of v
  ]

  abbrev pub decoded_of : Record → Json F → Decoded F
  decoded_of r v = record { topic = r.topic; partition = r.partition; offset = r.offset; value = v }

  -- The three results of decoding once: what the handler gets with its records, and the
  -- undecodable records.
  pub record Split : Type 0 where
    pub decoded : List (Decoded F)
    pub decoded_records : List Record
    pub predecode_dlq : List (Record × Exception)

  abbrev pub add_to_split : Record → Class F → Split → Split
  add_to_split r undecodable sp = record sp { predecode_dlq = (r, value_error) ∷ sp.predecode_dlq }
  add_to_split r tombstone sp = sp
  add_to_split r (value_of v) sp = record sp {
    decoded = decoded_of r v ∷ sp.decoded;
    decoded_records = r ∷ sp.decoded_records;
  }

  pub split : List Record → Split
  split [] = record { decoded = []; decoded_records = []; predecode_dlq = [] }
  split (r ∷ rs) = add_to_split r (class_of r) (split rs)

  -- the "skipped" count of each tombstone
  pub count_skipped : List Record → State → State
  count_skipped [] s = s
  count_skipped (r ∷ rs) s = elim (class_of r) [
    | tombstone ↦ count_skipped rs (count skipped s)
    | _ ↦ count_skipped rs s
  ]

  -- `enumerate(decoded_records)` against the failures: dead letters and processed records.
  pub classify : ℕ → (ℕ → Option Exception) → List Record → List (Record × Exception) × List Record
  classify i fails [] = ([], [])
  classify i fails (r ∷ rs) =
      let (dlq, ok) = classify (suc i) fails rs in
      elim (fails i) [ some exc ↦ ((r, exc) ∷ dlq, ok) | none ↦ (dlq, r ∷ ok) ]

  -- `[(r, exc) for r in decoded_records]`
  pub all_failed : Exception → List Record → List (Record × Exception)
  all_failed exc [] = []
  all_failed exc (r ∷ rs) = (r, exc) ∷ all_failed exc rs

  abbrev pub dead_letter : Record → Exception → DeadLetter
  dead_letter r exc = record {
    stage = settings.stage;
    source_topic = r.topic;
    partition = r.partition;
    offset = r.offset;
    key = r.key;
    value = r.value;
    error = exc;
  }

  -- `record.key.decode(...) if record.key else None`
  abbrev pub dead_letter_key : Option (List ℕ) → Option String
  dead_letter_key none = none
  dead_letter_key (some []) = none
  dead_letter_key (some (b ∷ bytes)) = some (key_text (b ∷ bytes))

  abbrev pub dlq_message_of : String → Record × Exception → Message V
  dlq_message_of topic (r, exc) = record {
    topic = topic;
    value = of_dead_letter (dead_letter r exc);
    key = dead_letter_key r.key;
  }

  -- The dead-letter topic to send to, if there are a producer and a topic that is not empty.
  abbrev pub dlq_target : Option String
  dlq_target = if settings.has_producer then nonempty settings.dlq_topic else none
    where
      nonempty : Option String → Option String
      nonempty none = none
      nonempty (some t) = if t == "" then none else some t

  pub send_to_dlq : Record × Exception → State → State
  send_to_dlq entry s = elim dlq_target [
    | none ↦ s
    | some topic ↦ record s { producer = send_message (dlq_message_of topic entry) s.producer }
  ]

  pub send_all_to_dlq : List (Record × Exception) → State → State
  unfolding send_to_dlq
  send_all_to_dlq [] s = s
  send_all_to_dlq (entry ∷ rest) s = send_all_to_dlq rest (send_to_dlq entry s)

  pub count_processed : List Record → State → State
  count_processed [] s = s
  count_processed (_ ∷ rest) s = count_processed rest (count processed s)

  pub count_dlq : List (Record × Exception) → State → State
  count_dlq [] s = s
  count_dlq (_ ∷ rest) s =
      count_dlq rest (count dead_lettered (count dlq_message (count permanent s)))
