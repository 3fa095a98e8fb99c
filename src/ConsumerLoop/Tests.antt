-- ===== src/ConsumerLoop/Tests.antt =====
-- A batch of a tombstone, an undecodable record and two others, of which the handler refuses one;
-- the first delivery of a message fails.
use rtace.Base.{
  ℕ, ◌+◌, ◌≡◌, refl, ◌⊎◌, true, false, Option, none, some, List, [], ◌∷◌, String, append, arith,
  All, length, replicate, eqb, if◌then◌else◌,
}
use rtace.Platform.{Json, text, null}
use rtace.Platform.Sample.{sample}
use rtace.Kafka.{
  Message, Fate, acknowledged, failed, Producer, send_message, reset_send_errors, resolve,
  resolve_all, flush, flush_and_verify, decode_json,
}
use rtace.Kafka.Delivery.{Sends, start, sent, outbox, flush_and_verify_delivers}
use rtace.ConsumerLoop.{
  Exception, validation_error, value_error, Record, Decoded, Handled, failures, raises, skipped,
  processed, dead_lettered, permanent, transient, dlq_message, LoopSettings, Engine, Wait, Ending,
  finished, Interface, split, class_of, count_skipped, classify, all_failed, send_to_dlq,
  send_all_to_dlq, count_processed, count_dlq,
}
use rtace.ConsumerLoop.Retry.{
  attempt, reset, call_handler, verify, outcome, settle, next_delay, backoff, retry_loop,
  handle_batch_with_retry, is_empty_batch,
}
use rtace.ConsumerLoop.Run.{
  Pass, batch, run_consumer_loop, offsets_of, loop_pass, poll_pass, after_batch, commit, close,
  offsets_from, assign,
}
use rtace.ConsumerLoop.Durable.{OnlySends, handled, dlq_messages}
use rtace.ConsumerLoop.Classified.{In, here, there, AllGo, fails_of, outcome_sorts}
use rtace.ConsumerLoop.Splitting.{Sorted, split_sorts}
use rtace.ConsumerLoop.Frame.{counts_of}
use rtace.ConsumerLoop.Passes.{skipped_counts}
use rtace.ConsumerLoop.Endings.{handle_batch_delivers}
use rtace.ConsumerLoop.Covering.{InOrder, Beyond, committed_offset, Source, offsets_of_cover}
use rtace.ConsumerLoop.Commits.{Offsets, Justified, run_commits_finished}
use rtace.ConsumerLoop.AtLeastOnce.{SendsExactly, Covered, run_commits_delivered}
use rtace.ConsumerLoop.{is_transient}
use rtace.ConsumerLoop.PerRecord.{per_record, returns, AllHandled, Raised, per_record_reports}

-- a value that begins with a zero byte is not JSON
abbrev pub loads : List ℕ → Option (Json ℕ)
loads [] = none
loads (b ∷ bytes) = if eqb b 0 then none else some (text "tx")

abbrev handler : List (Decoded ℕ) → Producer ℕ → ℕ → Handled × Producer ℕ × ℕ
handler ds pr w = (
  failures (λ i. if eqb i 1 then some validation_error else none),
  send_message (record { topic = "detections"; value = 7; key = none }) pr,
  w + 1,
)

abbrev pub io : Interface sample ℕ ℕ
io = record {
  loads = loads;
  of_dead_letter = λ d. d.offset;
  key_text = λ k. "k";
  handler = handler;
}

abbrev pub settings : LoopSettings ℕ
settings = record {
  stage = "detection";
  retry_initial_seconds = 1;
  retry_max_seconds = 30;
  kafka_error_pause_seconds = 1;
  has_producer = true;
  dlq_topic = some "rtace-dlq";
}

abbrev rec_at : ℕ → Option (List ℕ) → Record
rec_at o v = record { topic = "tx-events"; partition = 0; offset = o; key = none; value = v }

abbrev pub records : List Record
records =
    rec_at 4 none
    ∷ rec_at 5 (some (0 ∷ []))
    ∷ rec_at 6 (some (1 ∷ []))
    ∷ rec_at 7 (some (2 ∷ []))
    ∷ []

-- the first send fails while `flush` waits, and all later ones succeed
abbrev fate : ℕ → Fate
fate n = if eqb n 0 then failed else acknowledged

abbrev pub start_state : Engine ℕ ℕ ℕ
start_state = record {
  producer = record {
    fates = fate;
    sends = 0;
    buffered = [];
    delivered = [];
    last_error = none;
    send_failures = [];
  };
  world = 0;
  counts = [];
  sleeps = [];
  commits = [];
}

abbrev pub quiet : Wait
quiet = record { before_sleep = false; after_sleep = false }

abbrev pub waits : List Wait
waits = quiet ∷ quiet ∷ []

abbrev pub result : Option Ending × Engine ℕ ℕ ℕ
result = handle_batch_with_retry sample ℕ ℕ io settings waits records start_state

pub sends-OnlySends : OnlySends sample ℕ ℕ io settings
sends-OnlySends ds pr w h =
    (record { topic = "detections"; value = 7; key = none } ∷ [], sent start _)

batch_ends :
    (result.0 ≡ some finished)
    × (result.1.counts
        ≡ skipped ∷ transient ∷ processed ∷ permanent ∷ dlq_message ∷ dead_lettered ∷ permanent
          ∷ dlq_message ∷ dead_lettered ∷ [])
    × (result.1.sleeps ≡ 1 ∷ [])
    × (result.1.world ≡ 2)
unfolding handle_batch_with_retry retry_loop attempt backoff reset call_handler settle verify
    outcome classify all_failed split class_of decode_json count_skipped send_all_to_dlq send_to_dlq
    count_processed count_dlq send_message reset_send_errors resolve resolve_all flush
    flush_and_verify next_delay
batch_ends = (refl, refl, refl, refl)

finishes :
    handle_batch_with_retry sample ℕ ℕ io settings waits records start_state
    ≡ (some finished, result.1)
finishes = λ i. (batch_ends.0 i, result.1)

pub busy : is_empty_batch sample ℕ ℕ io settings (split sample ℕ ℕ io settings records) ≡ false
unfolding split class_of decode_json
busy = refl

handle_batch_delivers_example :
    let b = split sample ℕ ℕ io settings records in
    (s₀ : Engine ℕ ℕ ℕ) × (k : ℕ) × (ms : List (Message ℕ)) × Sends
      (reset sample ℕ ℕ io settings s₀).producer
      ms
      (handled sample ℕ ℕ io settings b s₀).1.producer
    × (result.1.producer.buffered ≡ [])
    × (result.1.producer.delivered
        ≡ append (outbox s₀.producer) (
            append ms (
              dlq_messages sample ℕ ℕ io settings
                (outcome sample ℕ ℕ io settings b (handled sample ℕ ℕ io settings b s₀).0).0)))
    × (result.1.counts
        ≡ append start_state.counts (
            append (skipped_counts sample ℕ ℕ io settings records) (
              append (replicate k transient) (
                counts_of sample ℕ ℕ io settings
                  (outcome sample ℕ ℕ io settings b (handled sample ℕ ℕ io settings b s₀).0)))))
    × (result.1.commits ≡ start_state.commits)
handle_batch_delivers_example =
    handle_batch_delivers sample ℕ ℕ io settings waits records start_state result.1 refl
      sends-OnlySends busy finishes

outcome_sorts_example :
    let b = split sample ℕ ℕ io settings records in
    let todo = outcome sample ℕ ℕ io settings b (raises value_error) in
    AllGo sample ℕ ℕ io settings todo 0
      (fails_of sample ℕ ℕ io settings (raises value_error))
      b.decoded_records
    × ((dlq : List (Record × Exception)) × (todo.0 ≡ append b.predecode_dlq dlq))
    × (length todo.0 + length todo.1 ≡ length b.predecode_dlq + length b.decoded_records)
outcome_sorts_example =
    outcome_sorts sample ℕ ℕ io settings (split sample ℕ ℕ io settings records) (raises value_error)

split_sorts_example :
    Sorted sample ℕ ℕ io settings
      (rec_at 5 (some (0 ∷ [])))
      (some (0 ∷ []))
      (split sample ℕ ℕ io settings records)
split_sorts_example =
    split_sorts sample ℕ ℕ io settings records (rec_at 5 (some (0 ∷ []))) (there here)

abbrev alert : Message ℕ
alert = record { topic = "t"; value = 3; key = none }

abbrev ready : Producer ℕ
ready = record start_state.producer { sends = 1 }

flush_and_verify_delivers_example :
    (ready.last_error ≡ none)
    × ((flush_and_verify (send_message alert ready)).1.buffered ≡ [])
    × ((flush_and_verify (send_message alert ready)).1.delivered
        ≡ append (outbox ready) (append [] (alert ∷ [])))
unfolding send_message flush_and_verify flush resolve_all resolve
flush_and_verify_delivers_example =
    flush_and_verify_delivers ready (append [] (alert ∷ [])) (send_message alert ready)
      (sent start alert) refl

in_order : InOrder records
in_order = ground arith

offsets_of_cover_example :
    ((r : Record)
      → In r records
      → Beyond r (committed_offset r.topic r.partition (offsets_of records)))
    × ((t : String) (q o : ℕ)
        → committed_offset t q (offsets_of records) ≡ some o
        → Source t q records (some o))
offsets_of_cover_example = offsets_of_cover records in_order

-- a batch, a poll, and the shutdown
abbrev passes : List Pass
passes =
    record {
      is_set = false;
      polled = batch records;
      waits = waits;
      commit_succeeds = true;
      resolved = 1;
    }
    ∷ record { is_set = false; polled = batch []; waits = []; commit_succeeds = true; resolved = 1 }
    ∷ record { is_set = true; polled = batch []; waits = []; commit_succeeds = true; resolved = 1 }
    ∷ []

run_commits_finished_example :
    (cs : List Offsets) × ((run_consumer_loop sample ℕ ℕ io settings passes start_state).1.commits
      ≡ append [] cs)
    × All (Justified sample ℕ ℕ io settings passes start_state) cs
    × ((c : Offsets) → Justified sample ℕ ℕ io settings passes start_state c → In c cs)
run_commits_finished_example = run_commits_finished sample ℕ ℕ io settings passes start_state

run_commits_once :
    (run_consumer_loop sample ℕ ℕ io settings passes start_state).1.commits
    ≡ (("tx-events", 0, 8) ∷ []) ∷ []
unfolding run_consumer_loop loop_pass poll_pass after_batch commit close offsets_from assign
    handle_batch_with_retry retry_loop attempt backoff reset call_handler settle verify outcome
    classify all_failed split class_of decode_json count_skipped send_all_to_dlq send_to_dlq
    count_processed count_dlq send_message reset_send_errors resolve resolve_all flush
    flush_and_verify next_delay
run_commits_once = refl

abbrev one_message : List (Decoded ℕ) → ℕ → List (Message ℕ)
one_message ds w = record { topic = "detections"; value = 7; key = none } ∷ []

sends-SendsExactly : SendsExactly sample ℕ ℕ io settings one_message
sends-SendsExactly ds pr w h = sent start _

run_commits_delivered_example :
    (cs : List Offsets) × ((run_consumer_loop sample ℕ ℕ io settings passes start_state).1.commits
      ≡ append [] cs)
    × All (Covered sample ℕ ℕ io settings one_message passes start_state) cs
    × ((c : Offsets) → Justified sample ℕ ℕ io settings passes start_state c → In c cs)
run_commits_delivered_example =
    run_commits_delivered sample ℕ ℕ io settings one_message passes start_state refl
      sends-SendsExactly

-- a handler of one record that refuses the offset 7 and counts the others
abbrev one_record : Decoded ℕ → ℕ → Option Exception × ℕ
one_record rec w = if eqb rec.offset 7 then (some validation_error, w) else (none, w + 1)

abbrev two_records : List (Decoded ℕ)
two_records =
    record { topic = "detections"; partition = 0; offset = 7; value = null }
    ∷ record { topic = "detections"; partition = 0; offset = 8; value = null }
    ∷ []

goes_on : per_record one_record 0 two_records 0 ≡ (returns ((0, validation_error) ∷ []), 1)
unfolding per_record is_transient
goes_on = refl

per_record_reports_example :
    AllHandled one_record 0 two_records 0 (per_record one_record 0 two_records 0)
    ⊎ Raised one_record two_records 0 (per_record one_record 0 two_records 0)
per_record_reports_example = per_record_reports one_record two_records 0 0
