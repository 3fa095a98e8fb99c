-- ===== src/ConsumerLoop/Retry.antt =====
-- `_handle_batch_with_retry` and `_backoff` of common/consumer_loop.py.
use rtace.Base.{Bool, true, false, Option, none, some, List, [], ◌∷◌, append, if◌then◌else◌}
use rtace.Platform.{Platform}
use rtace.Kafka.{reset_send_errors, flush_and_verify}
use rtace.ConsumerLoop.{
  Exception, kafka_error, is_transient, Record, Decoded, Handled, failures, raises, transient,
  LoopSettings, Wait, Attempt, retry, complete, Ending, finished, shutdown_requested, Interface,
  State, count, Split, split, count_skipped, classify, all_failed, send_all_to_dlq, count_processed,
  count_dlq,
}

module _ (p : Platform) (V W : Type 0) (io : Interface p V W) (settings : LoopSettings p.F) where
  open p use {F, flt, fmul, of_nat}
  open io use {handler}

  -- the state of an engine, and the split of a batch
  abbrev pub S : Type 0
  S = State p V W io settings

  abbrev pub Batch : Type 0
  Batch = Split p V W io settings

  unfoldable pub reset : S → S
  reset s =
      if settings.has_producer then record s { producer = reset_send_errors s.producer } else s

  -- `handler(decoded) if decoded else {}`
  unfoldable pub call_handler : List (Decoded F) → S → Handled × S
  call_handler [] s = (failures (λ i. none), s)
  call_handler (d ∷ ds) s =
      let (result, pr, w) = handler (d ∷ ds) s.producer s.world in
      (result, record s { producer = pr; world = w })

  -- `flush_and_verify` where there is a producer: `false` is a KafkaError.
  unfoldable pub verify : S → Bool × S
  verify s =
      let (ok, pr) = flush_and_verify s.producer in
      if settings.has_producer then (ok, record s { producer = pr }) else (true, s)

  -- The dead letters and the processed records of an attempt whose handler did not ask for a retry.
  unfoldable pub outcome : Batch → Handled → List (Record × Exception) × List Record
  outcome b (failures fails) =
      let (dlq, ok) = classify p V W io settings 0 fails b.decoded_records in
      (append b.predecode_dlq dlq, ok)
  outcome b (raises exc) =
      (append b.predecode_dlq (all_failed p V W io settings exc b.decoded_records), [])

  -- An attempt from the dead letters on: send them, wait for the broker, count.
  unfoldable pub settle : List (Record × Exception) × List Record → S → Attempt × S
  settle (dlq, ok) s =
      let (delivered, s') = verify (send_all_to_dlq p V W io settings dlq s) in
      if delivered
      then (complete, count_dlq p V W io settings dlq (count_processed p V W io settings ok s'))
      else (retry kafka_error, s')

  -- Does the handler's result ask for a retry, and by which exception?
  abbrev pub retry_of : Handled → Option Exception
  retry_of (failures fails) = none
  retry_of (raises exc) = if is_transient exc then some exc else none

  -- One pass of the `while True` loop.
  unfoldable pub attempt : Batch → S → Attempt × S
  attempt b s =
      let (result, s') = call_handler b.decoded (reset s) in
      elim (retry_of result) [ some exc ↦ (retry exc, s') | none ↦ settle (outcome b result) s' ]

  -- `min(delay * 2, retry_max_seconds)`: Python keeps the first unless the second is smaller.
  unfoldable pub next_delay : F → F
  next_delay delay =
      let doubled = fmul delay (of_nat 2) in
      if flt settings.retry_max_seconds doubled then settings.retry_max_seconds else doubled

  -- `_backoff`: `false` is the ShutdownRequested that it raises.
  unfoldable pub backoff : Wait → F → S → Bool × S
  backoff w delay s =
      let counted = count p V W io settings transient s in
      let slept = record counted { sleeps = append counted.sleeps (delay ∷ []) } in
      if w.before_sleep
      then (false, counted)
      else if w.after_sleep
      then (false, slept)
      else (true, slept)

  -- The loop, one `Wait` for each pass; `none` after the last one means that it goes on.
  unfoldable pub retry_loop : List Wait → F → Batch → S → Option Ending × S
  retry_loop [] delay b s = (none, s)
  retry_loop (w ∷ ws) delay b s =
      let (a, s') = attempt b s in
      let (again, s'') = backoff w delay s' in
      let rest = retry_loop ws (next_delay delay) b s'' in
      elim a [
        | complete ↦ (some finished, s')
        | retry exc ↦ if again then rest else (some shutdown_requested, s'')
      ]

  -- A batch of tombstones alone is done at once.
  abbrev pub is_empty_batch : Batch → Bool
  is_empty_batch b = nothing b.decoded b.predecode_dlq
    where
      nothing : List (Decoded F) → List (Record × Exception) → Bool
      nothing [] [] = true
      nothing _ _ = false

  unfoldable pub handle_batch_with_retry : List Wait → List Record → S → Option Ending × S
  handle_batch_with_retry waits records s =
      let b = split p V W io settings records in
      let s' = count_skipped p V W io settings records s in
      let loop = retry_loop waits settings.retry_initial_seconds b s' in
      if is_empty_batch b then (some finished, s') else loop
