-- ===== src/ConsumerLoop/Recovery.antt =====
-- The retry loop of common/consumer_loop.py once Redis and the broker are back.
use rtace.Base.{
  ℕ, zero, suc, ◌<◌, ◌≡◌, refl, ap, ◌∙◌, inl, inr, true, none, some, List, [], ◌∷◌, length, All,
  arith, Bool-cases,
}
use rtace.Platform.{Platform}
use rtace.Kafka.{reset_send_errors}
use rtace.Kafka.Healthy.{Acknowledges, IsHealthy, Sends-IsHealthy, flush_and_verify-true}
use rtace.ConsumerLoop.{
  Exception, Record, complete, LoopSettings, Wait, finished, Interface, split, count_skipped,
  send_all_to_dlq,
}
use rtace.ConsumerLoop.Retry.{
  S, Batch, attempt, reset, outcome, settle, verify, retry_of, next_delay, backoff, retry_loop,
  is_empty_batch, handle_batch_with_retry,
}
use rtace.ConsumerLoop.Durable.{
  OnlySends, handled, send_all_to_dlq-Sends, call_handler-Sends, verify-eq,
}
use rtace.ConsumerLoop.Passes.{Attempt-cases, loop_complete, loop_again}
use rtace.ConsumerLoop.Endings.{IsQuiet, backoff_again}

module _ (p : Platform) (V W : Type 0) (io : Interface p V W) (settings : LoopSettings p.F) where
  open p use {F, flt}

  abbrev E : Type 0
  E = S p V W io settings

  abbrev B : Type 0
  B = Batch p V W io settings

  -- The state before the attempt with this number, where the attempts before it are retried.
  unfoldable pub before_attempt : ℕ → List Wait → F → B → E → E
  before_attempt zero ws delay b s = s
  before_attempt (suc n) [] delay b s = s
  before_attempt (suc n) (w ∷ ws) delay b s =
      before_attempt n ws (next_delay p V W io settings delay) b
        (backoff p V W io settings w delay (attempt p V W io settings b s).1).1

  reset-IsHealthy :
      (s : E)
      → settings.has_producer ≡ true
      → Acknowledges s.producer
      → IsHealthy (reset p V W io settings s).producer
  unfolding reset reset_send_errors
  reset-IsHealthy s has acks = rw (reset, has) (acks, refl)

  settle-complete_if :
      (dlq : List (Record × Exception)) (ok : List Record) (s : E)
      → (verify p V W io settings (send_all_to_dlq p V W io settings dlq s)).0 ≡ true
      → (settle p V W io settings (dlq, ok) s).0 ≡ complete
  unfolding settle
  settle-complete_if dlq ok s h = ground arith

  -- An attempt that does not ask for a retry is complete if the broker acknowledges its sends.
  attempt-complete_if :
      (b : B) (s : E)
      → settings.has_producer ≡ true
      → OnlySends p V W io settings
      → Acknowledges s.producer
      → retry_of p V W io settings (handled p V W io settings b s).0 ≡ none
      → (attempt p V W io settings b s).0 ≡ complete
  unfolding attempt
  attempt-complete_if b s has contract acks calm =
      let at_start : IsHealthy (reset p V W io settings s).producer = reset-IsHealthy s has acks in
      let (result, s') = handled p V W io settings b s in
      let (dlq, ok) = outcome p V W io settings b result in
      let (ms, sends) =
        call_handler-Sends p V W io settings b.decoded (reset p V W io settings s) contract calm in
      let all_sent = send_all_to_dlq-Sends p V W io settings dlq s' ms sends in
      let healthy = Sends-IsHealthy all_sent at_start in
      let gate = verify-eq p V W io settings (send_all_to_dlq p V W io settings dlq s') has in
      let passed =
        gate.0
        ∙ flush_and_verify-true (send_all_to_dlq p V W io settings dlq s').producer healthy in
      let settled = settle-complete_if dlq ok s' passed in rw (attempt, calm) settled

  -- The attempts from a state on, of which one completes.
  retry_loop_recovers :
      (n : ℕ) (ws : List Wait) (delay : F) (b : B) (s : E)
      → settings.has_producer ≡ true
      → OnlySends p V W io settings
      → All (IsQuiet p V W io settings) ws
      → n < length ws
      → Acknowledges (before_attempt n ws delay b s).producer
      → retry_of p V W io settings (handled p V W io settings b (before_attempt n ws delay b s)).0
        ≡ none
      → (retry_loop p V W io settings ws delay b s).0 ≡ some finished
  unfolding before_attempt
  retry_loop_recovers n [] delay b s has contract quiet enough acks calm = absurd (omega arith)
  retry_loop_recovers zero (w ∷ ws) delay b s has contract quiet enough acks calm =
      ap (λ x. x.0)
        (loop_complete p V W io settings w ws delay b s
          (attempt-complete_if b s has contract acks calm))
  retry_loop_recovers (suc n) (w ∷ ws) delay b s has contract quiet enough acks calm =
      let t = (attempt p V W io settings b s).1 in
      elim (Attempt-cases (attempt p V W io settings b s).0) [
        | inl done ↦ ap (λ x. x.0) (loop_complete p V W io settings w ws delay b s done)
        | inr (exc, h) ↦
            ap (λ x. x.0)
              (loop_again p V W io settings w ws delay b s exc h
                (backoff_again p V W io settings w delay t quiet.0))
            ∙ retry_loop_recovers n ws (next_delay p V W io settings delay) b
                (backoff p V W io settings w delay t).1 has contract quiet.1 (omega arith) acks calm
      ]

  -- A batch gets through once the dependencies are back. If no shutdown is signalled, the handler
  -- only sends, and by some attempt, after whatever failures, the broker acknowledges what still
  -- waits and every send to come, and the handler does not ask for a retry, then the handling of
  -- the batch is finished, at that attempt or before.
  pub handle_batch_recovers :
      (waits : List Wait) (records : List Record) (s : E) (n : ℕ)
      → settings.has_producer ≡ true
      → OnlySends p V W io settings
      → All (IsQuiet p V W io settings) waits
      → n < length waits
      → let b = split p V W io settings records in
        let at_n =
          before_attempt n waits settings.retry_initial_seconds b
            (count_skipped p V W io settings records s) in
        Acknowledges at_n.producer
        → retry_of p V W io settings (handled p V W io settings b at_n).0 ≡ none
        → (handle_batch_with_retry p V W io settings waits records s).0 ≡ some finished
  unfolding handle_batch_with_retry
  handle_batch_recovers waits records s n has contract quiet enough acks calm =
      let b = split p V W io settings records in
      elim (Bool-cases (is_empty_batch p V W io settings b)) [
        | inl empty ↦ rw (empty, handle_batch_with_retry) refl
        | inr busy ↦
            rw (busy, handle_batch_with_retry)
              (retry_loop_recovers n waits settings.retry_initial_seconds b
                (count_skipped p V W io settings records s) has contract quiet enough acks calm)
      ]
