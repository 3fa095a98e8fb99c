-- ===== src/ConsumerLoop/RecoveryTests.antt =====
-- The retry loop on a batch of which the broker loses a message of the first attempt.
use rtace.Base.{ℕ, ◌≤◌, ◌≡◌, refl, none, some, List, [], All, arith, length}
use rtace.Platform.Sample.{sample}
use rtace.Kafka.{
  send_message, reset_send_errors, decode_json, flush, flush_and_verify, resolve, resolve_all,
}
use rtace.Kafka.Healthy.{Acknowledges}
use rtace.ConsumerLoop.{
  Engine, finished, split, class_of, count_skipped, is_transient, classify, all_failed,
  send_all_to_dlq, send_to_dlq, count_processed, count_dlq,
}
use rtace.ConsumerLoop.Retry.{
  handle_batch_with_retry, retry_of, attempt, reset, call_handler, backoff, outcome, settle, verify,
}
use rtace.ConsumerLoop.Durable.{handled}
use rtace.ConsumerLoop.Retried.{Retried, EndsAt}
use rtace.ConsumerLoop.Backoff.{Capped, SleepsOf, handle_batch_sleeps}
use rtace.ConsumerLoop.Recovery.{before_attempt, handle_batch_recovers}
use rtace.ConsumerLoop.Tests.{io, settings, records, start_state, waits, sends-OnlySends, busy}

second_attempt :
    let b = split sample ℕ ℕ io settings records in
    let at_one =
      before_attempt sample ℕ ℕ io settings 1 waits 1 b
        (count_skipped sample ℕ ℕ io settings records start_state) in
    Acknowledges at_one.producer
    × (retry_of sample ℕ ℕ io settings (handled sample ℕ ℕ io settings b at_one).0 ≡ none)
unfolding before_attempt split class_of decode_json count_skipped attempt reset reset_send_errors
    call_handler is_transient backoff outcome settle verify classify all_failed send_all_to_dlq
    send_to_dlq count_processed count_dlq send_message flush flush_and_verify resolve resolve_all
second_attempt = (((λ n h. ground arith), tt), refl)

handle_batch_sleeps_example :
    (ds : List ℕ) × (next : ℕ) × (s₀ : Engine ℕ ℕ ℕ) × Retried sample ℕ ℕ io settings
      (split sample ℕ ℕ io settings records)
      1
      ds
      next
      (count_skipped sample ℕ ℕ io settings records start_state)
      s₀
    × EndsAt sample ℕ ℕ io settings waits
        (split sample ℕ ℕ io settings records)
        ds
        next
        s₀
        (handle_batch_with_retry sample ℕ ℕ io settings waits records start_state)
    × All (Capped sample ℕ ℕ io settings) ds
    × Capped sample ℕ ℕ io settings next
    × (length ds ≤ 2)
    × SleepsOf sample ℕ ℕ io settings [] ds next
        (handle_batch_with_retry sample ℕ ℕ io settings waits records start_state)
handle_batch_sleeps_example =
    handle_batch_sleeps sample ℕ ℕ io settings waits records start_state refl refl busy

handle_batch_recovers_example :
    (handle_batch_with_retry sample ℕ ℕ io settings waits records start_state).0 ≡ some finished
handle_batch_recovers_example =
    handle_batch_recovers sample ℕ ℕ io settings waits records start_state 1 refl sends-OnlySends
      ((refl, refl), ((refl, refl), tt)) (omega arith) second_attempt.0 second_attempt.1
