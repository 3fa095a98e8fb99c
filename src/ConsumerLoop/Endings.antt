-- ===== src/ConsumerLoop/Endings.antt =====
-- How the handling of a batch ends: finished by an attempt that is complete, given up because of a
-- shutdown, or still being retried.
use rtace.Base.{
  ℕ, ◌≡◌, refl, ap, ◌∙◌, inl, inr, true, false, some, List, [], ◌∷◌, append, arith, Bool-cases,
  replicate, append_chain,
}
use rtace.Platform.{Platform}
use rtace.Kafka.{Message}
use rtace.Kafka.Delivery.{Sends, outbox}
use rtace.ConsumerLoop.{
  Record, LoopSettings, Wait, finished, Interface, split, count_skipped, transient,
}
use rtace.ConsumerLoop.Retry.{
  S, Batch, attempt, reset, outcome, retry_loop, backoff, next_delay, handle_batch_with_retry,
  is_empty_batch,
}
use rtace.ConsumerLoop.Frame.{retry-counts, backoff-counts, counts_of}
use rtace.ConsumerLoop.Durable.{OnlySends, dlq_messages, handled, attempt_delivers}
use rtace.ConsumerLoop.Passes.{
  Attempt-cases, after, attempt-counts, count_skipped-counts, loop_again, loop_complete,
  loop_shutdown, retry_loop-finished, skipped_counts,
}

module _ (p : Platform) (V W : Type 0) (io : Interface p V W) (settings : LoopSettings p.F) where
  open p use {F}

  abbrev E : Type 0
  E = S p V W io settings

  abbrev B : Type 0
  B = Batch p V W io settings

  -- Whatever the end of a loop, it has committed nothing.
  pub retry_loop-commits :
      (ws : List Wait) (delay : F) (b : B) (s : E)
      → (retry_loop p V W io settings ws delay b s).1.commits ≡ s.commits
  unfolding retry_loop
  retry_loop-commits [] delay b s = refl
  retry_loop-commits (w ∷ ws) delay b s =
      let t = after p V W io settings w ws delay b s in
      let waited = backoff-counts p V W io settings w delay t in
      elim (Attempt-cases (attempt p V W io settings b s).0) [
        | inl done ↦
            ap (λ x. x.1.commits) (loop_complete p V W io settings w ws delay b s done)
            ∙ (attempt-counts p V W io settings b s t (λ i. (done i, t))).1
        | inr (exc, h) ↦
            let kept = retry-counts p V W io settings b s exc h in
            elim (Bool-cases (backoff p V W io settings w delay t).0) [
              | inl again ↦
                  ap (λ x. x.1.commits) (loop_again p V W io settings w ws delay b s exc h again)
                  ∙ retry_loop-commits ws (next_delay p V W io settings delay) b
                      (backoff p V W io settings w delay t).1
                  ∙ waited.1
                  ∙ kept.1
              | inr ended ↦
                  ap (λ x. x.1.commits) (loop_shutdown p V W io settings w ws delay b s exc h ended)
                  ∙ waited.1
                  ∙ kept.1
            ]
      ]

  pub handle_batch-commits :
      (waits : List Wait) (records : List Record) (s : E)
      → (handle_batch_with_retry p V W io settings waits records s).1.commits ≡ s.commits
  unfolding handle_batch_with_retry
  handle_batch-commits waits records s =
      let b = split p V W io settings records in
      let start = count_skipped p V W io settings records s in
      ground (
        arith,
        retry_loop-commits waits settings.retry_initial_seconds b start,
        count_skipped-counts p V W io settings records s,
      )

  -- No shutdown is signalled during these waits.
  abbrev pub IsQuiet : Wait → Type 0
  IsQuiet w = (w.before_sleep ≡ false) × (w.after_sleep ≡ false)

  pub backoff_again :
      (w : Wait) (delay : F) (s : E) → IsQuiet w → (backoff p V W io settings w delay s).0 ≡ true
  unfolding backoff
  backoff_again w delay s h = ground arith

  -- The durability gate of the loop. If the handling of a batch that is not of tombstones alone is
  -- finished, under a producer and a handler that only sends to it, then its last attempt began at
  -- some state `s₀` after `k` failed ones, and ended so: the broker has acknowledged, beyond what
  -- was out at `s₀`, every message of the handler and one dead letter for each record to be
  -- dead-lettered, and nothing waits in the buffer. The counters have grown by one "skipped" for
  -- each tombstone, one transient error for each failed attempt, and the counts of the last
  -- attempt's records once each, however many attempts there were. Nothing has been committed yet.
  pub handle_batch_delivers :
      (waits : List Wait) (records : List Record) (s s' : E)
      → settings.has_producer ≡ true
      → OnlySends p V W io settings
      → is_empty_batch p V W io settings (split p V W io settings records) ≡ false
      → handle_batch_with_retry p V W io settings waits records s ≡ (some finished, s')
      → let b = split p V W io settings records in
        (s₀ : E) × (k : ℕ) × (ms : List (Message V)) × Sends
          (reset p V W io settings s₀).producer
          ms
          (handled p V W io settings b s₀).1.producer
        × (s'.producer.buffered ≡ [])
        × (s'.producer.delivered
            ≡ append (outbox s₀.producer) (
                append ms (
                  dlq_messages p V W io settings
                    (outcome p V W io settings b (handled p V W io settings b s₀).0).0)))
        × (s'.counts
            ≡ append s.counts (
                append (skipped_counts p V W io settings records) (
                  append (replicate k transient) (
                    counts_of p V W io settings
                      (outcome p V W io settings b (handled p V W io settings b s₀).0)))))
        × (s'.commits ≡ s.commits)
  unfolding handle_batch_with_retry
  handle_batch_delivers waits records s s' has contract busy e =
      let b = split p V W io settings records in
      let start = count_skipped p V W io settings records s in
      let e' : retry_loop p V W io settings waits settings.retry_initial_seconds b start
          ≡ (some finished, s') =
        rw (busy, handle_batch_with_retry) at e in
      let (s₀, k, last, counted, same) =
        retry_loop-finished p V W io settings waits settings.retry_initial_seconds b start s' e' in
      let (ms, sends, empty, delivered) =
        attempt_delivers p V W io settings b s₀ s' has contract last in
      let skips = count_skipped-counts p V W io settings records s in
      let final = attempt-counts p V W io settings b s₀ s' last in
      let counts =
        counts_of p V W io settings
          (outcome p V W io settings b (handled p V W io settings b s₀).0) in
      (
        s₀,
        k,
        ms,
        sends,
        empty,
        delivered,
        append_chain s.counts (skipped_counts p V W io settings records) (replicate k transient)
            counts final.0 counted skips.0,
        final.1 ∙ same ∙ skips.1,
      )
