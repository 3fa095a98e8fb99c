-- ===== src/ConsumerLoop/AtLeastOnce.antt =====
-- From the poll to the commit of common/consumer_loop.py, for a handler whose messages are known.
use rtace.Base.{
  ◌≡◌, ◌⊎◌, subst, inl, inr, true, false, none, some, arith, List, [], ◌∷◌, append, All, All-mono,
  Bool-cases,
}
use rtace.Platform.{Platform}
use rtace.Kafka.{Message, Producer}
use rtace.Kafka.Delivery.{Sends, start, outbox}
use rtace.ConsumerLoop.{
  Decoded, Record, Interface, LoopSettings, Wait, complete, finished, split, count_skipped,
}
use rtace.ConsumerLoop.Classified.{In}
use rtace.ConsumerLoop.Retry.{
  S, Batch, attempt, reset, call_handler, outcome, retry_of, retry_loop, is_empty_batch,
  handle_batch_with_retry,
}
use rtace.ConsumerLoop.Run.{Pass, run_consumer_loop}
use rtace.ConsumerLoop.Durable.{handled, dlq_messages, attempt-complete, attempt_delivers_sent}
use rtace.ConsumerLoop.Passes.{retry_loop-finished}
use rtace.ConsumerLoop.Commits.{
  Offsets, Accepts, Commits, Comes, Comes-mono, Justified, run_commits_finished,
}

module _ (p : Platform) (V W : Type 0) (io : Interface p V W) (settings : LoopSettings p.F)
    (messages : List (Decoded p.F) → W → List (Message V)) where
  open io use {handler}

  abbrev E : Type 0
  E = S p V W io settings

  -- The contract of a handler: unless it asks for a retry, it has sent exactly these messages.
  abbrev pub SendsExactly : Type 0
  SendsExactly =
      (ds : List (Decoded p.F)) (pr : Producer V) (w : W)
      → retry_of p V W io settings (handler ds pr w).0 ≡ none
      → Sends pr (messages ds w) (handler ds pr w).1

  -- The handler is not called for a batch of undecodable records alone.
  abbrev pub sent_for : List (Decoded p.F) → W → List (Message V)
  sent_for [] w = []
  sent_for (d ∷ ds) w = messages (d ∷ ds) w

  call_handler-Sends :
      (ds : List (Decoded p.F)) (s : E)
      → SendsExactly
      → retry_of p V W io settings (call_handler p V W io settings ds s).0 ≡ none
      → Sends s.producer (sent_for ds s.world) (call_handler p V W io settings ds s).1.producer
  unfolding call_handler
  call_handler-Sends [] s contract h = start
  call_handler-Sends (d ∷ ds) s contract h = contract (d ∷ ds) s.producer s.world h

  reset-world : (s : E) → (reset p V W io settings s).world ≡ s.world
  unfolding reset
  reset-world s = ground arith

  -- The state is that of a complete attempt at the records, and everything that this attempt has sent is with the broker: the handler's
  -- messages and the dead letters. A batch of tombstones alone has nothing to send.
  abbrev pub Delivered : List Record → E → Type 0
  Delivered records s' =
      let b = split p V W io settings records in
      (is_empty_batch p V W io settings b ≡ true)
      ⊎ ((s₀ : E) × (attempt p V W io settings b s₀ ≡ (complete, s'))
          × (s'.producer.buffered ≡ [])
          × (s'.producer.delivered
              ≡ append (outbox s₀.producer) (
                  append (sent_for b.decoded s₀.world) (
                    dlq_messages p V W io settings
                      (outcome p V W io settings b (handled p V W io settings b s₀).0).0))))

  attempt-Delivered :
      (b : Batch p V W io settings) (s₀ s' : E)
      → settings.has_producer ≡ true
      → SendsExactly
      → attempt p V W io settings b s₀ ≡ (complete, s')
      → (s'.producer.buffered ≡ [])
        × (s'.producer.delivered
            ≡ append (outbox s₀.producer) (
                append (sent_for b.decoded s₀.world) (
                  dlq_messages p V W io settings
                    (outcome p V W io settings b (handled p V W io settings b s₀).0).0)))
  attempt-Delivered b s₀ s' has contract e =
      let start_at = reset p V W io settings s₀ in
      let called =
        call_handler-Sends b.decoded start_at contract
          (attempt-complete p V W io settings b s₀ s' e).0 in
      attempt_delivers_sent p V W io settings b s₀ s' (sent_for b.decoded s₀.world) has
        (subst
          (λ w.
            Sends start_at.producer (sent_for b.decoded w)
              (handled p V W io settings b s₀).1.producer)
          (reset-world s₀) called)
        e

  finished-Delivered :
      (waits : List Wait) (records : List Record) (s s' : E)
      → settings.has_producer ≡ true
      → SendsExactly
      → handle_batch_with_retry p V W io settings waits records s ≡ (some finished, s')
      → Delivered records s'
  unfolding handle_batch_with_retry
  finished-Delivered waits records s s' has contract e =
      let b = split p V W io settings records in
      let begun = count_skipped p V W io settings records s in
      elim (Bool-cases (is_empty_batch p V W io settings b)) [
        | inl empty ↦ inl empty
        | inr busy ↦
            let e' : retry_loop p V W io settings waits settings.retry_initial_seconds b begun
                ≡ (some finished, s') =
              rw (busy, handle_batch_with_retry) at e in
            let (s₀, k, last, counted, same) =
              retry_loop-finished p V W io settings waits settings.retry_initial_seconds b begun s'
                e' in
            let out = attempt-Delivered b s₀ s' has contract last in inr (s₀, last, out.0, out.1)
      ]

  -- The commit of a pass, of which everything that its batch has sent is delivered.
  abbrev pub CommitsDelivered : Pass → E → Offsets → Type 0
  CommitsDelivered pass s c =
      (pass.is_set ≡ false)
      × ((records : List Record) × (s' : E) × Accepts p V W io settings pass pass.polled s c records
            s'
          × Delivered records s')

  abbrev pub Covered : List Pass → E → Offsets → Type 0
  Covered = Comes p V W io settings CommitsDelivered

  -- At least once, from the poll to the commit. Whatever the polls return, whichever deliveries and
  -- commits fail, and whenever the shutdown comes, each commit that a run of an engine with a
  -- producer adds is made in one of its passes, of the very records that the pass has polled, once
  -- their handling from the state of that moment has finished; and at its end the broker has
  -- acknowledged everything: nothing waits in the buffer, and after what was out before the
  -- batch's last attempt come exactly the handler's messages and a dead letter for each record
  -- that is to have one. A batch of tombstones alone has nothing to send.
  -- And no batch that finishes, and whose commit succeeds, is missed.
  pub run_commits_delivered :
      (passes : List Pass) (s : E)
      → settings.has_producer ≡ true
      → SendsExactly
      → (cs : List Offsets) × ((run_consumer_loop p V W io settings passes s).1.commits
          ≡ append s.commits cs)
        × All (Covered passes s) cs
        × ((c : Offsets) → Justified p V W io settings passes s c → In c cs)
  run_commits_delivered passes s has contract =
      let (cs, grown, all, every) = run_commits_finished p V W io settings passes s in
      (
        cs,
        grown,
        All-mono (Justified p V W io settings passes s) (Covered passes s) cs
            (λ c.
              Comes-mono p V W io settings (Commits p V W io settings) CommitsDelivered
                (λ pass s₁ c' h.
                  let (clear, (records, s', how)) = h in
                  (
                    clear,
                    (
                      records,
                      s',
                      how,
                      finished-Delivered pass.waits records s₁ s' has contract how.2,
                    ),
                  ))
                passes s c)
            all,
        every,
      )
