-- ===== src/ConsumerLoop/Durable.antt =====
-- One attempt of `_handle_batch_with_retry`, and what it brings about at the producer.
use rtace.Base.{
  String, ◌≡◌, refl, sym, ◌∙◌, inl, inr, true, Option, none, some, List, [], ◌∷◌, append,
  append-nil, append_assoc, arith, Option-cases,
}
use rtace.Platform.{Platform}
use rtace.Kafka.{Message, Producer, reset_send_errors, flush_and_verify}
use rtace.Kafka.Delivery.{Sends, start, sent, outbox, flush_and_verify_delivers}
use rtace.ConsumerLoop.{
  Exception, Record, Decoded, Handled, LoopSettings, complete, Interface, send_all_to_dlq,
  send_to_dlq, count_dlq, count_processed, dlq_target, dlq_message_of,
}
use rtace.ConsumerLoop.Retry.{
  S, Batch, attempt, reset, call_handler, outcome, settle, verify, retry_of,
}

module _ (p : Platform) (V W : Type 0) (io : Interface p V W) (settings : LoopSettings p.F) where
  open p use {F}
  open io use {handler}

  abbrev E : Type 0
  E = S p V W io settings

  abbrev B : Type 0
  B = Batch p V W io settings

  -- The dead-letter messages of an attempt, none without a producer or a topic.
  abbrev pub one_message : Option String → Record × Exception → List (Message V)
  one_message none entry = []
  one_message (some topic) entry = dlq_message_of p V W io settings topic entry ∷ []

  abbrev pub dlq_messages : List (Record × Exception) → List (Message V)
  dlq_messages [] = []
  dlq_messages (entry ∷ rest) =
      append (one_message (dlq_target p V W io settings) entry) (dlq_messages rest)

  -- The contract of a handler: unless it asks for a retry, what it did to the producer is to send
  -- some messages, with flushes among them.
  abbrev pub OnlySends : Type 0
  OnlySends =
      (ds : List (Decoded F)) (pr : Producer V) (w : W)
      → retry_of p V W io settings (handler ds pr w).0 ≡ none
      → (ms : List (Message V)) × Sends pr ms (handler ds pr w).1

  send_to_dlq-Sends :
      (entry : Record × Exception) (s : E) {pr : Producer V} (ms : List (Message V))
      → Sends pr ms s.producer
      → Sends pr
          (append ms (one_message (dlq_target p V W io settings) entry))
          (send_to_dlq p V W io settings entry s).producer
  unfolding send_to_dlq
  send_to_dlq-Sends entry s ms h = elim (Option-cases (dlq_target p V W io settings)) [
    | inl none_set ↦ rw (none_set, send_to_dlq, append-nil) h
    | inr (topic, e) ↦ rw (e, send_to_dlq) (sent h _)
  ]

  pub send_all_to_dlq-Sends :
      (entries : List (Record × Exception)) (s : E) {pr : Producer V} (ms : List (Message V))
      → Sends pr ms s.producer
      → Sends pr
          (append ms (dlq_messages entries))
          (send_all_to_dlq p V W io settings entries s).producer
  unfolding send_all_to_dlq
  send_all_to_dlq-Sends [] s ms h = rw append-nil h
  send_all_to_dlq-Sends (entry ∷ rest) s ms h =
      rw (← append_assoc ms (one_message (dlq_target p V W io settings) entry) (dlq_messages rest))
        (send_all_to_dlq-Sends rest (send_to_dlq p V W io settings entry s) _
          (send_to_dlq-Sends entry s ms h))

  count_dlq-producer :
      (dlq : List (Record × Exception)) (s : E)
      → (count_dlq p V W io settings dlq s).producer ≡ s.producer
  unfolding count_dlq
  count_dlq-producer [] s = refl
  count_dlq-producer (x ∷ dlq) s = count_dlq-producer dlq _

  count_processed-producer :
      (ok : List Record) (s : E) → (count_processed p V W io settings ok s).producer ≡ s.producer
  unfolding count_processed
  count_processed-producer [] s = refl
  count_processed-producer (x ∷ ok) s = count_processed-producer ok _

  pub verify-eq :
      (s : E)
      → settings.has_producer ≡ true
      → ((verify p V W io settings s).0 ≡ (flush_and_verify s.producer).0)
        × ((verify p V W io settings s).1.producer ≡ (flush_and_verify s.producer).1)
  unfolding verify
  verify-eq s has = ground arith

  settle-complete :
      (dlq : List (Record × Exception)) (ok : List Record) (s s' : E)
      → settle p V W io settings (dlq, ok) s ≡ (complete, s')
      → ((verify p V W io settings (send_all_to_dlq p V W io settings dlq s)).0 ≡ true)
        × (s'.producer
            ≡ (verify p V W io settings (send_all_to_dlq p V W io settings dlq s)).1.producer)
  unfolding settle
  settle-complete dlq ok s s' e =
      let v = verify p V W io settings (send_all_to_dlq p V W io settings dlq s) in
      ground (
        arith,
        count_dlq-producer dlq (count_processed p V W io settings ok v.1),
        count_processed-producer ok v.1,
      )

  -- With a producer, an attempt that got as far as its dead letters is complete only if the broker
  -- has acknowledged all.
  settle_delivers :
      (dlq : List (Record × Exception)) (ok : List Record) (s s' : E) {pr : Producer V}
      (ms : List (Message V))
      → settings.has_producer ≡ true
      → Sends pr ms s.producer
      → settle p V W io settings (dlq, ok) s ≡ (complete, s')
      → (s'.producer.buffered ≡ [])
        × (s'.producer.delivered ≡ append (outbox pr) (append ms (dlq_messages dlq)))
  settle_delivers dlq ok s s' {pr = pr} ms has h e =
      let sent_all = send_all_to_dlq p V W io settings dlq s in
      let done = settle-complete dlq ok s s' e in
      let gate = verify-eq sent_all has in
      let all_out =
        flush_and_verify_delivers pr _ sent_all.producer (send_all_to_dlq-Sends dlq s ms h)
          (sym gate.0 ∙ done.0) in
      (rw (done.1, gate.1) all_out.1, rw (done.1, gate.1) all_out.2)

  -- The result of the handler in an attempt, and the state after it.
  abbrev pub handled : B → E → Handled × E
  handled b s = call_handler p V W io settings b.decoded (reset p V W io settings s)

  pub call_handler-Sends :
      (ds : List (Decoded F)) (s : E)
      → OnlySends
      → retry_of p V W io settings (call_handler p V W io settings ds s).0 ≡ none
      → (ms : List (Message V)) × Sends s.producer ms
          (call_handler p V W io settings ds s).1.producer
  unfolding call_handler
  call_handler-Sends [] s contract h = ([], start)
  call_handler-Sends (d ∷ ds) s contract h = contract (d ∷ ds) s.producer s.world h

  pub attempt-complete :
      (b : B) (s s' : E)
      → attempt p V W io settings b s ≡ (complete, s')
      → (retry_of p V W io settings (handled b s).0 ≡ none)
        × (settle p V W io settings (outcome p V W io settings b (handled b s).0) (handled b s).1
            ≡ (complete, s'))
  unfolding attempt
  attempt-complete b s s' e = ground arith

  reset-outbox : (s : E) → outbox (reset p V W io settings s).producer ≡ outbox s.producer
  unfolding reset reset_send_errors
  reset-outbox s = ground arith

  -- The same for a handler whose messages in the attempt are known.
  pub attempt_delivers_sent :
      (b : B) (s s' : E) (ms : List (Message V))
      → settings.has_producer ≡ true
      → Sends (reset p V W io settings s).producer ms (handled b s).1.producer
      → attempt p V W io settings b s ≡ (complete, s')
      → (s'.producer.buffered ≡ [])
        × (s'.producer.delivered
            ≡ append
                (outbox s.producer)
                (append ms (dlq_messages (outcome p V W io settings b (handled b s).0).0)))
  attempt_delivers_sent b s s' ms has h e =
      let step = attempt-complete b s s' e in
      let (dlq, ok) = outcome p V W io settings b (handled b s).0 in
      let done = settle_delivers dlq ok (handled b s).1 s' ms has h step.1 in
      (done.0, rw (← reset-outbox s) done.1)

  -- An attempt that is complete has left nothing in the buffer: after what was out before, the
  -- broker has acknowledged every message that the handler sent, and then a dead letter for each
  -- record of the attempt that is to be dead-lettered, in order.
  pub attempt_delivers :
      (b : B) (s s' : E)
      → settings.has_producer ≡ true
      → OnlySends
      → attempt p V W io settings b s ≡ (complete, s')
      → (ms : List (Message V)) × Sends
          (reset p V W io settings s).producer
          ms
          (handled b s).1.producer
        × (s'.producer.buffered ≡ [])
        × (s'.producer.delivered
            ≡ append
                (outbox s.producer)
                (append ms (dlq_messages (outcome p V W io settings b (handled b s).0).0)))
  attempt_delivers b s s' has contract e =
      let step = attempt-complete b s s' e in
      let (ms, h) = call_handler-Sends b.decoded (reset p V W io settings s) contract step.0 in
      let out = attempt_delivers_sent b s s' ms has h e in (ms, h, out.0, out.1)
