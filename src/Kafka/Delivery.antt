-- ===== src/Kafka/Delivery.antt =====
-- The durability gate of common/kafka_client.py: `flush_and_verify` after the sends of a caller.
use rtace.Base.{
  ℕ, ◌≡◌, refl, sym, ap, ◌∙◌, true, false, inl, inr, none, List, [], ◌∷◌, append, append-nil,
  append_assoc, arith, Option-cases,
}
use rtace.Kafka.{Message, Producer, send_message, resolve, resolve_all, flush, flush_and_verify}

module _ {V : Type 0} where
  abbrev pub messages : List (ℕ × Message V) → List (Message V)
  messages [] = []
  messages ((n, m) ∷ rest) = m ∷ messages rest

  -- What has been acknowledged, and then what waits in the buffer.
  abbrev pub outbox : Producer V → List (Message V)
  outbox pr = append pr.delivered (messages pr.buffered)

  messages-append :
      (xs ys : List (ℕ × Message V)) → messages (append xs ys) ≡ append (messages xs) (messages ys)
  messages-append [] ys = refl
  messages-append ((n, m) ∷ xs) ys = ap (λ t. m ∷ t) (messages-append xs ys)

  -- The sends that a caller makes, with flushes among them.
  pub data Sends (pr : Producer V) : List (Message V) → Producer V → Type 0 where
    start : Sends pr [] pr
    sent :
        {ms : List (Message V)} {pr' : Producer V}
        → Sends pr ms pr'
        → (m : Message V) → Sends pr (append ms (m ∷ [])) (send_message m pr')
    flushed : {ms : List (Message V)} {pr' : Producer V} → Sends pr ms pr' → Sends pr ms (flush pr')

  abbrev pub send_all : List (Message V) → Producer V → Producer V
  send_all [] pr = pr
  send_all (m ∷ ms) pr = send_all ms (send_message m pr)

  pub send_all-Sends :
      (ms : List (Message V)) (pr pr' : Producer V) (done : List (Message V))
      → Sends pr done pr'
      → Sends pr (append done ms) (send_all ms pr')
  send_all-Sends [] pr pr' done s = rw (append-nil done) s
  send_all-Sends (m ∷ ms) pr pr' done s =
      rw (sym (append_assoc done (m ∷ []) ms))
        (send_all-Sends ms pr (send_message m pr') (append done (m ∷ [])) (sent s m))

  pub send_all-append :
      (ms ns : List (Message V)) (pr : Producer V)
      → send_all (append ms ns) pr ≡ send_all ns (send_all ms pr)
  send_all-append [] ns pr = refl
  send_all-append (m ∷ ms) ns pr = send_all-append ms ns (send_message m pr)

  send_message-queued :
      (m : Message V) (pr : Producer V)
      → (send_message m pr).last_error ≡ none
      → (pr.last_error ≡ none)
        × ((send_message m pr).delivered ≡ pr.delivered)
        × ((send_message m pr).buffered ≡ append pr.buffered ((pr.sends, m) ∷ []))
  unfolding send_message
  send_message-queued m pr h = ground arith

  send_message-outbox :
      (m : Message V) (pr : Producer V)
      → (send_message m pr).last_error ≡ none
      → (pr.last_error ≡ none) × (outbox (send_message m pr) ≡ append (outbox pr) (m ∷ []))
  send_message-outbox m pr h =
      let step = send_message-queued m pr h in
      (
        step.0,
        rw (step.1, step.2, messages-append pr.buffered ((pr.sends, m) ∷ []))
            (sym (append_assoc pr.delivered (messages pr.buffered) (m ∷ []))),
      )

  resolve-outbox :
      (n : ℕ) (m : Message V) (pr : Producer V)
      → (resolve n m pr).last_error ≡ none
      → (pr.last_error ≡ none) × ((resolve n m pr).delivered ≡ append pr.delivered (m ∷ []))
  unfolding resolve
  resolve-outbox n m pr h = ground arith

  resolve-buffered :
      (n : ℕ) (m : Message V) (pr : Producer V) → (resolve n m pr).buffered ≡ pr.buffered
  unfolding resolve
  resolve-buffered n m pr = ground arith

  resolve_all-outbox :
      (waiting : List (ℕ × Message V)) (pr : Producer V)
      → (resolve_all waiting pr).last_error ≡ none
      → (pr.last_error ≡ none)
        × ((resolve_all waiting pr).delivered ≡ append pr.delivered (messages waiting))
        × ((resolve_all waiting pr).buffered ≡ pr.buffered)
  unfolding resolve_all
  resolve_all-outbox [] pr h = (h, sym (append-nil _), refl)
  resolve_all-outbox ((n, m) ∷ rest) pr h =
      let ih = resolve_all-outbox rest (resolve n m pr) h in
      let step = resolve-outbox n m pr ih.0 in
      (
        step.0,
        ih.1 ∙ rw step.1 (append_assoc pr.delivered (m ∷ []) (messages rest)),
        ih.2 ∙ resolve-buffered n m pr,
      )

  pub flush-outbox :
      (pr : Producer V)
      → (flush pr).last_error ≡ none
      → (pr.last_error ≡ none) × ((flush pr).delivered ≡ outbox pr) × ((flush pr).buffered ≡ [])
  unfolding flush
  flush-outbox pr h = resolve_all-outbox pr.buffered (record pr { buffered = [] }) h

  pub Sends-outbox :
      {pr : Producer V} {ms : List (Message V)} {pr' : Producer V}
      → Sends pr ms pr'
      → pr'.last_error ≡ none
      → (pr.last_error ≡ none) × (outbox pr' ≡ append (outbox pr) ms)
  Sends-outbox start h = (h, sym (append-nil _))
  Sends-outbox (sent {ms = ms} {pr' = pr'} s m) h =
      let step = send_message-outbox m pr' h in
      let ih = Sends-outbox s step.0 in (ih.0, step.1 ∙ rw ih.1 (append_assoc _ ms (m ∷ [])))
  Sends-outbox (flushed {pr' = pr'} s) h =
      let step = flush-outbox pr' h in
      let ih = Sends-outbox s step.0 in (ih.0, rw (step.1, step.2) (append-nil _ ∙ ih.1))

  -- If, after any sends of a caller, `flush_and_verify` does not raise, then no error was latched
  -- before them, nothing waits in the buffer, and the broker has acknowledged what had been
  -- acknowledged or was waiting before, and after it exactly the messages sent, in their order.
  pub flush_and_verify_delivers :
      (pr : Producer V) (ms : List (Message V)) (pr' : Producer V)
      → Sends pr ms pr'
      → (flush_and_verify pr').0 ≡ true
      → (pr.last_error ≡ none)
        × ((flush_and_verify pr').1.buffered ≡ [])
        × ((flush_and_verify pr').1.delivered ≡ append (outbox pr) ms)
  unfolding flush_and_verify
  flush_and_verify_delivers pr ms pr' s h = elim (Option-cases (flush pr').last_error) [
    | inl quiet ↦
        let step = flush-outbox pr' quiet in
        let ih = Sends-outbox s step.0 in
        (ih.0, rw (quiet, flush_and_verify) step.2, rw (quiet, flush_and_verify) (step.1 ∙ ih.1))
    | inr (n, e) ↦ let q : false ≡ true = rw (e, flush_and_verify) at h in cc
  ]
