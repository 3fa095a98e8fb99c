-- ===== src/Kafka/Healthy.antt =====
-- common/kafka_client.py once the broker acknowledges what is sent.
use rtace.Base.{ℕ, ◌≤◌, subst, sym, All, All-append, ◌≡◌, refl, arith, true, none, List, [], ◌∷◌}
use rtace.Kafka.{
  Message, Producer, acknowledged, send_message, resolve, resolve_all, flush, flush_and_verify,
}
use rtace.Kafka.Delivery.{Sends, start, sent, flushed}

module _ {V : Type 0} where
  -- The fate of a send that waits.
  abbrev Acked : Producer V → ℕ × Message V → Type 0
  Acked pr (n, m) = pr.fates n ≡ acknowledged

  -- From now on the broker acknowledges: every send to come, and those that wait in the buffer.
  abbrev pub Acknowledges : Producer V → Type 0
  Acknowledges pr =
      ((n : ℕ) → pr.sends ≤ n → pr.fates n ≡ acknowledged) × All (Acked pr) pr.buffered

  -- and no error is latched
  abbrev pub IsHealthy : Producer V → Type 0
  IsHealthy pr = Acknowledges pr × (pr.last_error ≡ none)

  send_message-IsHealthy :
      (m : Message V) (pr : Producer V) → IsHealthy pr → IsHealthy (send_message m pr)
  unfolding send_message
  send_message-IsHealthy m pr ((acks, waiting), quiet) =
      let now = acks pr.sends (omega arith) in
      rw (send_message, now)
        (
          (
            (λ n h. acks n (omega (arith, h))),
            All-append (Acked pr) pr.buffered _ waiting (now, tt),
          ),
          quiet,
        )

  resolve-IsHealthy :
      (n : ℕ) (m : Message V) (pr : Producer V)
      → pr.fates n ≡ acknowledged
      → IsHealthy pr
      → IsHealthy (resolve n m pr) × ((resolve n m pr).fates ≡ pr.fates)
  unfolding resolve
  resolve-IsHealthy n m pr ack h = rw (resolve, ack) (h, refl)

  resolve_all-IsHealthy :
      (waiting : List (ℕ × Message V)) (pr : Producer V)
      → All (Acked pr) waiting
      → IsHealthy pr
      → IsHealthy (resolve_all waiting pr)
  unfolding resolve_all
  resolve_all-IsHealthy [] pr acks h = h
  resolve_all-IsHealthy ((n, m) ∷ waiting) pr (ack, acks) h =
      let (next, same) = resolve-IsHealthy n m pr ack h in
      resolve_all-IsHealthy waiting (resolve n m pr)
        (subst (λ fates. All (λ (x : ℕ × Message V). fates x.0 ≡ acknowledged) waiting) (sym same)
          acks)
        next

  flush-IsHealthy : (pr : Producer V) → IsHealthy pr → IsHealthy (flush pr)
  unfolding flush
  flush-IsHealthy pr ((acks, waiting), quiet) =
      resolve_all-IsHealthy pr.buffered (record pr { buffered = [] }) waiting ((acks, tt), quiet)

  -- A healthy producer stays so under sends and flushes.
  pub Sends-IsHealthy :
      {pr : Producer V} {ms : List (Message V)} {pr' : Producer V}
      → Sends pr ms pr'
      → IsHealthy pr
      → IsHealthy pr'
  Sends-IsHealthy start h = h
  Sends-IsHealthy (sent s m) h = send_message-IsHealthy m _ (Sends-IsHealthy s h)
  Sends-IsHealthy (flushed s) h = flush-IsHealthy _ (Sends-IsHealthy s h)

  pub flush_and_verify-true : (pr : Producer V) → IsHealthy pr → (flush_and_verify pr).0 ≡ true
  unfolding flush_and_verify
  flush_and_verify-true pr h = rw ((flush-IsHealthy pr h).1, flush_and_verify) refl
