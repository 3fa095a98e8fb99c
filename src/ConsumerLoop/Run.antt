-- ===== src/ConsumerLoop/Run.antt =====
-- `run_consumer_loop` and `_commit` of common/consumer_loop.py.
use rtace.Base.{
  ℕ, zero, suc, String, Bool, true, false, ◌&&◌, Option, none, some, List, [], ◌∷◌, ◌==◌, eqb,
  append, if◌then◌else◌,
}
use rtace.Platform.{Platform}
use rtace.Kafka.{Message, Producer, resolve}
use rtace.ConsumerLoop.{Record, LoopSettings, Wait, Ending, finished, shutdown_requested, Interface}
use rtace.ConsumerLoop.Retry.{S, handle_batch_with_retry}

-- The dictionary from topic and partition to the offset to commit: an assignment in it.
unfoldable pub assign : String → ℕ → ℕ → List (String × ℕ × ℕ) → List (String × ℕ × ℕ)
assign t q o [] = (t, q, o) ∷ []
assign t q o ((t', q', o') ∷ rest) =
    if (t' == t) && eqb q' q then (t', q', o) ∷ rest else (t', q', o') ∷ assign t q o rest

unfoldable pub offsets_from : List (String × ℕ × ℕ) → List Record → List (String × ℕ × ℕ)
unfolding assign
offsets_from acc [] = acc
offsets_from acc (r ∷ rs) = offsets_from (assign r.topic r.partition (suc r.offset) acc) rs

-- `offsets` of `_commit`
abbrev pub offsets_of : List Record → List (String × ℕ × ℕ)
offsets_of records = offsets_from [] records

-- What `consumer.poll` does: it raises a KafkaError, or returns records, grouped by partition.
pub data Polled : Type 0 where
  poll_failed : Polled
  batch : List Record → Polled

-- What the outside does in one pass of the loop: the shutdown event at its head, the poll, the
-- waits of the batch's retries, whether the commit succeeds, and, if the loop stops here, how many of
-- the waiting sends are resolved before the last flush ends or runs out of its ten seconds.
pub record Pass : Type 0 where
  pub is_set : Bool
  pub polled : Polled
  pub waits : List Wait
  pub commit_succeeds : Bool
  pub resolved : ℕ

-- The first `n` of the waiting sends are resolved.
unfoldable pub resolve_first : {V : Type 0} → ℕ → List (ℕ × Message V) → Producer V → Producer V
unfolding resolve
resolve_first n [] pr = pr
resolve_first zero (m ∷ rest) pr = record pr { buffered = m ∷ rest }
resolve_first (suc n) ((k, m) ∷ rest) pr = resolve_first n rest (resolve k m pr)

-- `producer.flush(timeout=...)`, which raises if sends are still waiting at its end.
unfoldable pub flush_within : {V : Type 0} → ℕ → Producer V → Producer V
unfolding resolve_first
flush_within n pr = resolve_first n pr.buffered (record pr { buffered = [] })

-- Why the loop stands where it does: it is in the middle of a batch (`waiting`), at its head with no
-- pass left to look at (`polling`), or it has left the loop and closed its clients (`stopped`).
pub data Phase : Type 0 where
  polling waiting stopped : Phase

module _ (p : Platform) (V W : Type 0) (io : Interface p V W) (settings : LoopSettings p.F) where
  abbrev E : Type 0
  E = S p V W io settings

  unfoldable pub commit : Bool → List Record → E → E
  commit true records s = record s { commits = append s.commits (offsets_of records ∷ []) }
  commit false records s = s

  -- The `finally` block: a last flush, whose exceptions are only logged; the clients are closed.
  unfoldable pub close : ℕ → E → E
  unfolding flush_within
  close n s = if settings.has_producer then record s { producer = flush_within n s.producer } else s

  -- After a batch was handled: `none` of the phase goes on with the loop.
  unfoldable pub after_batch : ℕ → Bool → List Record → Option Ending × E → Option Phase × E
  unfolding commit close
  after_batch n ok records (none, s) = (some waiting, s)
  after_batch n ok records (some finished, s) = (none, commit ok records s)
  after_batch n ok records (some shutdown_requested, s) = (some stopped, close n s)

  unfoldable pub poll_pass : Pass → Polled → E → Option Phase × E
  poll_pass pass poll_failed s =
      (none, record s { sleeps = append s.sleeps (settings.kafka_error_pause_seconds ∷ []) })
  poll_pass pass (batch []) s = (none, s)
  poll_pass pass (batch (r ∷ rs)) s =
      after_batch pass.resolved pass.commit_succeeds (r ∷ rs)
        (handle_batch_with_retry p V W io settings pass.waits (r ∷ rs) s)

  unfoldable pub loop_pass : Pass → E → Option Phase × E
  loop_pass pass s =
      let polled = poll_pass pass pass.polled s in
      if pass.is_set then (some stopped, close pass.resolved s) else polled

  unfoldable pub run_consumer_loop : List Pass → E → Phase × E
  run_consumer_loop [] s = (polling, s)
  run_consumer_loop (pass ∷ passes) s =
      let (phase, s') = loop_pass pass s in
      let rest = run_consumer_loop passes s' in elim phase [ some ph ↦ (ph, s') | none ↦ rest ]
