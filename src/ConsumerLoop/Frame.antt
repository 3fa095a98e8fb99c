-- ===== src/ConsumerLoop/Frame.antt =====
-- What the parts of an attempt leave alone: counters and commits, unless the attempt is complete.
use rtace.Base.{◌≡◌, refl, sym, ap, ◌∙◌, List, [], ◌∷◌, append, append-nil, append_assoc, arith}
use rtace.Platform.{Platform}
use rtace.ConsumerLoop.{
  Exception, Record, LoopSettings, Wait, retry, complete, Interface, Decoded, send_all_to_dlq,
  send_to_dlq, Count, processed, permanent, dlq_message, dead_lettered, transient, count,
  count_processed, count_dlq,
}
use rtace.ConsumerLoop.Retry.{
  S, Batch, attempt, reset, outcome, settle, verify, call_handler, backoff,
}
use rtace.ConsumerLoop.Durable.{handled}

module _ (p : Platform) (V W : Type 0) (io : Interface p V W) (settings : LoopSettings p.F) where
  open p use {F}

  abbrev E : Type 0
  E = S p V W io settings

  abbrev B : Type 0
  B = Batch p V W io settings

  pub send_to_dlq-counts :
      (entry : Record × Exception) (s : E)
      → ((send_to_dlq p V W io settings entry s).counts ≡ s.counts)
        × ((send_to_dlq p V W io settings entry s).commits ≡ s.commits)
  unfolding send_to_dlq
  send_to_dlq-counts entry s = ground arith

  pub call_handler-counts :
      (ds : List (Decoded F)) (s : E)
      → ((call_handler p V W io settings ds s).1.counts ≡ s.counts)
        × ((call_handler p V W io settings ds s).1.commits ≡ s.commits)
  unfolding call_handler
  call_handler-counts [] s = (refl, refl)
  call_handler-counts (d ∷ ds) s = (refl, refl)

  pub handled-counts :
      (b : B) (s : E)
      → ((handled p V W io settings b s).1.counts ≡ s.counts)
        × ((handled p V W io settings b s).1.commits ≡ s.commits)
  unfolding reset
  handled-counts b s = ground (arith, call_handler-counts b.decoded (reset p V W io settings s))

  pub verify-counts :
      (s : E)
      → ((verify p V W io settings s).1.counts ≡ s.counts)
        × ((verify p V W io settings s).1.commits ≡ s.commits)
  unfolding verify
  verify-counts s = ground arith

  -- What an attempt that is to be retried, or a backoff, leaves alone.
  pub send_all_to_dlq-counts :
      (entries : List (Record × Exception)) (s : E)
      → ((send_all_to_dlq p V W io settings entries s).counts ≡ s.counts)
        × ((send_all_to_dlq p V W io settings entries s).commits ≡ s.commits)
  unfolding send_all_to_dlq
  send_all_to_dlq-counts [] s = (refl, refl)
  send_all_to_dlq-counts (entry ∷ rest) s =
      let one = send_to_dlq-counts entry s in
      let ih = send_all_to_dlq-counts rest (send_to_dlq p V W io settings entry s) in
      (ih.0 ∙ one.0, ih.1 ∙ one.1)

  pub settle-retry-counts :
      (todo : List (Record × Exception) × List Record) (s : E) (exc : Exception)
      → (settle p V W io settings todo s).0 ≡ retry exc
      → ((settle p V W io settings todo s).1.counts ≡ s.counts)
        × ((settle p V W io settings todo s).1.commits ≡ s.commits)
  unfolding settle
  settle-retry-counts (dlq, ok) s exc h =
      ground (
        arith,
        verify-counts (send_all_to_dlq p V W io settings dlq s),
        send_all_to_dlq-counts dlq s,
      )

  pub retry-counts :
      (b : B) (s : E) (exc : Exception)
      → (attempt p V W io settings b s).0 ≡ retry exc
      → ((attempt p V W io settings b s).1.counts ≡ s.counts)
        × ((attempt p V W io settings b s).1.commits ≡ s.commits)
  unfolding attempt
  retry-counts b s exc h =
      let (result, t) = handled p V W io settings b s in
      let c = handled-counts b s in
      ground (
        arith,
        c,
        settle-retry-counts (outcome p V W io settings b (handled p V W io settings b s).0)
            (handled p V W io settings b s).1 exc,
      )

  pub backoff-counts :
      (w : Wait) (delay : F) (s : E)
      → ((backoff p V W io settings w delay s).1.counts ≡ append s.counts (transient ∷ []))
        × ((backoff p V W io settings w delay s).1.commits ≡ s.commits)
  unfolding backoff
  backoff-counts w delay s = ground arith

  -- The counts of a complete attempt: one for each processed record, three for each dead letter.
  abbrev pub processed_counts : List Record → List Count
  processed_counts [] = []
  processed_counts (r ∷ rs) = processed ∷ processed_counts rs

  abbrev pub dlq_counts : List (Record × Exception) → List Count
  dlq_counts [] = []
  dlq_counts (x ∷ xs) = permanent ∷ dlq_message ∷ dead_lettered ∷ dlq_counts xs

  abbrev pub counts_of : List (Record × Exception) × List Record → List Count
  counts_of (dlq, ok) = append (processed_counts ok) (dlq_counts dlq)

  count_processed-counts :
      (ok : List Record) (s : E)
      → ((count_processed p V W io settings ok s).counts ≡ append s.counts (processed_counts ok))
        × ((count_processed p V W io settings ok s).commits ≡ s.commits)
  unfolding count_processed
  count_processed-counts [] s = (sym (append-nil _), refl)
  count_processed-counts (r ∷ rs) s =
      let ih = count_processed-counts rs (count p V W io settings processed s) in
      (ih.0 ∙ append_assoc s.counts (processed ∷ []) (processed_counts rs), ih.1)

  count_dlq-counts :
      (dlq : List (Record × Exception)) (s : E)
      → ((count_dlq p V W io settings dlq s).counts ≡ append s.counts (dlq_counts dlq))
        × ((count_dlq p V W io settings dlq s).commits ≡ s.commits)
  unfolding count_dlq
  count_dlq-counts [] s = (sym (append-nil _), refl)
  count_dlq-counts (x ∷ xs) s =
      let ih = count_dlq-counts xs (
        count p V W io settings dead_lettered
          (count p V W io settings dlq_message (count p V W io settings permanent s))) in
      (
        ih.0
            ∙ ap (λ l. append l (dlq_counts xs))
                (append_assoc (append s.counts (permanent ∷ [])) (dlq_message ∷ [])
                    (dead_lettered ∷ [])
                  ∙ append_assoc s.counts (permanent ∷ []) (dlq_message ∷ dead_lettered ∷ []))
            ∙ append_assoc s.counts (permanent ∷ dlq_message ∷ dead_lettered ∷ []) (dlq_counts xs),
        ih.1,
      )

  -- Each record of a complete attempt is counted once.
  pub settle-counts :
      (todo : List (Record × Exception) × List Record) (s s' : E)
      → settle p V W io settings todo s ≡ (complete, s')
      → (s'.counts ≡ append s.counts (counts_of todo)) × (s'.commits ≡ s.commits)
  unfolding settle
  settle-counts (dlq, ok) s s' h =
      let sent = send_all_to_dlq p V W io settings dlq s in
      let t = (verify p V W io settings sent).1 in
      let one = count_dlq-counts dlq (count_processed p V W io settings ok t) in
      let two = count_processed-counts ok t in
      let three = verify-counts sent in
      let four = send_all_to_dlq-counts dlq s in
      let end : (count_dlq p V W io settings dlq (count_processed p V W io settings ok t)) ≡ s' =
        ground arith in
      (
        ap (λ x. x.counts) (sym end)
            ∙ one.0
            ∙ rw (two.0, three.0, four.0)
                (append_assoc s.counts (processed_counts ok) (dlq_counts dlq)),
        ap (λ x. x.commits) (sym end) ∙ one.1 ∙ two.1 ∙ three.1 ∙ four.1,
      )
