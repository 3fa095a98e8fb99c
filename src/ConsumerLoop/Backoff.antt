-- ===== src/ConsumerLoop/Backoff.antt =====
-- The backoff of common/consumer_loop.py: the delays that it sleeps.
use rtace.Base.{
  ◌≤◌, ◌≡◌, ◌⊎◌, refl, sym, ap, ◌∙◌, inl, inr, false, Option, some, List, [], ◌∷◌, append,
  append-nil, append_assoc, length, All, arith,
}
use rtace.Platform.{Platform}
use rtace.ConsumerLoop.{
  Exception, Record, Decoded, LoopSettings, Wait, Ending, shutdown_requested, Interface, split,
  count_skipped, skipped, count_processed, count_dlq, send_to_dlq, send_all_to_dlq,
}
use rtace.ConsumerLoop.Retry.{
  S, Batch, attempt, reset, call_handler, outcome, settle, verify, is_empty_batch,
  handle_batch_with_retry,
}
use rtace.ConsumerLoop.Durable.{handled}
use rtace.ConsumerLoop.Retried.{Doubles, Retried, begin, again, EndsAt, retry_loop_runs}

module _ (p : Platform) (V W : Type 0) (io : Interface p V W) (settings : LoopSettings p.F) where
  open p use {F, flt}

  abbrev E : Type 0
  E = S p V W io settings

  abbrev B : Type 0
  B = Batch p V W io settings

  -- Not above `retry_max_seconds`.
  abbrev pub Capped : F → Type 0
  Capped delay = flt settings.retry_max_seconds delay ≡ false

  Doubles-Capped :
      (d e : F) → Capped settings.retry_max_seconds → Doubles p V W io settings d e → Capped e
  Doubles-Capped d e top (inl (fits, same)) = rw same fits
  Doubles-Capped d e top (inr (above, same)) = rw same top

  Retried-Capped :
      {b : B} {d next : F} {ds : List F} {s s' : E}
      → Capped settings.retry_max_seconds
      → Capped d
      → Retried p V W io settings b d ds next s s'
      → All Capped ds × Capped next
  Retried-Capped top h begin = (tt, h)
  Retried-Capped top h (again exc failed step tried) =
      let (rest, last) = Retried-Capped top (Doubles-Capped _ _ top step) tried in ((h, rest), last)

  send_all_to_dlq-sleeps :
      (dlq : List (Record × Exception)) (s : E)
      → (send_all_to_dlq p V W io settings dlq s).sleeps ≡ s.sleeps
  unfolding send_all_to_dlq send_to_dlq
  send_all_to_dlq-sleeps [] s = refl
  send_all_to_dlq-sleeps (x ∷ dlq) s =
      let ih = send_all_to_dlq-sleeps dlq (send_to_dlq p V W io settings x s) in ground (arith, ih)

  count_dlq-sleeps :
      (dlq : List (Record × Exception)) (s : E)
      → (count_dlq p V W io settings dlq s).sleeps ≡ s.sleeps
  unfolding count_dlq
  count_dlq-sleeps [] s = refl
  count_dlq-sleeps (x ∷ dlq) s = count_dlq-sleeps dlq _

  count_processed-sleeps :
      (ok : List Record) (s : E) → (count_processed p V W io settings ok s).sleeps ≡ s.sleeps
  unfolding count_processed
  count_processed-sleeps [] s = refl
  count_processed-sleeps (x ∷ ok) s = count_processed-sleeps ok _

  count_skipped-sleeps :
      (records : List Record) (s : E)
      → (count_skipped p V W io settings records s).sleeps ≡ s.sleeps
  unfolding count_skipped
  count_skipped-sleeps [] s = refl
  count_skipped-sleeps (r ∷ records) s = ground (
    arith,
    count_skipped-sleeps records s,
    count_skipped-sleeps records (record s { counts = append s.counts (skipped ∷ []) }),
  )

  call_handler-sleeps :
      (ds : List (Decoded F)) (s : E) → (call_handler p V W io settings ds s).1.sleeps ≡ s.sleeps
  unfolding call_handler
  call_handler-sleeps [] s = refl
  call_handler-sleeps (d ∷ ds) s = refl

  reset-sleeps : (s : E) → (reset p V W io settings s).sleeps ≡ s.sleeps
  unfolding reset
  reset-sleeps s = ground arith

  verify-sleeps : (s : E) → (verify p V W io settings s).1.sleeps ≡ s.sleeps
  unfolding verify
  verify-sleeps s = ground arith

  settle-sleeps :
      (dlq : List (Record × Exception)) (ok : List Record) (s : E)
      → (settle p V W io settings (dlq, ok) s).1.sleeps ≡ s.sleeps
  unfolding settle
  settle-sleeps dlq ok s =
      let sent_all = send_all_to_dlq p V W io settings dlq s in
      let v = verify p V W io settings sent_all in
      ground (
        arith,
        count_dlq-sleeps dlq (count_processed p V W io settings ok v.1),
        count_processed-sleeps ok v.1,
        verify-sleeps sent_all,
        send_all_to_dlq-sleeps dlq s,
      )

  attempt-sleeps : (b : B) (s : E) → (attempt p V W io settings b s).1.sleeps ≡ s.sleeps
  unfolding attempt
  attempt-sleeps b s =
      let (result, s') = handled p V W io settings b s in
      let (dlq, ok) = outcome p V W io settings b result in
      let kept = call_handler-sleeps b.decoded (reset p V W io settings s) ∙ reset-sleeps s in
      ground (arith, kept, settle-sleeps dlq ok s')

  Retried-sleeps :
      {b : B} {d next : F} {ds : List F} {s s' : E}
      → Retried p V W io settings b d ds next s s'
      → s'.sleeps ≡ append s.sleeps ds
  Retried-sleeps begin = sym (append-nil _)
  Retried-sleeps {b} {d} {ds = _ ∷ ds} {s} (again exc failed step tried) =
      let kept = sym (ap (λ x. x.1.sleeps) failed) ∙ attempt-sleeps b s in
      Retried-sleeps tried ∙ rw kept (append_assoc s.sleeps (d ∷ []) ds)

  -- The sleeps of a result: those of the failed attempts, or, at a shutdown, one more or none more.
  abbrev pub SleepsOf : List F → List F → F → Option Ending × E → Type 0
  SleepsOf before ds next result =
      (result.1.sleeps ≡ append before ds)
      ⊎ ((result.0 ≡ some shutdown_requested)
          × (result.1.sleeps ≡ append before (append ds (next ∷ []))))

  ends-SleepsOf :
      (ws : List Wait) (b : B) (ds : List F) (next : F) (s₀ : E) (result : Option Ending × E)
      (before : List F)
      → s₀.sleeps ≡ append before ds
      → EndsAt p V W io settings ws b ds next s₀ result
      → (length ds ≤ length ws) × SleepsOf before ds next result
  ends-SleepsOf ws b ds next s₀ result before h (inl (few, (t, last, same))) = (
    omega (arith, few),
    inl (ap (λ x. x.1.sleeps) same ∙ sym (ap (λ x. x.1.sleeps) last) ∙ attempt-sleeps b s₀ ∙ h),
  )
  ends-SleepsOf ws b ds next s₀ result before h (inr (inl (all, same))) =
      (omega (arith, all), inl (ap (λ x. x.1.sleeps) same ∙ h))
  ends-SleepsOf ws b ds next s₀ result before h (inr (inr (t, exc, few, failed, (w, i, how)))) =
      let kept = sym (ap (λ x. x.1.sleeps) failed) ∙ attempt-sleeps b s₀ ∙ h in
      (
        omega (arith, few),
        elim how [
          | inl (first, same) ↦ inl (ap (λ x. x.1.sleeps) same ∙ kept)
          | inr (later, same) ↦ inr (
            ap (λ x. x.0) same,
            ap (λ x. x.1.sleeps) same
                ∙ ap (λ l. append l (next ∷ [])) kept
                ∙ append_assoc before ds (next ∷ []),
          )
        ],
      )

  -- The backoff of a batch is exponential and capped. The handling of a batch, unless it is of
  -- tombstones alone, makes failed attempts and sleeps once after each of them, with delays that
  -- begin at `retry_initial_seconds` and double up to `retry_max_seconds`. None of them is above
  -- that, where the first delay is not and no double is below itself; a shutdown may come before
  -- or after one more such sleep.
  pub handle_batch_sleeps :
      (waits : List Wait) (records : List Record) (s : E)
      → Capped settings.retry_max_seconds
      → Capped settings.retry_initial_seconds
      → is_empty_batch p V W io settings (split p V W io settings records) ≡ false
      → (ds : List F) × (next : F) × (s₀ : E) × Retried p V W io settings
          (split p V W io settings records)
          settings.retry_initial_seconds
          ds
          next
          (count_skipped p V W io settings records s)
          s₀
        × EndsAt p V W io settings waits
            (split p V W io settings records)
            ds
            next
            s₀
            (handle_batch_with_retry p V W io settings waits records s)
        × All Capped ds
        × Capped next
        × (length ds ≤ length waits)
        × SleepsOf s.sleeps ds next (handle_batch_with_retry p V W io settings waits records s)
  unfolding handle_batch_with_retry
  handle_batch_sleeps waits records s top first busy =
      let b = split p V W io settings records in
      let begun = count_skipped p V W io settings records s in
      let (ds, next, s₀, tried, how) =
        retry_loop_runs p V W io settings waits settings.retry_initial_seconds b begun in
      let (capped, last) = Retried-Capped top first tried in
      let slept = Retried-sleeps tried ∙ ap (λ l. append l ds) (count_skipped-sleeps records s) in
      let (few, sleeps) = ends-SleepsOf waits b ds next s₀ _ s.sleeps slept how in
      rw (busy, handle_batch_with_retry) (ds, next, s₀, tried, how, capped, last, few, sleeps)
