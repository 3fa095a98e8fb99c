-- ===== src/ConsumerLoop/Retried.antt =====
-- The failed attempts of `_handle_batch_with_retry` in common/consumer_loop.py, as a relation.
use rtace.Base.{
  suc, ◌<◌, ◌≡◌, ◌⊎◌, refl, sym, ap, ◌∙◌, inl, inr, true, false, some, none, List, [], ◌∷◌, append,
  length, arith, Bool-cases, Option, subst,
}
use rtace.Platform.{Platform}
use rtace.ConsumerLoop.{
  Exception, LoopSettings, Wait, Ending, complete, retry, finished, shutdown_requested, Interface,
  transient, count,
}
use rtace.ConsumerLoop.Retry.{S, Batch, attempt, retry_loop, backoff, next_delay}
use rtace.ConsumerLoop.Classified.{In, here, there}
use rtace.ConsumerLoop.Passes.{Attempt-cases, loop_complete, loop_again, loop_shutdown}

module _ (p : Platform) (V W : Type 0) (io : Interface p V W) (settings : LoopSettings p.F) where
  open p use {F, flt, fmul, of_nat}

  abbrev E : Type 0
  E = S p V W io settings

  abbrev B : Type 0
  B = Batch p V W io settings

  -- The delay after a delay: its double, or the longest delay where the double is above that.
  abbrev pub Doubles : F → F → Type 0
  Doubles d e =
      ((flt settings.retry_max_seconds (fmul d (of_nat 2)) ≡ false) × (e ≡ fmul d (of_nat 2)))
      ⊎ ((flt settings.retry_max_seconds (fmul d (of_nat 2)) ≡ true)
          × (e ≡ settings.retry_max_seconds))

  -- one transient error more
  abbrev pub counted : E → E
  counted t = count p V W io settings transient t

  -- and one sleep
  abbrev pub slept : F → E → E
  slept d t = record t {
    counts = append t.counts (transient ∷ []);
    sleeps = append t.sleeps (d ∷ []);
  }

  -- From a state and a delay, failed attempts and the sleeps after them lead to a state and the
  -- delay that is next.
  pub data Retried (b : B) : F → List F → F → E → E → Type 0 where
    begin : {d : F} {s : E} → Retried b d [] d s s
    again :
        {d e next : F} {ds : List F} {s t s' : E} (exc : Exception)
        → attempt p V W io settings b s ≡ (retry exc, t)
        → Doubles d e
        → Retried b e ds next (slept d t) s'
        → Retried b d (d ∷ ds) next s s'

  next_delay-Doubles : (d : F) → Doubles d (next_delay p V W io settings d)
  unfolding next_delay
  next_delay-Doubles d = elim (Bool-cases (flt settings.retry_max_seconds (fmul d (of_nat 2)))) [
    | inl above ↦ inr (above, rw above refl)
    | inr fits ↦ inl (fits, rw fits refl)
  ]

  abbrev pub IsQuiet : Wait → Type 0
  IsQuiet w = (w.before_sleep ≡ false) × (w.after_sleep ≡ false)

  -- How a backoff ends: it sleeps and goes on, or the shutdown comes before or after the sleep.
  backoff-ends :
      (w : Wait) (d : F) (t : E)
      → (IsQuiet w × (backoff p V W io settings w d t ≡ (true, slept d t)))
        ⊎ ((w.before_sleep ≡ true) × (backoff p V W io settings w d t ≡ (false, counted t)))
        ⊎ ((w.after_sleep ≡ true) × (backoff p V W io settings w d t ≡ (false, slept d t)))
  unfolding backoff
  backoff-ends w d t = elim (Bool-cases w.before_sleep) [
    | inl before ↦ inr (inl (before, rw (backoff, before) refl))
    | inr calm ↦ elim (Bool-cases w.after_sleep) [
      | inl after ↦ inr (inr (after, rw (backoff, calm, after) refl))
      | inr quiet ↦ inl ((calm, quiet), rw (backoff, calm, quiet) refl)
    ]
  ]

  abbrev Result : Type 0
  Result = Option Ending × E

  -- A shutdown is signalled before or after a sleep, and the loop ends there.
  abbrev pub Shutdown : List Wait → F → E → Result → Type 0
  Shutdown ws d t result =
      (w : Wait) × In w ws
      × (((w.before_sleep ≡ true) × (result ≡ (some shutdown_requested, counted t)))
          ⊎ ((w.after_sleep ≡ true) × (result ≡ (some shutdown_requested, slept d t))))

  -- How the loop ends after failed attempts: by an attempt that completes, with its state; with no
  -- wait left; or by a shutdown after one more failed attempt.
  abbrev pub EndsAt : List Wait → B → List F → F → E → Result → Type 0
  EndsAt ws b ds d s₀ result =
      ((length ds < length ws)
        × ((t : E) × (attempt p V W io settings b s₀ ≡ (complete, t))
            × (result ≡ (some finished, t))))
      ⊎ ((length ds ≡ length ws) × (result ≡ (none, s₀)))
      ⊎ ((t : E) × (exc : Exception) × (length ds < length ws)
          × (attempt p V W io settings b s₀ ≡ (retry exc, t))
          × Shutdown ws d t result)

  EndsAt-later :
      (w : Wait) (ws : List Wait) (b : B) (d : F) (ds : List F) (next : F) (s₀ : E)
      (result : Result)
      → EndsAt ws b ds next s₀ result
      → EndsAt (w ∷ ws) b (d ∷ ds) next s₀ result
  EndsAt-later w ws b d ds next s₀ result (inl (few, last)) = inl (omega (arith, few), last)
  EndsAt-later w ws b d ds next s₀ result (inr (inl (all, same))) = inr (inl (ap suc all, same))
  EndsAt-later w ws b d ds next s₀ result (inr (inr (t, exc, few, failed, (v, i, how)))) =
      inr (inr (t, exc, omega (arith, few), failed, (v, there i, how)))

  pub retry_loop_runs :
      (ws : List Wait) (delay : F) (b : B) (s : E)
      → (ds : List F) × (next : F) × (s₀ : E) × Retried b delay ds next s s₀
        × EndsAt ws b ds next s₀ (retry_loop p V W io settings ws delay b s)
  unfolding retry_loop
  retry_loop_runs [] delay b s = ([], delay, s, begin, inr (inl (refl, refl)))
  retry_loop_runs (w ∷ ws) delay b s =
      let t = (attempt p V W io settings b s).1 in
      elim (Attempt-cases (attempt p V W io settings b s).0) [
        | inl done ↦ (
          [],
          delay,
          s,
          begin,
          inl (
            omega arith,
            (t, (λ i. (done i, t)), loop_complete p V W io settings w ws delay b s done),
          ),
        )
        | inr (exc, h) ↦
            let failed : attempt p V W io settings b s ≡ (retry exc, t) = λ i. (h i, t) in
            elim (backoff-ends w delay t) [
              | inl (quiet, on) ↦
                  let (ds, next, s₀, tried, how) =
                    retry_loop_runs ws (next_delay p V W io settings delay) b (slept delay t) in
                  let step =
                    loop_again p V W io settings w ws delay b s exc h (ap (λ x. x.0) on)
                    ∙ ap
                        (λ x.
                          retry_loop p V W io settings ws (next_delay p V W io settings delay) b
                            x.1)
                        on in
                  (
                    delay ∷ ds,
                    next,
                    s₀,
                    again exc failed (next_delay-Doubles delay) tried,
                    subst (EndsAt (w ∷ ws) b (delay ∷ ds) next s₀) (sym step)
                        (EndsAt-later w ws b delay ds next s₀ _ how),
                  )
              | inr (inl (before, off)) ↦
                  let step =
                    loop_shutdown p V W io settings w ws delay b s exc h (ap (λ x. x.0) off)
                    ∙ ap (λ x. (some shutdown_requested, x.1)) off in
                  (
                    [],
                    delay,
                    s,
                    begin,
                    inr (inr (t, exc, omega arith, failed, (w, here, inl (before, step)))),
                  )
              | inr (inr (after, off)) ↦
                  let step =
                    loop_shutdown p V W io settings w ws delay b s exc h (ap (λ x. x.0) off)
                    ∙ ap (λ x. (some shutdown_requested, x.1)) off in
                  (
                    [],
                    delay,
                    s,
                    begin,
                    inr (inr (t, exc, omega arith, failed, (w, here, inr (after, step)))),
                  )
            ]
      ]
