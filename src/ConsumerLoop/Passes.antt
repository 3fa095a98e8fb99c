-- ===== src/ConsumerLoop/Passes.antt =====
-- `_handle_batch_with_retry` of common/consumer_loop.py, pass by pass, and what a pass counts.
use rtace.Base.{
  ℕ, suc, ◌≡◌, refl, sym, ap, ◌∙◌, ◌⊎◌, inl, inr, true, false, some, List, [], ◌∷◌, append,
  Bool-cases, replicate, append-nil, append_assoc,
}
use rtace.Platform.{Platform}
use rtace.ConsumerLoop.{
  Exception, Record, LoopSettings, Wait, Attempt, retry, complete, finished, shutdown_requested,
  Interface, count_skipped, transient, Class, undecodable, tombstone, value_of, Count, skipped,
  class_of, count,
}
use rtace.ConsumerLoop.Retry.{S, Batch, attempt, outcome, retry_loop, backoff, next_delay}
use rtace.ConsumerLoop.Frame.{
  retry-counts, backoff-counts, counts_of, settle-counts, handled-counts,
}
use rtace.ConsumerLoop.Durable.{handled, attempt-complete}

pub Attempt-cases : (a : Attempt) → (a ≡ complete) ⊎ ((exc : Exception) × (a ≡ retry exc))
Attempt-cases complete = inl refl
Attempt-cases (retry exc) = inr (exc, refl)

module _ (p : Platform) (V W : Type 0) (io : Interface p V W) (settings : LoopSettings p.F) where
  open p use {F}

  abbrev E : Type 0
  E = S p V W io settings

  abbrev B : Type 0
  B = Batch p V W io settings

  -- One pass, by how its attempt and its backoff end.
  module _ (w : Wait) (ws : List Wait) (delay : F) (b : B) (s : E) where
    abbrev pub after : E
    after = (attempt p V W io settings b s).1

    pub loop_complete :
        (attempt p V W io settings b s).0 ≡ complete
        → retry_loop p V W io settings (w ∷ ws) delay b s ≡ (some finished, after)
    unfolding retry_loop
    loop_complete h = rw (h, retry_loop)

    pub loop_again :
        (exc : Exception)
        → (attempt p V W io settings b s).0 ≡ retry exc
        → (backoff p V W io settings w delay after).0 ≡ true
        → retry_loop p V W io settings (w ∷ ws) delay b s
          ≡ retry_loop p V W io settings ws
              (next_delay p V W io settings delay)
              b
              (backoff p V W io settings w delay after).1
    unfolding retry_loop
    loop_again exc h k = rw (h, retry_loop) (rw k)

    pub loop_shutdown :
        (exc : Exception)
        → (attempt p V W io settings b s).0 ≡ retry exc
        → (backoff p V W io settings w delay after).0 ≡ false
        → retry_loop p V W io settings (w ∷ ws) delay b s
          ≡ (some shutdown_requested, (backoff p V W io settings w delay after).1)
    unfolding retry_loop
    loop_shutdown exc h k = rw (h, retry_loop) (rw k)

  -- A batch is finished only by an attempt that is complete, after as many failed attempts as there
  -- are transient errors counted; these count nothing else and commit nothing.
  pub retry_loop-finished :
      (ws : List Wait) (delay : F) (b : B) (s s' : E)
      → retry_loop p V W io settings ws delay b s ≡ (some finished, s')
      → (s₀ : E) × (k : ℕ) × (attempt p V W io settings b s₀ ≡ (complete, s'))
        × (s₀.counts ≡ append s.counts (replicate k transient))
        × (s₀.commits ≡ s.commits)
  unfolding retry_loop
  retry_loop-finished [] delay b s s' e = cc
  retry_loop-finished (w ∷ ws) delay b s s' e =
      let (a, t) = attempt p V W io settings b s in
      elim (Attempt-cases (attempt p V W io settings b s).0) [
        | inl done ↦
            let q = ap (λ x. x.1) (sym (loop_complete w ws delay b s done) ∙ e) in
            (s, 0, λ i. (done i, q i), sym (append-nil _), refl)
        | inr (exc, h) ↦ elim (Bool-cases (backoff p V W io settings w delay t).0) [
          | inl again ↦
              let (s₀, k, last, counted, same) =
                retry_loop-finished ws (next_delay p V W io settings delay) b
                  (backoff p V W io settings w delay t).1 s'
                  (sym (loop_again w ws delay b s exc h again) ∙ e) in
              let kept = retry-counts p V W io settings b s exc h in
              let waited = backoff-counts p V W io settings w delay t in
              (
                s₀,
                suc k,
                last,
                counted
                    ∙ rw (waited.0, kept.0)
                        (append_assoc s.counts (transient ∷ []) (replicate k transient)),
                same ∙ waited.1 ∙ kept.1,
              )
          | inr ended ↦
              let q = ap (λ x. x.0) (sym (loop_shutdown w ws delay b s exc h ended) ∙ e) in cc
        ]
      ]

  pub attempt-counts :
      (b : B) (s s' : E)
      → attempt p V W io settings b s ≡ (complete, s')
      → (s'.counts
          ≡ append s.counts (
              counts_of p V W io settings
                (outcome p V W io settings b (handled p V W io settings b s).0)))
        × (s'.commits ≡ s.commits)
  attempt-counts b s s' e =
      let step = attempt-complete p V W io settings b s s' e in
      let last = settle-counts p V W io settings _ _ s' step.1 in
      let kept = handled-counts p V W io settings b s in (last.0 ∙ rw kept.0, last.1 ∙ kept.1)

  -- The "skipped" counts of a batch: one for each tombstone.
  abbrev pub skip : Class F → List Count → List Count
  skip tombstone rest = skipped ∷ rest
  skip _ rest = rest

  abbrev pub skipped_counts : List Record → List Count
  skipped_counts [] = []
  skipped_counts (r ∷ rs) = skip (class_of p V W io settings r) (skipped_counts rs)

  pub count_one-counts :
      (c : Class F) (rest : List Count) (r : Record) (rs : List Record) (s : E)
      → class_of p V W io settings r ≡ c
      → ((t : E)
          → ((count_skipped p V W io settings rs t).counts ≡ append t.counts rest)
            × ((count_skipped p V W io settings rs t).commits ≡ t.commits)
            × ((count_skipped p V W io settings rs t).producer ≡ t.producer))
      → ((count_skipped p V W io settings (r ∷ rs) s).counts ≡ append s.counts (skip c rest))
        × ((count_skipped p V W io settings (r ∷ rs) s).commits ≡ s.commits)
        × ((count_skipped p V W io settings (r ∷ rs) s).producer ≡ s.producer)
  unfolding count_skipped
  count_one-counts undecodable rest r rs s h ih = rw (h, count_skipped) (ih s)
  count_one-counts tombstone rest r rs s h ih =
      let step = ih (count p V W io settings skipped s) in
      rw (h, count_skipped) (step.0 ∙ append_assoc s.counts (skipped ∷ []) rest, step.1, step.2)
  count_one-counts (value_of v) rest r rs s h ih = rw (h, count_skipped) (ih s)

  pub count_skipped-counts :
      (rs : List Record) (s : E)
      → ((count_skipped p V W io settings rs s).counts ≡ append s.counts (skipped_counts rs))
        × ((count_skipped p V W io settings rs s).commits ≡ s.commits)
        × ((count_skipped p V W io settings rs s).producer ≡ s.producer)
  unfolding count_skipped
  count_skipped-counts [] s = (sym (append-nil _), refl, refl)
  count_skipped-counts (r ∷ rs) s =
      count_one-counts (class_of p V W io settings r) (skipped_counts rs) r rs s refl
        (λ t. count_skipped-counts rs t)
