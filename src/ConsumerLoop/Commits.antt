-- ===== src/ConsumerLoop/Commits.antt =====
-- What is committed, and when.
use rtace.Base.{
  ℕ, String, ◌≡◌, refl, sym, ap, ◌∙◌, ◌⊎◌, inl, inr, Bool, true, false, Option, none, some, List,
  [], ◌∷◌, arith, All, All-append, All-mono, append, append-nil, append_assoc, ◌≢◌, if◌then◌else◌,
  Bool-cases, subst,
}
use rtace.Platform.{Platform}
use rtace.ConsumerLoop.{Record, LoopSettings, Ending, finished, shutdown_requested, Interface}
use rtace.ConsumerLoop.Retry.{S, handle_batch_with_retry}
use rtace.ConsumerLoop.Run.{
  commit, offsets_of, Polled, poll_failed, batch, Pass, Phase, stopped, close, after_batch,
  poll_pass, loop_pass, run_consumer_loop,
}
use rtace.ConsumerLoop.Classified.{In, here, In-append_left, In-append_right}
use rtace.ConsumerLoop.Endings.{handle_batch-commits}

-- what one commit sets
abbrev pub Offsets : Type 0
Offsets = List (String × ℕ × ℕ)

batch-inj : {rs rs' : List Record} → batch rs ≡ batch rs' → rs ≡ rs'
batch-inj {rs} e = ap (λ polled. elim polled [ poll_failed ↦ rs | batch l ↦ l ]) e

module _ (p : Platform) (V W : Type 0) (io : Interface p V W) (settings : LoopSettings p.F) where
  abbrev E : Type 0
  E = S p V W io settings

  -- The commit is made in one of the passes of the run from the state, as `P` tells of the pass and of
  -- the state in which the run comes to it: all passes before it have gone on with the loop.
  pub data Comes (P : Pass → E → Offsets → Type 0) : List Pass → E → Offsets → Type 0 where
    now :
        {pass : Pass} {passes : List Pass} {s : E} {c : Offsets}
        → P pass s c
        → Comes P (pass ∷ passes) s c
    later :
        {pass : Pass} {passes : List Pass} {s : E} {c : Offsets}
        → (loop_pass p V W io settings pass s).0 ≡ none
        → Comes P passes (loop_pass p V W io settings pass s).1 c
        → Comes P (pass ∷ passes) s c

  -- The poll has returned these records, whose handling, from the state and with the waits of the pass,
  -- has finished in `s'`; the commit of exactly their offsets has succeeded.
  abbrev pub Accepts : Pass → Polled → E → Offsets → List Record → E → Type 0
  Accepts pass polled s c records s' =
      (records ≢ [])
      × (polled ≡ batch records)
      × (handle_batch_with_retry p V W io settings pass.waits records s ≡ (some finished, s'))
      × (pass.commit_succeeds ≡ true)
      × (c ≡ offsets_of records)

  abbrev CommitsOf : Pass → Polled → E → Offsets → Type 0
  CommitsOf pass polled s c =
      (records : List Record) × (s' : E) × Accepts pass polled s c records s'

  -- The pass does not see the shutdown, and commits what it has polled.
  abbrev pub Commits : Pass → E → Offsets → Type 0
  Commits pass s c = (pass.is_set ≡ false) × CommitsOf pass pass.polled s c

  abbrev pub Justified : List Pass → E → Offsets → Type 0
  Justified = Comes Commits

  -- A commit of the run is one of its first pass, or one of the run after it.
  comes-first :
      {P : Pass → E → Offsets → Type 0} {pass : Pass} {passes : List Pass} {s : E} {c : Offsets}
      → Comes P (pass ∷ passes) s c
      → P pass s c
        ⊎ (((loop_pass p V W io settings pass s).0 ≡ none)
            × Comes P passes (loop_pass p V W io settings pass s).1 c)
  comes-first (now h) = inl h
  comes-first (later e h) = inr (e, h)

  comes_nowhere : {s : E} {c : Offsets} → Justified [] s c → ⊥
  comes_nowhere k = elim k [ ]

  -- The second state has more commits, all of a kind, and all that there are of the kind.
  abbrev Adds : (Offsets → Type 0) → E → E → Type 0
  Adds P s s' =
      (cs : List Offsets) × (s'.commits ≡ append s.commits cs)
      × All P cs
      × ((c : Offsets) → P c → In c cs)

  -- A pass whose handling ends otherwise, or whose commit fails, commits nothing.
  not_finished :
      (pass : Pass) (r : Record) (rs : List Record) (s : E) (o : Option Ending) (s' : E)
      (c : Offsets)
      → handle_batch_with_retry p V W io settings pass.waits (r ∷ rs) s ≡ (o, s')
      → CommitsOf pass (batch (r ∷ rs)) s c
      → o ≡ some finished
  not_finished pass r rs s o s' c e (records, s'', (ne, same, done, ok, offsets)) =
      sym (ap (λ x. x.0) e)
      ∙ ap (λ l. (handle_batch_with_retry p V W io settings pass.waits l s).0) (batch-inj same)
      ∙ ap (λ x. x.0) done

  unchanged-Adds :
      (P : Offsets → Type 0) (s s' : E)
      → s'.commits ≡ s.commits
      → ((c : Offsets) → P c → ⊥)
      → Adds P s s'
  unchanged-Adds P s s' e nothing =
      ([], e ∙ sym (append-nil s.commits), tt, λ c h. absurd (nothing c h))

  close-commits : (n : ℕ) (s : E) → (close p V W io settings n s).commits ≡ s.commits
  unfolding close
  close-commits n s = ground arith

  after_batch-Adds :
      (pass : Pass) (ok : Bool) (r : Record) (rs : List Record) (s : E) (result : Option Ending × E)
      → pass.commit_succeeds ≡ ok
      → handle_batch_with_retry p V W io settings pass.waits (r ∷ rs) s ≡ result
      → result.1.commits ≡ s.commits
      → Adds
          (CommitsOf pass (batch (r ∷ rs)) s)
          s
          (after_batch p V W io settings pass.resolved ok (r ∷ rs) result).1
  unfolding after_batch commit
  after_batch-Adds pass ok r rs s (none, s') h e same =
      unchanged-Adds _ s s' same
        λ c k. let wrong : none ≡ some finished = not_finished pass r rs s none s' c e k in cc
  after_batch-Adds pass true r rs s (some finished, s') h e same = (
    offsets_of (r ∷ rs) ∷ [],
    ap (λ cs. append cs (offsets_of (r ∷ rs) ∷ [])) same,
    ((r ∷ rs, s', ((λ no. cc), refl, e, h, refl)), tt),
    λ c k.
        let (records, s'', (ne, polled, done, ok, offsets)) = k in
        subst (λ x. In x (offsets_of (r ∷ rs) ∷ []))
          (sym (offsets ∙ ap offsets_of (sym (batch-inj polled)))) here,
  )
  after_batch-Adds pass false r rs s (some finished, s') h e same =
      unchanged-Adds _ s s' same λ c k.
        let (records, s'', (ne, polled, done, ok, offsets)) = k in
        let wrong : false ≡ true = sym h ∙ ok in cc
  after_batch-Adds pass ok r rs s (some shutdown_requested, s') h e same =
      unchanged-Adds _ s (close p V W io settings pass.resolved s')
        (close-commits pass.resolved s' ∙ same)
        λ c k.
          let wrong : some shutdown_requested ≡ some finished =
            not_finished pass r rs s (some shutdown_requested) s' c e k in
          cc

  poll_pass-Adds :
      (pass : Pass) (polled : Polled) (s : E)
      → Adds (CommitsOf pass polled s) s (poll_pass p V W io settings pass polled s).1
  unfolding poll_pass
  poll_pass-Adds pass poll_failed s =
      unchanged-Adds _ s (poll_pass p V W io settings pass poll_failed s).1 refl
        λ c k. let (records, s'', (ne, polled, done, ok, offsets)) = k in cc
  poll_pass-Adds pass (batch []) s =
      unchanged-Adds _ s s refl λ c k.
        let (records, s'', (ne, polled, done, ok, offsets)) = k in ne (sym (batch-inj polled))
  poll_pass-Adds pass (batch (r ∷ rs)) s =
      after_batch-Adds pass pass.commit_succeeds r rs s _ refl refl
        (handle_batch-commits p V W io settings pass.waits (r ∷ rs) s)

  loop_pass-Adds :
      (pass : Pass) (s : E) → Adds (Commits pass s) s (loop_pass p V W io settings pass s).1
  unfolding loop_pass
  loop_pass-Adds pass s =
      let stopping : Option Phase × E = (some stopped, close p V W io settings pass.resolved s) in
      let polling_on = poll_pass p V W io settings pass pass.polled s in
      elim (Bool-cases pass.is_set) [
        | inl set ↦
            unchanged-Adds _ s (loop_pass p V W io settings pass s).1
              (ap (λ b. (if b then stopping else polling_on).1.commits) set
                ∙ close-commits pass.resolved s)
              (λ c k. let wrong : false ≡ true = sym k.0 ∙ set in cc)
        | inr clear ↦
            let (cs, grown, all, every) = poll_pass-Adds pass pass.polled s in
            (
              cs,
              ap (λ b. (if b then stopping else polling_on).1.commits) clear ∙ grown,
              All-mono (CommitsOf pass pass.polled s) (Commits pass s) cs (λ c h. (clear, h)) all,
              λ c k. every c k.1,
            )
      ]

  -- the loop after one pass
  abbrev next : Option Phase → E → List Pass → Phase × E
  next none s' passes = run_consumer_loop p V W io settings passes s'
  next (some ph) s' passes = (ph, s')

  run_cons-eq :
      (pass : Pass) (passes : List Pass) (s : E)
      → run_consumer_loop p V W io settings (pass ∷ passes) s
        ≡ next (loop_pass p V W io settings pass s).0 (loop_pass p V W io settings pass s).1 passes
  unfolding run_consumer_loop
  run_cons-eq pass passes s = ground arith

  next-Adds :
      (pass : Pass) (passes : List Pass) (s : E) (phase : Option Phase)
      → (loop_pass p V W io settings pass s).0 ≡ phase
      → let s₁ = (loop_pass p V W io settings pass s).1 in
        Adds (Justified passes s₁) s₁ (run_consumer_loop p V W io settings passes s₁).1
        → Adds (Justified (pass ∷ passes) s) s (next phase s₁ passes).1
  next-Adds pass passes s (some ph) e rest =
      let (cs, grown, all, every) = loop_pass-Adds pass s in
      (
        cs,
        grown,
        All-mono (Commits pass s) (Justified (pass ∷ passes) s) cs (λ c h. now h) all,
        λ c k. elim (comes-first k) [
          | inl h ↦ every c h
          | inr (on, h) ↦ let wrong : none ≡ some ph = sym on ∙ e in cc
        ],
      )
  next-Adds pass passes s none e (cs', grown', all', every') =
      let s₁ = (loop_pass p V W io settings pass s).1 in
      let (cs, grown, all, every) = loop_pass-Adds pass s in
      (
        append cs cs',
        grown' ∙ ap (λ l. append l cs') grown ∙ append_assoc s.commits cs cs',
        All-append (Justified (pass ∷ passes) s) cs cs'
            (All-mono (Commits pass s) (Justified (pass ∷ passes) s) cs (λ c h. now h) all)
            (All-mono (Justified passes s₁) (Justified (pass ∷ passes) s) cs' (λ c h. later e h)
              all'),
        λ c k. elim (comes-first k) [
          | inl h ↦ In-append_left cs' (every c h)
          | inr (on, h) ↦ In-append_right cs (every' c h)
        ],
      )

  -- An offset is committed only for a batch whose handling has finished. Whatever the polls return,
  -- whichever commits fail, and whenever the shutdown comes, what a run adds to the commits are, each
  -- of them, the offsets of the very records that one of its passes has polled, made in that pass,
  -- in which no shutdown was seen, after the handling of those records from the state of that moment
  -- has ended as finished. A batch given up in a retry, or still in one, is never committed.
  -- And no such batch is missed: wherever the handling of the records of a pass finishes and the
  -- commit succeeds, their offsets are among the commits added.
  pub run_commits_finished :
      (passes : List Pass) (s : E)
      → (cs : List Offsets) × ((run_consumer_loop p V W io settings passes s).1.commits
          ≡ append s.commits cs)
        × All (Justified passes s) cs
        × ((c : Offsets) → Justified passes s c → In c cs)
  unfolding run_consumer_loop
  run_commits_finished [] s = unchanged-Adds (Justified [] s) s s refl λ c k. comes_nowhere k
  run_commits_finished (pass ∷ passes) s =
      subst (λ result. Adds (Justified (pass ∷ passes) s) s result.1)
        (sym (run_cons-eq pass passes s))
        (next-Adds pass passes s _ refl
          (run_commits_finished passes (loop_pass p V W io settings pass s).1))

  -- What is known of each commit in its pass is known of it in the run.
  pub Comes-mono :
      (P Q : Pass → E → Offsets → Type 0)
      → ((pass : Pass) (s : E) (c : Offsets) → P pass s c → Q pass s c)
      → (passes : List Pass) (s : E) (c : Offsets) → Comes P passes s c
      → Comes Q passes s c
  Comes-mono P Q f _ _ c (now h) = now (f _ _ c h)
  Comes-mono P Q f _ _ c (later e h) = later e (Comes-mono P Q f _ _ c h)
