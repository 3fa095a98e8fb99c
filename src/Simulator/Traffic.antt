-- ===== src/Simulator/Traffic.antt =====
-- What the events of simulator/transaction_simulator.py are, by their scenario and by what was
-- yielded before them.
use rtace.Base.{ℕ, zero, suc, String, ◌≡◌, sym, subst, List, [], ◌∷◌, append}
use rtace.Platform.{Platform}
use rtace.Simulator.{
  Location, Random, Yield, sleep, SimulatorSettings, Sim, choose, tx_event, auth_event,
  scheduled_burst, scheduled_stuffing_user, scheduled_stuffing_ip, iterate, generate_events,
  burst_size, stuffing_user_fails, stuffing_ip_fails,
}
use rtace.Simulator.Past.{since, since-append, Each, Each-append}
use rtace.Simulator.Stream.{
  Stored, Keeps, single, one-Keeps, tx_event-Keeps, auth_event-Keeps, burst_events-Keeps,
  stuffing_user_events-Keeps, stuffing_ip_events-Keeps, due-Keeps, Faithful,
}

module _ (p : Platform) (rnd : Random p.F) (stamp : ℕ → String × p.Time)
    (settings : SimulatorSettings p rnd) (u : String) (us : List String)
    (home : String → Location) where
  abbrev Part : Type 0
  Part = Sim p rnd → List (Yield p rnd) × Sim p rnd

  abbrev Preserves : Part → Type 0
  Preserves f =
      (past : List (Yield p rnd)) (s : Sim p rnd)
      → (Stored p rnd stamp settings u us home) past s.last_tx
      → (Keeps p rnd stamp settings u us home) past (f s)

  abbrev both : Part → Part → Part
  both f g s = let (ys, s') = f s in let (zs, s'') = g s' in (append ys zs, s'')

  both-Preserves : (f g : Part) → Preserves f → Preserves g → Preserves (both f g)
  both-Preserves f g hf hg past s h =
      let here = hf past s h in
      let after = hg (since past (f s).0) (f s).1 here.1 in
      (
        Each-append (Faithful p rnd stamp settings u us home) past (f s).0 (g (f s).1).0 here.0
            after.0,
        subst (λ t. (Stored p rnd stamp settings u us home) t (g (f s).1).1.last_tx)
            (sym (since-append past (f s).0 (g (f s).1).0)) after.1,
      )

  abbrev drawn_tx : Part
  drawn_tx s =
      let (v, s') = choose p rnd u us s in
      (single p rnd stamp settings u us home) (tx_event p rnd stamp settings u us home v s')

  abbrev auth : Part
  auth s = (single p rnd stamp settings u us home) (auth_event p rnd stamp settings u us home s)

  abbrev pause : Part
  pause s = (sleep ∷ [], s)

  scheduled_burst-Preserves :
      (iteration : ℕ) → Preserves (scheduled_burst p rnd stamp settings u us home iteration)
  unfolding scheduled_burst choose
  scheduled_burst-Preserves iteration past s h =
      (due-Keeps p rnd stamp settings u us home) _ past _ s
        ((burst_events-Keeps p rnd stamp settings u us home) burst_size past _ _ h) h

  scheduled_stuffing_user-Preserves :
      (iteration : ℕ) → Preserves (scheduled_stuffing_user p rnd stamp settings u us home iteration)
  unfolding scheduled_stuffing_user choose
  scheduled_stuffing_user-Preserves iteration past s h =
      (due-Keeps p rnd stamp settings u us home) _ past _ s
        ((stuffing_user_events-Keeps p rnd stamp settings u us home) stuffing_user_fails past _ _ h)
        h

  scheduled_stuffing_ip-Preserves :
      (iteration : ℕ) → Preserves (scheduled_stuffing_ip p rnd stamp settings u us home iteration)
  unfolding scheduled_stuffing_ip
  scheduled_stuffing_ip-Preserves iteration past s h =
      (due-Keeps p rnd stamp settings u us home) _ past _ s
        ((stuffing_ip_events-Keeps p rnd stamp settings u us home) stuffing_ip_fails 0 past _ h) h

  abbrev ips_on : ℕ → Part
  ips_on iteration = both (scheduled_stuffing_ip p rnd stamp settings u us home iteration) pause

  abbrev users_on : ℕ → Part
  users_on iteration =
      both (scheduled_stuffing_user p rnd stamp settings u us home iteration) (ips_on iteration)

  abbrev bursts_on : ℕ → Part
  bursts_on iteration =
      both (scheduled_burst p rnd stamp settings u us home iteration) (users_on iteration)

  pause-Preserves : Preserves pause
  unfolding Faithful
  pause-Preserves past s h = (one-Keeps p rnd stamp settings u us home) past sleep s.last_tx tt h

  iterate-Preserves : (iteration : ℕ) → Preserves (iterate p rnd stamp settings u us home iteration)
  unfolding iterate choose
  iterate-Preserves iteration =
      both-Preserves drawn_tx (both auth (bursts_on iteration))
        (λ past s h. (tx_event-Keeps p rnd stamp settings u us home) past _ _ h)
        (both-Preserves auth (bursts_on iteration) (auth_event-Keeps p rnd stamp settings u us home)
          (both-Preserves (scheduled_burst p rnd stamp settings u us home iteration)
            (users_on iteration) (scheduled_burst-Preserves iteration)
            (both-Preserves (scheduled_stuffing_user p rnd stamp settings u us home iteration)
              (ips_on iteration) (scheduled_stuffing_user-Preserves iteration)
              (both-Preserves (scheduled_stuffing_ip p rnd stamp settings u us home iteration) pause
                (scheduled_stuffing_ip-Preserves iteration) pause-Preserves))))

  generate_events-Preserves :
      (n iteration : ℕ) → Preserves (generate_events p rnd stamp settings u us home n iteration)
  unfolding generate_events
  generate_events-Preserves zero iteration past s h = (tt, h)
  generate_events-Preserves (suc n) iteration past s h =
      both-Preserves (iterate p rnd stamp settings u us home iteration)
        (generate_events p rnd stamp settings u us home n (suc iteration))
        (iterate-Preserves iteration) (generate_events-Preserves n (suc iteration)) past s h

  -- From an empty `last_tx`, each event that the generator yields is what its scenario says, in the
  -- order of the stream: a normal or burst transaction is at its user's home, an impossible travel
  -- is at another location, with its coordinates, a replay is a normal transaction that was
  -- yielded before, whole, and a stuffing login fails and comes from the IP of its attack.
  pub generate_events-Faithful :
      (n iteration : ℕ) (s : Sim p rnd)
      → s.last_tx ≡ []
      → Each
          (Faithful p rnd stamp settings u us home)
          []
          (generate_events p rnd stamp settings u us home n iteration s).0
  generate_events-Faithful n iteration s fresh_start =
      (generate_events-Preserves n iteration [] s (rw fresh_start tt)).0
