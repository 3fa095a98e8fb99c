-- ===== src/Simulator/Attacks.antt =====
-- How many events each scheduled attack of simulator/transaction_simulator.py has.
use rtace.Base.{
  ℕ, ◌+◌, ◌<◌, String, ◌≡◌, refl, ap, ◌∙◌, Bool, true, false, ◌&&◌, List, [], ◌∷◌, All, ◌==◌,
  append, length, if◌then◌else◌, arith,
}
use rtace.Platform.{Platform}
use rtace.Config.{default_config}
use rtace.Models.{TransactionEvent, AuthEvent}
use rtace.Detection.{transaction, login}
use rtace.Simulator.{
  Location, normal, replay, impossible_travel, fraud_burst, stuffing_user, stuffing_ip, Random, due,
  Yield, emitted, sleep, SimulatorSettings, Sim, choose, tx_event, auth_event, burst_events,
  stuffing_user_events, stuffing_ip_events, scheduled_burst, scheduled_stuffing_user,
  scheduled_stuffing_ip, iterate, burst_size, stuffing_user_fails, stuffing_ip_fails,
  stuffing_user_ip, stuffing_attack_ip,
}
use rtace.Simulator.Counting.{
  count, count-append, count-same, in_burst, in_stuffing, in_ip_stuffing, Dull, tx_event-Dull,
  auth_event-Dull, burst_events-All, stuffing_user_events-All, stuffing_ip_events-All,
  burst_events-length, stuffing_user_events-length, stuffing_ip_events-length,
}

module _ (p : Platform) (rnd : Random p.F) where
  module _ (stamp : ℕ → String × p.Time) (settings : SimulatorSettings p rnd) (u : String)
      (us : List String) (home : String → Location) (t : Yield p rnd → Bool) where
    -- The states in which one pass draws the attacks.
    abbrev before_burst : Sim p rnd → Sim p rnd
    before_burst s =
        let (v, s') = choose p rnd u us s in
        (auth_event p rnd stamp settings u us home
          (tx_event p rnd stamp settings u us home v s').1).1

    abbrev before_user : ℕ → Sim p rnd → Sim p rnd
    before_user iteration s =
        (scheduled_burst p rnd stamp settings u us home iteration (before_burst s)).1

    abbrev before_ip : ℕ → Sim p rnd → Sim p rnd
    before_ip iteration s =
        (scheduled_stuffing_user p rnd stamp settings u us home iteration
          (before_user iteration s)).1

    -- Only the attacks count.
    iterate-count :
        Dull p rnd stamp settings u us home t normal
        → Dull p rnd stamp settings u us home t replay
        → Dull p rnd stamp settings u us home t impossible_travel
        → t sleep ≡ false
        → (iteration : ℕ) (s : Sim p rnd)
        → count t (iterate p rnd stamp settings u us home iteration s).0
          ≡ count t (scheduled_burst p rnd stamp settings u us home iteration (before_burst s)).0
            + (count t
                  (scheduled_stuffing_user p rnd stamp settings u us home iteration
                    (before_user iteration s)).0
                + count t
                    (scheduled_stuffing_ip p rnd stamp settings u us home iteration
                      (before_ip iteration s)).0)
    unfolding iterate
    iterate-count dn dr di ds iteration s =
        let (v, s') = choose p rnd u us s in
        let bursts =
          (scheduled_burst p rnd stamp settings u us home iteration (before_burst s)).0 in
        let users =
          (scheduled_stuffing_user p rnd stamp settings u us home iteration
            (before_user iteration s)).0 in
        let ips =
          (scheduled_stuffing_ip p rnd stamp settings u us home iteration
            (before_ip iteration s)).0 in
        rw
          (
            tx_event-Dull p rnd stamp settings u us home t dn dr di v s',
            auth_event-Dull p rnd stamp settings u us home t dn
                (tx_event p rnd stamp settings u us home v s').1,
            count-append t bursts (append users (append ips (sleep ∷ []))),
            count-append t users (append ips (sleep ∷ [])),
            count-append t ips (sleep ∷ []),
            ds,
          )
          (omega arith)

    due-count :
        (is_due b : Bool) (n : ℕ) (attack : List (Yield p rnd) × Sim p rnd) (s : Sim p rnd)
        → All (λ y. t y ≡ b) attack.0
        → length attack.0 ≡ n
        → count t (if is_due then attack else ([], s)).0 ≡ (if is_due && b then n else 0)
    due-count false b n attack s h same = refl
    due-count true b n attack s h same =
        count-same b t attack.0 h ∙ ap (λ k. if b then k else 0) same

    burst-count :
        (b : Bool) (iteration : ℕ) (s : Sim p rnd)
        → ((tx : TransactionEvent p)
            → tx.user_id ≡ (choose p rnd u us s).0
            → t (emitted (transaction tx) fraud_burst) ≡ b)
        → count t (scheduled_burst p rnd stamp settings u us home iteration s).0
          ≡ (if due settings.burst_every iteration && b then burst_size else 0)
    unfolding scheduled_burst
    burst-count b iteration s h =
        let (v, s') = choose p rnd u us s in
        due-count (due settings.burst_every iteration) b burst_size
          (burst_events p rnd stamp settings u us home burst_size v s') s
          (burst_events-All p rnd stamp settings u us home t b burst_size v s' h)
          (burst_events-length p rnd stamp settings u us home t burst_size v s')

    user-count :
        (b : Bool) (iteration : ℕ) (s : Sim p rnd)
        → ((a : AuthEvent p)
            → a.user_id ≡ (choose p rnd u us s).0
            → a.ip_address ≡ stuffing_user_ip
            → a.success ≡ false
            → t (emitted (login a) stuffing_user) ≡ b)
        → count t (scheduled_stuffing_user p rnd stamp settings u us home iteration s).0
          ≡ (if due settings.stuffing_user_every iteration && b then stuffing_user_fails else 0)
    unfolding scheduled_stuffing_user
    user-count b iteration s h =
        let (v, s') = choose p rnd u us s in
        due-count (due settings.stuffing_user_every iteration) b stuffing_user_fails
          (stuffing_user_events p rnd stamp settings u us home stuffing_user_fails v s') s
          (stuffing_user_events-All p rnd stamp settings u us home t b stuffing_user_fails v s' h)
          (stuffing_user_events-length p rnd stamp settings u us home t stuffing_user_fails v s')

    ip-count :
        (b : Bool) (iteration : ℕ) (s : Sim p rnd)
        → ((a : AuthEvent p)
            → a.ip_address ≡ stuffing_attack_ip
            → a.success ≡ false
            → t (emitted (login a) stuffing_ip) ≡ b)
        → count t (scheduled_stuffing_ip p rnd stamp settings u us home iteration s).0
          ≡ (if due settings.stuffing_ip_every iteration && b then stuffing_ip_fails else 0)
    unfolding scheduled_stuffing_ip
    ip-count b iteration s h =
        due-count (due settings.stuffing_ip_every iteration) b stuffing_ip_fails
          (stuffing_ip_events p rnd stamp settings u us home stuffing_ip_fails 0 s) s
          (stuffing_ip_events-All p rnd stamp settings u us home t b stuffing_ip_fails 0 s h)
          (stuffing_ip_events-length p rnd stamp settings u us home t stuffing_ip_fails 0 s)

  module _ (stamp : ℕ → String × p.Time) (settings : SimulatorSettings p rnd) (u : String)
      (us : List String) (home : String → Location) where
    if-zero : (b : Bool) (n : ℕ) → (if b && false then n else 0) ≡ 0
    if-zero true n = refl
    if-zero false n = refl

    if-true : (b : Bool) (n : ℕ) → (if b && true then n else 0) ≡ (if b then n else 0)
    if-true true n = refl
    if-true false n = refl

    zero_of-if : (b : Bool) (n k : ℕ) → k ≡ (if b && false then n else 0) → k ≡ 0
    zero_of-if b n k h = h ∙ if-zero b n

    -- in the states of one pass
    module _ (iteration : ℕ) (s : Sim p rnd) where
      abbrev s3 : Sim p rnd
      s3 = before_burst stamp settings u us home (λ y. false) s

      abbrev s4 : Sim p rnd
      s4 = before_user stamp settings u us home (λ y. false) iteration s

      abbrev s5 : Sim p rnd
      s5 = before_ip stamp settings u us home (λ y. false) iteration s

      bursts-count :
          (w : String)
          → count (in_burst p rnd w) (iterate p rnd stamp settings u us home iteration s).0 ≡ (
              if due settings.burst_every iteration && ((choose p rnd u us s3).0 == w)
              then burst_size
              else 0)
      bursts-count w =
          let own =
            burst-count stamp settings u us home (in_burst p rnd w) ((choose p rnd u us s3).0 == w)
              iteration s3 (λ tx same. rw same refl) in
          let users = zero_of-if _ _ _ (
            user-count stamp settings u us home (in_burst p rnd w) false iteration s4
              (λ a h1 h2 h3. refl)) in
          let ips = zero_of-if _ _ _ (
            ip-count stamp settings u us home (in_burst p rnd w) false iteration s5
              (λ a h1 h2. refl)) in
          iterate-count stamp settings u us home (in_burst p rnd w) (λ e. refl) (λ e. refl)
            (λ e. refl) refl iteration s
          ∙ omega (arith, own, users, ips)

      users-count :
          (w : String)
          → count (in_stuffing p rnd w) (iterate p rnd stamp settings u us home iteration s).0 ≡ (
              if due settings.stuffing_user_every iteration && ((choose p rnd u us s4).0 == w)
              then stuffing_user_fails
              else 0)
      users-count w =
          let bursts = zero_of-if _ _ _ (
            burst-count stamp settings u us home (in_stuffing p rnd w) false iteration s3
              (λ tx h. refl)) in
          let own =
            user-count stamp settings u us home (in_stuffing p rnd w)
              ((choose p rnd u us s4).0 == w) iteration s4 (λ a h1 h2 h3. rw (h1, h2, h3) refl) in
          let ips = zero_of-if _ _ _ (
            ip-count stamp settings u us home (in_stuffing p rnd w) false iteration s5
              (λ a h1 h2. refl)) in
          iterate-count stamp settings u us home (in_stuffing p rnd w) (λ e. refl) (λ e. refl)
            (λ e. refl) refl iteration s
          ∙ omega (arith, own, bursts, ips)

      ips-count :
          count (in_ip_stuffing p rnd) (iterate p rnd stamp settings u us home iteration s).0
          ≡ (if due settings.stuffing_ip_every iteration then stuffing_ip_fails else 0)
      ips-count =
          let bursts = zero_of-if _ _ _ (
            burst-count stamp settings u us home (in_ip_stuffing p rnd) false iteration s3
              (λ tx h. refl)) in
          let users = zero_of-if _ _ _ (
            user-count stamp settings u us home (in_ip_stuffing p rnd) false iteration s4
              (λ a h1 h2 h3. refl)) in
          let own =
            ip-count stamp settings u us home (in_ip_stuffing p rnd) true iteration s5
              (λ a h1 h2. rw (h1, h2) refl)
            ∙ if-true (due settings.stuffing_ip_every iteration) stuffing_ip_fails in
          iterate-count stamp settings u us home ((in_ip_stuffing p rnd)) (λ e. refl) (λ e. refl)
            (λ e. refl) refl iteration s
          ∙ omega (arith, own, users, bursts)

    -- One pass of the generator makes each attack exactly when its schedule is due, for one account or
    -- from one address alone, with 25 transactions, 12 failed logins and 52 failed logins: more than
    -- the default thresholds of the detectors, 20, 10 and 50.
    pub iterate_attacks :
        (nine_hundred : p.F) (iteration : ℕ) (s : Sim p rnd)
        → ((v : String) × ((w : String)
              → count (in_burst p rnd w) (iterate p rnd stamp settings u us home iteration s).0
                ≡ (if due settings.burst_every iteration && (v == w) then burst_size else 0)))
          × ((v : String) × ((w : String)
                → count (in_stuffing p rnd w) (iterate p rnd stamp settings u us home iteration s).0
                  ≡ (if due settings.stuffing_user_every iteration && (v == w)
                      then stuffing_user_fails
                      else 0)))
          × (count ((in_ip_stuffing p rnd)) (iterate p rnd stamp settings u us home iteration s).0
              ≡ (if due settings.stuffing_ip_every iteration then stuffing_ip_fails else 0))
          × ((default_config nine_hundred).burst_threshold < burst_size)
          × ((default_config nine_hundred).auth_fail_user_threshold < stuffing_user_fails)
          × ((default_config nine_hundred).auth_fail_ip_threshold < stuffing_ip_fails)
    iterate_attacks nine_hundred iteration s = (
      (_, bursts-count iteration s),
      (_, users-count iteration s),
      ips-count iteration s,
      omega arith,
      omega arith,
      omega arith,
    )
