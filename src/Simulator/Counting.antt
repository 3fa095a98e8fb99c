-- ===== src/Simulator/Counting.antt =====
-- Counting the events of simulator/transaction_simulator.py that pass a test.
use rtace.Base.{
  ℕ, zero, suc, ◌+◌, String, ◌≡◌, refl, ap, inl, inr, Bool, true, false, not, ◌&&◌, List, [], ◌∷◌,
  All, ◌==◌, append, length, if◌then◌else◌, Option-cases, arith,
}
use rtace.Platform.{Platform}
use rtace.Models.{TransactionEvent, AuthEvent}
use rtace.Detection.{Event, transaction, login}
use rtace.Simulator.{
  Location, locations, Scenario, normal, replay, impossible_travel, fraud_burst, stuffing_user,
  stuffing_ip, Random, others_in, Yield, emitted, SimulatorSettings, Sim, choose, find,
  make_transaction, make_auth, normal_event, travel_from, fresh_event, tx_event, auth_event,
  burst_events, stuffing_user_events, stuffing_ip_events, stuffing_user_ip, stuffing_attack_ip,
}

module _ {ℓ} {A : Type ℓ} where
  -- How many pass the test.
  abbrev pub count : (A → Bool) → List A → ℕ
  count t [] = 0
  count t (x ∷ xs) = (if t x then 1 else 0) + count t xs

  pub count-append :
      (t : A → Bool) (xs ys : List A) → count t (append xs ys) ≡ count t xs + count t ys
  count-append t [] ys = omega arith
  count-append t (x ∷ xs) ys = let ih = count-append t xs ys in omega arith

  pub count-All : (t : A → Bool) (xs : List A) → All (λ x. t x ≡ true) xs → count t xs ≡ length xs
  count-All t [] h = refl
  count-All t (x ∷ xs) h = rw h.0 (omega (arith, count-All t xs h.1))

  pub count-none : (t : A → Bool) (xs : List A) → All (λ x. t x ≡ false) xs → count t xs ≡ 0
  count-none t [] h = refl
  count-none t (x ∷ xs) h = rw h.0 (omega (arith, count-none t xs h.1))

  pub count-same :
      (b : Bool) (t : A → Bool) (xs : List A)
      → All (λ x. t x ≡ b) xs
      → count t xs ≡ (if b then length xs else 0)
  count-same true t xs h = count-All t xs h
  count-same false t xs h = count-none t xs h

module _ (p : Platform) (rnd : Random p.F) where
  abbrev pays : String → Event p → Bool
  pays v (transaction tx) = tx.user_id == v
  pays v (login a) = false

  abbrev fails_from : String → Event p → Bool
  fails_from ip (transaction tx) = false
  fails_from ip (login a) = (a.ip_address == ip) && not a.success

  abbrev logs_in : String → Event p → Bool
  logs_in v (transaction tx) = false
  logs_in v (login a) = a.user_id == v

  -- A transaction of a burst on the account.
  abbrev pub in_burst : String → Yield p rnd → Bool
  in_burst v (emitted e fraud_burst) = pays v e
  in_burst v y = false

  -- A failed login of the stuffing of the account, from the one address.
  abbrev pub in_stuffing : String → Yield p rnd → Bool
  in_stuffing v (emitted e stuffing_user) = fails_from stuffing_user_ip e && logs_in v e
  in_stuffing v y = false

  -- A failed login of the stuffing from the attacker's address.
  abbrev pub in_ip_stuffing : Yield p rnd → Bool
  in_ip_stuffing (emitted e stuffing_ip) = fails_from stuffing_attack_ip e
  in_ip_stuffing y = false

  module _ (stamp : ℕ → String × p.Time) (settings : SimulatorSettings p rnd) (u : String)
      (us : List String) (home : String → Location) (t : Yield p rnd → Bool) where
    abbrev pub Dull : Scenario → Type 0
    Dull scenario = (e : Event p) → t (emitted e scenario) ≡ false

    Dull-if :
        (b : Bool) (y z : Yield p rnd × Sim p rnd)
        → t y.0 ≡ false
        → t z.0 ≡ false
        → t (if b then y else z).0 ≡ false
    Dull-if true y z hy hz = hy
    Dull-if false y z hy hz = hz

    travel_from-Dull :
        Dull normal
        → Dull impossible_travel
        → (ls : List Location) (v : String) (s : Sim p rnd)
        → t (travel_from p rnd stamp settings u us home ls v s).0 ≡ false
    unfolding travel_from normal_event
    travel_from-Dull dn di [] v s = dn _
    travel_from-Dull dn di (l ∷ ls) v s = di _

    fresh_event-Dull :
        Dull normal
        → Dull impossible_travel
        → (roll : p.F) (v : String) (s : Sim p rnd)
        → t (fresh_event p rnd stamp settings u us home roll v s).0 ≡ false
    unfolding fresh_event normal_event
    fresh_event-Dull dn di roll v s =
        Dull-if _ _ _ (travel_from-Dull dn di (others_in locations (home v)) v s) (dn _)

    pub tx_event-Dull :
        Dull normal
        → Dull replay
        → Dull impossible_travel
        → (v : String) (s : Sim p rnd) → t (tx_event p rnd stamp settings u us home v s).0 ≡ false
    unfolding tx_event
    tx_event-Dull dn dr di v s =
        let (roll, g) = rnd.random s.rng in
        let fresh = fresh_event-Dull dn di roll v (record s { rng = g }) in
        elim (Option-cases (find p rnd v s.last_tx)) [
          | inl first ↦ rw (tx_event, first) fresh
          | inr (tx, found) ↦ rw (tx_event, found) (Dull-if _ _ _ (dr _) fresh)
        ]

    pub auth_event-Dull :
        Dull normal → (s : Sim p rnd) → t (auth_event p rnd stamp settings u us home s).0 ≡ false
    unfolding auth_event
    auth_event-Dull dn s = dn _

    pub burst_events-All :
        (b : Bool) (n : ℕ) (v : String) (s : Sim p rnd)
        → ((tx : TransactionEvent p)
            → tx.user_id ≡ v
            → t (emitted (transaction tx) fraud_burst) ≡ b)
        → All (λ y. t y ≡ b) (burst_events p rnd stamp settings u us home n v s).0
    unfolding burst_events make_transaction choose
    burst_events-All b zero v s h = tt
    burst_events-All b (suc n) v s h = (h _ refl, burst_events-All b n v _ h)

    pub stuffing_user_events-All :
        (b : Bool) (n : ℕ) (v : String) (s : Sim p rnd)
        → ((a : AuthEvent p)
            → a.user_id ≡ v
            → a.ip_address ≡ stuffing_user_ip
            → a.success ≡ false
            → t (emitted (login a) stuffing_user) ≡ b)
        → All (λ y. t y ≡ b) (stuffing_user_events p rnd stamp settings u us home n v s).0
    unfolding stuffing_user_events make_auth
    stuffing_user_events-All b zero v s h = tt
    stuffing_user_events-All b (suc n) v s h =
        (h _ refl refl refl, stuffing_user_events-All b n v _ h)

    pub stuffing_ip_events-All :
        (b : Bool) (n i : ℕ) (s : Sim p rnd)
        → ((a : AuthEvent p)
            → a.ip_address ≡ stuffing_attack_ip
            → a.success ≡ false
            → t (emitted (login a) stuffing_ip) ≡ b)
        → All (λ y. t y ≡ b) (stuffing_ip_events p rnd stamp settings u us home n i s).0
    unfolding stuffing_ip_events make_auth
    stuffing_ip_events-All b zero i s h = tt
    stuffing_ip_events-All b (suc n) i s h = (h _ refl refl, stuffing_ip_events-All b n (suc i) _ h)

    pub burst_events-length :
        (n : ℕ) (v : String) (s : Sim p rnd)
        → length (burst_events p rnd stamp settings u us home n v s).0 ≡ n
    unfolding burst_events
    burst_events-length zero v s = refl
    burst_events-length (suc n) v s = ap suc (burst_events-length n v _)

    pub stuffing_user_events-length :
        (n : ℕ) (v : String) (s : Sim p rnd)
        → length (stuffing_user_events p rnd stamp settings u us home n v s).0 ≡ n
    unfolding stuffing_user_events
    stuffing_user_events-length zero v s = refl
    stuffing_user_events-length (suc n) v s = ap suc (stuffing_user_events-length n v _)

    pub stuffing_ip_events-length :
        (n i : ℕ) (s : Sim p rnd)
        → length (stuffing_ip_events p rnd stamp settings u us home n i s).0 ≡ n
    unfolding stuffing_ip_events
    stuffing_ip_events-length zero i s = refl
    stuffing_ip_events-length (suc n) i s = ap suc (stuffing_ip_events-length n (suc i) _)
