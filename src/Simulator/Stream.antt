-- ===== src/Simulator/Stream.antt =====
-- The parts of a pass of simulator/transaction_simulator.py, and what their events are.
use rtace.Base.{
  ℕ, zero, suc, String, ◌≡◌, ◌≢◌, refl, sym, ◌∙◌, subst, inl, inr, Bool, true, false, ◌&&◌, Option,
  none, some, List, [], ◌∷◌, ◌==◌, eq_iff, length, if◌then◌else◌, All, All-mono, Bool-cases,
  Option-cases,
}
use mathlib.Core.List.{Memᴰ}
use rtace.Platform.{Platform}
use rtace.Models.{TransactionEvent}
use rtace.Detection.{transaction, login}
use rtace.Simulator.{
  Location, location_coords, code, locations, normal, replay, impossible_travel, fraud_burst,
  stuffing_user, stuffing_ip, Random, Yield, emitted, sleep, SimulatorSettings, Sim, choose, find,
  store, make_transaction, make_auth, normal_event, travel_from, fresh_event, tx_event, auth_event,
  burst_events, stuffing_user_events, stuffing_ip_events, get_or, stuffing_user_ip,
  stuffing_attack_ip,
}
use rtace.Simulator.Past.{since, Mem-since, Each, others_in-others, get_or-All}

module _ (p : Platform) (rnd : Random p.F) (stamp : ℕ → String × p.Time)
    (settings : SimulatorSettings p rnd) where
  -- The transaction carries the location and its coordinates.
  abbrev pub At : Location → TransactionEvent p → Type 0
  At l tx =
      (tx.location ≡ code l)
      × (tx.latitude ≡ p.parse (location_coords l).1)
      × (tx.longitude ≡ p.parse (location_coords l).2)

  module _ (u : String) (us : List String) (home : String → Location) where
    abbrev pub FromHome : TransactionEvent p → Type 0
    FromHome tx = At (home tx.user_id) tx

    -- What an event is, after the past: its scenario says how it was made.
    unfoldable pub Faithful : List (Yield p rnd) → Yield p rnd → Type 0
    Faithful past sleep = Unit
    Faithful past (emitted (transaction tx) normal) = FromHome tx
    Faithful past (emitted (login a) normal) = Unit
    Faithful past (emitted (transaction tx) replay) = Memᴰ (emitted (transaction tx) normal) past
    Faithful past (emitted (transaction tx) impossible_travel) =
        (l : Location) × (l ≢ home tx.user_id) × At l tx
    Faithful past (emitted (transaction tx) fraud_burst) = FromHome tx
    Faithful past (emitted (login a) stuffing_user) =
        (a.success ≡ false) × (a.ip_address ≡ stuffing_user_ip)
    Faithful past (emitted (login a) stuffing_ip) =
        (a.success ≡ false) × (a.ip_address ≡ stuffing_attack_ip)
    Faithful past (emitted (transaction tx) stuffing_user) = ⊥
    Faithful past (emitted (transaction tx) stuffing_ip) = ⊥
    Faithful past (emitted (login a) replay) = ⊥
    Faithful past (emitted (login a) impossible_travel) = ⊥
    Faithful past (emitted (login a) fraud_burst) = ⊥

    -- Each stored transaction was yielded, as its user's normal one.
    abbrev pub Yielded : List (Yield p rnd) → String × TransactionEvent p → Type 0
    Yielded past (v, tx) = (tx.user_id ≡ v) × Memᴰ (emitted (transaction tx) normal) past

    abbrev pub Stored : List (Yield p rnd) → List (String × TransactionEvent p) → Type 0
    Stored past = All (Yielded past)

    -- A step yields faithful events and keeps what it stores yielded.
    abbrev pub KeepsAll :
        List (Yield p rnd) → List (Yield p rnd) → List (String × TransactionEvent p) → Type 0
    KeepsAll past ys txs = Each Faithful past ys × Stored (since past ys) txs

    abbrev pub Keeps : List (Yield p rnd) → List (Yield p rnd) × Sim p rnd → Type 0
    Keeps past (ys, s) = KeepsAll past ys s.last_tx

    Stored-since :
        (past ys : List (Yield p rnd)) (txs : List (String × TransactionEvent p))
        → Stored past txs
        → Stored (since past ys) txs
    Stored-since past ys txs =
        All-mono (Yielded past) (Yielded (since past ys)) txs
          (λ x h. (h.0, Mem-since _ past ys h.1))

    Stored-store :
        (past : List (Yield p rnd)) (txs : List (String × TransactionEvent p)) (v : String)
        (tx : TransactionEvent p)
        → tx.user_id ≡ v
        → Memᴰ (emitted (transaction tx) normal) past
        → Stored past txs
        → Stored past (store p rnd v tx txs)
    Stored-store past [] v tx own seen h = ((own, seen), tt)
    Stored-store past ((w, old) ∷ txs) v tx own seen h = elim (Bool-cases (w == v)) [
      | inl same ↦ rw same ((own ∙ sym ((eq_iff w v).0 same), seen), h.1)
      | inr other ↦ rw other (h.0, Stored-store past txs v tx own seen h.1)
    ]

    abbrev Found : List (Yield p rnd) → String → Option (TransactionEvent p) → Type 0
    Found past v none = Unit
    Found past v (some tx) = Yielded past (v, tx)

    find-Found :
        (past : List (Yield p rnd)) (txs : List (String × TransactionEvent p)) (v : String)
        → Stored past txs
        → Found past v (find p rnd v txs)
    find-Found past [] v h = tt
    find-Found past ((w, old) ∷ txs) v h = elim (Bool-cases (w == v)) [
      | inl same ↦ rw same (h.0.0 ∙ (eq_iff w v).0 same, h.0.1)
      | inr other ↦ rw other (find-Found past txs v h.1)
    ]

    -- One event that is no new `last_tx`.
    pub one-Keeps :
        (past : List (Yield p rnd)) (y : Yield p rnd) (txs : List (String × TransactionEvent p))
        → Faithful past y
        → Stored past txs
        → KeepsAll past (y ∷ []) txs
    one-Keeps past y txs h stored = ((h, tt), Stored-since past (y ∷ []) txs stored)

    abbrev pub single : Yield p rnd × Sim p rnd → List (Yield p rnd) × Sim p rnd
    single (y, s) = (y ∷ [], s)

    normal_event-Keeps :
        (past : List (Yield p rnd)) (v : String) (s : Sim p rnd)
        → Stored past s.last_tx
        → Keeps past (single (normal_event p rnd stamp settings u us home v s))
    unfolding normal_event make_transaction choose Faithful
    normal_event-Keeps past v s h = (
      ((refl, refl, refl), tt),
      Stored-store _ s.last_tx v _ refl (Memᴰ.head refl) (Stored-since past (_ ∷ []) s.last_tx h),
    )

    travel_from-Keeps :
        (ls : List Location) (past : List (Yield p rnd)) (v : String) (s : Sim p rnd)
        → All (λ l. l ≢ home v) ls
        → Stored past s.last_tx
        → Keeps past (single (travel_from p rnd stamp settings u us home ls v s))
    unfolding travel_from choose make_transaction Faithful
    travel_from-Keeps [] past v s others h = normal_event-Keeps past v s h
    travel_from-Keeps (l ∷ ls) past v s others h =
        let i = (rnd.choice (suc (length ls)) s.rng).0 in
        one-Keeps past _ s.last_tx
          (
            get_or l (l ∷ ls) i,
            get_or-All (λ x. x ≢ home v) l (l ∷ ls) i others.0 others,
            (refl, refl, refl),
          )
          h

    fresh_event-Keeps :
        (roll : p.F) (past : List (Yield p rnd)) (v : String) (s : Sim p rnd)
        → Stored past s.last_tx
        → Keeps past (single (fresh_event p rnd stamp settings u us home roll v s))
    unfolding fresh_event
    fresh_event-Keeps roll past v s h =
        elim (Bool-cases (
          p.fle settings.replay_probability roll
          && p.flt roll
              (p.fadd settings.replay_probability settings.impossible_travel_probability))) [
                | inl travels ↦
                    rw travels
                      (travel_from-Keeps _ past v s (others_in-others locations (home v)) h)
                | inr stays ↦ rw stays (normal_event-Keeps past v s h)
              ]

    pub tx_event-Keeps :
        (past : List (Yield p rnd)) (v : String) (s : Sim p rnd)
        → Stored past s.last_tx
        → Keeps past (single (tx_event p rnd stamp settings u us home v s))
    unfolding tx_event Faithful
    tx_event-Keeps past v s h =
        let drawn : p.F × rnd.G = rnd.random s.rng in
        let fresh = fresh_event-Keeps drawn.0 past v (record s { rng = drawn.1 }) h in
        elim (Option-cases (find p rnd v s.last_tx)) [
          | inl first ↦ rw (tx_event, first) fresh
          | inr (tx, found) ↦ elim (Bool-cases (p.flt drawn.0 settings.replay_probability)) [
            | inl replays ↦
                let yielded = subst (Found past v) found (find-Found past s.last_tx v h) in
                rw (tx_event, found, replays) (one-Keeps past _ s.last_tx yielded.1 h)
            | inr other ↦ rw (tx_event, found, other) fresh
          ]
        ]

    pub auth_event-Keeps :
        (past : List (Yield p rnd)) (s : Sim p rnd)
        → Stored past s.last_tx
        → Keeps past (single (auth_event p rnd stamp settings u us home s))
    unfolding auth_event choose make_auth Faithful
    auth_event-Keeps past s h = one-Keeps past _ s.last_tx tt h

    pub burst_events-Keeps :
        (n : ℕ) (past : List (Yield p rnd)) (v : String) (s : Sim p rnd)
        → Stored past s.last_tx
        → Keeps past (burst_events p rnd stamp settings u us home n v s)
    unfolding burst_events make_transaction choose Faithful
    burst_events-Keeps zero past v s h = (tt, h)
    burst_events-Keeps (suc n) past v s h =
        let rest = burst_events-Keeps n (_ ∷ past) v _ (Stored-since past (_ ∷ []) s.last_tx h) in
        (((refl, refl, refl), rest.0), rest.1)

    pub stuffing_user_events-Keeps :
        (n : ℕ) (past : List (Yield p rnd)) (v : String) (s : Sim p rnd)
        → Stored past s.last_tx
        → Keeps past (stuffing_user_events p rnd stamp settings u us home n v s)
    unfolding stuffing_user_events make_auth Faithful
    stuffing_user_events-Keeps zero past v s h = (tt, h)
    stuffing_user_events-Keeps (suc n) past v s h =
        let rest =
          stuffing_user_events-Keeps n (_ ∷ past) v _ (Stored-since past (_ ∷ []) s.last_tx h) in
        (((refl, refl), rest.0), rest.1)

    pub stuffing_ip_events-Keeps :
        (n i : ℕ) (past : List (Yield p rnd)) (s : Sim p rnd)
        → Stored past s.last_tx
        → Keeps past (stuffing_ip_events p rnd stamp settings u us home n i s)
    unfolding stuffing_ip_events make_auth Faithful
    stuffing_ip_events-Keeps zero i past s h = (tt, h)
    stuffing_ip_events-Keeps (suc n) i past s h =
        let rest =
          stuffing_ip_events-Keeps n (suc i) (_ ∷ past) _
            (Stored-since past (_ ∷ []) s.last_tx h) in
        (((refl, refl), rest.0), rest.1)

    pub due-Keeps :
        (is_due : Bool) (past : List (Yield p rnd)) (attack : List (Yield p rnd) × Sim p rnd)
        (s : Sim p rnd)
        → Keeps past attack
        → Stored past s.last_tx
        → Keeps past (if is_due then attack else ([], s))
    due-Keeps true past attack s h stored = h
    due-Keeps false past attack s h stored = (tt, stored)
