-- ===== src/ConsumerLoop/PerRecord.antt =====
-- `per_record`: a batch handler from a handler of one record.
use rtace.Base.{
  ℕ, suc, ◌≡◌, refl, ap, ◌⊎◌, inl, inr, Option, none, some, List, [], ◌∷◌, if◌then◌else◌,
  Bool-cases,
}
use rtace.ConsumerLoop.{Exception, is_transient, Decoded}

-- What a handler of one record did, over a state of its own: it returned, or it raised.
module _ {F W : Type 0} (handler : Decoded F → W → Option Exception × W) where
  -- The failures by index, the newest last, or the exception that `_batch` raises.
  pub data Outcome : Type 0 where
    returns : List (ℕ × Exception) → Outcome
    raised : Exception → Outcome

  abbrev also : ℕ → Exception → Outcome → Outcome
  also i e (returns l) = returns ((i, e) ∷ l)
  also i e (raised e') = raised e'

  -- `_batch` from index `i` on.
  unfoldable pub per_record : ℕ → List (Decoded F) → W → Outcome × W
  per_record i [] w = (returns [], w)
  per_record i (rec ∷ records) w =
      let (error, w') = handler rec w in
      let rest = per_record (suc i) records w' in
      elim error [
        | none ↦ rest
        | some exc ↦ if is_transient exc then (raised exc, w') else (also i exc rest.0, rest.1)
      ]

  -- The specification: all records are handled in order, each in the state that the ones before it
  -- left, and the list holds the error of each, `none` where it returned.
  abbrev pub errors : List (Decoded F) → W → List (Option Exception)
  errors [] w = []
  errors (rec ∷ records) w = (handler rec w).0 ∷ errors records (handler rec w).1

  abbrev pub left : List (Decoded F) → W → W
  left [] w = w
  left (rec ∷ records) w = left records (handler rec w).1

  -- the errors that are there, with their indices from `i` on
  abbrev pub indexed : ℕ → List (Option Exception) → List (ℕ × Exception)
  indexed i [] = []
  indexed i (none ∷ es) = indexed (suc i) es
  indexed i (some e ∷ es) = (i, e) ∷ indexed (suc i) es

  -- the first transient error of the list
  unfoldable pub first_transient : List (Option Exception) → Option Exception
  first_transient [] = none
  first_transient (none ∷ es) = first_transient es
  first_transient (some e ∷ es) =
      let rest = first_transient es in if is_transient e then some e else rest

  -- The failures of a batch of which no record asked for a retry.
  abbrev pub AllHandled : ℕ → List (Decoded F) → W → Outcome × W → Type 0
  AllHandled i records w result =
      (first_transient (errors records w) ≡ none)
      × (result ≡ (returns (indexed i (errors records w)), left records w))

  abbrev pub Raised : List (Decoded F) → W → Outcome × W → Type 0
  Raised records w result =
      (e : Exception) × (first_transient (errors records w) ≡ some e) × (result.0 ≡ raised e)

  step :
      (i : ℕ) (rec : Decoded F) (records : List (Decoded F)) (w : W) (o : Option Exception)
      → (handler rec w).0 ≡ o
      → AllHandled (suc i) records (handler rec w).1 (per_record (suc i) records (handler rec w).1)
        ⊎ Raised records (handler rec w).1 (per_record (suc i) records (handler rec w).1)
      → AllHandled i (rec ∷ records) w (per_record i (rec ∷ records) w)
        ⊎ Raised (rec ∷ records) w (per_record i (rec ∷ records) w)
  unfolding per_record first_transient
  step i rec records w none h (inl (quiet, r)) = inl (rw (h, per_record) (quiet, r))
  step i rec records w none h (inr (e, found, r)) = inr (rw (h, per_record) (e, found, r))
  step i rec records w (some exc) h ih = elim (Bool-cases (is_transient exc)) [
    | inl yes_transient ↦ inr (rw (h, per_record, first_transient, yes_transient) (exc, refl, refl))
    | inr permanent ↦ elim ih [
      | inl (quiet, r) ↦ inl (
          rw (h, per_record, first_transient, permanent) (quiet, ap (λ t. (also i exc t.0, t.1)) r))
      | inr (e, found, r) ↦
          inr (rw (h, per_record, first_transient, permanent) (e, found, ap (also i exc) r))
    ]
  ]

  -- The adapter is faithful: if no record's error is transient, every record is handled, in order,
  -- and the failures are exactly the errors raised, each with the index of its record, so that one
  -- bad record does not keep the others from being handled. Otherwise the adapter raises the first
  -- transient error, for the loop to retry the batch.
  pub per_record_reports :
      (records : List (Decoded F)) (w : W) (i : ℕ)
      → AllHandled i records w (per_record i records w) ⊎ Raised records w (per_record i records w)
  unfolding per_record first_transient
  per_record_reports [] w i = inl (refl, refl)
  per_record_reports (rec ∷ records) w i =
      step i rec records w (handler rec w).0 refl
        (per_record_reports records (handler rec w).1 (suc i))
