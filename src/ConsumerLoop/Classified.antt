-- ===== src/ConsumerLoop/Classified.antt =====
-- Where each record of a batch goes.
use rtace.Base.{
  ℕ, suc, ◌+◌, ◌≡◌, refl, sym, ap, subst, Option, none, some, List, [], ◌∷◌, append, arith, length,
  length-append,
}
use rtace.Platform.{Platform}
use rtace.ConsumerLoop.{
  Exception, Record, Handled, failures, raises, LoopSettings, Interface, classify, all_failed,
}
use rtace.ConsumerLoop.Retry.{Batch, outcome}

-- `x` stands in the list.
pub data In {A : Type 0} (x : A) : List A → Type 0 where
  here : {xs : List A} → In x (x ∷ xs)
  there : {y : A} {xs : List A} → In x xs → In x (y ∷ xs)

module _ {A : Type 0} {x : A} where
  pub In-append_left : {xs : List A} (ys : List A) → In x xs → In x (append xs ys)
  In-append_left ys here = here
  In-append_left ys (there i) = there (In-append_left ys i)

  pub In-append_right : (xs : List A) {ys : List A} → In x ys → In x (append xs ys)
  In-append_right [] i = i
  In-append_right (y ∷ xs) i = there (In-append_right xs i)

module _ (p : Platform) (V W : Type 0) (io : Interface p V W) (settings : LoopSettings p.F) where
  open p use {F}

  abbrev B : Type 0
  B = Batch p V W io settings

  -- The i-th record that the handler got goes to the dead letters with the handler's exception for
  -- it, or to the processed ones if there is none.
  abbrev pub Goes : List (Record × Exception) × List Record → Record → Option Exception → Type 0
  Goes (dlq, ok) r none = In r ok
  Goes (dlq, ok) r (some exc) = In (r, exc) dlq

  abbrev pub AllGo :
      List (Record × Exception) × List Record → ℕ → (ℕ → Option Exception) → List Record → Type 0
  AllGo sorted i fails [] = Unit
  AllGo sorted i fails (r ∷ rs) = Goes sorted r (fails i) × AllGo sorted (suc i) fails rs

  -- more dead letters and processed records
  abbrev Wider :
      List (Record × Exception) × List Record → List (Record × Exception) × List Record → Type 0
  Wider (dlq, ok) (dlq', ok') =
      ((x : Record × Exception) → In x dlq → In x dlq') × ((r : Record) → In r ok → In r ok')

  Goes-Wider :
      (a b : List (Record × Exception) × List Record) (r : Record) (e : Option Exception)
      → Wider a b
      → Goes a r e
      → Goes b r e
  Goes-Wider a b r none w h = w.1 r h
  Goes-Wider a b r (some exc) w h = w.0 (r, exc) h

  AllGo-Wider :
      (a b : List (Record × Exception) × List Record) (i : ℕ) (fails : ℕ → Option Exception)
      (rs : List Record)
      → Wider a b
      → AllGo a i fails rs
      → AllGo b i fails rs
  AllGo-Wider a b i fails [] w h = tt
  AllGo-Wider a b i fails (r ∷ rs) w h =
      (Goes-Wider a b r (fails i) w h.0, AllGo-Wider a b (suc i) fails rs w h.1)

  -- one step of `classify`
  abbrev place :
      Record
      → Option Exception
      → List (Record × Exception) × List Record
      → List (Record × Exception) × List Record
  place r none (dlq, ok) = (dlq, r ∷ ok)
  place r (some exc) (dlq, ok) = ((r, exc) ∷ dlq, ok)

  classify-cons :
      (i : ℕ) (fails : ℕ → Option Exception) (r : Record) (rs : List Record)
      → classify p V W io settings i fails (r ∷ rs)
        ≡ place r (fails i) (classify p V W io settings (suc i) fails rs)
  unfolding classify
  classify-cons i fails r rs = ground arith

  place-Goes :
      (r : Record) (e : Option Exception) (sorted : List (Record × Exception) × List Record)
      → Goes (place r e sorted) r e × Wider sorted (place r e sorted)
  place-Goes r none sorted = (here, ((λ x i. i), λ x i. there i))
  place-Goes r (some exc) sorted = (here, ((λ x i. there i), λ x i. i))

  classify-AllGo :
      (i : ℕ) (fails : ℕ → Option Exception) (rs : List Record)
      → AllGo (classify p V W io settings i fails rs) i fails rs
  unfolding classify
  classify-AllGo i fails [] = tt
  classify-AllGo i fails (r ∷ rs) =
      let sorted = classify p V W io settings (suc i) fails rs in
      let step = place-Goes r (fails i) sorted in
      subst (λ c. AllGo c i fails (r ∷ rs)) (sym (classify-cons i fails r rs))
        (
          step.0,
          AllGo-Wider sorted (place r (fails i) sorted) (suc i) fails rs step.1
              (classify-AllGo (suc i) fails rs),
        )

  -- the counts of records never change in the sorting
  classify-length :
      (i : ℕ) (fails : ℕ → Option Exception) (rs : List Record)
      → length (classify p V W io settings i fails rs).0
          + length (classify p V W io settings i fails rs).1
        ≡ length rs
  unfolding classify
  classify-length i fails [] = refl
  classify-length i fails (r ∷ rs) = ground (arith, classify-length (suc i) fails rs)

  all_failed-length :
      (exc : Exception) (rs : List Record)
      → length (all_failed p V W io settings exc rs) ≡ length rs
  unfolding all_failed
  all_failed-length exc [] = refl
  all_failed-length exc (r ∷ rs) = ap suc (all_failed-length exc rs)

  -- the failure of each record that the handler's result stands for
  abbrev pub fails_of : Handled → ℕ → Option Exception
  fails_of (failures fails) i = fails i
  fails_of (raises exc) i = some exc

  all_failed-AllGo :
      (exc : Exception) (i : ℕ) (rs : List Record) (ok : List Record)
      → AllGo (all_failed p V W io settings exc rs, ok) i (λ j. some exc) rs
  unfolding all_failed
  all_failed-AllGo exc i [] ok = tt
  all_failed-AllGo exc i (r ∷ rs) ok = (
    here,
    AllGo-Wider (all_failed p V W io settings exc rs, ok)
        ((r, exc) ∷ all_failed p V W io settings exc rs, ok) (suc i) (λ j. some exc) rs
        ((λ x i. there i), λ x i. i) (all_failed-AllGo exc (suc i) rs ok),
  )

  -- Every record that the handler was given goes to exactly one place: with the handler's exception
  -- for it (the one exception for all, if the handler itself raised) to the dead letters, or, if
  -- there is none, to the processed records. The undecodable records head the dead letters, in their
  -- order, and nothing else is in either list.
  pub outcome_sorts :
      (b : B) (result : Handled)
      → let todo = outcome p V W io settings b result in
        AllGo todo 0 (fails_of result) b.decoded_records
        × ((dlq : List (Record × Exception)) × (todo.0 ≡ append b.predecode_dlq dlq))
        × (length todo.0 + length todo.1 ≡ length b.predecode_dlq + length b.decoded_records)
  unfolding outcome
  outcome_sorts b (failures fails) =
      let sorted = classify p V W io settings 0 fails b.decoded_records in
      (
        AllGo-Wider sorted (append b.predecode_dlq sorted.0, sorted.1) 0 fails b.decoded_records
            ((λ x i. In-append_right b.predecode_dlq i), λ x i. i)
            (classify-AllGo 0 fails b.decoded_records),
        (sorted.0, refl),
        omega (
          arith,
          length-append b.predecode_dlq sorted.0,
          classify-length 0 fails b.decoded_records,
        ),
      )
  outcome_sorts b (raises exc) =
      let dead = all_failed p V W io settings exc b.decoded_records in
      (
        AllGo-Wider (dead, []) (append b.predecode_dlq dead, []) 0 (λ j. some exc) b.decoded_records
            ((λ x i. In-append_right b.predecode_dlq i), λ x i. i)
            (all_failed-AllGo exc 0 b.decoded_records []),
        (dead, refl),
        omega (arith, length-append b.predecode_dlq dead, all_failed-length exc b.decoded_records),
      )
