-- ===== src/ConsumerLoop/Splitting.antt =====
-- What the decoding of a batch keeps of each record.
use rtace.Base.{ℕ, ◌≡◌, refl, subst, ◌⊎◌, inl, inr, Option, none, some, arith, List, [], ◌∷◌}
use rtace.Platform.{Platform, Json, null}
use rtace.Kafka.{decode_json}
use rtace.ConsumerLoop.{
  value_error, Record, LoopSettings, Interface, Class, undecodable, tombstone, value_of, class_of,
  split, add_to_split, decoded_of,
}
use rtace.ConsumerLoop.Retry.{Batch}
use rtace.ConsumerLoop.Classified.{In, here, there}

module _ (p : Platform) (V W : Type 0) (io : Interface p V W) (settings : LoopSettings p.F) where
  open p use {F}

  abbrev B : Type 0
  B = Batch p V W io settings

  -- Where a record stands whose bytes are read, or cannot be read, as JSON.
  abbrev pub Read : Record → Option (Json F) → B → Type 0
  Read r none b = In (r, value_error) b.predecode_dlq
  Read r (some v) b =
      (v ≡ null) ⊎ (In r b.decoded_records × In (decoded_of p V W io settings r v) b.decoded)

  -- Where a record with this value stands; a record without bytes stands nowhere.
  abbrev pub Sorted : Record → Option (List ℕ) → B → Type 0
  Sorted r none b = Unit
  Sorted r (some []) b = Unit
  Sorted r (some (x ∷ raw)) b = Read r (io.loads (x ∷ raw)) b

  abbrev Stands : Record → Class F → B → Type 0
  Stands r undecodable b = In (r, value_error) b.predecode_dlq
  Stands r tombstone b = Unit
  Stands r (value_of v) b = In r b.decoded_records × In (decoded_of p V W io settings r v) b.decoded

  Stands-add :
      (r r' : Record) (c c' : Class F) (b : B)
      → Stands r c b
      → Stands r c (add_to_split p V W io settings r' c' b)
  Stands-add r r' undecodable undecodable b h = there h
  Stands-add r r' undecodable tombstone b h = h
  Stands-add r r' undecodable (value_of v) b h = h
  Stands-add r r' tombstone c' b h = tt
  Stands-add r r' (value_of v) undecodable b h = h
  Stands-add r r' (value_of v) tombstone b h = h
  Stands-add r r' (value_of v) (value_of v') b h = (there h.0, there h.1)

  Stands-new :
      (r : Record) (c : Class F) (b : B) → Stands r c (add_to_split p V W io settings r c b)
  Stands-new r undecodable b = here
  Stands-new r tombstone b = tt
  Stands-new r (value_of v) b = (here, here)

  split-Stands :
      (rs : List Record) (r : Record)
      → In r rs
      → Stands r (class_of p V W io settings r) (split p V W io settings rs)
  unfolding split
  split-Stands [] r i = elim i [ ]
  split-Stands (r ∷ rs) _ here =
      Stands-new r (class_of p V W io settings r) (split p V W io settings rs)
  split-Stands (r' ∷ rs) r (there i) =
      Stands-add r r' _ (class_of p V W io settings r') (split p V W io settings rs)
        (split-Stands rs r i)

  -- What the source calls the class of a record whose bytes are read as `o`.
  abbrev class_read : Option (Json F) → Class F
  class_read none = undecodable
  class_read (some null) = tombstone
  class_read (some v) = value_of v

  class_of-eq :
      (r : Record) (x : ℕ) (raw : List ℕ)
      → r.value ≡ some (x ∷ raw)
      → class_of p V W io settings r ≡ class_read (io.loads (x ∷ raw))
  unfolding class_of decode_json
  class_of-eq r x raw e = rw (class_of, e, decode_json) (ground arith)

  Read-class : (r : Record) (o : Option (Json F)) (b : B) → Stands r (class_read o) b → Read r o b
  Read-class r none b h = h
  Read-class r (some null) b h = inl refl
  Read-class r (some v) b h = inr h

  Sorted-class :
      (r : Record) (value : Option (List ℕ)) (b : B)
      → r.value ≡ value
      → Stands r (class_of p V W io settings r) b
      → Sorted r value b
  Sorted-class r none b e h = tt
  Sorted-class r (some []) b e h = tt
  Sorted-class r (some (x ∷ raw)) b e h =
      Read-class r (io.loads (x ∷ raw)) b (subst (λ c. Stands r c b) (class_of-eq r x raw e) h)

  -- No record of a polled batch gets lost in the decoding: one with bytes that `json.loads` cannot read
  -- is kept for the dead letters, with a ValueError, and one whose bytes it reads as a value other
  -- than null reaches the handler, with its topic, partition, offset and that value. Of a record
  -- with no bytes, or with a null, nothing is said.
  pub split_sorts :
      (rs : List Record) (r : Record) → In r rs → Sorted r r.value (split p V W io settings rs)
  split_sorts rs r i =
      Sorted-class r r.value (split p V W io settings rs) refl (split-Stands rs r i)
