-- ===== src/Redis/Assoc.antt =====
-- Association lists over any keys that a Boolean test compares.
use rtace.Base.{
  ℕ, suc, Bool, true, ◌≡◌, ◌↔◌, refl, Option, none, some, List, [], ◌∷◌, arith, if◌then◌else◌,
  is_some,
}

module _ {K V : Type 0} (beq : K → K → Bool)
    (beq_iff : (a b : K) → (beq a b ≡ true) ↔ (a ≡ b)) where
  unfoldable pub lookup : List (K × V) → K → Option V
  lookup [] j = none
  lookup ((k, v) ∷ l) j = if beq k j then some v else lookup l j

  unfoldable pub insert : K → V → List (K × V) → List (K × V)
  insert k v [] = (k, v) ∷ []
  insert k v ((j, w) ∷ l) = if beq j k then (k, v) ∷ l else (j, w) ∷ insert k v l

  unfoldable pub without : K → List (K × V) → List (K × V)
  without k [] = []
  without k ((j, w) ∷ l) = let rest = without k l in if beq j k then rest else (j, w) ∷ rest

  -- Each entry is kept, changed or dropped; an entry that is dropped does not bring an older one
  -- of its key back.
  unfoldable pub filter_map : (K → V → Option V) → List (K × V) → List (K × V)
  unfolding without
  filter_map f [] = []
  filter_map f ((j, w) ∷ l) =
      let rest = filter_map f l in elim (f j w) [ none ↦ without j rest | some x ↦ (j, x) ∷ rest ]

  pub lookup-insert :
      (k j : K) (v : V) (l : List (K × V))
      → lookup (insert k v l) j ≡ (if beq k j then some v else lookup l j)
  unfolding lookup insert
  lookup-insert k j v [] = refl
  lookup-insert k j v ((i, w) ∷ l) =
      ground (arith, beq_iff k j, beq_iff i k, beq_iff i j, lookup-insert k j v l)

  pub lookup-without :
      (k j : K) (l : List (K × V)) → lookup (without k l) j ≡ (if beq k j then none else lookup l j)
  unfolding lookup without
  lookup-without k j [] = ground arith
  lookup-without k j ((i, w) ∷ l) =
      ground (arith, beq_iff k j, beq_iff i k, beq_iff i j, lookup-without k j l)

  abbrev pub bind_at : (K → V → Option V) → K → Option V → Option V
  bind_at f j none = none
  bind_at f j (some v) = f j v

  pub lookup-filter_map :
      (f : K → V → Option V) (j : K) (l : List (K × V))
      → lookup (filter_map f l) j ≡ bind_at f j (lookup l j)
  unfolding lookup filter_map
  lookup-filter_map f j [] = refl
  lookup-filter_map f j ((i, w) ∷ l) =
      ground (arith, beq_iff i j, lookup-without i j (filter_map f l), lookup-filter_map f j l)

  -- the number of entries whose key passes a test
  unfoldable pub count : (K → Bool) → List (K × V) → ℕ
  count p [] = 0
  count p ((k, v) ∷ l) = if p k then suc (count p l) else count p l

  pub count-insert :
      (p : K → Bool) (k : K) (v : V) (l : List (K × V))
      → p k ≡ true
      → count p (insert k v l) ≡ (if is_some (lookup l k) then count p l else suc (count p l))
  unfolding lookup insert count
  count-insert p k v [] h = ground arith
  count-insert p k v ((i, w) ∷ l) h = ground (arith, beq_iff i k, count-insert p k v l h)
