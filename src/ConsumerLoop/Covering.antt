-- ===== src/ConsumerLoop/Covering.antt =====
-- What the offsets of a commit cover.
use rtace.Base.{
  ℕ, suc, ◌≤◌, ◌<◌, String, ◌≡◌, refl, sym, ap, ◌∙◌, ◌⊎◌, inl, inr, Bool, true, ◌&&◌, Option, none,
  some, List, [], ◌∷◌, ◌==◌, eq_iff, eqb, arith, All, if◌then◌else◌, Bool-cases, subst,
}
use rtace.ConsumerLoop.{Record}
use rtace.ConsumerLoop.Run.{assign, offsets_from, offsets_of}
use rtace.ConsumerLoop.Classified.{In, here, there}

-- The record is one of the partition.
abbrev pub is_of : String → ℕ → Record → Bool
is_of t q r = (r.topic == t) && eqb r.partition q

-- The offset that a commit sets for the partition.
abbrev pub committed_offset : String → ℕ → List (String × ℕ × ℕ) → Option ℕ
committed_offset t q [] = none
committed_offset t q ((t', q', o) ∷ rest) =
    if (t' == t) && eqb q' q then some o else committed_offset t q rest

-- The last record of the partition decides.
abbrev newest : String → ℕ → Option ℕ → List Record → Option ℕ
newest t q old [] = old
newest t q old (r ∷ rs) = newest t q (if is_of t q r then some (suc r.offset) else old) rs

committed_offset-assign :
    (t : String) (q o : ℕ) (l : List (String × ℕ × ℕ)) (t' : String) (q' : ℕ)
    → committed_offset t' q' (assign t q o l)
      ≡ (if (t == t') && eqb q q' then some o else committed_offset t' q' l)
unfolding assign
committed_offset-assign t q o [] t' q' = refl
committed_offset-assign t q o ((u, v, x) ∷ l) t' q' =
    ground (arith, eq_iff t t', eq_iff u t, eq_iff u t', committed_offset-assign t q o l t' q')

committed_offset-offsets_from :
    (t : String) (q : ℕ) (acc : List (String × ℕ × ℕ)) (rs : List Record)
    → committed_offset t q (offsets_from acc rs) ≡ newest t q (committed_offset t q acc) rs
unfolding offsets_from
committed_offset-offsets_from t q acc [] = refl
committed_offset-offsets_from t q acc (r ∷ rs) =
    committed_offset-offsets_from t q (assign r.topic r.partition (suc r.offset) acc) rs
    ∙ ap (λ o. newest t q o rs) (committed_offset-assign r.topic r.partition (suc r.offset) acc t q)

-- A record of the list that is of the partition and whose successor is the offset `o`.
abbrev pub Source : String → ℕ → List Record → Option ℕ → Type 0
Source t q rs o = (r : Record) × In r rs × (is_of t q r ≡ true) × (o ≡ some (suc r.offset))

newest-Source :
    (t : String) (q : ℕ) (old : Option ℕ) (rs : List Record)
    → (newest t q old rs ≡ old) ⊎ Source t q rs (newest t q old rs)
newest-Source t q old [] = inl refl
newest-Source t q old (r ∷ rs) =
    elim (newest-Source t q (if is_of t q r then some (suc r.offset) else old) rs) [
      | inr (r', i, m, e) ↦ inr (r', there i, m, e)
      | inl same ↦ elim (Bool-cases (is_of t q r)) [
        | inl mine ↦ inr (r, here, mine, same ∙ rw mine refl)
        | inr other ↦ inl (same ∙ rw other refl)
      ]
    ]

-- Within a partition the offsets of a batch do not go down, as Kafka delivers them.
abbrev pub Follows : Record → Record → Type 0
Follows r r' = is_of r.topic r.partition r' ≡ true → r.offset ≤ r'.offset

abbrev pub InOrder : List Record → Type 0
InOrder [] = Unit
InOrder (r ∷ rs) = All (Follows r) rs × InOrder rs

All-In : (P : Record → Type 0) (rs : List Record) {r : Record} → All P rs → In r rs → P r
All-In P [] h i = elim i [ ]
All-In P (r ∷ rs) h here = h.0
All-In P (r ∷ rs) h (there i) = All-In P rs h.1 i

is_of_self : (r : Record) → is_of r.topic r.partition r ≡ true
is_of_self r = ground (arith, eq_iff r.topic r.topic)

-- The offset that the newest record of the partition of `r` gives is beyond `r`.
abbrev pub Beyond : Record → Option ℕ → Type 0
Beyond r o = (n : ℕ) × (o ≡ some n) × (r.offset < n)

newest-Beyond :
    (rs : List Record) (old : Option ℕ) (r : Record)
    → InOrder rs
    → In r rs
    → Beyond r (newest r.topic r.partition old rs)
newest-Beyond [] old r h i = elim i [ ]
newest-Beyond (r ∷ rs) old _ h here =
    rw (is_of_self r) (elim (newest-Source r.topic r.partition (some (suc r.offset)) rs) [
      | inl same ↦ (suc r.offset, same, omega arith)
      | inr (r', i, mine, e) ↦
          let up = All-In (Follows r) rs h.0 i mine in (suc r'.offset, e, omega arith)
    ])
newest-Beyond (r' ∷ rs) old r h (there i) =
    newest-Beyond rs (if is_of r.topic r.partition r' then some (suc r'.offset) else old) r h.1 i

-- A commit of a batch covers each record of it and nothing beyond the batch: for the partition of
-- each record it sets an offset beyond the record's, as long as Kafka has delivered each partition
-- in order, and an offset that it sets for any partition is the successor of that of a record of
-- the batch and of the partition.
pub offsets_of_cover :
    (records : List Record)
    → InOrder records
    → ((r : Record)
        → In r records
        → Beyond r (committed_offset r.topic r.partition (offsets_of records)))
      × ((t : String) (q o : ℕ)
          → committed_offset t q (offsets_of records) ≡ some o
          → Source t q records (some o))
offsets_of_cover records h = (
  λ r i.
      subst (Beyond r) (sym (committed_offset-offsets_from r.topic r.partition [] records))
        (newest-Beyond records none r h i),
  λ t q o e.
      let e' : newest t q none records ≡ some o =
        sym (committed_offset-offsets_from t q [] records) ∙ e in
      elim (newest-Source t q none records) [
        | inl nothing ↦ let f : none ≡ some o = sym nothing ∙ e' in cc
        | inr (r, i, mine, found) ↦ (r, i, mine, sym e' ∙ found)
      ],
)
