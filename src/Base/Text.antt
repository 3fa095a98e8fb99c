-- ===== src/Base/Text.antt =====
-- Texts as keys: two keys with prefixes that part ways are different, and a prefix cancels.
use Prim.Native.String.{String, ◌++◌}
use Prim.Native.Char.{code}
use mathlib.Core.Path.{◌≡◌, sym, ap, ◌∙◌}
use mathlib.Core.Logic.{◌≢◌, inl, inr}
use mathlib.Core.Bool.{Bool, true, false}
use native.Mathlib.Omega.{arith}
use text.Mathlib.Text.{◌==◌}
use text.Mathlib.TextEquality.{eq_iff}
use text.Mathlib.TextLemmas.{
  cons-append, head-eq_of_cons-eq, tail-eq_of_cons-eq, append_cancel_left,
}
use rtace.Base.Tests.{eqb, if◌then◌else◌, Bool-cases}

-- The two texts differ at a position that both have.
unfoldable pub diverge : String → String → Bool
diverge String.[] q = false
diverge (String.◌∷◌ c p) String.[] = false
diverge (String.◌∷◌ c p) (String.◌∷◌ d q) =
    let rest = diverge p q in if eqb (code c) (code d) then rest else true

diverge-append : (p q : String) → diverge p q ≡ true → (u v : String) → p ++ u ≢ q ++ v
unfolding diverge
diverge-append String.[] q h u v e = cc
diverge-append (String.◌∷◌ c p) String.[] h u v e = cc
diverge-append (String.◌∷◌ c p) (String.◌∷◌ d q) h u v e =
    let e' : String.◌∷◌ c (p ++ u) ≡ String.◌∷◌ d (q ++ v) =
      sym (cons-append c p u) ∙ e ∙ cons-append d q v in
    elim (Bool-cases (eqb (code c) (code d))) [
      | inl same ↦ diverge-append p q (ground arith) u v (tail-eq_of_cons-eq e')
      | inr other ↦ let s : code c ≡ code d = ap code (head-eq_of_cons-eq e') in ground arith
    ]

-- Keys under prefixes that part ways never compare equal.
pub ne_of_diverge :
    (p q : String) → diverge p q ≡ true → (u v : String) → ((p ++ u) == (q ++ v)) ≡ false
ne_of_diverge p q h u v = elim (Bool-cases ((p ++ u) == (q ++ v))) [
  | inl e ↦ absurd (diverge-append p q h u v ((eq_iff _ _).0 e))
  | inr e ↦ e
]

-- A comparison under a common prefix compares the rests.
pub eq-append_left : (p u v : String) → ((p ++ u) == (p ++ v)) ≡ (u == v)
eq-append_left p u v = elim (Bool-cases (u == v)) [
  | inl e ↦ (eq_iff _ _).1 (ap (λ t. p ++ t) ((eq_iff u v).0 e)) ∙ sym e
  | inr e ↦ elim (Bool-cases ((p ++ u) == (p ++ v))) [
    | inl f ↦
        let g : (u == v) ≡ true = (eq_iff u v).1 (append_cancel_left p u v ((eq_iff _ _).0 f)) in cc
    | inr f ↦ f ∙ sym e
  ]
]
