-- ===== src/Simulator/Past.antt =====
-- Lists read with what came before each element, and the choices among locations.
use rtace.Base.{
  ℕ, zero, suc, ◌≡◌, ◌≢◌, refl, ap, inl, inr, true, false, List, [], ◌∷◌, ◌==◌, eq_iff, append, All,
  Bool-cases,
}
use mathlib.Core.List.{Memᴰ}
use rtace.Simulator.{Location, code, others_in, get_or}

module _ {ℓ} {A : Type ℓ} where
  -- The past after the elements, the last of them first.
  abbrev pub since : List A → List A → List A
  since past [] = past
  since past (x ∷ xs) = since (x ∷ past) xs

  pub since-append : (past xs ys : List A) → since past (append xs ys) ≡ since (since past xs) ys
  since-append past [] ys = refl
  since-append past (x ∷ xs) ys = since-append (x ∷ past) xs ys

  pub Mem-since : (x : A) (past xs : List A) → Memᴰ x past → Memᴰ x (since past xs)
  Mem-since x past [] h = h
  Mem-since x past (y ∷ ys) h = Mem-since x (y ∷ past) ys (Memᴰ.tail h)

-- Every element satisfies the predicate with those before it.
abbrev pub Each {ℓ κ} : {A : Type ℓ} → (List A → A → Type κ) → List A → List A → Type κ
Each P past [] = Unit
Each P past (x ∷ xs) = P past x × Each P (x ∷ past) xs

pub Each-append {ℓ κ} :
    {A : Type ℓ} (P : List A → A → Type κ) (past xs ys : List A)
    → Each P past xs
    → Each P (since past xs) ys
    → Each P past (append xs ys)
Each-append P past [] ys hx hy = hy
Each-append P past (x ∷ xs) ys hx hy = (hx.0, Each-append P (x ∷ past) xs ys hx.1 hy)

code-ne : (l home : Location) → (code l == code home) ≡ false → l ≢ home
code-ne l home h same = let e : (code l == code home) ≡ true = (eq_iff _ _).1 (ap code same) in cc

-- Every location but the home.
pub others_in-others :
    (ls : List Location) (home : Location) → All (λ l. l ≢ home) (others_in ls home)
others_in-others [] home = tt
others_in-others (l ∷ ls) home = elim (Bool-cases (code l == code home)) [
  | inl same ↦ rw same (others_in-others ls home)
  | inr other ↦ rw other (code-ne l home other, others_in-others ls home)
]

pub get_or-All {ℓ κ} :
    {A : Type ℓ} (P : A → Type κ) (d : A) (xs : List A) (i : ℕ) → P d → All P xs → P (get_or d xs i)
get_or-All P d [] i hd h = hd
get_or-All P d (x ∷ xs) zero hd h = h.0
get_or-All P d (x ∷ xs) (suc i) hd h = get_or-All P d xs i hd h.1
