-- ===== src/Platform/Signed.antt =====
-- Signed whole numbers for doubles, on which the examples run that subtract two times: a turn is
-- 360, and an angle is its own sine.
use Prim.Native.Nat.{◌/◌}
use rtace.Base.{ℕ, suc, ◌+◌, ◌-◌, ◌*◌, ltb, leb, if◌then◌else◌}
use rtace.Number.{Number}

-- `negsuc n` is -(n + 1).
pub data ℤ : Type 0 where
  pos negsuc : ℕ → ℤ

abbrev pub pos_part : ℤ → ℕ
pos_part (pos n) = n
pos_part (negsuc n) = 0

abbrev pub neg_part : ℤ → ℕ
neg_part (pos n) = 0
neg_part (negsuc n) = suc n

abbrev pub sub_ℕ : ℕ → ℕ → ℤ
sub_ℕ a b = if leb b a then pos (a - b) else negsuc (b - a - 1)

abbrev pub signed : Number
signed = record {
  F = ℤ;
  of_nat = pos;
  flt = λ a b. ltb (pos_part a + neg_part b) (pos_part b + neg_part a);
  fle = λ a b. leb (pos_part a + neg_part b) (pos_part b + neg_part a);
  fadd = λ a b. sub_ℕ (pos_part a + pos_part b) (neg_part a + neg_part b);
  fsub = λ a b. sub_ℕ (pos_part a + neg_part b) (neg_part a + pos_part b);
  fmul = λ a b.
      sub_ℕ (pos_part a * pos_part b + neg_part a * neg_part b)
        (pos_part a * neg_part b + neg_part a * pos_part b);
  fdiv = λ a b. pos (pos_part a / pos_part b);
  pi = pos 180;
  fsin = λ a. a;
  fcos = λ a. pos 1;
  fasin = λ a. a;
  fsqrt = λ a. a;
  fmt2 = λ a. "0";
  fmt3 = λ a. "0";
  repr = λ a. "0";
  parse = λ s. pos 0;
}
