-- ===== src/Number.antt =====
-- IEEE doubles, the `float` of Python and the number of Lua. The language gives their arithmetic,
-- so it is a parameter: no law of it is assumed here, and a theorem names what it relies on.
use rtace.Base.{ℕ, String, Bool}

pub record Number : Type 1 where
  pub F : Type 0
  -- `float(n)` of a whole number
  pub of_nat : ℕ → F
  -- `<` and `<=`
  pub flt : F → F → Bool
  pub fle : F → F → Bool
  pub fadd : F → F → F
  pub fsub : F → F → F
  pub fmul : F → F → F
  pub fdiv : F → F → F
  pub pi : F
  pub fsin : F → F
  pub fcos : F → F
  pub fasin : F → F
  pub fsqrt : F → F
  -- `f"{x:.2f}"`
  pub fmt2 : F → String
  -- Lua's `string.format("%.3f", x)`
  pub fmt3 : F → String
  -- `repr(x)`, and `float(s)` or Lua's `tonumber(s)` of such a text
  pub repr : F → String
  pub parse : String → F
