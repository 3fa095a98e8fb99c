-- ===== src/Platform/Sample.antt =====
-- A platform that obeys the laws, on which the examples run: whole numbers for doubles and times,
-- and a text of two characters for each character, and for the end, of each item of a list.
use Prim.Native.Nat.{◌/◌}
use Prim.Native.Char.{Char, code}
use rtace.Base.{
  ℕ, ◌+◌, ◌-◌, ◌*◌, String, ◌≡◌, refl, ap, ◌∙◌, List, [], ◌∷◌, ltb, leb, eqb, if◌then◌else◌,
}
use rtace.Number.{Number}
use rtace.Platform.{Platform}

abbrev pub whole : Number
whole = record {
  F = ℕ;
  of_nat = λ n. n;
  flt = ltb;
  fle = leb;
  fadd = λ a b. a + b;
  fsub = λ a b. a - b;
  fmul = λ a b. a * b;
  fdiv = λ a b. a / b;
  pi = 3;
  fsin = λ a. a;
  fcos = λ a. a;
  fasin = λ a. a;
  fsqrt = λ a. a;
  fmt2 = λ a. "0";
  fmt3 = λ a. "0";
  repr = λ a. "0";
  parse = λ s. 0;
}

-- One item before the text of the others.
abbrev pub write_item : String → String → String
write_item String.[] rest = String.◌∷◌ ";" (String.◌∷◌ ";" rest)
write_item (String.◌∷◌ c s) rest = String.◌∷◌ "." (String.◌∷◌ c (write_item s rest))

abbrev pub write : List String → String
write [] = ""
write (s ∷ l) = write_item s (write l)

abbrev pub onto : Char → List String → List String
onto c [] = []
onto c (s ∷ l) = String.◌∷◌ c s ∷ l

abbrev pub read : String → List String
read String.[] = []
read (String.◌∷◌ d String.[]) = []
read (String.◌∷◌ d (String.◌∷◌ c rest)) =
    let more = read rest in if eqb (code d) b';' then "" ∷ more else onto c more

read-write_item : (s rest : String) → read (write_item s rest) ≡ s ∷ read rest
read-write_item String.[] rest = refl
read-write_item (String.◌∷◌ c s) rest = ap (onto c) (read-write_item s rest)

pub read-write : (l : List String) → read (write l) ≡ l
read-write [] = refl
read-write (s ∷ l) = read-write_item s (write l) ∙ ap (λ t. s ∷ t) (read-write l)

abbrev pub sample : Platform
sample = record {
  number = whole;
  Time = ℕ;
  timestamp = λ t. t;
  isoformat = λ t. "t";
  sha256 = λ s. s;
  uuid5 = λ s. s;
  str = λ n. "0";
  show = λ v. "v";
  dumps = write;
  loads = read;
  loads-dumps = read-write;
}
