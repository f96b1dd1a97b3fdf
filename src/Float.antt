-- ===== src/Float.antt =====
-- Go's float64, which the kernel has none of: a parameter with the operations that the program
-- calls, and the facts about small whole numbers that its arithmetic relies on.
use fascinate.Base.{
  ℕ, ◌+◌, ◌*◌, ◌-◌, ◌≤◌, ◌^◌, ◌≡◌, Bool, Option, some, [], ◌∷◌, leb, length, ◌<◌, All, ◌&&◌,
}
use fascinate.Base.Text.{Text}

pub record Floats : Type 1 where
  pub Float : Type 0
  -- strconv.ParseFloat(s, 64)
  pub parse_float : Text → Option Float
  -- float64(n) and int64(f)
  pub of_int : ℕ → Float
  pub to_int : Float → ℕ
  pub add_float : Float → Float → Float
  pub sub_float : Float → Float → Float
  pub mul_float : Float → Float → Float
  pub lt_float : Float → Float → Bool
  pub le_float : Float → Float → Bool
  -- math.Round and math.Ceil
  pub round_float : Float → Float
  pub ceil_float : Float → Float

-- Whole numbers up to this are held exactly.
abbrev pub exact_max : ℕ
exact_max = 2 ^ 53

abbrev pub is_digit : ℕ → Bool
is_digit c = leb b'0' c && leb c b'9'

-- The value of a text of digits, from the left.
abbrev pub digits_from : ℕ → Text → ℕ
digits_from n [] = n
digits_from n (c ∷ s) = digits_from (10 * n + (c - b'0')) s

-- The documented behaviour of float64 at whole numbers of at most 53 bits.
pub record FloatLaws (fl : Floats) : Type 0 where
  pub parse_digits :
      (s : Text)
      → 0 < length s
      → All (λ c. is_digit c ≡ Bool.true) s
      → digits_from 0 s ≤ exact_max
      → fl.parse_float s ≡ some (fl.of_int (digits_from 0 s))
  pub to_int-of_int : (n : ℕ) → n ≤ exact_max → fl.to_int (fl.of_int n) ≡ n
  pub mul-of_int :
      (a b : ℕ) → a * b ≤ exact_max → fl.mul_float (fl.of_int a) (fl.of_int b) ≡ fl.of_int (a * b)
  pub le-of_int :
      (a b : ℕ) → a ≤ exact_max → b ≤ exact_max → fl.le_float (fl.of_int a) (fl.of_int b) ≡ leb a b
