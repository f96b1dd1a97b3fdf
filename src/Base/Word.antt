-- ===== src/Base/Word.antt =====
-- Go's `int` and `int64` on a 64-bit machine: two's-complement bit patterns below 2 ^ 64, with the
-- wrap-around of `+` and `-` written out and the signed comparisons.
use Prim.Native.Nat.{ℕ, ◌+◌, ◌-◌, ◌<◌, ◌%◌, ◌^◌}
use mathlib.Core.Path.{◌≡◌}
use mathlib.Core.Bool.{Bool}
use mathlib.Core.List.{List, [], ◌∷◌}
use native.Mathlib.Omega.{arith}
use fascinate.Base.Tests.{ltb, leb}

abbrev pub word_mod : ℕ
word_mod = 2 ^ 64

abbrev pub half_mod : ℕ
half_mod = 2 ^ 63

infixl 65 ◌+w◌ ◌-w◌
abbrev pub ◌+w◌ : ℕ → ℕ → ℕ
a +w b = (a + b) % word_mod

abbrev pub ◌-w◌ : ℕ → ℕ → ℕ
a -w b = (a + (word_mod - b % word_mod)) % word_mod

-- The signed order, by the order of the patterns with the sign bit flipped.
abbrev pub biased : ℕ → ℕ
biased a = (a + half_mod) % word_mod

-- a < b and a <= b of signed words.
abbrev pub slt : ℕ → ℕ → Bool
slt a b = ltb (biased a) (biased b)

abbrev pub sle : ℕ → ℕ → Bool
sle a b = leb (biased a) (biased b)

-- value > 0
abbrev pub is_positive : ℕ → Bool
is_positive a = slt 0 a

pub +w_comm : (a b : ℕ) → a +w b ≡ b +w a
+w_comm a b = omega arith

pub +w_assoc : (a b c : ℕ) → (a +w b) +w c ≡ a +w (b +w c)
+w_assoc a b c = omega arith

pub +w_left_comm : (a b c : ℕ) → a +w (b +w c) ≡ b +w (a +w c)
+w_left_comm a b c = omega arith

-- The signed sum of a list of words, as a loop of `+=` computes it.
pub sum_words : List ℕ → ℕ
sum_words [] = 0
sum_words (x ∷ xs) = x +w sum_words xs

-- The sum as unbounded numbers.
pub sum_exact : List ℕ → ℕ
sum_exact [] = 0
sum_exact (x ∷ xs) = x + sum_exact xs

pub sum_words-sum_exact : (xs : List ℕ) → sum_words xs ≡ sum_exact xs % word_mod
unfolding sum_words sum_exact
sum_words-sum_exact [] = omega arith
sum_words-sum_exact (x ∷ xs) = omega (arith, sum_words-sum_exact xs)

pub sum_words-lt : (xs : List ℕ) → sum_words xs < word_mod
unfolding sum_words
sum_words-lt [] = omega arith
sum_words-lt (x ∷ xs) = omega arith
