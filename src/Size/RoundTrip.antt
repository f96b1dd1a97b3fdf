-- ===== src/Size/RoundTrip.antt =====
-- What formatByteSize of internal/controlplane/budgets.go prints, parseByteSize of
-- internal/controlplane/service.go reads back.
use fascinate.Base.{
  ℕ, zero, suc, ◌+◌, ◌-◌, ◌*◌, ◌/◌, ◌%◌, ◌^◌, ◌≤◌, ◌<◌, ◌≡◌, refl, ap, ◌∙◌, true, false, some, List,
  [], ◌∷◌, ◌++◌, reverse, ltb, leb, ◌==◌, arith, length, All, Bool-cases, inl, inr,
}
use native.Mathlib.Nat.{le_trans}
use fascinate.Base.Word.{sle}
use fascinate.Base.Text.{Text, codes, trim_space, to_lower, is_empty, is_space, trim_space-stays}
use fascinate.Result.{ok}
use fascinate.Float.{Floats, FloatLaws, is_digit, digits_from, exact_max}
use fascinate.Size.{
  take_digits, match_fraction, match_size, unit_factors, decimal_fuel, decimal, format_byte_size,
  scale, parse_byte_size,
}

All-snoc :
    (s : Text) (c : ℕ)
    → All (λ c. is_digit c ≡ true) s
    → is_digit c ≡ true
    → All (λ c. is_digit c ≡ true) (s ++ c ∷ [])
All-snoc [] c h k = (k, tt)
All-snoc (x ∷ s) c h k = (h.0, All-snoc s c h.1 k)

digits_from-snoc :
    (a : ℕ) (s : Text) (c : ℕ) → digits_from a (s ++ c ∷ []) ≡ 10 * digits_from a s + (c - b'0')
digits_from-snoc a [] c = refl
digits_from-snoc a (x ∷ s) c = digits_from-snoc (10 * a + (x - b'0')) s c

digit_of_mod : (n : ℕ) → is_digit (b'0' + n % 10) ≡ true
digit_of_mod n = ground arith

digit_of_lt : (n : ℕ) → ltb n 10 ≡ true → is_digit (b'0' + n) ≡ true
digit_of_lt n h = ground arith

decimal_fuel-All : (f n : ℕ) → All (λ c. is_digit c ≡ true) (decimal_fuel f n)
unfolding decimal_fuel
decimal_fuel-All zero n = (digit_of_mod n, tt)
decimal_fuel-All (suc f) n = elim (Bool-cases (ltb n 10)) [
  | inl small ↦ rw small (digit_of_lt n small, tt)
  | inr large ↦ rw large (All-snoc _ _ (decimal_fuel-All f (n / 10)) (digit_of_mod n))
]

length-snoc : (s : Text) (c : ℕ) → 0 < length (s ++ c ∷ [])
length-snoc [] c = omega arith
length-snoc (x ∷ s) c = omega arith

decimal_fuel-pos : (f n : ℕ) → 0 < length (decimal_fuel f n)
unfolding decimal_fuel
decimal_fuel-pos zero n = omega arith
decimal_fuel-pos (suc f) n = elim (Bool-cases (ltb n 10)) [
  | inl small ↦ rw small (omega arith)
  | inr large ↦ rw large (length-snoc _ _)
]

-- The digits stand for the number, given at least as much fuel.
decimal_fuel-value : (f n : ℕ) → n ≤ f → digits_from 0 (decimal_fuel f n) ≡ n
unfolding decimal_fuel
decimal_fuel-value zero n h = omega arith
decimal_fuel-value (suc f) n h = elim (Bool-cases (ltb n 10)) [
  | inl small ↦ rw small (omega arith)
  | inr large ↦ rw large (
      omega (
        arith,
        digits_from-snoc 0 (decimal_fuel f (n / 10)) (b'0' + n % 10),
        decimal_fuel-value f (n / 10) (ground arith),
      ))
]

-- Where the digits end: at the end of the text or before another character.
abbrev Stops : Text → Type 0
Stops [] = Unit
Stops (c ∷ r) = is_digit c ≡ false

take_digits-Stops : (r : Text) → Stops r → take_digits r ≡ ([], r)
unfolding take_digits
take_digits-Stops [] h = refl
take_digits-Stops (c ∷ r) h = rw h

take_digits-append :
    (d r : Text) → All (λ c. is_digit c ≡ true) d → Stops r → take_digits (d ++ r) ≡ (d, r)
unfolding take_digits
take_digits-append [] r h k = take_digits-Stops r k
take_digits-append (c ∷ d) r h k = rw (take_digits-append d r h.1 k, h.0)

-- How a unit that formatByteSize prints is read: its factors, and that it starts and ends well.
record IsSuffix (u : Text) (ks : List ℕ) : Type 0 where
  last : ℕ
  others : Text
  stops : Stops u
  backwards : reverse u ≡ last ∷ others
  solid : is_space last ≡ false
  read : (d : Text) → match_fraction d u ≡ some (d, u)
  factors : unit_factors (to_lower u) ≡ some ks

abbrev product : ℕ → List ℕ → ℕ
product n [] = n
product n (k ∷ ks) = product (n * k) ks

abbrev suffix_b : Text
suffix_b = codes "B"

match_fraction-letter : (d : Text) → match_fraction d suffix_b ≡ some (d, suffix_b)
unfolding match_fraction
match_fraction-letter d = refl

b-IsSuffix : IsSuffix (codes "B") []
unfolding unit_factors to_lower
b-IsSuffix = record {
  last = b'B';
  others = [];
  stops = refl;
  backwards = refl;
  solid = refl;
  read = match_fraction-letter;
  factors = refl;
}

binary-IsSuffix :
    (c : ℕ) (ks : List ℕ)
    → is_digit c ≡ false
    → ((d : Text) → match_fraction d (c ∷ codes "iB") ≡ some (d, c ∷ codes "iB"))
    → unit_factors (to_lower (c ∷ codes "iB")) ≡ some ks
    → IsSuffix (c ∷ codes "iB") ks
binary-IsSuffix c ks h r f = record {
  last = b'B';
  others = b'i' ∷ c ∷ [];
  stops = h;
  backwards = refl;
  solid = refl;
  read = r;
  factors = f;
}

kib-IsSuffix : IsSuffix (codes "KiB") (1024 ∷ [])
unfolding unit_factors to_lower match_fraction
kib-IsSuffix = binary-IsSuffix b'K' _ refl (λ d. refl) refl

mib-IsSuffix : IsSuffix (codes "MiB") (1024 ∷ 1024 ∷ [])
unfolding unit_factors to_lower match_fraction
mib-IsSuffix = binary-IsSuffix b'M' _ refl (λ d. refl) refl

gib-IsSuffix : IsSuffix (codes "GiB") (1024 ∷ 1024 ∷ 1024 ∷ [])
unfolding unit_factors to_lower match_fraction
gib-IsSuffix = binary-IsSuffix b'G' _ refl (λ d. refl) refl

tib-IsSuffix : IsSuffix (codes "TiB") (1024 ∷ 1024 ∷ 1024 ∷ 1024 ∷ [])
unfolding unit_factors to_lower match_fraction
tib-IsSuffix = binary-IsSuffix b'T' _ refl (λ d. refl) refl

not-space_of_digit : (c : ℕ) → is_digit c ≡ true → is_space c ≡ false
not-space_of_digit c h = ground arith

trim_space-digits :
    (d u : Text) (ks : List ℕ)
    → 0 < length d
    → All (λ c. is_digit c ≡ true) d
    → IsSuffix u ks
    → trim_space (d ++ u) ≡ d ++ u
trim_space-digits [] u ks h a s = absurd (omega arith)
trim_space-digits (c ∷ d) u ks h a s =
    trim_space-stays c s.last d u s.others (not-space_of_digit c a.0) s.solid s.backwards

match_size-digits :
    (d u : Text) (ks : List ℕ)
    → 0 < length d
    → All (λ c. is_digit c ≡ true) d
    → IsSuffix u ks
    → match_size (d ++ u) ≡ some (d, u)
unfolding match_size
match_size-digits [] u ks h a s = absurd (omega arith)
match_size-digits (c ∷ d) u ks h a s = rw (take_digits-append (c ∷ d) u a s.stops) (s.read (c ∷ d))

is_empty-digits : (d u : Text) → 0 < length d → is_empty (d ++ u) ≡ false
is_empty-digits [] u h = absurd (omega arith)
is_empty-digits (c ∷ d) u h = refl

product-le : (n : ℕ) (ks : List ℕ) → All (λ k. 0 < k) ks → n ≤ product n ks
product-le n [] h = omega arith
product-le n (k ∷ ks) h = grind (arith, product-le (n * k) ks h.1, h.0)

module _ (fl : Floats) (laws : FloatLaws fl) where
  open fl use {of_int}

  scale-of_int :
      (n : ℕ) (ks : List ℕ)
      → All (λ k. 0 < k) ks
      → product n ks ≤ exact_max
      → scale fl (of_int n) ks ≡ of_int (product n ks)
  unfolding scale
  scale-of_int n [] p h = refl
  scale-of_int n (k ∷ ks) p h =
      rw (laws.mul-of_int n k (le_trans (product-le (n * k) ks p.1) h))
        (scale-of_int (n * k) ks p.1 h)

  -- A positive number with a unit behind it is read as their product, if 53 bits hold it.
  parse-suffix :
      (n : ℕ) (u : Text) (ks : List ℕ)
      → 0 < n
      → IsSuffix u ks
      → All (λ k. 0 < k) ks
      → product n ks ≤ exact_max
      → parse_byte_size fl (decimal n ++ u) ≡ ok (product n ks)
  unfolding parse_byte_size decimal
  parse-suffix n u ks pos s p h =
      rw
        (
          trim_space-digits d u ks some_digits digits s,
          is_empty-digits d u some_digits,
          match_size-digits d u ks some_digits digits s,
          number,
          s.factors,
        )
        (rw
          (
            laws.le-of_int n 0 (le_trans (product-le n ks p) h) (omega arith),
            not_zero,
            scale-of_int n ks p h,
          )
          (ap ok (laws.to_int-of_int (product n ks) h)))
    where
      d : Text
      d = decimal_fuel n n

      not_zero : leb n 0 ≡ false
      not_zero = ground arith

      some_digits : 0 < length d
      some_digits = decimal_fuel-pos n n

      digits : All (λ c. is_digit c ≡ true) d
      digits = decimal_fuel-All n n

      value : digits_from 0 d ≡ n
      value = decimal_fuel-value n n (omega arith)

      number : fl.parse_float d ≡ some (of_int n)
      number =
          rw value at
            (laws.parse_digits d some_digits digits (omega (arith, value, product-le n ks p, h)))

  -- The same where the product is known.
  parse-suffix_exact :
      (n value : ℕ) (u : Text) (ks : List ℕ)
      → IsSuffix u ks
      → All (λ k. 0 < k) ks
      → value ≤ exact_max
      → 0 < n
      → product n ks ≡ value
      → parse_byte_size fl (decimal n ++ u) ≡ ok value
  parse-suffix_exact n value u ks s p h pos e = parse-suffix n u ks pos s p (rw e h) ∙ ap ok e

  -- For a positive number of bytes up to 2 ^ 53, parsing what formatByteSize prints gives the number
  -- back. Floating point is taken to be exact at such whole numbers.
  pub parse-format_byte_size :
      (value : ℕ)
      → 0 < value
      → value ≤ exact_max
      → parse_byte_size fl (format_byte_size value) ≡ ok value
  unfolding format_byte_size
  parse-format_byte_size value pos h = elim (Bool-cases (value % 2 ^ 40 == 0)) [
    | inl t ↦
        rw (positive, t)
          (parse-suffix_exact (value / 2 ^ 40) value _ _ tib-IsSuffix (omega arith) h (ground arith)
            (ground arith))
    | inr not_t ↦ elim (Bool-cases (value % 2 ^ 30 == 0)) [
      | inl g ↦
          rw (positive, not_t, g)
            (parse-suffix_exact (value / 2 ^ 30) value _ _ gib-IsSuffix (omega arith) h
              (ground arith) (ground arith))
      | inr not_g ↦ elim (Bool-cases (value % 2 ^ 20 == 0)) [
        | inl m ↦
            rw (positive, not_t, not_g, m)
              (parse-suffix_exact (value / 2 ^ 20) value _ _ mib-IsSuffix (omega arith) h
                (ground arith) (ground arith))
        | inr not_m ↦ elim (Bool-cases (value % 2 ^ 10 == 0)) [
          | inl k ↦
              rw (positive, not_t, not_g, not_m, k)
                (parse-suffix_exact (value / 2 ^ 10) value _ _ kib-IsSuffix (omega arith) h
                  (ground arith) (ground arith))
          | inr not_k ↦
              rw (positive, not_t, not_g, not_m, not_k)
                (parse-suffix value _ [] pos b-IsSuffix tt h)
        ]
      ]
    ]
  ]
    where
      positive : sle value 0 ≡ false
      positive = ground arith
