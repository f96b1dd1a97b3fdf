-- ===== src/Size.antt =====
-- Sizes and processor counts as text: parseCPUCount, parseByteSize and memoryLimitPattern of
-- internal/controlplane/service.go, and formatByteSize of internal/controlplane/budgets.go.
pub mod RoundTrip
use fascinate.Base.{
  ℕ, zero, suc, ◌+◌, ◌-◌, ◌*◌, ◌/◌, ◌%◌, ◌^◌, ◌≡◌, Bool, true, false, not, ◌&&◌, ◌||◌, Option, none,
  some, List, [], ◌∷◌, ◌++◌, ltb, leb, ◌==◌, if◌then◌else◌,
}
use fascinate.Base.Word.{sle}
use fascinate.Base.Text.{Text, codes, text_eq, trim_space, to_lower, is_empty}
use fascinate.Result.{
  Result, ok, err, ◌>>=◌, ◌>>◌, refuse_if, or_error, cpu_required, cpu_not_numeric,
  cpu_not_positive, size_required, size_unsupported, size_not_numeric, size_not_positive,
  unit_unsupported,
}
use fascinate.Float.{Floats, is_digit}

-- The longest run of digits at the front, and the rest.
take_digits : Text → Text × Text
take_digits [] = ([], [])
take_digits (c ∷ s) = let (d, r) = take_digits s in if is_digit c then (c ∷ d, r) else ([], c ∷ s)

-- \s of a regular expression.
abbrev is_pattern_space : ℕ → Bool
is_pattern_space c = c == 32 || c == 9 || c == 10 || c == 12 || c == 13

drop_spaces : Text → Text
drop_spaces [] = []
drop_spaces (c ∷ s) = if is_pattern_space c then drop_spaces s else c ∷ s

abbrev is_scale_letter : ℕ → Bool
is_scale_letter c = c == b'k' || c == b'm' || c == b'g' || c == b't'

-- ([kmgt]i?b?|b)?$ at a text in lower case.
is_unit : Text → Bool
is_unit [] = true
is_unit (c ∷ []) = c == b'b' || is_scale_letter c
is_unit (c ∷ d ∷ []) = is_scale_letter c && (d == b'i' || d == b'b')
is_unit (c ∷ d ∷ e ∷ []) = is_scale_letter c && d == b'i' && e == b'b'
is_unit (c ∷ d ∷ e ∷ f ∷ s) = false

-- \s*([kmgt]i?b?|b)?$ behind the number.
match_unit : Text → Text → Option (Text × Text)
unfolding drop_spaces is_unit to_lower
match_unit number r =
    let u = drop_spaces r in if is_unit (to_lower u) then some (number, u) else none

-- (?:\.[0-9]+)? behind the digits.
match_fraction : Text → Text → Option (Text × Text)
unfolding match_unit take_digits
match_fraction d [] = match_unit d []
match_fraction d (c ∷ r) =
    let (f, r') = take_digits r in
    if c == b'.' && not (is_empty f) then match_unit (d ++ c ∷ f) r' else match_unit d (c ∷ r)

-- memoryLimitPattern.FindStringSubmatch: the number and the unit.
match_size : Text → Option (Text × Text)
unfolding match_fraction
match_size s = let (d, r) = take_digits s in if is_empty d then none else match_fraction d r

-- The factors by which the cases of `switch unit` multiply, from the left.
unit_factors : Text → Option (List ℕ)
unfolding text_eq
unit_factors u =
    if text_eq u (codes "") || text_eq u (codes "b")
    then some []
    else if text_eq u (codes "k") || text_eq u (codes "kb")
    then some (1000 ∷ [])
    else if text_eq u (codes "ki") || text_eq u (codes "kib")
    then some (1024 ∷ [])
    else if text_eq u (codes "m") || text_eq u (codes "mb")
    then some (1000 ∷ 1000 ∷ [])
    else if text_eq u (codes "mi") || text_eq u (codes "mib")
    then some (1024 ∷ 1024 ∷ [])
    else if text_eq u (codes "g") || text_eq u (codes "gb")
    then some (1000 ∷ 1000 ∷ 1000 ∷ [])
    else if text_eq u (codes "gi") || text_eq u (codes "gib")
    then some (1024 ∷ 1024 ∷ 1024 ∷ [])
    else if text_eq u (codes "t") || text_eq u (codes "tb")
    then some (1000 ∷ 1000 ∷ 1000 ∷ 1000 ∷ [])
    else if text_eq u (codes "ti") || text_eq u (codes "tib")
    then some (1024 ∷ 1024 ∷ 1024 ∷ 1024 ∷ [])
    else none

-- n in decimal digits, with fuel.
decimal_fuel : ℕ → ℕ → Text
decimal_fuel zero n = (b'0' + n % 10) ∷ []
decimal_fuel (suc f) n =
    let high = decimal_fuel f (n / 10) in
    if ltb n 10 then (b'0' + n) ∷ [] else high ++ (b'0' + n % 10) ∷ []

-- %d of a number that is not negative; each round divides by ten, so n rounds are enough.
pub decimal : ℕ → Text
unfolding decimal_fuel
decimal n = decimal_fuel n n

unfoldable pub format_byte_size : ℕ → Text
unfolding decimal
format_byte_size value =
    if sle value 0
    then codes "0B"
    else if value % 2 ^ 40 == 0
    then decimal (value / 2 ^ 40) ++ codes "TiB"
    else if value % 2 ^ 30 == 0
    then decimal (value / 2 ^ 30) ++ codes "GiB"
    else if value % 2 ^ 20 == 0
    then decimal (value / 2 ^ 20) ++ codes "MiB"
    else if value % 2 ^ 10 == 0
    then decimal (value / 2 ^ 10) ++ codes "KiB"
    else decimal value ++ codes "B"

module _ (fl : Floats) where
  open fl use {Float, parse_float, of_int, to_int, mul_float, le_float}

  unfoldable pub parse_cpu_count : Text → Result Float
  parse_cpu_count value = do
    let value' = trim_space value
    refuse_if (is_empty value') cpu_required
    count ← or_error (parse_float value') cpu_not_numeric
    refuse_if (le_float count (of_int 0)) cpu_not_positive
    ok count

  pub scale : Float → List ℕ → Float
  scale number [] = number
  scale number (k ∷ ks) = scale (mul_float number (of_int k)) ks

  unfoldable pub parse_byte_size : Text → Result ℕ
  unfolding match_size unit_factors to_lower scale
  parse_byte_size value = do
    let value' = trim_space value
    refuse_if (is_empty value') size_required
    groups ← or_error (match_size value') size_unsupported
    number ← or_error (parse_float groups.0) size_not_numeric
    refuse_if (le_float number (of_int 0)) size_not_positive
    factors ← or_error (unit_factors (to_lower groups.1)) unit_unsupported
    ok (to_int (scale number factors))
