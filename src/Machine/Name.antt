-- ===== src/Machine/Name.antt =====
-- validateMachineName and machineNamePattern of internal/controlplane/service.go.
use fascinate.Base.{
  ℕ, zero, suc, ◌+◌, ◌≤◌, ◌≡◌, Bool, true, false, ◌&&◌, ◌||◌, ◌==◌, [], ◌∷◌, leb, length, All,
  if◌then◌else◌, arith, Bool-cases, inl, inr,
}
use fascinate.Base.Text.{Text}
use fascinate.Result.{Result, ok, err, name_invalid}
use fascinate.Service.Machines.{normalize_machine_name}

-- [a-z0-9] and [a-z0-9-]
abbrev pub is_alnum : ℕ → Bool
is_alnum c = (leb b'a' c && leb c b'z') || (leb b'0' c && leb c b'9')

abbrev pub is_name_code : ℕ → Bool
is_name_code c = is_alnum c || (c == b'-')

-- [a-z0-9-]{0,k}[a-z0-9]$
unfoldable pub matches_tail : ℕ → Text → Bool
matches_tail k [] = false
matches_tail k (c ∷ []) = is_alnum c
matches_tail zero (c ∷ d ∷ s) = false
matches_tail (suc k) (c ∷ d ∷ s) = is_name_code c && matches_tail k (d ∷ s)

-- machineNamePattern
unfoldable pub matches_name : Text → Bool
matches_name [] = false
matches_name (c ∷ []) = is_alnum c
matches_name (c ∷ d ∷ s) = is_alnum c && matches_tail 61 (d ∷ s)

-- validateMachineName
unfoldable pub validate_machine_name : Text → Result Text
validate_machine_name value =
    let name = normalize_machine_name value in
    if matches_name name then ok name else err name_invalid

-- A label of a domain name.
abbrev pub starts : Text → Bool
starts [] = false
starts (c ∷ s) = is_alnum c

abbrev pub ends : Text → Bool
ends [] = false
ends (c ∷ []) = is_alnum c
ends (c ∷ d ∷ s) = ends (d ∷ s)

pub record IsLabel (name : Text) : Type 0 where
  pub short : length name ≤ 63
  pub codes_ok : All (λ c. is_name_code c ≡ true) name
  pub start_ok : starts name ≡ true
  pub end_ok : ends name ≡ true

matches_tail-length : (k : ℕ) (s : Text) → matches_tail k s ≡ true → length s ≤ k + 1
unfolding matches_tail
matches_tail-length k [] h = omega arith
matches_tail-length k (c ∷ []) h = omega arith
matches_tail-length zero (c ∷ d ∷ s) h = absurd (ground arith)
matches_tail-length (suc k) (c ∷ d ∷ s) h = ground (arith, matches_tail-length k (d ∷ s))

matches_tail-codes :
    (k : ℕ) (s : Text) → matches_tail k s ≡ true → All (λ c. is_name_code c ≡ true) s
unfolding matches_tail
matches_tail-codes k [] h = tt
matches_tail-codes k (c ∷ []) h = (ground arith, tt)
matches_tail-codes zero (c ∷ d ∷ s) h = absurd (ground arith)
matches_tail-codes (suc k) (c ∷ d ∷ s) h =
    (ground arith, matches_tail-codes k (d ∷ s) (ground arith))

matches_tail-ends : (k : ℕ) (s : Text) → matches_tail k s ≡ true → ends s ≡ true
unfolding matches_tail
matches_tail-ends k [] h = absurd (ground arith)
matches_tail-ends k (c ∷ []) h = h
matches_tail-ends zero (c ∷ d ∷ s) h = absurd (ground arith)
matches_tail-ends (suc k) (c ∷ d ∷ s) h = matches_tail-ends k (d ∷ s) (ground arith)

matches_name-IsLabel : (name : Text) → matches_name name ≡ true → IsLabel name
unfolding matches_name
matches_name-IsLabel [] h = absurd (ground arith)
matches_name-IsLabel (c ∷ []) h = record {
  short = omega arith;
  codes_ok = (ground arith, tt);
  start_ok = h;
  end_ok = h;
}
matches_name-IsLabel (c ∷ d ∷ s) h = record {
  short = omega (arith, matches_tail-length 61 (d ∷ s) rest);
  codes_ok = (ground arith, matches_tail-codes 61 (d ∷ s) rest);
  start_ok = ground arith;
  end_ok = matches_tail-ends 61 (d ∷ s) rest;
}
  where
    rest : matches_tail 61 (d ∷ s) ≡ true
    rest = ground arith

-- A name that validateMachineName accepts has 63 characters at most, only lower-case letters,
-- digits and dashes, and starts and ends with a letter or digit.
pub validate_machine_name-IsLabel :
    (value name : Text) → validate_machine_name value ≡ ok name → IsLabel name
unfolding validate_machine_name
validate_machine_name-IsLabel value name h =
    elim (Bool-cases (matches_name (normalize_machine_name value))) [
      | inl e ↦
          let same : normalize_machine_name value ≡ name = ground arith in
          matches_name-IsLabel name (rw (← same) e)
      | inr e ↦ absurd (ground arith)
    ]
