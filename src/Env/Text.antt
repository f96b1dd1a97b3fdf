-- ===== src/Env/Text.antt =====
-- The text operations of internal/controlplane/envvars.go: envVarReferencePattern, the replacement
-- of a reference, and the keys that validateEnvVarKey lets through.
use fascinate.Base.{
  ℕ, zero, suc, ◌-◌, Bool, true, false, not, ◌&&◌, ◌||◌, List, [], ◌∷◌, ◌++◌, length, leb, ◌==◌,
  if◌then◌else◌,
}
use fascinate.Base.Text.{Text, codes, trim_space, to_upper, has_prefix, is_empty}
use fascinate.Result.{
  Result, ok, ◌>>◌, refuse_if, env_key_required, env_key_reserved, env_key_pattern,
  env_value_multiline,
}

abbrev is_upper : ℕ → Bool
is_upper c = leb b'A' c && leb c b'Z'

abbrev is_key_code : ℕ → Bool
is_key_code c = is_upper c || (leb b'0' c && leb c b'9') || c == b'_'

-- How much of \$\{([A-Z][A-Z0-9_]*)\} stands before the next code.
pub data Scan : Type 0 where
  idle dollar brace : Scan
  name : Text → Scan

restart : ℕ → Scan
restart c = if c == b'$' then dollar else idle

scan_step : Scan → ℕ → Scan
unfolding restart
scan_step idle c = restart c
scan_step dollar c = if c == b'{' then brace else restart c
scan_step brace c = if is_upper c then name (c ∷ []) else restart c
scan_step (name n) c = if is_key_code c then name (n ++ c ∷ []) else restart c

found : Scan → ℕ → List Text
found (name n) c = if c == b'}' then n ∷ [] else []
found _ c = []

scan : Scan → Text → List Text
unfolding scan_step found
scan st [] = []
scan st (c ∷ s) = found st c ++ scan (scan_step st c) s

-- envVarReferencePattern.FindAllStringSubmatch(s, -1): the names that are referenced, in order.
unfoldable pub references : Text → List Text
unfolding scan
references s = scan idle s

-- match[0] for a name.
abbrev pub reference_to : Text → Text
reference_to n = b'$' ∷ b'{' ∷ (n ++ b'}' ∷ [])

-- The codes still to be passed over belong to an occurrence that was replaced.
replace_from : Text → Text → ℕ → Text → Text
replace_from old new skip [] = []
replace_from old new zero (c ∷ s) =
    let after = replace_from old new (length old - 1) s in
    let on = replace_from old new zero s in if has_prefix (c ∷ s) old then new ++ after else c ∷ on
replace_from old new (suc skip) (c ∷ s) = replace_from old new skip s

-- strings.ReplaceAll(s, old, new), where `old` is not empty.
unfoldable pub replace_all : Text → Text → Text → Text
unfolding replace_from
replace_all s old new = replace_from old new zero s

all_key_codes : Text → Bool
all_key_codes [] = true
all_key_codes (c ∷ s) = is_key_code c && all_key_codes s

-- envVarKeyPattern
matches_key : Text → Bool
unfolding all_key_codes
matches_key [] = false
matches_key (c ∷ s) = is_upper c && all_key_codes s

-- validateEnvVarKey
unfoldable pub validate_env_var_key : Text → Result Text
unfolding matches_key
validate_env_var_key value = do
  let key = to_upper (trim_space value)
  refuse_if (is_empty key) env_key_required
  refuse_if (has_prefix key (codes "FASCINATE_")) env_key_reserved
  refuse_if (not (matches_key key)) env_key_pattern
  ok key

has_newline : Text → Bool
has_newline [] = false
has_newline (c ∷ s) = (c == 10 || c == 13) || has_newline s

-- validateEnvVarValue
unfoldable pub validate_env_var_value : Text → Result Text
unfolding has_newline
validate_env_var_value value = do refuse_if (has_newline value) env_value_multiline; ok value
