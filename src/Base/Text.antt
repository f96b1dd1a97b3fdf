-- ===== src/Base/Text.antt =====
-- Go strings as lists of ASCII codes, and what the program uses of package strings.
pub mod Trim
use Prim.Native.Char.{code}
use Prim.Native.String.{String}
use Prim.Native.Nat.{ℕ, ◌+◌, ◌-◌}
use mathlib.Core.Path.{◌≡◌, refl, ap, sym, ◌∙◌, ◌≡⟨◌⟩◌, ◌∎}
use mathlib.Core.Logic.{◌↔◌}
use mathlib.Core.Bool.{Bool, true, false, ◌&&◌, ◌||◌}
use mathlib.Core.List.{List, [], ◌∷◌, map, reverse, reverse-reverse, reverse-append, ◌++◌}
use native.Mathlib.Omega.{arith}
use fascinate.Base.Tests.{ltb, leb, ◌==◌, if◌then◌else◌}

abbrev pub Text : Type 0
Text = List ℕ

-- The codes of a literal.
abbrev pub codes : String → Text
codes String.[] = []
codes (String.◌∷◌ c s) = code c ∷ codes s

unfoldable pub text_eq : Text → Text → Bool
text_eq [] [] = true
text_eq [] (y ∷ ys) = false
text_eq (x ∷ xs) [] = false
text_eq (x ∷ xs) (y ∷ ys) = x == y && text_eq xs ys

pub text_eq_refl : (s : Text) → text_eq s s ≡ true
unfolding text_eq
text_eq_refl [] = refl
text_eq_refl (x ∷ xs) = ground (arith, text_eq_refl xs)

pub eq_of_text_eq : (s t : Text) → text_eq s t ≡ true → s ≡ t
unfolding text_eq
eq_of_text_eq [] [] h = refl
eq_of_text_eq [] (y ∷ ys) h = cc
eq_of_text_eq (x ∷ xs) [] h = cc
eq_of_text_eq (x ∷ xs) (y ∷ ys) h = ground (arith, eq_of_text_eq xs ys)

pub text_eq_iff : (s t : Text) → (text_eq s t ≡ true) ↔ (s ≡ t)
text_eq_iff s t = (eq_of_text_eq s t, λ e. rw e (text_eq_refl t))

-- s < t, byte by byte.
unfoldable pub text_lt : Text → Text → Bool
text_lt [] [] = false
text_lt [] (y ∷ ys) = true
text_lt (x ∷ xs) [] = false
text_lt (x ∷ xs) (y ∷ ys) = ltb x y || (x == y && text_lt xs ys)

-- unicode.IsSpace, on ASCII.
abbrev pub is_space : ℕ → Bool
is_space c = c == 32 || (leb 9 c && leb c 13)

trim_left : Text → Text
trim_left [] = []
trim_left (c ∷ s) = if is_space c then trim_left s else c ∷ s

-- strings.TrimSpace
unfoldable pub trim_space : Text → Text
unfolding trim_left
trim_space s = reverse (trim_left (reverse (trim_left s)))

trim_left-stays : (c : ℕ) (s : Text) → is_space c ≡ false → trim_left (c ∷ s) ≡ c ∷ s
unfolding trim_left
trim_left-stays c s h = rw h

-- A text that begins and ends with other characters than spaces is trimmed already.
pub trim_space-stays :
    (c e : ℕ) (s u v : Text)
    → is_space c ≡ false
    → is_space e ≡ false
    → reverse u ≡ e ∷ v
    → trim_space (c ∷ (s ++ u)) ≡ c ∷ (s ++ u)
unfolding trim_space
trim_space-stays c e s u v hc he hu =
    reverse (trim_left (reverse (trim_left (c ∷ (s ++ u)))))
    ≡⟨ ap (λ t. reverse (trim_left (reverse t))) (trim_left-stays c (s ++ u) hc) ⟩
      reverse (trim_left (reverse ((c ∷ s) ++ u)))
    ≡⟨ ap (λ t. reverse (trim_left t)) (back ∙ ap (λ t. t ++ reverse (c ∷ s)) hu) ⟩
      reverse (trim_left (e ∷ (v ++ reverse (c ∷ s))))
    ≡⟨ ap reverse (trim_left-stays e (v ++ reverse (c ∷ s)) he) ⟩
      reverse ((e ∷ v) ++ reverse (c ∷ s))
    ≡⟨ ap reverse (sym (back ∙ ap (λ t. t ++ reverse (c ∷ s)) hu)) ⟩
      reverse (reverse ((c ∷ s) ++ u))
    ≡⟨ reverse-reverse ((c ∷ s) ++ u) ⟩ (c ∷ s) ++ u ∎
  where
    back : reverse ((c ∷ s) ++ u) ≡ reverse u ++ reverse (c ∷ s)
    back = reverse-append (c ∷ s) u

abbrev pub is_empty : Text → Bool
is_empty [] = true
is_empty (c ∷ s) = false

upper_code : ℕ → ℕ
upper_code c = if leb b'a' c && leb c b'z' then c - 32 else c

lower_code : ℕ → ℕ
lower_code c = if leb b'A' c && leb c b'Z' then c + 32 else c

-- strings.ToUpper and strings.ToLower
unfoldable pub to_upper : Text → Text
unfolding upper_code
to_upper s = map upper_code s

unfoldable pub to_lower : Text → Text
unfolding lower_code
to_lower s = map lower_code s

-- strings.EqualFold
unfoldable pub equal_fold : Text → Text → Bool
unfolding text_eq to_upper
equal_fold s t = text_eq (to_upper s) (to_upper t)

-- strings.HasPrefix
unfoldable pub has_prefix : Text → Text → Bool
has_prefix s [] = true
has_prefix [] (p ∷ ps) = false
has_prefix (c ∷ s) (p ∷ ps) = c == p && has_prefix s ps

-- strings.Contains
unfoldable pub contains_text : Text → Text → Bool
contains_text [] part = is_empty part
contains_text (c ∷ s) part = has_prefix (c ∷ s) part || contains_text s part

-- strings.ReplaceAll of one code
unfoldable pub replace_code : ℕ → Text → Text → Text
replace_code c new [] = []
replace_code c new (d ∷ s) =
    let rest = replace_code c new s in if d == c then new ++ rest else d ∷ rest
