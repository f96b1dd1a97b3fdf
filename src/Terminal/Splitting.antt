-- ===== src/Terminal/Splitting.antt =====
-- Splitting a text at a code, as strings.Split and strings.SplitN do for the parsers of
-- internal/browserterm/manager.go.
use fascinate.Base.{
  ℕ, suc, ◌==◌, ◌≡◌, refl, ap, Bool, false, ◌||◌, some, List, [], ◌∷◌, ◌++◌, length, arith,
}
use fascinate.Base.Text.{Text}
use fascinate.Terminal.Git.{cut, split, before_split, split_n, nth}

-- Words with a space behind each, and a last text.
unfoldable pub fields_text : List Text → Text → Text
fields_text [] last = last
fields_text (f ∷ fs) last = f ++ (32 ∷ fields_text fs last)

unfoldable pub has_code : ℕ → Text → Bool
has_code c [] = false
has_code c (d ∷ s) = d == c || has_code c s

unfoldable pub any_code : ℕ → List Text → Bool
any_code c [] = false
any_code c (s ∷ rest) = has_code c s || any_code c rest

pub cut-found :
    (c : ℕ) (s rest : Text) → has_code c s ≡ false → cut c (s ++ (c ∷ rest)) ≡ some (s, rest)
unfolding cut has_code
cut-found c [] rest h = ground arith
cut-found c (d ∷ s) rest h = ground (arith, cut-found c s rest)

pub split_n-fields_text :
    (fs : List Text) (last : Text)
    → any_code 32 fs ≡ false
    → split_n 32 (fields_text fs last) (suc (length fs)) ≡ fs ++ (last ∷ [])
unfolding split_n fields_text any_code
split_n-fields_text [] last h = refl
split_n-fields_text (f ∷ fs) last h =
    rw (split_n, cut-found 32 f (fields_text fs last) (ground (arith, h)))
      (ap (λ parts. f ∷ parts) (split_n-fields_text fs last (ground (arith, h))))

pub split-found :
    (c : ℕ) (s rest : Text) → has_code c s ≡ false → split c (s ++ (c ∷ rest)) ≡ s ∷ split c rest
unfolding split has_code before_split
split-found c [] rest h = ground arith
split-found c (d ∷ s) rest h = ground (arith, split-found c s rest)

pub nth_last : (fs : List Text) (last : Text) → nth (length fs) (fs ++ (last ∷ [])) ≡ some last
unfolding nth
nth_last [] last = refl
nth_last (f ∷ fs) last = nth_last fs last
