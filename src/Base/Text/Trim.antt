-- ===== src/Base/Text/Trim.antt =====
-- Trimming and lowering a text twice does nothing more, which stored addresses and identifiers rely on.
use Prim.Native.Nat.{ℕ}
use mathlib.Core.Path.{subst, ◌≡◌, refl, ap, sym, ◌∙◌}
use mathlib.Core.Logic.{inl, inr}
use mathlib.Core.Bool.{false}
use mathlib.Core.List.{[], ◌∷◌, reverse, reverse-reverse, reverse-append, ◌++◌}
use native.Mathlib.Omega.{arith}
use fascinate.Base.Tests.{Bool-cases}
use fascinate.Base.Text.{Text, is_space, trim_left, trim_space, to_lower, lower_code}

-- A text that is empty or starts with a character that is not a space.
Starts : Text → Type 0
Starts [] = Unit {0}
Starts (c ∷ s) = is_space c ≡ false

trim_left-Starts : (s : Text) → Starts (trim_left s)
unfolding trim_left Starts
trim_left-Starts [] = tt
trim_left-Starts (c ∷ s) = elim (Bool-cases (is_space c)) [
  | inl e ↦ rw e (trim_left-Starts s)
  | inr e ↦ rw e e
]

Starts-trim_left : (s : Text) → Starts s → trim_left s ≡ s
unfolding trim_left Starts
Starts-trim_left [] h = refl
Starts-trim_left (c ∷ s) h = rw h

trim_left-suffix : (s : Text) → (p : Text) × (s ≡ p ++ trim_left s)
unfolding trim_left
trim_left-suffix [] = ([], refl)
trim_left-suffix (c ∷ s) = elim (Bool-cases (is_space c)) [
  | inl e ↦ let (p, h) = trim_left-suffix s in (c ∷ p, rw e (ap (λ t. c ∷ t) h))
  | inr e ↦ ([], rw e refl)
]

Starts-prefix : (s t : Text) → Starts (s ++ t) → Starts s
unfolding Starts
Starts-prefix [] t h = tt
Starts-prefix (c ∷ s) t h = h

-- What is left when the front is trimmed off is a suffix, so its reverse is a prefix.
back-Starts : (s : Text) → Starts s → Starts (reverse (trim_left (reverse s)))
back-Starts s h =
    let (p, e) = trim_left-suffix (reverse s) in
    Starts-prefix (reverse (trim_left (reverse s))) (reverse p)
      (subst Starts (sym (reverse-reverse s) ∙ (ap reverse e ∙ reverse-append p _)) h)

trim_space-Starts : (s : Text) → Starts (trim_space s)
unfolding trim_space
trim_space-Starts s = back-Starts (trim_left s) (trim_left-Starts s)

pub trim_space_idem : (s : Text) → trim_space (trim_space s) ≡ trim_space s
unfolding trim_space
trim_space_idem s =
    ap (λ t. reverse (trim_left (reverse t)))
      (Starts-trim_left (trim_space s) (trim_space-Starts s))
    ∙ ap (λ t. reverse (trim_left t)) (reverse-reverse (trim_left (reverse (trim_left s))))
    ∙ ap reverse (
        Starts-trim_left (trim_left (reverse (trim_left s)))
          (trim_left-Starts (reverse (trim_left s))))

lower_code-is_space : (c : ℕ) → is_space (lower_code c) ≡ is_space c
unfolding lower_code
lower_code-is_space c = ground arith

lower_code_idem : (c : ℕ) → lower_code (lower_code c) ≡ lower_code c
unfolding lower_code
lower_code_idem c = ground arith

to_lower_idem : (s : Text) → to_lower (to_lower s) ≡ to_lower s
unfolding to_lower
to_lower_idem [] = refl
to_lower_idem (c ∷ s) = rw (lower_code_idem c, to_lower_idem s) refl

trim_left-to_lower : (s : Text) → trim_left (to_lower s) ≡ to_lower (trim_left s)
unfolding trim_left to_lower
trim_left-to_lower [] = refl
trim_left-to_lower (c ∷ s) = elim (Bool-cases (is_space c)) [
  | inl e ↦ rw (lower_code-is_space c, e) (trim_left-to_lower s)
  | inr e ↦ rw (lower_code-is_space c, e) refl
]

to_lower-append : (s t : Text) → to_lower (s ++ t) ≡ to_lower s ++ to_lower t
unfolding to_lower
to_lower-append [] t = refl
to_lower-append (c ∷ s) t = ap (λ r. lower_code c ∷ r) (to_lower-append s t)

reverse-to_lower : (s : Text) → reverse (to_lower s) ≡ to_lower (reverse s)
unfolding to_lower
reverse-to_lower [] = refl
reverse-to_lower (c ∷ s) =
    reverse-append (lower_code c ∷ []) (to_lower s)
    ∙ (ap (λ t. t ++ (lower_code c ∷ [])) (reverse-to_lower s)
        ∙ (sym (to_lower-append (reverse s) (c ∷ []))
            ∙ ap to_lower (sym (reverse-append (c ∷ []) s))))

pub trim_space-to_lower : (s : Text) → trim_space (to_lower s) ≡ to_lower (trim_space s)
unfolding trim_space
trim_space-to_lower s =
    ap (λ t. reverse (trim_left (reverse t))) (trim_left-to_lower s)
    ∙ ap (λ t. reverse (trim_left t)) (reverse-to_lower (trim_left s))
    ∙ ap reverse (trim_left-to_lower (reverse (trim_left s)))
    ∙ reverse-to_lower (trim_left (reverse (trim_left s)))

pub lower_trim_idem :
    (s : Text) → to_lower (trim_space (to_lower (trim_space s))) ≡ to_lower (trim_space s)
lower_trim_idem s =
    ap to_lower (trim_space-to_lower (trim_space s))
    ∙ (to_lower_idem (trim_space (trim_space s)) ∙ ap to_lower (trim_space_idem s))
