-- ===== src/Terminal/Output.antt =====
-- cappedStringBuffer of internal/browserterm/exec.go, which keeps the output of a command up to a limit.
use mathlib.Core.List.{append-nil, append_assoc}
use fascinate.Base.{
  ℕ, ◌-◌, ◌*◌, ◌<◌, ◌≡◌, sym, ap, ◌∙◌, Bool, true, false, ◌||◌, List, [], ◌∷◌, ◌++◌, arith, ltb,
  leb, ◌==◌, if◌then◌else◌, length, take, length-append, length-take, take_all, take-append_within,
  take-append_beyond, Bool-cases, inl, inr,
}
use fascinate.Base.Text.{Text, is_empty}

-- cappedStringBuffer; the limit is not negative.
pub record CappedStringBuffer : Type 0 where
  pub limit : ℕ
  pub content : Text
  pub truncated : Bool

abbrev pub exec_output_store_limit : ℕ
exec_output_store_limit = 256 * 1024

-- WriteString
pub write_string : CappedStringBuffer → Text → CappedStringBuffer
write_string b value =
    if b.limit == 0 || is_empty value
    then b
    else if leb b.limit (length b.content)
    then record b { truncated = true }
    else if ltb (b.limit - length b.content) (length value)
    then record b {
      content = b.content ++ take (b.limit - length b.content) value;
      truncated = true;
    }
    else record b { content = b.content ++ value }

-- The writes of captureExecStream, one for each piece that is read.
pub write_all : CappedStringBuffer → List Text → CappedStringBuffer
write_all b [] = b
write_all b (value ∷ rest) = write_all (write_string b value) rest

-- The pieces, one after the other.
abbrev pub joined : List Text → Text
joined [] = []
joined (value ∷ rest) = value ++ joined rest

-- What a buffer is meant to hold once a text has been written to it.
abbrev pub capped : ℕ → Text → CappedStringBuffer
capped limit s = record { limit = limit; content = take limit s; truncated = ltb limit (length s) }

pub write_string-capped :
    (limit : ℕ) (s value : Text)
    → 0 < limit
    → write_string (capped limit s) value ≡ capped limit (s ++ value)
unfolding write_string
write_string-capped limit s [] h = rw (append-nil s) (ground arith)
write_string-capped limit s (c ∷ value) h = elim (Bool-cases (leb limit (length s))) [
  | inl full ↦ ground (
    arith,
    length-take limit s,
    take-append_within limit s (c ∷ value),
    length-append s (c ∷ value),
  )
  | inr room ↦ elim (Bool-cases (ltb (limit - length s) (length (c ∷ value)))) [
    | inl over ↦ ground (
      arith,
      take_all limit s,
      take-append_beyond limit s (c ∷ value),
      length-append s (c ∷ value),
    )
    | inr fits ↦ ground (
      arith,
      take_all limit s,
      take-append_beyond limit s (c ∷ value),
      take_all (limit - length s) (c ∷ value),
      length-append s (c ∷ value),
    )
  ]
]

write_all-capped :
    (limit : ℕ) (s : Text) (values : List Text)
    → 0 < limit
    → write_all (capped limit s) values ≡ capped limit (s ++ joined values)
unfolding write_all
write_all-capped limit s [] h = ap (capped limit) (sym (append-nil s))
write_all-capped limit s (value ∷ rest) h =
    ap (λ b. write_all b rest) (write_string-capped limit s value h)
    ∙ (write_all-capped limit (s ++ value) rest h
        ∙ ap (capped limit) (append_assoc s value (joined rest)))

-- A buffer with a positive limit to which pieces of output have been written holds the first bytes of
-- the whole output, up to the limit, and is marked as truncated exactly if the output is longer.
pub write_all-take :
    (limit : ℕ) (values : List Text)
    → 0 < limit
    → write_all (record { limit = limit; content = []; truncated = false }) values ≡ record {
      limit = limit;
      content = take limit (joined values);
      truncated = ltb limit (length (joined values));
    }
write_all-take limit values h =
    ap (λ b. write_all b values) start ∙ write_all-capped limit [] values h
  where
    start : record { limit = limit; content = []; truncated = false } ≡ capped limit []
    start = ground (arith, take_all {A = ℕ} limit [])
