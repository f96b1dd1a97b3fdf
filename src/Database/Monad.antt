-- ===== src/Database/Monad.antt =====
-- An operation of the service: it reads and changes the world, and returns a value or an error.
-- What was changed before an error stays changed.
use fascinate.Base.{Bool, true, false, List, [], ◌∷◌, Option, none, some}
use fascinate.Result.{Result, ok, err, Error, db_failure}
use fascinate.Database.Records.{World, EventKind, Call}
use fascinate.Base.Text.{Text}

abbrev pub M : Type 0 → Type 0
M A = World → Result A × World

module _ {A : Type 0} where
  abbrev pub pure : A → M A
  pure a w = (ok a, w)

  abbrev pub fail : Error → M A
  fail e w = (err e, w)

  abbrev pub lift : Result A → M A
  lift r w = (r, w)

  abbrev pub gets : (World → A) → M A
  gets f w = (ok (f w), w)

  -- `x, err := m`, with the code behind it.
  abbrev pub attempt : {B : Type 0} → M A → (Result A → M B) → M B
  attempt m k w = let (r, w') = m w in k r w'

infixl 5 ◌>>=◌ ◌>>◌
abbrev pub ◌>>=◌ : {A B : Type 0} → M A → (A → M B) → M B
◌>>=◌ m f w = let (r, w') = m w in elim r [ ok a ↦ f a w' | err e ↦ (err e, w') ]

abbrev pub ◌>>◌ : {A B : Type 0} → M A → M B → M B
m >> k = m >>= λ _. k

abbrev pub modify : (World → World) → M (Unit {0})
modify f w = (ok tt, f w)

-- if test { return e }
abbrev pub fail_if : Bool → Error → M (Unit {0})
fail_if true e w = (err e, w)
fail_if false e w = (ok tt, w)

abbrev pub or_fail : {A : Type 0} → Option A → Error → M A
or_fail none e w = (err e, w)
or_fail (some a) e w = (ok a, w)

-- _ = m
abbrev pub ignore : {A : Type 0} → M A → M (Unit {0})
ignore m = attempt m λ _. pure tt

-- `x, err := m; if err != nil { cleanup; return err }`
abbrev pub rescue : {A : Type 0} → M A → M (Unit {0}) → M A
rescue m cleanup = attempt m λ r. elim r [ ok a ↦ pure a | err e ↦ (do cleanup; fail e) ]

-- One round trip to the database, which may fail and then changes nothing.
unfoldable pub statement : M (Unit {0})
statement w = elim w.faults [
  | [] ↦ (ok tt, w)
  | fails ∷ rest ↦ elim fails [
    | true ↦ (err db_failure, record w { faults = rest })
    | false ↦ (ok tt, record w { faults = rest })
  ]
]

-- if err := m; err != nil && !errors.Is(err, database.ErrNotFound) { return err }
abbrev pub missing_is_ok : Result (Unit {0}) → Result (Unit {0})
missing_is_ok (ok a) = ok a
missing_is_ok (err Error.not_found) = ok tt
missing_is_ok (err e) = err e

abbrev pub allow_missing : M (Unit {0}) → M (Unit {0})
allow_missing m = attempt m λ r. lift (missing_is_ok r)

-- recordEventBestEffort: CreateEvent inserts and reads back, and its error is dropped.
unfoldable pub record_event : Option Text → Option Text → EventKind → M (Unit {0})
record_event actor machine kind = ignore (do
  statement
  modify λ w. record w {
    events = record { actor_user_id = actor; machine_id = machine; kind = kind } ∷ w.events;
  }
  statement)

-- A call of the runtime, answered by what the runtime makes of the calls so far.
unfoldable pub ask : {A : Type 0} → (List Call → Result A) → Call → M A
ask reply c w = let log = c ∷ w.calls in (reply log, record w { calls = log })
