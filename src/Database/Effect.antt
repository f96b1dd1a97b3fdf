-- ===== src/Database/Effect.antt =====
-- What an operation does to the world, as a relation that it keeps to on every path, errors and
-- failed statements included, and the rules by which that is shown for a composed operation.
use fascinate.Base.{if◌then◌else◌, ◌∷◌, Bool, true, false, Option, List, arith}
use fascinate.Base.Text.{Text}
use fascinate.Result.{Result, Error, ok, err}
use fascinate.Database.Records.{World, Call, EventKind, EventRecord}
use fascinate.Database.Frame.{Same, statement-Same}
use fascinate.Database.Monad.{
  M, pure, fail, lift, gets, modify, attempt, ignore, rescue, fail_if, statement, ask, record_event,
  missing_is_ok, allow_missing, ◌>>=◌, ◌>>◌,
}

pub record KeepsTo (R : World → World → Type 0) {A : Type 0} (m : M A) : Type 0 where
  pub step : (w : World) → R w (m w).1

-- A relation that lets nothing change, can be chained, and looks at the tables only.
pub record IsEffect (R : World → World → Type 0) : Type 0 where
  pub same : (w w' : World) → Same w w' → R w w'
  pub chain : (u v w : World) → R u v → R v w → R u w
  pub log :
      (w : World) (c : List Call) (es : List EventRecord)
      → R w (record w { calls = c; events = es })

module _ {R : World → World → Type 0} (e : IsEffect R) where
  stay : (w : World) → R w w
  stay w = e.same w w (ground arith)

  done-KeepsTo : KeepsTo R (pure {A = Unit {0}} tt)
  done-KeepsTo = record { step = stay }

  pub fail_if-KeepsTo : (b : Bool) (x : Error) → KeepsTo R (fail_if b x)
  fail_if-KeepsTo true x = record { step = stay }
  fail_if-KeepsTo false x = record { step = stay }

  pub lift-KeepsTo : {A : Type 0} (r : Result A) → KeepsTo R (lift r)
  lift-KeepsTo r = record { step = stay }

  pub gets-KeepsTo : {A : Type 0} (f : World → A) → KeepsTo R (gets f)
  gets-KeepsTo f = record { step = stay }

  pub attempt-KeepsTo :
      {A B : Type 0} {m : M A} {k : Result A → M B}
      → KeepsTo R m
      → ((r : Result A) → KeepsTo R (k r))
      → KeepsTo R (attempt m k)
  attempt-KeepsTo {m} {k} h hk = record {
    step = λ w. e.chain w (m w).1 _ (h.step w) ((hk (m w).0).step (m w).1);
  }

  pub bind-KeepsTo :
      {A B : Type 0} {m : M A} {f : A → M B}
      → KeepsTo R m
      → ((a : A) → KeepsTo R (f a))
      → KeepsTo R (m >>= f)
  bind-KeepsTo {A} {B} {m} {f} h hf = record { step = λ w. after w (m w) (h.step w) }
    where
      after :
          (w : World) (p : Result A × World)
          → R w p.1
          → R w (elim p.0 as (λ _. Result B × World) [ ok a ↦ f a p.1 | err x ↦ (err x, p.1) ]).1
      after w (ok a, v) r = e.chain w v _ r ((hf a).step v)
      after w (err x, v) r = r

  pub seq-KeepsTo :
      {A B : Type 0} {m : M A} {k : M B} → KeepsTo R m → KeepsTo R k → KeepsTo R (m >> k)
  seq-KeepsTo h hk = bind-KeepsTo h (λ _. hk)

  pub ignore-KeepsTo : {A : Type 0} {m : M A} → KeepsTo R m → KeepsTo R (ignore m)
  ignore-KeepsTo h = attempt-KeepsTo h (λ _. done-KeepsTo)

  pub rescue-KeepsTo :
      {A : Type 0} {m : M A} {cleanup : M (Unit {0})}
      → KeepsTo R m
      → KeepsTo R cleanup
      → KeepsTo R (rescue m cleanup)
  rescue-KeepsTo {A} {m} {cleanup} h hc = attempt-KeepsTo h after
    where
      failing : (x : Error) → KeepsTo R (cleanup >> fail {A = A} x)
      failing x = seq-KeepsTo hc (lift-KeepsTo (err x))

      after :
          (r : Result A)
          → KeepsTo R (elim r as (λ _. M A) [ ok a ↦ pure a | err x ↦ (do cleanup; fail x) ])
      after (ok a) = lift-KeepsTo (ok a)
      after (err x) = failing x

  pub Same-KeepsTo : {A : Type 0} (m : M A) → ((w : World) → Same w (m w).1) → KeepsTo R m
  Same-KeepsTo m h = record { step = λ w. e.same w _ (h w) }

  pub if-KeepsTo :
      {A : Type 0} (b : Bool) {m k : M A}
      → KeepsTo R m
      → KeepsTo R k
      → KeepsTo R (if b then m else k)
  if-KeepsTo true h hk = h
  if-KeepsTo false h hk = hk

  pub ask-KeepsTo : {A : Type 0} (reply : List Call → Result A) (c : Call) → KeepsTo R (ask reply c)
  unfolding ask
  ask-KeepsTo reply c = record { step = λ w. e.log w (c ∷ w.calls) w.events }

  pub modify-KeepsTo : (f : World → World) → ((w : World) → R w (f w)) → KeepsTo R (modify f)
  modify-KeepsTo f h = record { step = h }

  pub allow_missing-KeepsTo : {m : M (Unit {0})} → KeepsTo R m → KeepsTo R (allow_missing m)
  allow_missing-KeepsTo h = attempt-KeepsTo h (λ r. lift-KeepsTo (missing_is_ok r))

  pub record_event-KeepsTo :
      (actor machine : Option Text) (kind : EventKind) → KeepsTo R (record_event actor machine kind)
  unfolding record_event
  record_event-KeepsTo actor machine kind = ignore-KeepsTo (
      seq-KeepsTo (Same-KeepsTo statement statement-Same) (
        seq-KeepsTo
          (modify-KeepsTo (λ w. record w { events = made ∷ w.events })
            (λ w. e.log w w.calls (made ∷ w.events)))
          (Same-KeepsTo statement statement-Same)))
    where
      made : EventRecord
      made = record { actor_user_id = actor; machine_id = machine; kind = kind }
