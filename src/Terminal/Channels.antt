-- ===== src/Terminal/Channels.antt =====
-- What may have been sent to a subscriber of a command, and how the operations of execJob
-- (internal/browserterm/exec.go) keep that.
use fascinate.Base.{
  ℕ, ◌≡◌, refl, ◌⊎◌, inl, inr, Option, none, some, List, [], ◌∷◌, ◌++◌, arith, Bool-cases, ◌==◌,
}
use fascinate.Database.Records.{ExecRecord}
use fascinate.Terminal.Subscribers.{
  ExecStreamEvent, Channel, Reason, Ended, receive, sent_to, dropped, all_closed,
  without_subscriber, closed_as, has_room,
}

-- Pieces of output only.
abbrev pub ArePieces : List ExecStreamEvent → Type 0
ArePieces [] = Unit
ArePieces (ExecStreamEvent.stdout s ∷ older) = ArePieces older
ArePieces (ExecStreamEvent.stderr s ∷ older) = ArePieces older
ArePieces (ExecStreamEvent.result x ∷ older) = ⊥

-- The result x, sent last, and pieces of output before it.
abbrev pub IsTold : ExecRecord → List ExecStreamEvent → Type 0
IsTold x sent =
    (older : List ExecStreamEvent) × ((sent ≡ ExecStreamEvent.result x ∷ older) × ArePieces older)

-- What a closed channel was sent, where `final` is the record of the command, if it is set: one that
-- was closed since the command had ended was sent the result last; the others were sent it last or not
-- at all.
abbrev pub WasTold : Option ExecRecord → List ExecStreamEvent → Type 0
WasTold final sent = (x : ExecRecord) × ((final ≡ some x) × IsTold x sent)

abbrev pub EndsAs : Reason → Option ExecRecord → List ExecStreamEvent → Type 0
EndsAs Reason.finished final sent = WasTold final sent
EndsAs Reason.late final sent = WasTold final sent
EndsAs Reason.overflow final sent = ArePieces sent ⊎ WasTold final sent
EndsAs Reason.left final sent = ArePieces sent ⊎ WasTold final sent

abbrev pub EndsWell : Option ExecRecord → Ended → Type 0
EndsWell final e = EndsAs e.reason final e.channel.sent

abbrev pub AllEnded : Option ExecRecord → List Ended → Type 0
AllEnded final [] = Unit
AllEnded final (e ∷ rest) = EndsWell final e × AllEnded final rest

abbrev pub AllPieces : List (ℕ × Channel) → Type 0
AllPieces [] = Unit
AllPieces ((k, c) ∷ rest) = ArePieces c.sent × AllPieces rest

abbrev pub AllTold : ExecRecord → List (ℕ × Channel) → Type 0
AllTold x [] = Unit
AllTold x ((k, c) ∷ rest) = IsTold x c.sent × AllTold x rest

pub AllEnded-append :
    (o : Option ExecRecord) (a b : List Ended) → AllEnded o a → AllEnded o b → AllEnded o (a ++ b)
AllEnded-append o [] b h k = k
AllEnded-append o (e ∷ a) b h k = (h.0, AllEnded-append o a b h.1 k)

-- Setting the record leaves what was said of the closed channels.
EndsAs-set :
    (why : Reason) (x : ExecRecord) (sent : List ExecStreamEvent)
    → EndsAs why none sent
    → EndsAs why (some x) sent
EndsAs-set Reason.finished x sent (y, (unset, told)) = absurd (ground (arith, unset))
EndsAs-set Reason.late x sent (y, (unset, told)) = absurd (ground (arith, unset))
EndsAs-set Reason.overflow x sent (inl pieces) = inl pieces
EndsAs-set Reason.overflow x sent (inr (y, (unset, told))) = absurd (ground (arith, unset))
EndsAs-set Reason.left x sent (inl pieces) = inl pieces
EndsAs-set Reason.left x sent (inr (y, (unset, told))) = absurd (ground (arith, unset))

pub AllEnded-set : (x : ExecRecord) (es : List Ended) → AllEnded none es → AllEnded (some x) es
AllEnded-set x [] h = tt
AllEnded-set x (e ∷ rest) h = (EndsAs-set e.reason x e.channel.sent h.0, AllEnded-set x rest h.1)

pub AllPieces-sent_to :
    (e : ExecStreamEvent) (subs : List (ℕ × Channel))
    → ((s : List ExecStreamEvent) → ArePieces s → ArePieces (e ∷ s))
    → AllPieces subs
    → AllPieces (sent_to e subs)
unfolding sent_to
AllPieces-sent_to e [] piece h = tt
AllPieces-sent_to e ((k, c) ∷ rest) piece h = elim (Bool-cases (has_room c)) [
  | inl room ↦ rw room (piece c.sent h.0, AllPieces-sent_to e rest piece h.1)
  | inr full ↦ rw full (AllPieces-sent_to e rest piece h.1)
]

pub AllTold-sent_to :
    (x : ExecRecord) (subs : List (ℕ × Channel))
    → AllPieces subs
    → AllTold x (sent_to (ExecStreamEvent.result x) subs)
unfolding sent_to
AllTold-sent_to x [] h = tt
AllTold-sent_to x ((k, c) ∷ rest) h = elim (Bool-cases (has_room c)) [
  | inl room ↦ rw room ((c.sent, (refl, h.0)), AllTold-sent_to x rest h.1)
  | inr full ↦ rw full (AllTold-sent_to x rest h.1)
]

pub AllEnded-dropped :
    (o : Option ExecRecord) (subs : List (ℕ × Channel)) → AllPieces subs → AllEnded o (dropped subs)
unfolding dropped
AllEnded-dropped o [] h = tt
AllEnded-dropped o ((k, c) ∷ rest) h = elim (Bool-cases (has_room c)) [
  | inl room ↦ rw room (AllEnded-dropped o rest h.1)
  | inr full ↦ rw full (inl h.0, AllEnded-dropped o rest h.1)
]

pub AllEnded-all_closed :
    (x : ExecRecord) (subs : List (ℕ × Channel))
    → AllTold x subs
    → AllEnded (some x) (all_closed subs)
unfolding all_closed
AllEnded-all_closed x [] h = tt
AllEnded-all_closed x ((k, c) ∷ rest) h = ((x, (refl, h.0)), AllEnded-all_closed x rest h.1)

-- Leaving and receiving.
pub AllPieces-without_subscriber :
    (i : ℕ) (subs : List (ℕ × Channel)) → AllPieces subs → AllPieces (without_subscriber i subs)
unfolding without_subscriber
AllPieces-without_subscriber i [] h = tt
AllPieces-without_subscriber i ((k, c) ∷ rest) h = elim (Bool-cases (k == i)) [
  | inl same ↦ rw same (AllPieces-without_subscriber i rest h.1)
  | inr other ↦ rw other (h.0, AllPieces-without_subscriber i rest h.1)
]

pub AllTold-without_subscriber :
    (x : ExecRecord) (i : ℕ) (subs : List (ℕ × Channel))
    → AllTold x subs
    → AllTold x (without_subscriber i subs)
unfolding without_subscriber
AllTold-without_subscriber x i [] h = tt
AllTold-without_subscriber x i ((k, c) ∷ rest) h = elim (Bool-cases (k == i)) [
  | inl same ↦ rw same (AllTold-without_subscriber x i rest h.1)
  | inr other ↦ rw other (h.0, AllTold-without_subscriber x i rest h.1)
]

pub AllPieces-closed_as :
    (o : Option ExecRecord) (i : ℕ) (subs : List (ℕ × Channel))
    → AllPieces subs
    → AllEnded o (closed_as Reason.left i subs)
unfolding closed_as
AllPieces-closed_as o i [] h = tt
AllPieces-closed_as o i ((k, c) ∷ rest) h = elim (Bool-cases (k == i)) [
  | inl same ↦ rw same (inl h.0, AllPieces-closed_as o i rest h.1)
  | inr other ↦ rw other (AllPieces-closed_as o i rest h.1)
]

pub AllTold-closed_as :
    (x : ExecRecord) (i : ℕ) (subs : List (ℕ × Channel))
    → AllTold x subs
    → AllEnded (some x) (closed_as Reason.left i subs)
unfolding closed_as
AllTold-closed_as x i [] h = tt
AllTold-closed_as x i ((k, c) ∷ rest) h = elim (Bool-cases (k == i)) [
  | inl same ↦ rw same (inr (x, (refl, h.0)), AllTold-closed_as x i rest h.1)
  | inr other ↦ rw other (AllTold-closed_as x i rest h.1)
]

pub AllPieces-receive :
    (i : ℕ) (subs : List (ℕ × Channel)) → AllPieces subs → AllPieces (receive i subs)
unfolding receive
AllPieces-receive i [] h = tt
AllPieces-receive i ((k, c) ∷ rest) h = elim (Bool-cases (k == i)) [
  | inl same ↦ rw same (h.0, AllPieces-receive i rest h.1)
  | inr other ↦ rw other (h.0, AllPieces-receive i rest h.1)
]

pub AllTold-receive :
    (x : ExecRecord) (i : ℕ) (subs : List (ℕ × Channel))
    → AllTold x subs
    → AllTold x (receive i subs)
unfolding receive
AllTold-receive x i [] h = tt
AllTold-receive x i ((k, c) ∷ rest) h = elim (Bool-cases (k == i)) [
  | inl same ↦ rw same (h.0, AllTold-receive x i rest h.1)
  | inr other ↦ rw other (h.0, AllTold-receive x i rest h.1)
]
