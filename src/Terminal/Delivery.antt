-- ===== src/Terminal/Delivery.antt =====
-- What of the output of a command its subscribers are sent (internal/browserterm/exec.go), in every order
-- in which the steps of the command and of its subscribers may come.
use fascinate.Base.{ℕ, ◌≡◌, List, [], ◌∷◌, ◌++◌}
use fascinate.Database.Records.{ExecRecord}
use fascinate.Terminal.Subscribers.{ExecStreamEvent, Channel, Reason, Ended, ExecJob, Phase}
use fascinate.Terminal.Channels.{ArePieces, IsTold}

-- A channel was sent every event since its subscription.
abbrev pub IsComplete : List ExecStreamEvent → Channel → Type 0
IsComplete log c = log ≡ c.sent ++ c.earlier

-- A channel was sent every event from its subscription up to a moment, and none later.
abbrev pub IsCutOff : List ExecStreamEvent → Channel → Type 0
IsCutOff log c = (later : List ExecStreamEvent) × (log ≡ later ++ (c.sent ++ c.earlier))

-- A channel made when the command had ended was sent the result only.
abbrev pub WasSent : List ExecStreamEvent → Reason → Channel → Type 0
WasSent log Reason.late c = (x : ExecRecord) × (c.sent ≡ ExecStreamEvent.result x ∷ [])
WasSent log Reason.finished c = IsCutOff log c
WasSent log Reason.overflow c = IsCutOff log c
WasSent log Reason.left c = IsCutOff log c

abbrev pub AllComplete : List ExecStreamEvent → List (ℕ × Channel) → Type 0
AllComplete log [] = Unit
AllComplete log ((k, c) ∷ rest) = IsComplete log c × AllComplete log rest

abbrev pub AllSent : List ExecStreamEvent → List Ended → Type 0
AllSent log [] = Unit
AllSent log (e ∷ rest) = WasSent log e.reason e.channel × AllSent log rest

-- The events of the command: pieces of its output, and then the result, once.
abbrev pub LogInPhase : Phase → List ExecStreamEvent → Type 0
LogInPhase Phase.running log = ArePieces log
LogInPhase (Phase.finalised x) log = ArePieces log
LogInPhase (Phase.announced x) log = IsTold x log
LogInPhase (Phase.done x) log = IsTold x log

abbrev pub Delivered : Phase → ExecJob → Type 0
Delivered p j = LogInPhase p j.log × (AllComplete j.log j.subscribers × AllSent j.log j.ended)
