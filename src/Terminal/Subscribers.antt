-- ===== src/Terminal/Subscribers.antt =====
-- The subscribers of a command: execJob of internal/browserterm/exec.go with subscribe, broadcast,
-- setFinal and closeSubscribers. Each of these holds the lock of the job, so it is one step.
use fascinate.Base.{
  ℕ, ◌+◌, ◌-◌, ◌==◌, Bool, Option, none, some, List, [], ◌∷◌, ◌++◌, ltb, if◌then◌else◌,
}
use fascinate.Base.Text.{Text}
use fascinate.Database.Records.{ExecRecord}

-- ExecStreamEvent
pub data ExecStreamEvent : Type 0 where
  stdout stderr : Text → ExecStreamEvent
  result : ExecRecord → ExecStreamEvent

-- A channel with a buffer: what was sent to it, newest first, and how much of that is not yet read.
-- `earlier` is the log of the job at the subscription, which no operation reads.
pub record Channel : Type 0 where
  pub sent : List ExecStreamEvent
  pub pending : ℕ
  pub earlier : List ExecStreamEvent

-- Why a channel is closed: its buffer was full, its reader left, the command ended, or it had ended
-- before the subscription.
pub data Reason : Type 0 where
  overflow left finished late : Reason

pub record Ended : Type 0 where
  pub channel : Channel
  pub reason : Reason

-- execJob, with the channels that it has closed and, newest first, the log of the events of the
-- command, which the code does not keep and no operation but the making of `earlier` reads.
pub record ExecJob : Type 0 where
  pub subscribers : List (ℕ × Channel)
  pub next_sub_id : ℕ
  pub final : Option ExecRecord
  pub ended : List Ended
  pub log : List ExecStreamEvent

abbrev pub channel_size : ℕ
channel_size = 128

abbrev pub new_job : ExecJob
new_job = record { subscribers = []; next_sub_id = 0; final = none; ended = []; log = [] }

-- subscribe
unfoldable pub subscribe : ExecJob → ExecJob
subscribe j = elim j.final [
  | some x ↦ record j {
    ended =
        record {
          channel = record { sent = ExecStreamEvent.result x ∷ []; pending = 1; earlier = j.log };
          reason = Reason.late;
        }
        ∷ j.ended;
  }
  | none ↦ record j {
    subscribers =
        (j.next_sub_id, record { sent = []; pending = 0; earlier = j.log }) ∷ j.subscribers;
    next_sub_id = j.next_sub_id + 1;
  }
]

unfoldable pub without_subscriber : ℕ → List (ℕ × Channel) → List (ℕ × Channel)
without_subscriber i [] = []
without_subscriber i ((k, c) ∷ rest) =
    let others = without_subscriber i rest in if k == i then others else (k, c) ∷ others

unfoldable pub closed_as : Reason → ℕ → List (ℕ × Channel) → List Ended
closed_as why i [] = []
closed_as why i ((k, c) ∷ rest) =
    let others = closed_as why i rest in
    if k == i then record { channel = c; reason = why } ∷ others else others

-- The function that subscribe hands back.
unfoldable pub unsubscribe : ℕ → ExecJob → ExecJob
unsubscribe i j = record j {
  subscribers = without_subscriber i j.subscribers;
  ended = closed_as Reason.left i j.subscribers ++ j.ended;
}

-- A send does not wait: it succeeds where the buffer has room.
abbrev pub has_room : Channel → Bool
has_room c = ltb c.pending channel_size

unfoldable pub sent_to : ExecStreamEvent → List (ℕ × Channel) → List (ℕ × Channel)
sent_to e [] = []
sent_to e ((k, c) ∷ rest) =
    let others = sent_to e rest in
    if has_room c
    then (k, record c { sent = e ∷ c.sent; pending = c.pending + 1 }) ∷ others
    else others

unfoldable pub dropped : List (ℕ × Channel) → List Ended
dropped [] = []
dropped ((k, c) ∷ rest) =
    let others = dropped rest in
    if has_room c then others else record { channel = c; reason = Reason.overflow } ∷ others

-- broadcast
unfoldable pub broadcast : ExecStreamEvent → ExecJob → ExecJob
broadcast e j = record j {
  subscribers = sent_to e j.subscribers;
  ended = dropped j.subscribers ++ j.ended;
}

-- An event of the command happens.
abbrev pub logged : ExecStreamEvent → ExecJob → ExecJob
logged e j = record j { log = e ∷ j.log }

-- setFinal
unfoldable pub set_final : ExecRecord → ExecJob → ExecJob
set_final x j = record j { final = some x }

unfoldable pub all_closed : List (ℕ × Channel) → List Ended
all_closed [] = []
all_closed ((k, c) ∷ rest) = record { channel = c; reason = Reason.finished } ∷ all_closed rest

-- closeSubscribers
unfoldable pub close_subscribers : ExecJob → ExecJob
close_subscribers j = record j { subscribers = []; ended = all_closed j.subscribers ++ j.ended }

-- A subscriber receives an event.
unfoldable pub receive : ℕ → List (ℕ × Channel) → List (ℕ × Channel)
receive i [] = []
receive i ((k, c) ∷ rest) =
    (k, (if k == i then record c { pending = c.pending - 1 } else c)) ∷ receive i rest

-- How far runExec is: the process writes, finishExec has set the record, has sent it, has closed the
-- channels.
pub data Phase : Type 0 where
  running : Phase
  finalised announced done : ExecRecord → Phase

-- The steps of runExec and of the subscribers, in any order in which they may take the lock.
pub data Step : Phase → ExecJob → Phase → ExecJob → Type 0 where
  subscribed : {p : Phase} {j : ExecJob} → Step p j p (subscribe j)
  unsubscribed : {p : Phase} {j : ExecJob} (i : ℕ) → Step p j p (unsubscribe i j)
  received :
      {p : Phase} {j : ExecJob} (i : ℕ)
      → Step p j p (record j { subscribers = receive i j.subscribers })
  wrote_out :
      {j : ExecJob} (s : Text)
      → Step running j running
          (broadcast (ExecStreamEvent.stdout s) (logged (ExecStreamEvent.stdout s) j))
  wrote_error :
      {j : ExecJob} (s : Text)
      → Step running j running
          (broadcast (ExecStreamEvent.stderr s) (logged (ExecStreamEvent.stderr s) j))
  finalise : {j : ExecJob} (x : ExecRecord) → Step running j (finalised x) (set_final x j)
  announce :
      {j : ExecJob} (x : ExecRecord)
      → Step
          (finalised x)
          j
          (announced x)
          (broadcast (ExecStreamEvent.result x) (logged (ExecStreamEvent.result x) j))
  close : {j : ExecJob} (x : ExecRecord) → Step (announced x) j (done x) (close_subscribers j)

-- What a job that CreateExec has made can come to.
pub data Reachable : Phase → ExecJob → Type 0 where
  start : Reachable running new_job
  then : {p q : Phase} {j k : ExecJob} → Reachable p j → Step p j q k → Reachable q k
