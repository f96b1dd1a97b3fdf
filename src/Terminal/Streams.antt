-- ===== src/Terminal/Streams.antt =====
-- What the subscribers of a command are sent (internal/browserterm/exec.go), in every order in which
-- the steps of the command and of its subscribers may come.
use fascinate.Base.{◌+◌, ℕ, ◌≡◌, refl, ap, none, some, List, [], ◌∷◌}
use fascinate.Database.Records.{ExecRecord}
use fascinate.Terminal.Subscribers.{
  logged, ExecStreamEvent, Reason, ExecJob, Phase, Step, Reachable, subscribe, unsubscribe,
  broadcast, set_final, close_subscribers, receive, without_subscriber,
}
use fascinate.Terminal.Channels.{
  ArePieces, AllEnded, AllPieces, AllTold, AllEnded-append, AllEnded-set, AllPieces-sent_to,
  AllTold-sent_to, AllEnded-dropped, AllEnded-all_closed, AllPieces-without_subscriber,
  AllTold-without_subscriber, AllPieces-closed_as, AllTold-closed_as, AllPieces-receive,
  AllTold-receive,
}

-- The record that is set, and what the open channels have been sent, by the phase of the command.
abbrev pub InPhase : Phase → ExecJob → Type 0
InPhase Phase.running j = (j.final ≡ none) × AllPieces j.subscribers
InPhase (Phase.finalised x) j = (j.final ≡ some x) × AllPieces j.subscribers
InPhase (Phase.announced x) j = (j.final ≡ some x) × AllTold x j.subscribers
InPhase (Phase.done x) j = (j.final ≡ some x) × (j.subscribers ≡ [])

abbrev pub Invariant : Phase → ExecJob → Type 0
Invariant p j = AllEnded j.final j.ended × InPhase p j

pub subscribe-late :
    (x : ExecRecord) (j : ExecJob)
    → j.final ≡ some x
    → (subscribe j ≡ record j {
      ended =
          record {
            channel = record { sent = ExecStreamEvent.result x ∷ []; pending = 1; earlier = j.log };
            reason = Reason.late;
          }
          ∷ j.ended;
    })
unfolding subscribe
subscribe-late x j set = rw set refl

pub subscribe-fresh :
    (j : ExecJob)
    → j.final ≡ none
    → (subscribe j ≡ record j {
      subscribers =
          (j.next_sub_id, record { sent = []; pending = 0; earlier = j.log }) ∷ j.subscribers;
      next_sub_id = j.next_sub_id + 1;
    })
unfolding subscribe
subscribe-fresh j unset = rw unset refl

subscribed-Invariant : (p : Phase) (j : ExecJob) → Invariant p j → Invariant p (subscribe j)
subscribed-Invariant Phase.running j (ends, (unset, pieces)) =
    rw (subscribe-fresh j unset) (ends, (unset, (tt, pieces)))
subscribed-Invariant (Phase.finalised x) j (ends, (set, pieces)) =
    rw (subscribe-late x j set) (((x, (set, ([], (refl, tt)))), ends), (set, pieces))
subscribed-Invariant (Phase.announced x) j (ends, (set, told)) =
    rw (subscribe-late x j set) (((x, (set, ([], (refl, tt)))), ends), (set, told))
subscribed-Invariant (Phase.done x) j (ends, (set, closed)) =
    rw (subscribe-late x j set) (((x, (set, ([], (refl, tt)))), ends), (set, closed))

unsubscribed-Invariant :
    (i : ℕ) (p : Phase) (j : ExecJob) → Invariant p j → Invariant p (unsubscribe i j)
unfolding unsubscribe without_subscriber
unsubscribed-Invariant i Phase.running j (ends, (unset, pieces)) = (
  AllEnded-append j.final _ j.ended (AllPieces-closed_as j.final i j.subscribers pieces) ends,
  (unset, AllPieces-without_subscriber i j.subscribers pieces),
)
unsubscribed-Invariant i (Phase.finalised x) j (ends, (set, pieces)) = (
  AllEnded-append j.final _ j.ended (AllPieces-closed_as j.final i j.subscribers pieces) ends,
  (set, AllPieces-without_subscriber i j.subscribers pieces),
)
unsubscribed-Invariant i (Phase.announced x) j (ends, (set, told)) = (
  AllEnded-append j.final _ j.ended (rw set (AllTold-closed_as x i j.subscribers told)) ends,
  (set, AllTold-without_subscriber x i j.subscribers told),
)
unsubscribed-Invariant i (Phase.done x) j (ends, (set, closed)) = (
  AllEnded-append j.final _ j.ended (rw set (AllTold-closed_as x i j.subscribers (rw closed tt)))
      ends,
  (set, ap (without_subscriber i) closed),
)

received-Invariant :
    (i : ℕ) (p : Phase) (j : ExecJob)
    → Invariant p j
    → Invariant p (record j { subscribers = receive i j.subscribers })
unfolding receive
received-Invariant i Phase.running j (ends, (unset, pieces)) =
    (ends, (unset, AllPieces-receive i j.subscribers pieces))
received-Invariant i (Phase.finalised x) j (ends, (set, pieces)) =
    (ends, (set, AllPieces-receive i j.subscribers pieces))
received-Invariant i (Phase.announced x) j (ends, (set, told)) =
    (ends, (set, AllTold-receive x i j.subscribers told))
received-Invariant i (Phase.done x) j (ends, (set, closed)) = (ends, (set, ap (receive i) closed))

wrote-Invariant :
    (e : ExecStreamEvent) (j : ExecJob)
    → ((s : List ExecStreamEvent) → ArePieces s → ArePieces (e ∷ s))
    → Invariant Phase.running j
    → Invariant Phase.running (broadcast e (logged e j))
unfolding broadcast
wrote-Invariant e j piece (ends, (unset, pieces)) = (
  AllEnded-append j.final _ j.ended (AllEnded-dropped j.final j.subscribers pieces) ends,
  (unset, AllPieces-sent_to e j.subscribers piece pieces),
)

Step-Invariant : {p q : Phase} {j k : ExecJob} → Step p j q k → Invariant p j → Invariant q k
unfolding broadcast set_final close_subscribers
Step-Invariant (Step.subscribed {p} {j}) h = subscribed-Invariant p j h
Step-Invariant (Step.unsubscribed {p} {j} i) h = unsubscribed-Invariant i p j h
Step-Invariant (Step.received {p} {j} i) h = received-Invariant i p j h
Step-Invariant (Step.wrote_out {j} s) h =
    wrote-Invariant (ExecStreamEvent.stdout s) j (λ older a. a) h
Step-Invariant (Step.wrote_error {j} s) h =
    wrote-Invariant (ExecStreamEvent.stderr s) j (λ older a. a) h
Step-Invariant (Step.finalise {j} x) (ends, (unset, pieces)) =
    (AllEnded-set x j.ended (rw (← unset) ends), (refl, pieces))
Step-Invariant (Step.announce {j} x) (ends, (set, pieces)) = (
  AllEnded-append j.final _ j.ended (AllEnded-dropped j.final j.subscribers pieces) ends,
  (set, AllTold-sent_to x j.subscribers pieces),
)
Step-Invariant (Step.close {j} x) (ends, (set, told)) = (
  AllEnded-append j.final _ j.ended (rw set (AllEnded-all_closed x j.subscribers told)) ends,
  (set, refl),
)

pub Reachable-Invariant : (p : Phase) (j : ExecJob) → Reachable p j → Invariant p j
Reachable-Invariant p j Reachable.start = (tt, (refl, tt))
Reachable-Invariant p j (Reachable.then before step) =
    Step-Invariant step (Reachable-Invariant _ _ before)
