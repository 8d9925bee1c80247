-- ===== src/Ssh/Connection/Decisions/Matching.antt =====
-- A decision on a host key answers the question that it was taken for.
use rem_cmd.Prelude.{
  ℕ, Bool, true, false, not, ◌&&◌, ◌≡◌, refl, sym, ap, List, [], ◌∷◌, All, All-append, length,
  length-append, ◌+◌, Bool-cases, inl, inr, arith,
}
use rem_cmd.Ssh.Connection.{HostKeyDecision}
use rem_cmd.Ssh.Connection.Decisions.{
  Taken, Gate, new_gate, send_host_key_decision, ask, deliver, receive_decision, moved, received,
  leave, GateStep, asks, delivers, receives, leaves, decides, gate_step, run_gate,
}

-- Each decision was taken for the question that it was received for.
unfoldable pub IsMatching : List (ℕ × Taken) → Type 0
IsMatching answers = All (λ a. a.0 ≡ a.1.0) answers

abbrev count : Bool → ℕ
count true = 1
count false = 0

-- How many decisions can still be received.
abbrev open_decisions : Gate → ℕ
open_decisions g = count g.is_pending + (length g.in_flight + length g.channel)

record IsSound (g : Gate) : Type 0 where
  matching : IsMatching g.answers
  sent_for : All (λ d. d.0 ≡ g.question) g.in_flight
  received_for : All (λ d. d.0 ≡ g.question) g.channel
  single : g.is_running ≡ true → open_decisions g ≡ count g.is_waiting
  gone : g.is_running ≡ false → g.is_waiting ≡ false

empty-All : {A : Type 0} → (P : A → Type 0) → (xs : List A) → length xs ≡ 0 → All P xs
empty-All P [] h = tt
empty-All P (x ∷ xs) h = ground arith

count-false : (b : Bool) → b ≡ false → count b ≡ 0
count-false true h = ground arith
count-false false h = refl

-- No decision is left when the worker asks.
asked-IsSound :
    (g : Gate)
    → g.is_running ≡ true
    → g.is_waiting ≡ false
    → IsSound g
    → IsSound (record g { is_pending = true; is_waiting = true; question = g.question + 1 })
asked-IsSound g running idle sound =
    let none_left = sound.single running in
    let not_waiting = count-false g.is_waiting idle in
    record {
      matching = sound.matching;
      sent_for = empty-All (λ d. d.0 ≡ g.question + 1) g.in_flight (omega arith);
      received_for = empty-All (λ d. d.0 ≡ g.question + 1) g.channel (omega arith);
      single = λ _. omega arith;
      gone = λ stopped. ground arith;
    }

ask-IsSound : (g : Gate) → IsSound g → IsSound (ask g)
unfolding ask
ask-IsSound g sound = elim (Bool-cases (g.is_running && not g.is_waiting)) [
  | inl t ↦ simp t (asked-IsSound g (ground arith) (ground arith) sound)
  | inr f ↦ simp f sound
]

decided-IsSound :
    (g : Gate)
    → (decision : HostKeyDecision) → g.is_pending ≡ true
    → IsSound g
    → IsSound (record g { is_pending = false; in_flight = (g.question, decision) ∷ g.in_flight })
decided-IsSound g decision pending sound = record {
  matching = sound.matching;
  sent_for = (refl, sound.sent_for);
  received_for = sound.received_for;
  single = λ running. let one = sound.single running in let was = ap count pending in omega arith;
  gone = sound.gone;
}

decide-IsSound :
    (g : Gate)
    → (decision : HostKeyDecision) → IsSound g
    → IsSound (send_host_key_decision decision g).0
unfolding send_host_key_decision
decide-IsSound g decision sound = elim (Bool-cases g.is_pending) [
  | inl t ↦ simp t (decided-IsSound g decision t sound)
  | inr f ↦ simp f sound
]

deliver-IsSound : (g : Gate) → IsSound g → IsSound (deliver g)
unfolding deliver
deliver-IsSound g sound = go g.in_flight sound.sent_for sound.single
  where
    go :
        (ds : List Taken)
        → All (λ d. d.0 ≡ g.question) ds
        → (g.is_running ≡ true
            → count g.is_pending + (length ds + length g.channel) ≡ count g.is_waiting)
        → IsSound (moved ds g)
    go [] sent single = sound
    go (d ∷ ds) (head, tail) single = record {
      matching = sound.matching;
      sent_for = tail;
      received_for =
          All-append (λ e. e.0 ≡ g.question) g.channel sound.received_for (d ∷ []) (head, tt);
      single =
          λ running. let one = single running in omega (arith, length-append g.channel (d ∷ []));
      gone = sound.gone;
    }

receive-IsSound : (g : Gate) → IsSound g → IsSound (receive_decision g)
unfolding receive_decision IsMatching
receive-IsSound g sound = elim (Bool-cases g.is_waiting) [
  | inl t ↦ simp t (go t g.channel sound.received_for sound.single)
  | inr f ↦ simp f sound
]
  where
    go :
        g.is_waiting ≡ true
        → (ds : List Taken) → All (λ d. d.0 ≡ g.question) ds
        → (g.is_running ≡ true
            → count g.is_pending + (length g.in_flight + length ds) ≡ count g.is_waiting)
        → IsSound (received ds g)
    go waiting [] holds single = sound
    go waiting (d ∷ ds) (head, tail) single = record {
      matching = (sym head, sound.matching);
      sent_for = sound.sent_for;
      received_for = tail;
      single = λ running. let one = single running in let was = ap count waiting in omega arith;
      gone = λ _. refl;
    }

leave-IsSound : (g : Gate) → IsSound g → IsSound (leave g)
unfolding leave
leave-IsSound g sound = record {
  matching = sound.matching;
  sent_for = sound.sent_for;
  received_for = sound.received_for;
  single = λ running. ground arith;
  gone = λ _. refl;
}

gate_step-IsSound : (step : GateStep) → (g : Gate) → IsSound g → IsSound (gate_step step g)
unfolding gate_step
gate_step-IsSound asks g sound = ask-IsSound g sound
gate_step-IsSound delivers g sound = deliver-IsSound g sound
gate_step-IsSound receives g sound = receive-IsSound g sound
gate_step-IsSound leaves g sound = leave-IsSound g sound
gate_step-IsSound (decides decision) g sound = decide-IsSound g decision sound

run_gate-IsSound : (steps : List GateStep) → (g : Gate) → IsSound g → IsSound (run_gate steps g)
unfolding run_gate
run_gate-IsSound [] g sound = sound
run_gate-IsSound (step ∷ steps) g sound =
    run_gate-IsSound steps (gate_step step g) (gate_step-IsSound step g sound)

-- In every interleaving of the worker with its handles, each decision that is received was taken
-- for the question that the worker waits on, so none that is late is used for another host key.
pub run_gate-IsMatching : (steps : List GateStep) → IsMatching (run_gate steps new_gate).answers
unfolding IsMatching
run_gate-IsMatching steps =
    let start : IsSound new_gate = record {
      matching = tt;
      sent_for = tt;
      received_for = tt;
      single = λ _. refl;
      gone = λ _. refl;
    } in
    (run_gate-IsSound steps new_gate start).matching
