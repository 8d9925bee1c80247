-- ===== src/Ssh/Session/Lifecycle.antt =====
-- The life cycle of session.rs as a relation on states, and what every sequence of calls keeps.
use rem_cmd.Prelude.{◌≡◌, refl, ◌↔◌, List, [], ◌∷◌, ok, err, arith}
use rem_cmd.Ssh.Error.{SshError, invalid_state}
use rem_cmd.Ssh.Session.{
  SessionState, disconnected, connecting, authenticating, connected, disconnecting, failed,
  SshSession, default_session, Outcome, begin_connect, begin_authentication, mark_connected,
  begin_disconnect, mark_disconnected, mark_failed,
}

-- The public calls that change the state.
pub data Call : Type 0 where
  connect authenticate succeed disconnect finish fail : Call

unfoldable pub perform : Call → SshSession → Outcome
unfolding begin_connect begin_authentication mark_connected begin_disconnect mark_disconnected
    mark_failed
perform connect s = begin_connect s
perform authenticate s = begin_authentication s
perform succeed s = mark_connected s
perform disconnect s = begin_disconnect s
perform finish s = mark_disconnected s
perform fail s = mark_failed s

-- The diagram that the comments of session.rs describe: a call and the states it joins.
pub data Edge : Call → SessionState → SessionState → Type 0 where
  start : Edge connect disconnected connecting
  retry : Edge connect failed connecting
  transport_ready : Edge authenticate connecting authenticating
  accepted : Edge succeed authenticating connected
  abort_transport : Edge disconnect connecting disconnecting
  abort_authentication : Edge disconnect authenticating disconnecting
  close : Edge disconnect connected disconnecting
  closed : Edge finish disconnecting disconnected
  lost : (s : SessionState) → Edge fail s failed

ruleset edges = (
  start, retry, transport_ready, accepted, abort_transport, abort_authentication, close, closed,
  lost,
)

Edge-of-perform : (c : Call) (s t : SshSession) → perform c s ≡ (t, ok tt) → Edge c s.state t.state
unfolding perform
Edge-of-perform c s t h = grind (arith, edges)

perform-of-Edge :
    {c : Call} {a b : SessionState}
    → Edge c a b
    → perform c (record { state = a }) ≡ (record { state = b }, ok tt)
unfolding perform
perform-of-Edge start = refl
perform-of-Edge retry = refl
perform-of-Edge transport_ready = refl
perform-of-Edge accepted = refl
perform-of-Edge abort_transport = refl
perform-of-Edge abort_authentication = refl
perform-of-Edge close = refl
perform-of-Edge closed = refl
perform-of-Edge (lost s) = refl

-- A call succeeds exactly along an edge of the diagram, to the state where that edge ends.
pub perform-ok_iff :
    (c : Call) (s t : SshSession) → (perform c s ≡ (t, ok tt)) ↔ Edge c s.state t.state
perform-ok_iff c s t = (Edge-of-perform c s t, perform-of-Edge)

-- A refused call leaves the session as it was, and its error has the kind `InvalidState`.
pub perform-err :
    (c : Call) (s : SshSession) {e : SshError}
    → (perform c s).1 ≡ err e
    → ((perform c s).0 ≡ s) × (e.kind ≡ invalid_state)
unfolding perform
perform-err connect s h = ground arith
perform-err authenticate s h = ground arith
perform-err _ s h = ground arith

-- A session driven by a sequence of calls, their results ignored.
unfoldable pub drive : SshSession → List Call → SshSession
drive s [] = s
drive s (c ∷ cs) = drive (perform c s).0 cs

-- `xs` is a subsequence of the calls.
pub data Holds : List Call → List Call → Type 0 where
  nothing : (cs : List Call) → Holds [] cs
  skip : {xs cs : List Call} (c : Call) → Holds xs cs → Holds xs (c ∷ cs)
  take_one : {xs cs : List Call} (c : Call) → Holds xs cs → Holds (c ∷ xs) (c ∷ cs)

Holds-tail : {x : Call} {xs cs : List Call} → Holds (x ∷ xs) cs → Holds xs cs
Holds-tail (skip c h) = skip c (Holds-tail h)
Holds-tail (take_one c h) = skip c h

-- The calls that a state still has to see before the session can be connected.
abbrev missing : SessionState → List Call
missing connected = []
missing authenticating = succeed ∷ []
missing connecting = authenticate ∷ succeed ∷ []
missing _ = connect ∷ authenticate ∷ succeed ∷ []

missing-perform :
    (c : Call) (a : SessionState) (cs : List Call)
    → Holds (missing (perform c (record { state = a })).0.state) cs
    → Holds (missing a) (c ∷ cs)
unfolding perform
missing-perform connect disconnected cs h = take_one connect h
missing-perform authenticate disconnected cs h = skip authenticate h
missing-perform succeed disconnected cs h = skip succeed h
missing-perform disconnect disconnected cs h = skip disconnect h
missing-perform finish disconnected cs h = skip finish h
missing-perform fail disconnected cs h = skip fail h
missing-perform _ _ cs h = search (skip, take_one, nothing, Holds-tail)

missing-drive :
    (s : SshSession) (cs : List Call) → (drive s cs).state ≡ connected → Holds (missing s.state) cs
unfolding drive
missing-drive s [] h = rw h (nothing [])
missing-drive s (c ∷ cs) h = missing-perform c s.state cs (missing-drive (perform c s).0 cs h)

-- If a session that starts as new is connected after some calls, these hold a `begin_connect`,
-- after it a `begin_authentication`, and after that a `mark_connected`.
pub connected_needs_handshake :
    (cs : List Call)
    → (drive default_session cs).state ≡ connected
    → Holds (connect ∷ authenticate ∷ succeed ∷ []) cs
connected_needs_handshake cs h = missing-drive default_session cs h
