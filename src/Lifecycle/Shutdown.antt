-- ===== src/Lifecycle/Shutdown.antt =====
-- When a server is told to end, and how often the callback is called.
use yuri.Base.{
  ℕ, ◌+◌, ◌≤◌, ◌≡◌, refl, sym, ◌∙◌, arith, Bool, true, false, ◌||◌, ◌&&◌, List, [], ◌∷◌, Option,
  none, some, if◌then◌else◌, ◌==◌, length, length-append, Bool-cases, Option-cases, inl, inr, ap,
}
use yuri.Lifecycle.{
  ServerState, Globals, Call, core_init, core_cleanup, request_shutdown, poll, set_termfunc,
  handle_signal, call_term_func, from_signal_num, is_shutdown, rust_handle_signal, with_server,
  rust_set_termfunc, rust_request_shutdown, processed, rust_should_shutdown, handle, run,
}

-- A call that asks for the end of the server.
abbrev pub asks : Call → Bool
asks request_shutdown = true
asks (handle_signal signum) = signum == 2 || signum == 15
asks other = false

abbrev pub any_asks : List Call → Bool
any_asks [] = false
any_asks (c ∷ cs) = asks c || any_asks cs

-- A call between the start and the end of the server.
abbrev pub keeps : Call → Bool
keeps core_init = false
keeps core_cleanup = false
keeps other = true

abbrev pub every_keeps : List Call → Bool
every_keeps [] = true
every_keeps (c ∷ cs) = keeps c && every_keeps cs

both : (p q : Bool) → (p && q) ≡ true → (p ≡ true) × (q ≡ true)
both true q h = (refl, h)
both false q h = cc

or_assoc : (p q r : Bool) → ((p || q) || r) ≡ (p || (q || r))
or_assoc true q r = refl
or_assoc false q r = refl

abbrev pub flag : Bool → ℕ
flag true = 1
flag false = 0

-- Whether the server is told to end at the next poll.
abbrev pub due : ServerState → Bool → Bool
due state pending = state.shutdown_requested || pending

-- One for a signal that ends the server.
abbrev pub ending : Call → ℕ
ending (handle_signal signum) = if signum == 2 || signum == 15 then 1 else 0
ending other = 0

abbrev pub endings : List Call → ℕ
endings [] = 0
endings (c ∷ cs) = ending c + endings cs

signal_lem : (signum : ℕ) → is_shutdown (from_signal_num signum) ≡ (signum == 2 || signum == 15)
unfolding from_signal_num
signal_lem signum = ground arith

-- A running server.
abbrev pub running : ServerState → Bool → Globals
running state pending = record { global_server_state = some state; shutdown_pending = pending }

-- The server runs on, and it is due to end if it was or if the call asks for it.
abbrev Runs : ServerState → Bool → Call → Globals → Type 0
Runs state pending c next =
    (state' : ServerState) × (pending' : Bool) × (next ≡ running state' pending')
    × (due state' pending' ≡ (due state pending || asks c))

or_false : (b : Bool) → b ≡ (b || false)
or_false b = ground arith

step_lem :
    (state : ServerState) (pending : Bool) (c : Call)
    → keeps c ≡ true
    → Runs state pending c (handle (running state pending) c).0
unfolding handle rust_request_shutdown rust_set_termfunc rust_should_shutdown rust_handle_signal
step_lem state pending core_init h = cc
step_lem state pending core_cleanup h = cc
step_lem state pending request_shutdown h =
    (record state { shutdown_requested = true }, pending, refl, ground arith)
step_lem state true poll h = (record state { shutdown_requested = true }, false, refl, ground arith)
step_lem state false poll h = (state, false, refl, or_false _)
step_lem state pending (set_termfunc func) h =
    (record state { term_func = func }, pending, refl, or_false _)
step_lem state pending (handle_signal signum) h =
    elim (Bool-cases (is_shutdown (from_signal_num signum))) [
      | inl ends ↦
          (state, true, rw (rust_handle_signal, ends) refl, ground (arith, signal_lem signum, ends))
      | inr stays ↦ (
        state,
        pending,
        rw (rust_handle_signal, stays) refl,
        ground (arith, signal_lem signum, stays),
      )
    ]

poll_lem :
    (state : ServerState) (pending : Bool)
    → (rust_should_shutdown (running state pending)).2 ≡ due state pending
unfolding rust_should_shutdown rust_request_shutdown
poll_lem state true = ground arith
poll_lem state false = or_false _

-- A running server that is neither started again nor cleaned up is told to end at a poll if and only if
-- it was due to end at first, or a call since then asked for it: a request, or one of the two signals.
pub run-should_shutdown :
    (state : ServerState) (pending : Bool) (calls : List Call)
    → every_keeps calls ≡ true
    → (rust_should_shutdown (run (running state pending) calls).0).2
      ≡ (due state pending || any_asks calls)
unfolding run
run-should_shutdown state pending [] h = poll_lem state pending ∙ or_false _
run-should_shutdown state pending (c ∷ cs) h =
    let k = both (keeps c) (every_keeps cs) h in
    let r = step_lem state pending c k.0 in
    let rest = run-should_shutdown r.0 r.1 cs k.1 in
    rw r.2
      (rest ∙ ap (λ b. b || any_asks cs) r.3 ∙ or_assoc (due state pending) (asks c) (any_asks cs))

with_server-pending :
    (g : Globals) (f : ServerState → ServerState)
    → (with_server g f).shutdown_pending ≡ g.shutdown_pending
with_server-pending g f = elim (Option-cases g.global_server_state) [
  | inl e ↦ rw (with_server, e) refl
  | inr (state, e) ↦ rw (with_server, e) refl
]

length-processed :
    (server : Option ServerState)
    → length (processed (record { global_server_state = server; shutdown_pending = true })) ≤ 1
unfolding processed call_term_func
length-processed none = omega arith
length-processed (some state) = elim (Option-cases state.term_func) [
  | inl e ↦ rw e (omega arith)
  | inr (func, e) ↦ rw e (omega arith)
]

poll_calls :
    (server : Option ServerState) (pending : Bool)
    → length (processed (record { global_server_state = server; shutdown_pending = pending }))
        + flag
            (rust_should_shutdown (record {
              global_server_state = server;
              shutdown_pending = pending;
            })).0.shutdown_pending
      ≤ 0 + flag pending
unfolding rust_should_shutdown
poll_calls server true = omega (arith, length-processed server)
poll_calls server false = unfold processed in omega arith

length-handle :
    (g : Globals) (c : Call)
    → length (handle g c).1 + flag (handle g c).0.shutdown_pending
      ≤ ending c + flag g.shutdown_pending
unfolding handle
length-handle g core_init = omega arith
length-handle g core_cleanup = omega arith
length-handle g request_shutdown =
    unfold rust_request_shutdown in
    rw (with_server-pending g (λ state. record state { shutdown_requested = true })) (omega arith)
length-handle g poll = poll_calls g.global_server_state g.shutdown_pending
length-handle g (set_termfunc func) =
    unfold rust_set_termfunc in
    rw (with_server-pending g (λ state. record state { term_func = func })) (omega arith)
length-handle g (handle_signal signum) = elim (Bool-cases (is_shutdown (from_signal_num signum))) [
  | inl ends ↦ rw (rust_handle_signal, ends) (rw (sym (signal_lem signum) ∙ ends) (omega arith))
  | inr stays ↦ rw (rust_handle_signal, stays) (omega arith)
]

-- The callback is called at most once for each signal that ends the server, and for one that was
-- pending at first.
pub length-run :
    (g : Globals) (calls : List Call)
    → length (run g calls).1 + flag (run g calls).0.shutdown_pending
      ≤ endings calls + flag g.shutdown_pending
unfolding run
length-run g [] = omega arith
length-run g (c ∷ cs) = omega (
  arith,
  length-handle g c,
  length-run (handle g c).0 cs,
  length-append (handle g c).1 (run (handle g c).0 cs).1,
)
