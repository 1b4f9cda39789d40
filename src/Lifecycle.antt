-- ===== src/Lifecycle.antt =====
-- src/core.rs and the functions of src/ffi/core.rs: the state of a running server, its signals, and when
-- it is told to end. The numbers of the signals are those of Linux; a callback is a number, and a call of
-- it is listed.
pub mod Shutdown
use yuri.Base.{
  ℕ, ◌+◌, ◌≤◌, ◌≡◌, refl, sym, ◌∙◌, arith, Bool, true, false, ◌||◌, ◌&&◌, List, [], ◌∷◌, ◌++◌,
  Option, none, some, if◌then◌else◌, ◌==◌, length, length-append, Bool-cases, Option-cases, inl,
  inr, ap,
}

pub record ServerState : Type 0 where
  pub shutdown_requested : Bool
  pub term_func : Option ℕ

unfoldable pub create_server_state : ServerState
create_server_state = record { shutdown_requested = false; term_func = none }

unfoldable pub call_term_func : ServerState → List ℕ
call_term_func state = elim state.term_func [ none ↦ [] | some func ↦ func ∷ [] ]

pub data Signal : Type 0 where
  interrupt terminate broken_pipe : Signal

unfoldable pub from_signal_num : ℕ → Option Signal
from_signal_num signum =
    if signum == 2
    then some interrupt
    else if signum == 15
    then some terminate
    else if signum == 13
    then some broken_pipe
    else none

abbrev pub should_shutdown : Signal → Bool
should_shutdown interrupt = true
should_shutdown terminate = true
should_shutdown broken_pipe = false

-- The two globals.
pub record Globals : Type 0 where
  pub global_server_state : Option ServerState
  pub shutdown_pending : Bool

-- What the C code and the signal handlers call.
pub data Call : Type 0 where
  core_init core_cleanup request_shutdown poll : Call
  set_termfunc : (func : Option ℕ) → Call
  handle_signal : (signum : ℕ) → Call

abbrev pub is_shutdown : Option Signal → Bool
is_shutdown none = false
is_shutdown (some signal) = should_shutdown signal

unfoldable pub rust_handle_signal : Globals → ℕ → Globals
unfolding from_signal_num
rust_handle_signal g signum =
    if is_shutdown (from_signal_num signum) then record g { shutdown_pending = true } else g

abbrev pub with_server : Globals → (ServerState → ServerState) → Globals
with_server g f = elim g.global_server_state [
  | none ↦ g
  | some state ↦ record g { global_server_state = some (f state) }
]

unfoldable pub rust_set_termfunc : Globals → Option ℕ → Globals
rust_set_termfunc g func = with_server g (λ state. record state { term_func = func })

unfoldable pub rust_request_shutdown : Globals → Globals
rust_request_shutdown g = with_server g (λ state. record state { shutdown_requested = true })

-- The calls of the callback when a pending signal is processed.
unfoldable pub processed : Globals → List ℕ
unfolding call_term_func
processed g =
    if g.shutdown_pending
    then elim g.global_server_state [ none ↦ [] | some state ↦ call_term_func state ]
    else []

abbrev pub requested : Option ServerState → Bool
requested none = false
requested (some state) = state.shutdown_requested

-- The new globals, the callbacks that were called, and the answer.
unfoldable pub rust_should_shutdown : Globals → Globals × List ℕ × Bool
unfolding processed rust_request_shutdown
rust_should_shutdown g =
    let g' =
      if g.shutdown_pending
      then record (rust_request_shutdown g) { shutdown_pending = false }
      else g in
    (g', processed g, requested g'.global_server_state)

unfoldable pub handle : Globals → Call → Globals × List ℕ
unfolding rust_should_shutdown rust_set_termfunc rust_handle_signal create_server_state
handle g core_init = (record g { global_server_state = some create_server_state }, [])
handle g core_cleanup = (record g { global_server_state = none }, [])
handle g request_shutdown = (rust_request_shutdown g, [])
handle g poll = let (g', calls, _answer) = rust_should_shutdown g in (g', calls)
handle g (set_termfunc func) = (rust_set_termfunc g func, [])
handle g (handle_signal signum) = (rust_handle_signal g signum, [])

unfoldable pub run : Globals → List Call → Globals × List ℕ
unfolding handle
run g [] = (g, [])
run g (c ∷ cs) =
    let (next, called) = handle g c in let (last, more) = run next cs in (last, called ++ more)
