-- ===== src/Tests/CoreTests.antt =====
-- src/core.rs and src/ffi/core.rs on concrete inputs.
use yuri.Base.{◌≡◌, refl, false, ◌||◌, List, [], ◌∷◌, none, some}
use yuri.Lifecycle.{
  ServerState, Call, core_init, poll, set_termfunc, handle_signal, rust_should_shutdown, run,
}
use yuri.Lifecycle.Shutdown.{running, due, any_asks, run-should_shutdown}

-- A callback, two signals and a poll.
abbrev calls : List Call
calls = set_termfunc (some 4) ∷ handle_signal 13 ∷ handle_signal 15 ∷ poll ∷ []

abbrev new_state : ServerState
new_state = record { shutdown_requested = false; term_func = none }

-- The callback is called.
called : (run (running new_state false) calls).1 ≡ 4 ∷ []
unfolding run
called = refl

-- A signal that is processed before the start is lost.
lost_signal :
    (rust_should_shutdown
      (run
        (record { global_server_state = none; shutdown_pending = false })
        (handle_signal 2 ∷ poll ∷ core_init ∷ [])).0).2
    ≡ false
unfolding run
lost_signal = refl

run-should_shutdown_example :
    (rust_should_shutdown (run (running new_state false) calls).0).2
    ≡ (due new_state false || any_asks calls)
run-should_shutdown_example = run-should_shutdown new_state false calls refl
