-- ===== src/Session/Io.antt =====
-- src/session.rs: the loop of `session_io_task` that calls the parser until the packets are
-- consumed, and the shutdown callback. The parser is C code, a parameter: it takes the session and
-- gives the session that it leaves and its return value.
use yuri.Base.{
  ℕ, zero, suc, Bool, true, false, not, ◌||◌, Option, none, some, if◌then◌else◌, leb, ◌==◌,
}
use yuri.Session.{Session}
use yuri.Session.Read.{available}

module _ (parse : Session → Session × ℕ) where
  -- One call, and whether the loop goes on behind it.
  unfoldable pub parse_once : Session → Session × Bool
  parse_once s =
      let (s', ret) = parse s in
      (s', not (ret == 2 || not (s'.eof == 0) || leb (available s) (available s')))

  -- The loop on fuel; `none` means that the fuel ran out.
  unfoldable pub parse_loop : ℕ → Session → Option Session
  unfolding parse_once
  parse_loop zero s = none
  parse_loop (suc fuel) s =
      let step = parse_once s in
      let rest = parse_loop fuel step.0 in
      if available s == 0 then some s else if step.1 then rest else some step.0

-- Marks the shutdown callback as called: whether this caller makes the call.
unfoldable pub claim_shutdown : Session → Session × Bool
claim_shutdown s =
    if s.shutdown_called then (s, false) else (record s { shutdown_called = true }, true)
