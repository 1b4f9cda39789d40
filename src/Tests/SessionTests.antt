-- ===== src/Tests/SessionTests.antt =====
-- src/session.rs on concrete inputs.
use yuri.Base.{ℕ, ◌+◌, ◌-◌, ◌^◌, ◌≡◌, refl, [], ◌∷◌, arith, some, false}
use yuri.Session.{Session, ok, err, panicked, new, read_out_of_bounds}
use yuri.Session.Read.{read_u8, read_u16, receive, read_buf, skip, flush_read_buffer}
use yuri.Session.Write.{write_u16, resize, grown}
use yuri.Session.Valid.{IsValid, new-IsValid, Returns}
use yuri.Session.Wire.{deliver, deliver_lem}
use yuri.Session.Calls.{Call, skips, receives, writes, commits, compacts, flushes, run-Safe}
use yuri.Session.Calls
use yuri.Session.Read
use yuri.Session.Limit.{Event, connects, closes, setup_connection-run, setup_connection-get_session}
use yuri.Session.Limit
use yuri.Session.Manager.{empty, setup_connection}
use yuri.Session.Progress.{Ended, parse_loop_total}
use yuri.Session.Io.{parse_loop}

-- As `test_read_u16_little_endian`.
little_endian : read_u16 (receive (new 1) (0x34 ∷ 0x12 ∷ [])).0 0 ≡ ok 0x1234
unfolding read_u16 receive new
little_endian = refl

-- A position behind the end is an error.
out_of_bounds : read_u8 (receive (new 1) (7 ∷ [])).0 1 ≡ err (read_out_of_bounds 1 1 1)
unfolding read_u8 receive new
out_of_bounds = refl

-- A write at the last position of a `usize` gets past the checks and panics.
last_position : write_u16 (new 1) (2 ^ 64 - 1) 5 ≡ panicked
unfolding write_u16 new grown resize
last_position = refl

-- Two bytes received, one of them read.
abbrev half_read : Session
half_read = record {
  fd = 4;
  client_addr_raw = 0;
  rdata = 7 ∷ 8 ∷ [];
  rdata_pos = 1;
  rdata_size = 2;
  wdata = 1 ∷ 2 ∷ 3 ∷ [];
  wdata_size = 2;
  eof = 0;
  increment = 0;
  shutdown_called = false;
  suppress_notify = false;
  notified = 0;
}

half_read-IsValid : IsValid half_read
half_read-IsValid = omega arith

run-Safe_example : Returns IsValid (
    Calls.run half_read
      (writes 0 (5 ∷ []) ∷ commits 1 ∷ skips 9 ∷ receives (6 ∷ []) ∷ compacts ∷ flushes ∷ []))
run-Safe_example =
    run-Safe half_read
      (writes 0 (5 ∷ []) ∷ commits 1 ∷ skips 9 ∷ receives (6 ∷ []) ∷ compacts ∷ flushes ∷ [])
      (omega arith) half_read-IsValid

deliver_lem_example :
    Returns (λ bytes. bytes ≡ 1 ∷ 2 ∷ 3 ∷ []) (deliver (new 1) half_read (1 ∷ 2 ∷ 3 ∷ []))
unfolding new
deliver_lem_example =
    deliver_lem (new 1) half_read (1 ∷ 2 ∷ 3 ∷ []) (new-IsValid 1) half_read-IsValid refl
      (omega arith) (omega arith)

setup_connection-run_example :
    (setup_connection (Limit.run empty (connects 7 ∷ closes 1 ∷ [])) 8).1 ≡ ok 2
setup_connection-run_example = setup_connection-run (connects 7 ∷ closes 1 ∷ []) 8 (omega arith)

-- A parser that takes one byte.
abbrev take_byte : Session → Session × ℕ
take_byte s = (record s { rdata_pos = s.rdata_pos + 1 }, 0)

parse_loop_total_example :
    (t : Session) × (parse_loop take_byte 2 half_read ≡ some t) × Ended take_byte t × (t.fd ≡ 4)
parse_loop_total_example =
    parse_loop_total take_byte (λ s. s.fd ≡ 4) (λ s h. h) 2 half_read
      (unfold Read.available in omega arith) refl
