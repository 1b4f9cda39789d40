-- ===== src/Session/Manager.antt =====
-- src/session.rs: `SessionManager`, and `setup_connection`. A file descriptor is the bit pattern
-- of its i32. The locks are taken and released within each operation.
use yuri.Base.{ℕ, ◌+◌, ◌^◌, ◌&&◌, Option, List, [], if◌then◌else◌, ltb, leb, u32, length, map}
use yuri.Base.Map.{lookup, insert, remove}
use yuri.Session.{Session, Outcome, ok, err, panicked, max_sessions, max_sessions_exceeded, new}

-- The map of sessions, by file descriptor. The callbacks and the listeners are not kept.
pub record Manager : Type 0 where
  pub sessions : List (ℕ × Session)
  pub next_fd : ℕ

unfoldable pub empty : Manager
empty = record { sessions = []; next_fd = 1 }

-- `next_fd.fetch_add(1)` wraps; the test is signed.
unfoldable pub allocate_fd : Manager → Manager × Outcome ℕ
allocate_fd m =
    let fd = m.next_fd in
    (
      record m { next_fd = u32 (fd + 1) },
      if ltb max_sessions fd && ltb fd (2 ^ 31) then err max_sessions_exceeded else ok fd,
    )

unfoldable pub session_count : Manager → ℕ
session_count m = length m.sessions

unfoldable pub insert_session : Manager → ℕ → Session → Manager × Outcome (Unit {0})
unfolding insert session_count
insert_session m fd s =
    if leb max_sessions (session_count m)
    then (m, err max_sessions_exceeded)
    else (record m { sessions = insert fd s m.sessions }, ok tt)

unfoldable pub get_session : Manager → ℕ → Option Session
unfolding lookup
get_session m fd = lookup fd m.sessions

unfoldable pub remove_session : Manager → ℕ → Manager
unfolding remove
remove_session m fd = record m { sessions = remove fd m.sessions }

unfoldable pub get_all_fds : Manager → List ℕ
get_all_fds m = map (λ e. e.0) m.sessions

-- A new session for a connection from the address `ip_net`, in network byte order.
unfoldable pub setup_connection : Manager → ℕ → Manager × Outcome ℕ
unfolding allocate_fd insert_session
setup_connection m ip_net =
    let (m1, allocated) = allocate_fd m in
    elim allocated [
      | ok fd ↦
          let (m2, inserted) =
            insert_session m1 fd (record (new fd) { client_addr_raw = ip_net }) in
          elim inserted [ ok _ ↦ (m2, ok fd) | err e ↦ (m2, err e) | panicked ↦ (m2, panicked) ]
      | err e ↦ (m1, err e)
      | panicked ↦ (m1, panicked)
    ]
