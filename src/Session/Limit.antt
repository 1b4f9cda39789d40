-- ===== src/Session/Limit.antt =====
-- The session manager over any history of connections and closes.
use yuri.Base.{
  ℕ, suc, ◌+◌, ◌-◌, ◌≤◌, ◌<◌, ◌^◌, ◌≡◌, ◌≢◌, refl, none, some, List, [], ◌∷◌, arith, if◌then◌else◌,
  ltb, length, All, Bool-cases, inl, inr,
}
use yuri.Base.Map.{lookup, insert, remove, lookup-insert, length-insert, length-remove}
use yuri.Session.{Session, ok, err, max_sessions_exceeded, new}
use yuri.Session.Manager.{Manager, empty, get_session, remove_session, setup_connection}

-- A connection from an address, or the end of a session.
pub data Event : Type 0 where
  connects closes : ℕ → Event

unfoldable pub step : Manager → Event → Manager
step m (connects ip_net) = (setup_connection m ip_net).0
step m (closes fd) = remove_session m fd

unfoldable pub run : Manager → List Event → Manager
run m [] = m
run m (e ∷ es) = run (step m e) es

-- How many of the events are connections.
abbrev pub connections : List Event → ℕ
connections [] = 0
connections (connects ip_net ∷ es) = suc (connections es)
connections (closes fd ∷ es) = connections es

-- The file descriptors in use are below the next one, and there are at most as many as were given.
record IsBelow (m : Manager) : Type 0 where
  keys : All (λ e. e.0 < m.next_fd) m.sessions
  count : length m.sessions < m.next_fd

All-insert :
    (n k : ℕ) (s : Session) (m : List (ℕ × Session))
    → k < n
    → All (λ e. e.0 < n) m
    → All (λ e. e.0 < n) (insert k s m)
unfolding insert
All-insert n k s [] h a = (h, tt)
All-insert n k s ((j, t) ∷ m) h a = ground (arith, All-insert n k s m h a.1)

All-remove :
    (n k : ℕ) (m : List (ℕ × Session)) → All (λ e. e.0 < n) m → All (λ e. e.0 < n) (remove k m)
unfolding remove
All-remove n k [] a = tt
All-remove n k ((j, t) ∷ m) a = ground (arith, All-remove n k m a.1)

All-mono :
    (n n' : ℕ) (m : List (ℕ × Session)) → n ≤ n' → All (λ e. e.0 < n) m → All (λ e. e.0 < n') m
All-mono n n' [] h a = tt
All-mono n n' (e ∷ m) h a = (omega (arith, a.0), All-mono n n' m h a.1)

lookup-above : (n k : ℕ) (m : List (ℕ × Session)) → All (λ e. e.0 < n) m → n ≤ k → lookup k m ≡ none
unfolding lookup
lookup-above n k [] a h = refl
lookup-above n k ((j, t) ∷ m) a h = ground (arith, lookup-above n k m a.1)

-- All outcomes of a connection, before the counter of file descriptors reaches 2 ^ 31.
setup_connection_lem :
    (m : Manager) (ip_net : ℕ)
    → IsBelow m
    → m.next_fd < 2 ^ 31
    → setup_connection m ip_net ≡ (
        if ltb 1024 m.next_fd
        then (record m { next_fd = m.next_fd + 1 }, err max_sessions_exceeded)
        else (
          record m {
            next_fd = m.next_fd + 1;
            sessions =
                insert m.next_fd (record (new m.next_fd) { client_addr_raw = ip_net }) m.sessions;
          },
          ok m.next_fd,
        ))
unfolding setup_connection
setup_connection_lem m ip_net b h = ground (arith, b.count)

setup_connection-IsBelow :
    (m : Manager) (ip_net : ℕ)
    → IsBelow m
    → m.next_fd < 2 ^ 31
    → IsBelow (setup_connection m ip_net).0
      × ((setup_connection m ip_net).0.next_fd ≡ m.next_fd + 1)
setup_connection-IsBelow m ip_net b h = elim (Bool-cases (ltb 1024 m.next_fd)) [
  | inl full ↦
      rw (setup_connection_lem m ip_net b h, full)
        (
          record {
            keys = All-mono m.next_fd (m.next_fd + 1) m.sessions (omega arith) b.keys;
            count = omega (arith, b.count);
          },
          refl,
        )
  | inr free ↦
      rw (setup_connection_lem m ip_net b h, free)
        (
          record {
            keys =
                All-insert (m.next_fd + 1) m.next_fd _ m.sessions (omega arith)
                  (All-mono m.next_fd (m.next_fd + 1) m.sessions (omega arith) b.keys);
            count = omega (arith, b.count, length-insert m.next_fd _ m.sessions);
          },
          refl,
        )
]

remove_session-IsBelow : (m : Manager) (fd : ℕ) → IsBelow m → IsBelow (remove_session m fd)
unfolding remove_session
remove_session-IsBelow m fd b = record {
  keys = All-remove m.next_fd fd m.sessions b.keys;
  count = omega (arith, length-remove fd m.sessions, b.count);
}

remove_session-next_fd : (m : Manager) (fd : ℕ) → (remove_session m fd).next_fd ≡ m.next_fd
unfolding remove_session
remove_session-next_fd m fd = refl

run-IsBelow :
    (m : Manager) (es : List Event)
    → IsBelow m
    → m.next_fd + connections es < 2 ^ 31
    → IsBelow (run m es) × ((run m es).next_fd ≡ m.next_fd + connections es)
unfolding run step
run-IsBelow m [] b h = (b, omega arith)
run-IsBelow m (connects ip_net ∷ es) b h =
    let now = setup_connection-IsBelow m ip_net b (omega arith) in
    let later = run-IsBelow (setup_connection m ip_net).0 es now.0 (omega (arith, now.1)) in
    (later.0, omega (arith, later.1, now.1))
run-IsBelow m (closes fd ∷ es) b h =
    let same = remove_session-next_fd m fd in
    let later =
      run-IsBelow (remove_session m fd) es (remove_session-IsBelow m fd b) (omega (arith, same)) in
    (later.0, omega (arith, later.1, same))

empty-IsBelow : IsBelow empty
unfolding empty
empty-IsBelow = record { keys = tt; count = omega arith }

empty-next_fd : empty.next_fd ≡ 1
unfolding empty
empty-next_fd = refl

-- The limit counts the connections ever accepted: whatever was closed in between, the first 1024
-- connections get the descriptors 1 to 1024 in order, and every later one is refused (while fewer
-- than 2 ^ 31 - 2 were tried).
pub setup_connection-run :
    (es : List Event) (ip_net : ℕ)
    → connections es < 2 ^ 31 - 2
    → (setup_connection (run empty es) ip_net).1
      ≡ (if ltb (connections es) 1024 then ok (connections es + 1) else err max_sessions_exceeded)
setup_connection-run es ip_net h =
    let before = run-IsBelow empty es empty-IsBelow (omega (arith, empty-next_fd)) in
    ground (arith, before.1, empty-next_fd, setup_connection_lem (run empty es) ip_net before.0)

-- A new connection gets a descriptor that no session has, and every session in use stays.
pub setup_connection-get_session :
    (es : List Event) (ip_net fd : ℕ) (s : Session)
    → connections es < 2 ^ 31 - 2
    → get_session (run empty es) fd ≡ some s
    → (get_session (setup_connection (run empty es) ip_net).0 fd ≡ some s)
      × ((setup_connection (run empty es) ip_net).1 ≢ ok fd)
unfolding get_session
setup_connection-get_session es ip_net fd s h e =
    let before = run-IsBelow empty es empty-IsBelow (omega (arith, empty-next_fd)) in
    let m = run empty es in
    rw
      (setup_connection_lem (run empty es) ip_net before.0 (omega (arith, before.1, empty-next_fd)))
      (ground (
        arith,
        e,
        lookup-above m.next_fd fd m.sessions before.0.keys,
        lookup-insert m.next_fd fd (record (new m.next_fd) { client_addr_raw = ip_net }) m.sessions,
      ))
