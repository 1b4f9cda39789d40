-- ===== src/Session.antt =====
-- src/session.rs: the state of one client connection (`Session`), its constants and its errors.
-- The children model the operations on the read and write buffers, the session manager and the
-- I/O task, and prove what they keep.
pub mod Read
pub mod Write
pub mod Valid
pub mod Queue
pub mod Wire
pub mod Manager
pub mod Io
pub mod Calls
pub mod Limit
pub mod Progress
use yuri.Base.{
  ℕ, ◌*◌, ◌≡◌, Bool, false, Option, none, some, List, [], if◌then◌else◌, checked_add, ltb, leb,
}

-- MAX_RDATA_SIZE, 64 KB.
abbrev pub max_rdata_size : ℕ
max_rdata_size = 64 * 1024

abbrev pub max_sessions : ℕ
max_sessions = 1024

-- MAX_WDATA_SIZE, 4 MB.
abbrev pub max_wdata_size : ℕ
max_wdata_size = 4 * 1024 * 1024

-- The variant `Io` wraps an error of the operating system, and no operation here makes one.
pub data SessionError : Type 0 where
  read_out_of_bounds : (fd pos size : ℕ) → SessionError
  skip_out_of_bounds : (fd skip_len available : ℕ) → SessionError
  write_commit_too_large : (fd requested available : ℕ) → SessionError
  write_position_overflow : (fd wdata_size pos : ℕ) → SessionError
  write_buffer_too_large : (fd requested_pos max : ℕ) → SessionError
  session_not_found : (fd : ℕ) → SessionError
  max_sessions_exceeded : SessionError
  fd_overflow : SessionError

-- The outcome of an operation; `panicked` is an index or a slice out of range.
pub data Outcome {ℓ} (A : Type ℓ) : Type ℓ where
  ok : A → Outcome A
  err : SessionError → Outcome A
  panicked : Outcome A

infixl 5 ◌>>=◌
abbrev pub ◌>>=◌ {ℓ κ} : {A : Type ℓ} {B : Type κ} → Outcome A → (A → Outcome B) → Outcome B
ok a >>= f = f a
err e >>= f = err e
panicked >>= f = panicked

-- `o.ok_or(e)?`.
abbrev pub ok_or {ℓ} : {A : Type ℓ} → Option A → SessionError → Outcome A
ok_or none e = err e
ok_or (some a) e = ok a

-- An index into a buffer.
abbrev pub index {ℓ} : {A : Type ℓ} → Option A → Outcome A
index none = panicked
index (some a) = ok a

-- The fields that the buffer operations and the I/O task use. The socket, the callbacks, the
-- opaque `session_data` and the time stamps are not kept.
pub record Session : Type 0 where
  pub fd : ℕ
  pub client_addr_raw : ℕ
  pub rdata : List ℕ
  pub rdata_pos : ℕ
  pub rdata_size : ℕ
  pub wdata : List ℕ
  pub wdata_size : ℕ
  pub eof : ℕ
  pub increment : ℕ
  pub shutdown_called : Bool
  pub suppress_notify : Bool
  -- How often `write_notify.notify_one()` was called.
  pub notified : ℕ

unfoldable pub new : ℕ → Session
new fd = record {
  fd = fd;
  client_addr_raw = 0;
  rdata = [];
  rdata_pos = 0;
  rdata_size = 0;
  wdata = [];
  wdata_size = 0;
  eof = 0;
  increment = 0;
  shutdown_called = false;
  suppress_notify = false;
  notified = 0;
}
