-- ===== src/Session/Valid.antt =====
-- The invariant of a session's buffers, and that no operation breaks it.
use yuri.Base.{
  ℕ, ◌+◌, ◌-◌, ◌≤◌, ◌≡◌, ap, List, ◌++◌, arith, usize, usize_max, length, take, drop, replicate,
  length-append, length-take, length-drop, length-replicate,
}
use yuri.Session.{Session, Outcome, ok, err, panicked, ◌>>=◌, max_rdata_size, max_wdata_size, new}
use yuri.Session.Read.{skip, flush_read_buffer, receive}
use yuri.Base.Buffers.{length-overwrite}
use yuri.Session.Write.{resize, grown, make_room, copy_into, commit_write, flush_wdata}

-- The read position lies in the bytes received, `rdata_size` is the length of the read buffer,
-- the committed bytes lie in the write buffer, and both buffers are within their limits.
pub record IsValid (s : Session) : Type 0 where
  pub pos_le : s.rdata_pos ≤ s.rdata_size
  pub read_len : s.rdata_size ≡ length s.rdata
  pub read_max : s.rdata_size ≤ max_rdata_size
  pub write_fits : s.wdata_size ≤ length s.wdata
  pub write_max : length s.wdata ≤ max_wdata_size

-- An outcome that is no panic, and whose value satisfies `P`.
abbrev pub Safe {ℓ} : {A : Type ℓ} → (A → Type 0) → Outcome A → Type 0
Safe P (ok a) = P a
Safe P (err e) = Unit
Safe P panicked = ⊥

-- An outcome that is a value, and satisfies `P`.
abbrev pub Returns {ℓ} : {A : Type ℓ} → (A → Type 0) → Outcome A → Type 0
Returns P (ok a) = P a
Returns P (err e) = ⊥
Returns P panicked = ⊥

pub new-IsValid : (fd : ℕ) → IsValid (new fd)
unfolding new
new-IsValid fd = omega arith

pub length-resize : (xs : List ℕ) (n : ℕ) → length xs ≤ n → length (resize xs n) ≡ n
unfolding resize
length-resize xs n h = omega (
  arith,
  length-append (take n xs) (replicate (n - length xs) 0),
  length-take n xs,
  length-replicate {A = ℕ} (n - length xs) 0,
)

pub length-grown :
    (s : Session) (end : ℕ)
    → end ≤ max_wdata_size
    → length s.wdata ≤ max_wdata_size
    → (end ≤ length (grown s end).wdata)
      × (length s.wdata ≤ length (grown s end).wdata)
      × (length (grown s end).wdata ≤ max_wdata_size)
unfolding grown
length-grown s end h m = grind (arith, length-resize)

-- The growth leaves all but the write buffer alone.
pub grown_rest :
    (s : Session) (end : ℕ)
    → ((grown s end).rdata ≡ s.rdata)
      × ((grown s end).rdata_pos ≡ s.rdata_pos)
      × ((grown s end).rdata_size ≡ s.rdata_size)
      × ((grown s end).wdata_size ≡ s.wdata_size)
unfolding grown
grown_rest s end = ground arith

pub grown-IsValid :
    (s : Session) (end : ℕ) → end ≤ max_wdata_size → IsValid s → IsValid (grown s end)
grown-IsValid s end h v = ground (
  arith,
  grown_rest s end,
  length-grown s end h v.write_max,
  ap (length {A = ℕ}) (grown_rest s end).0,
)

pub make_room-IsValid : (s : Session) (end : ℕ) → IsValid s → Safe IsValid (make_room s end)
unfolding make_room
make_room-IsValid s end v = ground (arith, grown-IsValid s end)

-- The shape of all writes: room is made, and the bytes are copied to `[a, a + length bytes)`.
abbrev pub put : Session → ℕ → List ℕ → Outcome Session
put s a bytes = do
  let end = usize (a + length bytes)
  s' ← make_room s end
  copy_into s' a end bytes

pub copy_into-IsValid :
    (s : Session) (lo : ℕ) (bytes : List ℕ)
    → lo + length bytes ≤ length s.wdata
    → IsValid s
    → Safe IsValid (copy_into s lo (lo + length bytes) bytes)
unfolding copy_into
copy_into-IsValid s lo bytes h v = ground (arith, length-overwrite s.wdata lo bytes h)

pub put-IsValid :
    (s : Session) (a : ℕ) (bytes : List ℕ)
    → a + length bytes ≤ usize_max
    → IsValid s
    → Safe IsValid (put s a bytes)
unfolding make_room
put-IsValid s a bytes h v = ground (
  arith,
  grown-IsValid s (a + length bytes),
  length-grown s (a + length bytes),
  copy_into-IsValid (grown s (a + length bytes)) a bytes,
)

pub skip-IsValid : (s : Session) (len : ℕ) → IsValid s → Safe IsValid (skip s len)
unfolding skip
skip-IsValid s len v = ground arith

pub receive-IsValid :
    (s : Session) (bytes : List ℕ) → length bytes ≤ 4096 → IsValid s → IsValid (receive s bytes).0
unfolding receive
receive-IsValid s bytes h v = ground (arith, length-append s.rdata bytes)

pub commit_write-IsValid : (s : Session) (len : ℕ) → IsValid s → Safe IsValid (commit_write s len)
unfolding commit_write
commit_write-IsValid s len v = ground arith

pub flush_wdata-IsValid :
    (s : Session) → IsValid s → Returns (λ (r : Session × List ℕ). IsValid r.0) (flush_wdata s)
unfolding flush_wdata
flush_wdata-IsValid s v = ground (
  arith,
  length-overwrite s.wdata 0 (replicate s.wdata_size 0),
  length-replicate {A = ℕ} s.wdata_size 0,
)

pub flush_read_buffer-IsValid : (s : Session) → IsValid s → Returns IsValid (flush_read_buffer s)
unfolding flush_read_buffer
flush_read_buffer-IsValid s v = ground (
  arith,
  length-drop s.rdata_pos s.rdata,
  length-take (s.rdata_size - s.rdata_pos) (drop s.rdata_pos s.rdata),
  length-append (take (s.rdata_size - s.rdata_pos) (drop s.rdata_pos s.rdata))
      (drop (length (take (s.rdata_size - s.rdata_pos) (drop s.rdata_pos s.rdata))) s.rdata),
  length-take (s.rdata_size - s.rdata_pos) (
      take (s.rdata_size - s.rdata_pos) (drop s.rdata_pos s.rdata)
      ++ drop (length (take (s.rdata_size - s.rdata_pos) (drop s.rdata_pos s.rdata))) s.rdata),
)
