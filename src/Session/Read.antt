-- ===== src/Session/Read.antt =====
-- src/session.rs: the reads from the read buffer, `skip`, `flush_read_buffer`, and the step of the
-- I/O task that appends what the socket gave.
use yuri.Base.{
  ℕ, ◌+◌, ◌-◌, ◌*◌, ◌^◌, Bool, true, false, ◌&&◌, List, [], ◌++◌, if◌then◌else◌, ltb, leb, ◌==◌,
  usize, usize_max, checked_add, saturating_add, length, get_elem?, take, drop,
}
use yuri.Session.{
  Session, Outcome, ok, err, panicked, index, ok_or, ◌>>=◌, max_rdata_size, read_out_of_bounds,
  skip_out_of_bounds,
}

-- `self.rdata_pos.checked_add(pos)`, or the error with the largest position.
unfoldable pub actual_read_pos : Session → ℕ → Outcome ℕ
actual_read_pos s pos =
    ok_or (checked_add s.rdata_pos pos) (read_out_of_bounds s.fd usize_max s.rdata_size)

-- The end of a read of `n` bytes, checked against the bytes received.
unfoldable pub read_end : Session → ℕ → ℕ → Outcome ℕ
read_end s actual_pos n = do
  end ← ok_or (checked_add actual_pos n) (read_out_of_bounds s.fd actual_pos s.rdata_size)
  if ltb s.rdata_size end then err (read_out_of_bounds s.fd actual_pos s.rdata_size) else ok end

unfoldable pub read_u8 : Session → ℕ → Outcome ℕ
unfolding actual_read_pos
read_u8 s pos = do
  actual_pos ← actual_read_pos s pos
  if leb s.rdata_size actual_pos
      then err (read_out_of_bounds s.fd actual_pos s.rdata_size)
      else index (get_elem? s.rdata actual_pos)

unfoldable pub read_u16 : Session → ℕ → Outcome ℕ
unfolding actual_read_pos read_end
read_u16 s pos = do
  actual_pos ← actual_read_pos s pos
  _end ← read_end s actual_pos 2
  b0 ← index (get_elem? s.rdata actual_pos)
  b1 ← index (get_elem? s.rdata (actual_pos + 1))
  ok (b0 + b1 * 2 ^ 8)

unfoldable pub read_u32 : Session → ℕ → Outcome ℕ
unfolding actual_read_pos read_end
read_u32 s pos = do
  actual_pos ← actual_read_pos s pos
  _end ← read_end s actual_pos 4
  b0 ← index (get_elem? s.rdata actual_pos)
  b1 ← index (get_elem? s.rdata (actual_pos + 1))
  b2 ← index (get_elem? s.rdata (actual_pos + 2))
  b3 ← index (get_elem? s.rdata (actual_pos + 3))
  ok (b0 + b1 * 2 ^ 8 + b2 * 2 ^ 16 + b3 * 2 ^ 24)

-- The pointer as its offset in the read buffer.
unfoldable pub rdata_ptr : Session → ℕ → Outcome ℕ
unfolding actual_read_pos
rdata_ptr s pos = do
  actual_pos ← actual_read_pos s pos
  if leb s.rdata_size actual_pos
      then err (read_out_of_bounds s.fd actual_pos s.rdata_size)
      else ok actual_pos

-- `xs[lo..hi]`.
abbrev pub slice : List ℕ → ℕ → ℕ → Outcome (List ℕ)
slice xs lo hi =
    if leb lo hi && leb hi (length xs) then ok (take (hi - lo) (drop lo xs)) else panicked

-- What `read_buf` copies into a destination of `n` bytes.
unfoldable pub read_buf : Session → ℕ → ℕ → Outcome (List ℕ)
unfolding actual_read_pos read_end
read_buf s pos n = do
  actual_pos ← actual_read_pos s pos
  end ← read_end s actual_pos n
  slice s.rdata actual_pos end

-- The subtraction wraps.
unfoldable pub available : Session → ℕ
available s = usize (s.rdata_size + 2 ^ 64 - s.rdata_pos)

emptied : Session → Session
emptied s = record s { rdata_pos = 0; rdata_size = 0; rdata = [] }

unfoldable pub skip : Session → ℕ → Outcome Session
unfolding available emptied
skip s len =
    let new_pos = saturating_add s.rdata_pos len in
    if ltb s.rdata_size new_pos
    then err (skip_out_of_bounds s.fd len (available s))
    else if new_pos == s.rdata_size
    then ok (emptied s)
    else ok (record s { rdata_pos = new_pos })

-- The unread bytes go to the front: `copy_within`, then `truncate`.
unfoldable pub flush_read_buffer : Session → Outcome Session
unfolding emptied
flush_read_buffer s =
    if s.rdata_pos == s.rdata_size
    then ok (emptied s)
    else if ltb 0 s.rdata_pos
    then (do
      moved ← slice s.rdata s.rdata_pos s.rdata_size
      let size = usize (s.rdata_size + 2 ^ 64 - s.rdata_pos)
      ok (record s {
        rdata_pos = 0;
        rdata_size = size;
        rdata = take size (moved ++ drop (length moved) s.rdata);
      }))
    else ok s

-- The bytes that one read of the socket gave, in `session_io_task`: `true` is the overflow that
-- closes the connection with eof 3.
unfoldable pub receive : Session → List ℕ → Session × Bool
receive s bytes =
    let new_size = usize (s.rdata_size + length bytes) in
    if ltb max_rdata_size new_size
    then (record s { eof = 3 }, true)
    else (record s { rdata = s.rdata ++ bytes; rdata_size = new_size }, false)
