-- ===== src/Session/Write.antt =====
-- src/session.rs: the writes into the write buffer, `commit_write`, and the flush to the socket.
use yuri.Base.{
  ℕ, ◌+◌, ◌-◌, ◌/◌, ◌%◌, ◌^◌, List, [], ◌∷◌, ◌++◌, ◌&&◌, if◌then◌else◌, ltb, leb, usize, usize_max,
  checked_add, saturating_add, length, take, replicate, min,
}
use yuri.Base.Buffers.{overwrite}
use yuri.Session.{
  Session, Outcome, ok, err, panicked, ok_or, ◌>>=◌, max_wdata_size, write_position_overflow,
  write_buffer_too_large, write_commit_too_large,
}

-- `Vec::resize(n, 0)`.
unfoldable pub resize : List ℕ → ℕ → List ℕ
resize xs n = take n xs ++ replicate (n - length xs) 0

unfoldable pub actual_write_pos : Session → ℕ → Outcome ℕ
actual_write_pos s pos =
    ok_or (checked_add s.wdata_size pos) (write_position_overflow s.fd s.wdata_size pos)

-- The growth in steps of 1 KB, up to the limit.
unfoldable pub grown : Session → ℕ → Session
grown s end =
    if ltb (length s.wdata) end
    then record s { wdata = resize s.wdata (min (saturating_add end 1024) max_wdata_size) }
    else s

-- The end of a write that starts at `actual_pos`, whose addition wraps, and the grown buffer.
unfoldable pub make_room : Session → ℕ → Outcome Session
make_room s end =
    if ltb max_wdata_size end
    then err (write_buffer_too_large s.fd end max_wdata_size)
    else ok (grown s end)

-- `wdata[lo..hi].copy_from_slice(bytes)`.
unfoldable pub copy_into : Session → ℕ → ℕ → List ℕ → Outcome Session
copy_into s lo hi bytes =
    if leb lo hi && leb hi (length s.wdata)
    then ok (record s { wdata = overwrite s.wdata lo bytes })
    else panicked

unfoldable pub write_u8 : Session → ℕ → ℕ → Outcome Session
unfolding actual_write_pos make_room
write_u8 s pos val = do
  actual_pos ← actual_write_pos s pos
  s' ← make_room s (usize (actual_pos + 1))
  if ltb actual_pos (length s'.wdata)
      then ok (record s' { wdata = overwrite s'.wdata actual_pos (val ∷ []) })
      else panicked

-- The bytes of a word, the lowest first.
unfoldable pub le_bytes16 : ℕ → List ℕ
le_bytes16 v = v % 2 ^ 8 ∷ v / 2 ^ 8 % 2 ^ 8 ∷ []

unfoldable pub le_bytes32 : ℕ → List ℕ
le_bytes32 v = v % 2 ^ 8 ∷ v / 2 ^ 8 % 2 ^ 8 ∷ v / 2 ^ 16 % 2 ^ 8 ∷ v / 2 ^ 24 % 2 ^ 8 ∷ []

unfoldable pub write_u16 : Session → ℕ → ℕ → Outcome Session
unfolding actual_write_pos make_room copy_into le_bytes16
write_u16 s pos val = do
  actual_pos ← actual_write_pos s pos
  let end = usize (actual_pos + 2)
  s' ← make_room s end
  copy_into s' actual_pos end (le_bytes16 val)

unfoldable pub write_u32 : Session → ℕ → ℕ → Outcome Session
unfolding actual_write_pos make_room copy_into le_bytes32
write_u32 s pos val = do
  actual_pos ← actual_write_pos s pos
  let end = usize (actual_pos + 4)
  s' ← make_room s end
  copy_into s' actual_pos end (le_bytes32 val)

unfoldable pub write_buf : Session → ℕ → List ℕ → Outcome Session
unfolding actual_write_pos make_room copy_into
write_buf s pos src = do
  actual_pos ← actual_write_pos s pos
  let end = usize (actual_pos + length src)
  s' ← make_room s end
  copy_into s' actual_pos end src

-- The pointer as its offset in the write buffer, and the grown buffer.
unfoldable pub wdata_ptr : Session → ℕ → Outcome (Session × ℕ)
unfolding actual_write_pos make_room
wdata_ptr s pos = do
  actual_pos ← actual_write_pos s pos
  s' ← make_room s (usize (actual_pos + 1))
  ok (s', actual_pos)

unfoldable pub ensure_wdata_capacity : Session → ℕ → Outcome Session
unfolding actual_write_pos make_room
ensure_wdata_capacity s size = do needed ← actual_write_pos s size; make_room s needed

-- Wakes the I/O task, unless the caller batches its writes.
unfoldable pub notify : Session → Session
notify s = if s.suppress_notify then s else record s { notified = s.notified + 1 }

unfoldable pub commit_write : Session → ℕ → Outcome Session
unfolding notify
commit_write s len = do
  new_size ←
      ok_or (checked_add s.wdata_size len) (write_buffer_too_large s.fd usize_max max_wdata_size)
  if ltb max_wdata_size new_size
      then err (write_buffer_too_large s.fd new_size max_wdata_size)
      else if ltb (length s.wdata) new_size
      then err (write_commit_too_large s.fd len (length s.wdata - s.wdata_size))
      else ok (notify (record s { wdata_size = new_size }))

-- `flush_wdata_to_socket`: the bytes handed to the socket, and the session with the region zeroed.
unfoldable pub flush_wdata : Session → Outcome (Session × List ℕ)
flush_wdata s =
    if ltb 0 s.wdata_size
    then if leb s.wdata_size (length s.wdata)
      then ok (
        record s { wdata = overwrite s.wdata 0 (replicate s.wdata_size 0); wdata_size = 0 },
        take s.wdata_size s.wdata,
      )
      else panicked
    else ok (s, [])
