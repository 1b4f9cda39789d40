-- ===== src/Session/Queue.antt =====
-- The read buffer and the write buffer as two queues of bytes, and what each operation does to them.
use yuri.Base.{
  ℕ, ◌+◌, ◌-◌, ◌≤◌, ◌≡◌, ap, ◌∙◌, List, [], ◌++◌, arith, if◌then◌else◌, leb, ltb, usize_max, length,
  take, drop, replicate, length-drop, drop-drop, drop-all, drop-append_le, take-append_le, take-all,
  take-append_self, Bool-cases, inl, inr,
}
use yuri.Session.{
  Session, ok, err, panicked, ◌>>=◌, write_position_overflow, write_buffer_too_large,
  read_out_of_bounds, skip_out_of_bounds, max_rdata_size, max_wdata_size,
}
use yuri.Session.Read.{skip, flush_read_buffer, receive, read_buf, available}
use yuri.Base.Buffers.{overwrite, length-overwrite, take-overwrite}
use yuri.Session.Write.{commit_write, flush_wdata, write_buf, grown, resize}
use yuri.Session.Valid.{IsValid, Returns, length-grown, grown_rest}

-- The bytes received and not yet skipped.
abbrev pub pending : Session → List ℕ
pending s = drop s.rdata_pos s.rdata

-- The bytes committed and not yet flushed.
abbrev pub committed : Session → List ℕ
committed s = take s.wdata_size s.wdata

pub length-pending : (s : Session) → IsValid s → length (pending s) ≡ s.rdata_size - s.rdata_pos
length-pending s v = omega (arith, length-drop s.rdata_pos s.rdata, v.read_len)

pub available_lem : (s : Session) → IsValid s → available s ≡ length (pending s)
unfolding available
available_lem s v = omega (arith, length-pending s v, v.pos_le, v.read_max)

pub read_buf_lem :
    (s : Session) (pos n : ℕ)
    → IsValid s
    → read_buf s pos n ≡ (
        if leb (pos + n) (length (pending s))
        then ok (take n (drop pos (pending s)))
        else err (
            read_out_of_bounds s.fd
              (if leb (s.rdata_pos + pos) usize_max then s.rdata_pos + pos else usize_max)
              s.rdata_size))
unfolding read_buf
read_buf_lem s pos n v = ground (arith, length-pending s v, drop-drop s.rdata_pos pos s.rdata)

pub skip_lem :
    (s : Session) (n : ℕ)
    → IsValid s
    → skip s n ≡ (
        if ltb (length (pending s)) n
        then err (skip_out_of_bounds s.fd n (length (pending s)))
        else (if leb (length (pending s)) n
            then ok (record s { rdata_pos = 0; rdata_size = 0; rdata = [] })
            else ok (record s { rdata_pos = s.rdata_pos + n })))
unfolding skip
skip_lem s n v = ground (arith, length-pending s v)

-- The bytes that a compaction moves are all the unread ones, and are what is kept.
unread_moved : (s : Session) → IsValid s → take (s.rdata_size - s.rdata_pos) (pending s) ≡ pending s
unread_moved s v = take-all _ (pending s) (omega (arith, length-pending s v))

-- A compaction moves the unread bytes to the front and keeps them.
pub flush_read_buffer_lem :
    (s : Session)
    → IsValid s
    → Returns
        (λ t. (pending t ≡ pending s) × (t.rdata_pos ≡ 0) × (committed t ≡ committed s))
        (flush_read_buffer s)
unfolding flush_read_buffer
flush_read_buffer_lem s v = ground (
  arith,
  length-pending s v,
  drop-all s.rdata_pos s.rdata,
  unread_moved s v,
  take-append_self (s.rdata_size - s.rdata_pos) (pending s) (drop (length (pending s)) s.rdata),
)

-- What the socket gave goes to the end of the queue, unless the buffer would pass its limit.
pub receive_lem :
    (s : Session) (bytes : List ℕ)
    → length bytes ≤ 4096
    → IsValid s
    → (pending (receive s bytes).0 ≡ (
        if ltb max_rdata_size (s.rdata_size + length bytes) then pending s else pending s ++ bytes))
      × ((receive s bytes).1 ≡ ltb max_rdata_size (s.rdata_size + length bytes))
unfolding receive
receive_lem s bytes h v = ground (arith, drop-append_le s.rdata_pos s.rdata bytes)

-- A flush hands the committed bytes to the socket, in order, and leaves none.
pub flush_wdata_lem :
    (s : Session)
    → IsValid s
    → Returns
        (λ (r : Session × List ℕ).
          (r.1 ≡ committed s) × (committed r.0 ≡ []) × (pending r.0 ≡ pending s))
        (flush_wdata s)
unfolding flush_wdata
flush_wdata_lem s v = ground arith

take-resize :
    (xs : List ℕ) (k n : ℕ) → k ≤ length xs → length xs ≤ n → take k (resize xs n) ≡ take k xs
unfolding resize
take-resize xs k n h le =
    rw (take-all n xs le) (take-append_le k xs (replicate (n - length xs) 0) h)

-- Growth keeps the committed bytes.
grown-committed :
    (s : Session) (end : ℕ) → IsValid s → take s.wdata_size (grown s end).wdata ≡ committed s
unfolding grown
grown-committed s end v = elim (Bool-cases (ltb (length s.wdata) end)) [
  | inl more ↦
      rw more (take-resize s.wdata s.wdata_size _ v.write_fits (ground (arith, v.write_max)))
  | inr enough ↦ rw enough
]

-- Every outcome of a write of at most 4 MB: the position overflows, or the end wraps and the slice
-- panics, or the end passes the limit, or the bytes are stored in the grown buffer.
pub write_buf_lem :
    (s : Session) (pos : ℕ) (src : List ℕ)
    → length src ≤ max_wdata_size
    → IsValid s
    → let a = s.wdata_size + pos in
      let end = a + length src in
      write_buf s pos src ≡ (
        if ltb usize_max a
        then err (write_position_overflow s.fd s.wdata_size pos)
        else (if ltb usize_max end
            then panicked
            else (if ltb max_wdata_size end
                then err (write_buffer_too_large s.fd end max_wdata_size)
                else ok (record (grown s end) { wdata = overwrite (grown s end).wdata a src }))))
unfolding write_buf
write_buf_lem s pos src h v = ground (arith, length-grown s (s.wdata_size + pos + length src))

-- The session in which `src` stands behind the committed bytes.
abbrev stored : Session → List ℕ → Session
stored s src =
    let g = grown s (s.wdata_size + 0 + length src) in
    record g { wdata = overwrite g.wdata (s.wdata_size + 0) src }

module _ (s : Session) (src : List ℕ) (v : IsValid s)
    (fits : s.wdata_size + length src ≤ max_wdata_size) where
  stored-room :
      (s.wdata_size + length src ≤ length (grown s (s.wdata_size + 0 + length src)).wdata)
      × (length (stored s src).wdata ≡ length (grown s (s.wdata_size + 0 + length src)).wdata)
      × (length (stored s src).wdata ≤ max_wdata_size)
  stored-room = ground (
    arith,
    length-grown s (s.wdata_size + 0 + length src),
    length-overwrite (grown s (s.wdata_size + 0 + length src)).wdata (s.wdata_size + 0) src,
  )

  stored-committed : take (s.wdata_size + length src) (stored s src).wdata ≡ committed s ++ src
  stored-committed =
      let same : s.wdata_size + 0 ≡ s.wdata_size = omega arith in
      rw same (
        take-overwrite (grown s (s.wdata_size + length src)).wdata s.wdata_size src
          (omega (arith, length-grown s (s.wdata_size + length src) fits v.write_max))
        ∙ ap (λ t. t ++ src) (grown-committed s (s.wdata_size + length src) v))

  write_buf-stored : write_buf s 0 src ≡ ok (stored s src)
  write_buf-stored = ground (arith, write_buf_lem s 0 src)

  commit-stored :
      Returns
        (λ t. (committed t ≡ committed s ++ src) × (pending t ≡ pending s) × IsValid t)
        (commit_write (stored s src) (length src))
  unfolding commit_write
  commit-stored = ground (
    arith,
    stored-room,
    stored-committed,
    grown_rest s (s.wdata_size + 0 + length src),
    ap (length {A = ℕ}) (grown_rest s (s.wdata_size + 0 + length src)).0,
  )

  -- A write at the end of the queue that is committed appends its bytes to the queue, if they fit.
  pub write_commit_appends :
      Returns
        (λ t. (committed t ≡ committed s ++ src) × (pending t ≡ pending s) × IsValid t)
        (write_buf s 0 src >>= λ t. commit_write t (length src))
  write_commit_appends = rw write_buf-stored commit-stored
