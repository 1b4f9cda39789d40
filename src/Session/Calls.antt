-- ===== src/Session/Calls.antt =====
-- The operations of a session as one step function, reads and writes, and runs of them: an operation that fails
-- leaves the session as it was, and a panic ends the run.
use yuri.Base.{
  ap, zero, suc, ◌≡◌, ◌⊎◌, refl, inl, inr, true, ◌&&◌, ltb, leb, get_elem?, checked_add, Bool-cases,
  Option-cases, ℕ, ◌+◌, ◌≤◌, ◌<◌, ◌^◌, List, [], ◌∷◌, arith, length, All,
}
use yuri.Base.Buffers.{length-overwrite}
use yuri.Session.{
  SessionError, read_out_of_bounds, index, Session, Outcome, ok, err, panicked, ◌>>=◌,
}
use yuri.Session.Read.{
  actual_read_pos, read_end, read_u8, read_u16, read_u32, rdata_ptr, read_buf, skip,
  flush_read_buffer, receive,
}
use yuri.Session.Write.{
  write_u8, write_u16, write_u32, write_buf, wdata_ptr, ensure_wdata_capacity, commit_write,
  flush_wdata, grown, le_bytes16, le_bytes32,
}
use yuri.Session.Valid.{
  IsValid, Safe, Returns, skip-IsValid, receive-IsValid, commit_write-IsValid, flush_wdata-IsValid,
  flush_read_buffer-IsValid, put-IsValid, make_room-IsValid, grown-IsValid, length-grown,
}

pub data Call : Type 0 where
  skips commits ensures points : ℕ → Call
  receives : List ℕ → Call
  compacts flushes : Call
  reads_u8 reads_u16 reads_u32 points_read : (pos : ℕ) → Call
  reads : (pos n : ℕ) → Call
  writes_u8 writes_u16 writes_u32 : (pos val : ℕ) → Call
  writes : (pos : ℕ) (src : List ℕ) → Call

pub step : Session → Call → Outcome Session
step s (skips n) = skip s n
step s (commits n) = commit_write s n
step s (ensures n) = ensure_wdata_capacity s n
step s (points pos) = wdata_ptr s pos >>= λ r. ok r.0
step s (receives bytes) = ok (receive s bytes).0
step s compacts = flush_read_buffer s
step s flushes = flush_wdata s >>= λ r. ok r.0
step s (writes_u8 pos val) = write_u8 s pos val
step s (writes_u16 pos val) = write_u16 s pos val
step s (writes_u32 pos val) = write_u32 s pos val
step s (writes pos src) = write_buf s pos src
step s (reads_u8 pos) = read_u8 s pos >>= λ v. ok s
step s (reads_u16 pos) = read_u16 s pos >>= λ v. ok s
step s (reads_u32 pos) = read_u32 s pos >>= λ v. ok s
step s (points_read pos) = rdata_ptr s pos >>= λ p. ok s
step s (reads pos n) = read_buf s pos n >>= λ bytes. ok s

pub run : Session → List Call → Outcome Session
run s [] = ok s
run s (c ∷ cs) = elim (step s c) [ ok s' ↦ run s' cs | err e ↦ run s cs | panicked ↦ panicked ]

-- Positions and lengths below 2 ^ 62, and reads of the socket of at most 4096 bytes, the size of
-- the I/O task's buffer.
abbrev pub InRange : Call → Type 0
InRange (points pos) = pos < 2 ^ 62
InRange (receives bytes) = length bytes ≤ 4096
InRange (writes_u8 pos val) = pos < 2 ^ 62
InRange (writes_u16 pos val) = pos < 2 ^ 62
InRange (writes_u32 pos val) = pos < 2 ^ 62
InRange (writes pos src) = (pos < 2 ^ 62) × (length src < 2 ^ 62)
InRange _ = Unit

write_u8-IsValid :
    (s : Session) (pos val : ℕ) → pos < 2 ^ 62 → IsValid s → Safe IsValid (write_u8 s pos val)
unfolding write_u8
write_u8-IsValid s pos val h v = ground (
  arith,
  grown-IsValid s (s.wdata_size + pos + 1),
  length-grown s (s.wdata_size + pos + 1),
  length-overwrite (grown s (s.wdata_size + pos + 1)).wdata (s.wdata_size + pos) (val ∷ []),
)

-- No panic.
abbrev Calm : {A : Type 0} → Outcome A → Type 0
Calm o = Safe (λ a. Unit) o

-- A read leaves the session as it is.
read-Safe :
    {A : Type 0} (s : Session) (o : Outcome A) → IsValid s → Calm o → Safe IsValid (o >>= λ a. ok s)
read-Safe s (ok a) v c = v
read-Safe s (err e) v c = tt
read-Safe s panicked v c = c

index-lt : (xs : List ℕ) (i : ℕ) → i < length xs → (b : ℕ) × (index (get_elem? xs i) ≡ ok b)
index-lt [] i h = absurd (omega (arith, h))
index-lt (x ∷ xs) zero h = (x, refl)
index-lt (x ∷ xs) (suc i) h = index-lt xs i (omega (arith, h))

-- The end of a read lies in the bytes received, or is an error.
read_end_lem :
    (s : Session) (p n : ℕ)
    → ((e : SessionError) × (read_end s p n ≡ err e))
      ⊎ ((read_end s p n ≡ ok (p + n)) × (p + n ≤ s.rdata_size))
unfolding read_end
read_end_lem s p n = elim (Option-cases (checked_add p n)) [
  | inl big ↦ inl (read_out_of_bounds s.fd p s.rdata_size, rw big refl)
  | inr (e, fits) ↦ elim (Bool-cases (ltb s.rdata_size e)) [
    | inl out ↦ inl (read_out_of_bounds s.fd p s.rdata_size, rw (fits, out) refl)
    | inr there ↦
        let same : e ≡ p + n = ground (arith, fits) in
        inr (rw (fits, there) (ap ok same), ground (arith, there, same))
  ]
]

module _ (s : Session) (v : IsValid s) where
  byte : (i : ℕ) → i < s.rdata_size → (b : ℕ) × (index (get_elem? s.rdata i) ≡ ok b)
  byte i h = index-lt s.rdata i (omega (arith, h, v.read_len))

  read_u8-Calm : (pos : ℕ) → Calm (read_u8 s pos)
  unfolding read_u8 actual_read_pos
  read_u8-Calm pos = elim (Option-cases (checked_add s.rdata_pos pos)) [
    | inl e ↦ rw e tt
    | inr (p, e) ↦ rw e (elim (Bool-cases (leb s.rdata_size p)) [
      | inl out ↦ rw out tt
      | inr there ↦ let (b, at) = byte p (ground (arith, there)) in rw (there, at) tt
    ])
  ]

  rdata_ptr-Calm : (pos : ℕ) → Calm (rdata_ptr s pos)
  unfolding rdata_ptr actual_read_pos
  rdata_ptr-Calm pos = elim (Option-cases (checked_add s.rdata_pos pos)) [
    | inl e ↦ rw e tt
    | inr (p, e) ↦
        rw e
          (elim (Bool-cases (leb s.rdata_size p)) [ inl out ↦ rw out tt | inr there ↦ rw there tt ])
  ]

  read_u16-Calm : (pos : ℕ) → Calm (read_u16 s pos)
  unfolding read_u16 actual_read_pos
  read_u16-Calm pos = elim (Option-cases (checked_add s.rdata_pos pos)) [
    | inl e ↦ rw e tt
    | inr (p, e) ↦ rw e (elim (read_end_lem s p 2) [
      | inl (x, out) ↦ rw out tt
      | inr (there, fits) ↦
          let (b0, e0) = byte p (omega (arith, fits)) in
          let (b1, e1) = byte (p + 1) (omega (arith, fits)) in rw (there, e0, e1) tt
    ])
  ]

  read_u32-Calm : (pos : ℕ) → Calm (read_u32 s pos)
  unfolding read_u32 actual_read_pos
  read_u32-Calm pos = elim (Option-cases (checked_add s.rdata_pos pos)) [
    | inl e ↦ rw e tt
    | inr (p, e) ↦ rw e (elim (read_end_lem s p 4) [
      | inl (x, out) ↦ rw out tt
      | inr (there, fits) ↦
          let (b0, e0) = byte p (omega (arith, fits)) in
          let (b1, e1) = byte (p + 1) (omega (arith, fits)) in
          let (b2, e2) = byte (p + 2) (omega (arith, fits)) in
          let (b3, e3) = byte (p + 3) (omega (arith, fits)) in rw (there, e0, e1, e2, e3) tt
    ])
  ]

  read_buf-Calm : (pos n : ℕ) → Calm (read_buf s pos n)
  unfolding read_buf actual_read_pos
  read_buf-Calm pos n = elim (Option-cases (checked_add s.rdata_pos pos)) [
    | inl e ↦ rw e tt
    | inr (p, e) ↦ rw e (elim (read_end_lem s p n) [
      | inl (x, out) ↦ rw out tt
      | inr (there, fits) ↦
          let inside : (leb p (p + n) && leb (p + n) (length s.rdata)) ≡ true =
            ground (arith, fits, v.read_len) in
          rw (there, inside) tt
    ])
  ]

step-Safe : (s : Session) (c : Call) → InRange c → IsValid s → Safe IsValid (step s c)
unfolding step
step-Safe s (skips n) h v = skip-IsValid s n v
step-Safe s (commits n) h v = commit_write-IsValid s n v
step-Safe s (ensures n) h v =
    unfold ensure_wdata_capacity in ground (arith, make_room-IsValid s (s.wdata_size + n))
step-Safe s (points pos) h v =
    unfold wdata_ptr in ground (arith, grown-IsValid s (s.wdata_size + pos + 1))
step-Safe s (receives bytes) h v = receive-IsValid s bytes h v
step-Safe s compacts h v = ground (arith, flush_read_buffer-IsValid s v)
step-Safe s flushes h v = ground (arith, flush_wdata-IsValid s v)
step-Safe s (writes_u8 pos val) h v = write_u8-IsValid s pos val h v
step-Safe s (writes_u16 pos val) h v =
    unfold write_u16 in ground (arith, put-IsValid s (s.wdata_size + pos) (le_bytes16 val))
step-Safe s (writes_u32 pos val) h v =
    unfold write_u32 in ground (arith, put-IsValid s (s.wdata_size + pos) (le_bytes32 val))
step-Safe s (writes pos src) h v =
    unfold write_buf in ground (arith, put-IsValid s (s.wdata_size + pos) src)
step-Safe s (reads_u8 pos) h v = read-Safe s (read_u8 s pos) v (read_u8-Calm s v pos)
step-Safe s (reads_u16 pos) h v = read-Safe s (read_u16 s pos) v (read_u16-Calm s v pos)
step-Safe s (reads_u32 pos) h v = read-Safe s (read_u32 s pos) v (read_u32-Calm s v pos)
step-Safe s (points_read pos) h v = read-Safe s (rdata_ptr s pos) v (rdata_ptr-Calm s v pos)
step-Safe s (reads pos n) h v = read-Safe s (read_buf s pos n) v (read_buf-Calm s v pos n)

-- What a run does behind one step.
run_behind :
    (s : Session) (cs : List Call) (o : Outcome Session)
    → ((t : Session) → IsValid t → Returns IsValid (run t cs))
    → IsValid s
    → Safe IsValid o
    → Returns IsValid (elim o [ ok s' ↦ run s' cs | err e ↦ run s cs | panicked ↦ panicked ])
run_behind s cs (ok t) ih v k = ih t k
run_behind s cs (err e) ih v k = ih s v
run_behind s cs panicked ih v k = k

-- From well-formed buffers, no run of buffer operations, reads at any position included, panics, if every
-- position and length given to a write, and every position of a write pointer, is below 2 ^ 62 and every
-- read of the socket gives at most 4096 bytes; the run returns a session whose buffers are well formed and
-- within their limits.
pub run-Safe :
    (s : Session) (cs : List Call) → All InRange cs → IsValid s → Returns IsValid (run s cs)
unfolding run
run-Safe s [] h v = v
run-Safe s (c ∷ cs) h v =
    run_behind s cs (step s c) (λ t w. run-Safe t cs h.1 w) v (step-Safe s c h.0 v)
