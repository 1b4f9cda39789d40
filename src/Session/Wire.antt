-- ===== src/Session/Wire.antt =====
-- Two sessions joined by a socket: what one writes, commits and flushes, the other receives and reads.
use yuri.Base.{
  ℕ, ◌+◌, ◌≤◌, ◌≡◌, refl, ◌∙◌, ap, subst, List, ◌++◌, arith, length, length-append, take, drop,
  drop-append_self, take-all,
}
use yuri.Session.{Session, Outcome, ok, err, panicked, ◌>>=◌, max_rdata_size, max_wdata_size}
use yuri.Session.Read.{receive, read_buf}
use yuri.Session.Write.{write_buf, commit_write, flush_wdata}
use yuri.Session.Valid.{IsValid, Returns, receive-IsValid}
use yuri.Session.Queue.{
  pending, committed, read_buf_lem, receive_lem, flush_wdata_lem, write_commit_appends,
}

-- A packet is stored, committed and flushed: what the socket gets.
pub send : Session → List ℕ → Outcome (List ℕ)
send s packet = do
  s1 ← write_buf s 0 packet
  s2 ← commit_write s1 (length packet)
  (s3, bytes) ← flush_wdata s2
  ok bytes

-- A packet is sent, received by the other session, and read behind what was unread there.
pub deliver : Session → Session → List ℕ → Outcome (List ℕ)
unfolding send
deliver sender receiver packet = do
  bytes ← send sender packet
  let r = receive receiver bytes
  read_buf r.0 (length (pending receiver)) (length packet)

Returns-bind :
    {A B : Type 0} (P : A → Type 0) (Q : B → Type 0) (m : Outcome A) (f : A → Outcome B)
    → Returns P m
    → ((a : A) → P a → Returns Q (f a))
    → Returns Q (m >>= f)
Returns-bind P Q (ok a) f h k = k a h
Returns-bind P Q (err e) f h k = h
Returns-bind P Q panicked f h k = h

bind_assoc :
    {A B C : Type 0} (m : Outcome A) (f : A → Outcome B) (g : B → Outcome C)
    → ((m >>= f) >>= g) ≡ (m >>= λ a. f a >>= g)
bind_assoc (ok a) f g = refl
bind_assoc (err e) f g = refl
bind_assoc panicked f g = refl

-- What the socket gets is all that was committed and not yet flushed, with the packet behind it.
pub send_lem :
    (s : Session) (packet : List ℕ)
    → IsValid s
    → s.wdata_size + length packet ≤ max_wdata_size
    → Returns (λ bytes. bytes ≡ committed s ++ packet) (send s packet)
unfolding send
send_lem s packet v fits =
    subst (Returns (λ bytes. bytes ≡ committed s ++ packet))
      (bind_assoc (write_buf s 0 packet) (λ t. commit_write t (length packet))
        (λ t. flush_wdata t >>= λ r. ok r.1))
      (Returns-bind _ _ (write_buf s 0 packet >>= λ t. commit_write t (length packet)) _
        (write_commit_appends s packet v fits)
        (λ t h. Returns-bind _ _ (flush_wdata t) _ (flush_wdata_lem t h.2) (λ r e. e.0 ∙ h.0)))

read_back : (xs ys q : List ℕ) → q ≡ xs ++ ys → take (length ys) (drop (length xs) q) ≡ ys
read_back xs ys q e =
    ap (λ t. take (length ys) (drop (length xs) t)) e
    ∙ ap (take (length ys)) (drop-append_self (length xs) xs ys refl)
    ∙ take-all (length ys) ys (omega arith)

-- Received bytes are read back whole, behind those that were unread.
receive-read :
    (r : Session) (packet : List ℕ)
    → IsValid r
    → length packet ≤ 4096
    → r.rdata_size + length packet ≤ max_rdata_size
    → Returns
        (λ bytes. bytes ≡ packet)
        (read_buf (receive r packet).0 (length (pending r)) (length packet))
receive-read r packet v short room =
    rw
      (read_buf_lem (receive r packet).0 (length (pending r)) (length packet)
        (receive-IsValid r packet short v))
      (ground (
        arith,
        read_back (pending r) packet (pending (receive r packet).0) got,
        ap length got,
        length-append (pending r) packet,
      ))
  where
    got : pending (receive r packet).0 ≡ pending r ++ packet
    got = ground (arith, receive_lem r packet short v)

-- Over a connection with nothing committed before, a packet that both buffers have room for is
-- read back unchanged behind the bytes that were unread.
pub deliver_lem :
    (sender receiver : Session) (packet : List ℕ)
    → IsValid sender
    → IsValid receiver
    → sender.wdata_size ≡ 0
    → length packet ≤ 4096
    → receiver.rdata_size + length packet ≤ max_rdata_size
    → Returns (λ bytes. bytes ≡ packet) (deliver sender receiver packet)
unfolding deliver
deliver_lem sender receiver packet vs vr idle short room =
    Returns-bind _ _ (send sender packet) _ (send_lem sender packet vs (omega arith)) (λ bytes e.
      let same : bytes ≡ packet = e ∙ ap (λ k. take k sender.wdata ++ packet) idle in
      rw same (receive-read receiver packet vr short room))
