-- ===== src/Network/Frame.antt =====
-- src/network/mod.rs: `read_framed_packet`. The stream is the list of the bytes that still arrive;
-- it ends early if the peer closes it.
use yuri.Base.{
  ℕ, ◌+◌, ◌*◌, ◌^◌, ◌≡◌, List, ◌∷◌, ◌++◌, arith, if◌then◌else◌, ltb, ◌==◌, not, get_or, length,
  take, drop, take-append_self, drop-append_self, length-append,
}

pub data FrameError : Type 0 where
  -- `read_exact` met the end of the stream.
  end_of_stream : FrameError
  bad_header : (byte : ℕ) → FrameError

pub data FrameResult : Type 0 where
  frame : (packet rest : List ℕ) → FrameResult
  failed : FrameError → FrameResult

unfoldable pub read_framed_packet : List ℕ → FrameResult
read_framed_packet stream =
    if ltb (length stream) 3
    then failed end_of_stream
    else if not (get_or stream 0 0 == 0xAA)
    then failed (bad_header (get_or stream 0 0))
    else let total = get_or stream 1 0 * 2 ^ 8 + get_or stream 2 0 + 3 in
      if ltb (length stream) total
      then failed end_of_stream
      else frame (take total stream) (drop total stream)

-- A packet whose length field is its length without the header comes off the stream whole, and
-- what follows it stays.
pub read_framed_packet_lem :
    (hi lo : ℕ) (body rest : List ℕ)
    → length body ≡ hi * 256 + lo
    → read_framed_packet ((0xAA ∷ hi ∷ lo ∷ body) ++ rest) ≡ frame (0xAA ∷ hi ∷ lo ∷ body) rest
unfolding read_framed_packet
read_framed_packet_lem hi lo body rest h = ground (
  arith,
  length-append body rest,
  take-append_self (hi * 256 + lo + 3) (0xAA ∷ hi ∷ lo ∷ body) rest,
  drop-append_self (hi * 256 + lo + 3) (0xAA ∷ hi ∷ lo ∷ body) rest,
)
