-- ===== src/Io.antt =====
-- internal/io/framer.go, and the ends of a connection that it wraps. `net.Conn` is not in the
-- repository: what it answers to each write is a parameter, and what it still has to deliver is
-- the state of the reading end.
pub mod Sending
use enzo.Prelude.{
  ℕ, suc, ◌+◌, ◌≡◌, refl, Bool, true, false, Option, none, some, [], ◌∷◌, ◌++◌, arith, Bytes,
  length, take, drop, leb, ◌==◌, if◌then◌else◌, put_uint32, uint32_of,
}
use enzo.Outcome.{Error, Result, ok, err, eof, unexpected_eof, broken_pipe, panic, ◌>>=◌, ◌▹◌}

-- The writing end. The write with number `writes` sends everything and returns no error where
-- `outcome` is `none`; where it is `some k` it sends `k` bytes at most and fails.
pub record Conn : Type 0 where
  pub sent : Bytes
  pub writes : ℕ
  pub outcome : ℕ → Option ℕ

-- `c.Write(b)`: the error, and the connection after it.
unfoldable pub write : Conn → Bytes → Option Error × Conn
write c b = elim (c.outcome c.writes) [
  | none ↦ (none, record c { sent = c.sent ++ b; writes = suc c.writes })
  | some k ↦ (some broken_pipe, record c { sent = c.sent ++ take k b; writes = suc c.writes })
]

-- The reading end: the bytes that are still to come, and whether the peer closed the stream behind
-- them (`true`) or the connection breaks there (`false`).
pub record Source : Type 0 where
  pub pending : Bytes
  pub closed : Bool

-- The error of a stream that is closed too early.
abbrev pub short : Bytes → Error
short [] = eof
short (b ∷ bs) = unexpected_eof

-- `io.ReadFull(r, buf)` with `len(buf) = n > 0`.
unfoldable pub read_full : ℕ → Source → Result (Bytes × Source)
read_full n s =
    if leb n (length s.pending)
    then ok (take n s.pending, record s { pending = drop n s.pending })
    else err (if s.closed then short s.pending else broken_pipe)

-- `PeekByte`: the next byte, which stays in the buffer.
unfoldable pub peek_byte : Source → Result ℕ
peek_byte s = elim s.pending [ [] ↦ err (if s.closed then eof else broken_pipe) | b ∷ bs ↦ ok b ]

-- The value of the four bytes of a length, `binary.BigEndian.Uint32`.
unfoldable pub uint32 : Bytes → Result ℕ
uint32 (a ∷ b ∷ c ∷ d ∷ _) = ok (uint32_of a b c d)
uint32 _ = err panic

-- `ReadPacket`
unfoldable pub read_packet : Source → Result (Bytes × Source)
unfolding uint32
read_packet s = do
  (len_buf, s') ← read_full 4 s
  n ← uint32 len_buf
  if n == 0 then ok ([], s') else read_full n s'

-- `WritePacket`
unfoldable pub write_packet : Conn → Bytes → Option Error × Conn
write_packet c payload = write c (put_uint32 (length payload)) ▹ λ c'.
    if length payload == 0 then (none, c') else write c' payload
