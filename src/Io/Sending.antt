-- ===== src/Io/Sending.antt =====
-- Reading and writing where the connection does not fail.
use enzo.Prelude.{
  ℕ, ◌<◌, ◌^◌, ◌≡◌, refl, none, suc, [], ◌∷◌, ◌++◌, arith, Bytes, length, take-append, drop-append,
  put_uint32, uint32-put_uint32, length-append, Bool, append-nil, append_assoc, ◌==◌, if◌then◌else◌,
}
use enzo.Outcome.{ok, ◌▹◌}
use enzo.Io.{Conn, write, read_full, read_packet, write_packet}

-- A connection on which every write succeeds.
abbrev pub IsUp : Conn → Type 0
IsUp c = (n : ℕ) → c.outcome n ≡ none

-- `c` after `n` more writes that sent `b`.
abbrev pub after : Conn → ℕ → Bytes → Conn
after c n b = record c { sent = c.sent ++ b; writes = n }

pub write_up : (c : Conn) (b : Bytes) → IsUp c → write c b ≡ (none, after c (suc c.writes) b)
unfolding write
write_up c b up = ground (arith, up c.writes)

pub read_full-append :
    (b more : Bytes) (closed : Bool) {n : ℕ}
    → n ≡ length b
    → read_full n (record { pending = b ++ more; closed = closed })
      ≡ ok (b, record { pending = more; closed = closed })
unfolding read_full
read_full-append b more closed h =
    ground (arith, length-append b more, take-append b more h, drop-append b more h)

-- A head, and then a body unless it is empty.
pub send_up :
    (c : Conn) (h p : Bytes)
    → IsUp c
    → (n : ℕ) × ((write c h ▹ λ c'. if length p == 0 then (none, c') else write c' p)
        ≡ (none, after c n (h ++ p)))
send_up c h [] up = (suc c.writes, rw (write_up c h up) (rw (append-nil h)))
send_up c h (b ∷ bs) up = (
  suc (suc c.writes),
  rw
      (
        write_up c h up,
        write_up (after c (suc c.writes) h) (b ∷ bs) up,
        append_assoc c.sent h (b ∷ bs),
      )
      (ground arith),
)

-- `WritePacket` then `ReadPacket`: on a connection that takes every write, a payload of fewer than
-- 2^32 bytes, the empty one included, is sent as one packet, and the reader of that packet gets
-- exactly the payload and is left at the byte behind it.
pub read_packet-write_packet :
    (c : Conn) (payload more : Bytes) (closed : Bool)
    → IsUp c
    → length payload < 2 ^ 32
    → (n : ℕ) × (packet : Bytes) × (write_packet c payload ≡ (none, after c n packet))
      × (read_packet (record { pending = packet ++ more; closed = closed })
          ≡ ok (payload, record { pending = more; closed = closed }))
unfolding write_packet read_packet
read_packet-write_packet c [] more closed up h =
    let (n, sent) = send_up c (put_uint32 0) [] up in
    (n, put_uint32 0, sent, rw (read_full-append (put_uint32 0) more closed {n = 4} refl))
read_packet-write_packet c (b ∷ bs) more closed up h =
    let p = b ∷ bs in
    let (n, sent) = send_up c (put_uint32 (length p)) p up in
    (
      n,
      put_uint32 (length p) ++ p,
      sent,
      rw (read_full-append (put_uint32 (length p)) (p ++ more) closed {n = 4} refl) (
          ground (
            arith,
            uint32-put_uint32 (length p) h,
            read_full-append p more closed {n = length p} refl,
          )),
    )
