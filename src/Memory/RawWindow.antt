-- ===== src/Memory/RawWindow.antt =====
-- internal/memory/rawwindow.go: a ring of the bytes that were seen last.
pub mod Rotate
pub mod Copy
pub mod Fifo
pub mod History
use enzo.Prelude.{
  ℕ, ◌+◌, ◌-◌, ◌%◌, ◌++◌, [], Option, none, some, Bytes, length, take, drop, replicate, ltb, leb,
  ◌==◌, if◌then◌else◌,
}

pub record RawWindow : Type 0 where
  pub buf : Bytes
  pub head : ℕ
  pub size : ℕ

-- `NewRawWindow`; `none` is its panic.
unfoldable pub new_raw_window : ℕ → Option RawWindow
new_raw_window size_bytes =
    if size_bytes == 0
    then none
    else some (record { buf = replicate size_bytes 0; head = 0; size = 0 })

-- `Cap` and `Len`
abbrev pub cap_bytes : RawWindow → ℕ
cap_bytes w = length w.buf

abbrev pub len_bytes : RawWindow → ℕ
len_bytes w = w.size

-- `copy(buf[i:i+len(p)], p)`
abbrev pub blit : Bytes → ℕ → Bytes → Bytes
blit buf i p = take i buf ++ (p ++ drop (i + length p) buf)

-- The second segment of `copyIntoRing`, from the start of the buffer.
unfoldable pub copy_rest : RawWindow → Bytes → RawWindow
copy_rest w p =
    if length p == 0 then w else record w { buf = blit w.buf 0 p; head = length p % cap_bytes w }

-- `copyIntoRing`
unfoldable pub copy_into_ring : RawWindow → Bytes → RawWindow
copy_into_ring w p =
    if cap_bytes w == 0
    then w
    else if length p == 0
    then w
    else (let n =
          (if ltb (length p) (cap_bytes w - w.head) then length p else cap_bytes w - w.head) in
        copy_rest
          (record w { buf = blit w.buf w.head (take n p); head = (w.head + n) % cap_bytes w })
          (drop n p))

-- `Append`
unfoldable pub append : RawWindow → Bytes → RawWindow
append w p =
    if length p == 0
    then w
    else if cap_bytes w == 0
    then w
    else if leb (cap_bytes w) (length p)
    then record (copy_into_ring w (drop (length p - cap_bytes w) p)) { size = cap_bytes w }
    else record (copy_into_ring w p) {
      size = (if ltb (cap_bytes w) (w.size + length p) then cap_bytes w else w.size + length p);
    }

-- `start` of `Snapshot`: the index of the oldest byte.
abbrev pub oldest : RawWindow → ℕ
oldest w = if ltb w.head w.size then w.head + cap_bytes w - w.size else w.head - w.size

-- `Snapshot`
unfoldable pub snapshot : RawWindow → Bytes
snapshot w =
    if w.size == 0
    then []
    else (let start = oldest w in
        if leb (start + w.size) (cap_bytes w)
        then take w.size (drop start w.buf)
        else drop start w.buf ++ take (w.size - (cap_bytes w - start)) w.buf)

-- `if cc.RawWindowFwd != nil { cc.RawWindowFwd.Append(b) }`
abbrev pub observe_window : Option RawWindow → Bytes → Option RawWindow
observe_window none b = none
observe_window (some w) b = some (append w b)
