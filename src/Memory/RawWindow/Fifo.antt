-- ===== src/Memory/RawWindow/Fifo.antt =====
-- The window as a queue: what a snapshot shows after `Append`.
use enzo.Prelude.{
  ℕ, ◌+◌, ◌-◌, ◌<◌, ◌≤◌, ◌≡◌, ◌∷◌, refl, sym, ap, ◌∙◌, true, false, Bool-cases, inl, inr, [], ◌++◌,
  arith, append-nil, Bytes, length, take, drop, ltb, leb, leb→le, ltb→lt, ◌==◌, length-append,
  length-drop, drop_of_length-le, take_of_length-le, drop-drop, drop-append-le, drop-append-ge,
  drop-take, min,
}
use enzo.Memory.RawWindow.{RawWindow, cap_bytes, copy_into_ring, append, snapshot}
use enzo.Memory.RawWindow.Rotate.{IsRing, rotate, length-rotate}
use enzo.Memory.RawWindow.Copy.{Copied, copy_into_ring-Copied}

-- The last `n` bytes of `s`.
abbrev pub last : ℕ → Bytes → Bytes
last n s = drop (length s - n) s

module _ (w : RawWindow) (h : IsRing w) where
  -- The bytes stand in one piece in front of the next index.
  newest_straight :
      w.size ≤ w.head
      → take w.size (drop (w.head - w.size) w.buf) ≡ drop (cap_bytes w - w.size) (rotate w)
  newest_straight n = sym (
      drop-append-ge (cap_bytes w - w.size) (drop w.head w.buf) (take w.head w.buf)
        (omega (arith, length-drop w.head w.buf))
      ∙ ap (λ k. drop k (take w.head w.buf)) back
      ∙ drop-take (w.head - w.size) w.head w.buf
      ∙ ap (λ k. take k (drop (w.head - w.size) w.buf)) all)
    where
      back : cap_bytes w - w.size - length (drop w.head w.buf) ≡ w.head - w.size
      back = omega (arith, length-drop w.head w.buf, h.full, h.next)

      all : w.head - (w.head - w.size) ≡ w.size
      all = omega arith

  -- They go around the end of the buffer.
  newest_around :
      w.head < w.size
      → drop (w.head + cap_bytes w - w.size) w.buf ++ take w.head w.buf
        ≡ drop (cap_bytes w - w.size) (rotate w)
  newest_around n = sym (
      drop-append-le (cap_bytes w - w.size) (drop w.head w.buf) (take w.head w.buf)
        (omega (arith, length-drop w.head w.buf, h.full))
      ∙ ap (λ b. b ++ take w.head w.buf) (drop-drop w.head (cap_bytes w - w.size) w.buf)
      ∙ ap (λ k. drop k w.buf ++ take w.head w.buf) start)
    where
      start : w.head + (cap_bytes w - w.size) ≡ w.head + cap_bytes w - w.size
      start = omega (arith, h.full)

  -- They end where the buffer ends.
  newest_at_end :
      w.head < w.size
      → w.head ≡ 0
      → take w.size (drop (w.head + cap_bytes w - w.size) w.buf)
        ≡ drop (cap_bytes w - w.size) (rotate w)
  newest_at_end n z =
      take_of_length-le w.size (drop start w.buf) (omega (arith, length-drop start w.buf, h.full))
      ∙ sym (append-nil (drop start w.buf))
      ∙ ap (λ k. drop start w.buf ++ take k w.buf) (sym z)
      ∙ newest_around n
    where
      start : ℕ
      start = w.head + cap_bytes w - w.size

  -- A snapshot is the newest part of the ring.
  snapshot-rotate : snapshot w ≡ drop (cap_bytes w - w.size) (rotate w)
  unfolding snapshot
  snapshot-rotate = elim (Bool-cases (w.size == 0)) [
    | inl empty ↦
        let e : w.size ≡ 0 = ground arith in
        rw (snapshot, empty)
          (sym (
            drop_of_length-le (cap_bytes w - w.size) (rotate w) (omega (arith, length-rotate w h))))
    | inr some_size ↦ elim (Bool-cases (ltb w.head w.size)) [
      | inl around ↦
          elim (Bool-cases (leb (w.head + cap_bytes w - w.size + w.size) (cap_bytes w))) [
            | inl at_zero ↦
                let n : w.head < w.size = ltb→lt _ _ around in
                let z : w.head ≡ 0 = omega (arith, leb→le _ _ at_zero, h.full) in
                rw (snapshot, some_size, around, at_zero) (newest_at_end n z)
            | inr split ↦
                let n : w.head < w.size = ltb→lt _ _ around in
                let e : w.size - (cap_bytes w - (w.head + cap_bytes w - w.size)) ≡ w.head =
                  omega (arith, h.full) in
                rw (snapshot, some_size, around, split, e) (newest_around n)
          ]
      | inr straight ↦
          let n : w.size ≤ w.head = ground arith in
          let whole : leb (w.head - w.size + w.size) (cap_bytes w) ≡ true =
            ground (arith, h.next) in
          rw (snapshot, some_size, straight, whole) (newest_straight n)
    ]
  ]

pub length-snapshot : (w : RawWindow) → IsRing w → length (snapshot w) ≡ w.size
length-snapshot w h = omega (
  arith,
  h.full,
  ap length (snapshot-rotate w h),
  length-drop (cap_bytes w - w.size) (rotate w),
  length-rotate w h,
)

-- The ring `w'` that the bytes `p` were appended to, in order, as large, and with the right bytes.
pub record Appended (w : RawWindow) (p : Bytes) (w' : RawWindow) : Type 0 where
  pub ring : IsRing w'
  pub same_cap : cap_bytes w' ≡ cap_bytes w
  pub shows : snapshot w' ≡ last (cap_bytes w) (snapshot w ++ p)

module _ (w : RawWindow) (h : IsRing w) where
  -- A copy, and the number of bytes set.
  resized :
      (q p : Bytes) (w' : RawWindow) (size : ℕ)
      → Copied w q w'
      → size ≤ cap_bytes w
      → drop (cap_bytes w - size) (drop (length q) (rotate w) ++ q)
        ≡ last (cap_bytes w) (snapshot w ++ p)
      → Appended w p (record w' { size = size })
  resized q p w' size c n e = record {
    ring = r;
    same_cap = c.same_cap;
    shows =
        snapshot-rotate (record w' { size = size }) r
        ∙ ap (λ k. drop (k - size) (rotate w')) c.same_cap
        ∙ ap (drop (cap_bytes w - size)) c.moved
        ∙ e;
  }
    where
      r : IsRing (record w' { size = size })
      r = record {
        room = omega (arith, c.same_cap, h.room);
        next = omega (arith, c.same_cap, c.next);
        full = omega (arith, c.same_cap, n);
      }

  last-long :
      (p : Bytes)
      → cap_bytes w ≤ length p
      → last (cap_bytes w) (snapshot w ++ p) ≡ drop (length p - cap_bytes w) p
  last-long p n =
      drop-append-ge k (snapshot w) p (omega (arith, total, length-snapshot w h))
      ∙ ap (λ i. drop i p) {x = k - length (snapshot w)} {y = length p - cap_bytes w}
          (omega (arith, total, length-snapshot w h))
    where
      k : ℕ
      k = length (snapshot w ++ p) - cap_bytes w

      total : length (snapshot w ++ p) ≡ length (snapshot w) + length p
      total = length-append (snapshot w) p

  last-short :
      (p : Bytes)
      → length p < cap_bytes w
      → last (cap_bytes w) (snapshot w ++ p)
        ≡ drop (cap_bytes w - w.size + (w.size + length p - cap_bytes w)) (rotate w) ++ p
  last-short p n =
      drop-append-le k (snapshot w) p (omega (arith, total, length-snapshot w h))
      ∙ ap (λ b. drop k b ++ p) (snapshot-rotate w h)
      ∙ ap (λ b. b ++ p) (drop-drop (cap_bytes w - w.size) k (rotate w))
      ∙ ap (λ i. drop i (rotate w) ++ p) {x = cap_bytes w - w.size + k}
          (omega (arith, total, length-snapshot w h))
    where
      k : ℕ
      k = length (snapshot w ++ p) - cap_bytes w

      total : length (snapshot w ++ p) ≡ length (snapshot w) + length p
      total = length-append (snapshot w) p

  append-long :
      (p : Bytes)
      → cap_bytes w ≤ length p
      → Appended w p
          (record (copy_into_ring w (drop (length p - cap_bytes w) p)) { size = cap_bytes w })
  append-long p n =
      let q = drop (length p - cap_bytes w) p in
      let long : length q ≡ cap_bytes w = omega (arith, length-drop (length p - cap_bytes w) p) in
      let gone : drop (length q) (rotate w) ≡ [] =
        drop_of_length-le (length q) (rotate w) (omega (arith, length-rotate w h)) in
      let none_off : cap_bytes w - cap_bytes w ≡ 0 = omega arith in
      resized q p (copy_into_ring w q) (cap_bytes w) (copy_into_ring-Copied w q h (omega arith))
        (omega arith) (rw (gone, none_off) (sym (last-long p n)))

  append-short :
      (p : Bytes) (size : ℕ)
      → length p < cap_bytes w
      → size ≡ min (cap_bytes w) (w.size + length p)
      → Appended w p (record (copy_into_ring w p) { size = size })
  append-short p size n e =
      resized p p (copy_into_ring w p) size (copy_into_ring-Copied w p h (omega arith))
        (omega (arith, e))
        (drop-append-le (cap_bytes w - size) (drop (length p) (rotate w)) p
            (omega (arith, e, length-drop (length p) (rotate w), length-rotate w h))
          ∙ ap (λ b. b ++ p) (drop-drop (length p) (cap_bytes w - size) (rotate w))
          ∙ ap (λ k. drop k (rotate w) ++ p) {x = length p + (cap_bytes w - size)}
              {y = cap_bytes w - w.size + (w.size + length p - cap_bytes w)}
              (omega (arith, e, h.full))
          ∙ sym (last-short p n))

  pub append-nothing : Appended w [] w
  append-nothing = record {
    ring = h;
    same_cap = refl;
    shows = sym (
        ap (last (cap_bytes w)) (append-nil (snapshot w))
        ∙ ap (λ k. drop k (snapshot w)) {x = length (snapshot w) - cap_bytes w} {y = 0}
            (omega (arith, length-snapshot w h, h.full)));
  }

-- `Append`, on a ring in order: the ring stays in order and as large, and what a snapshot of it shows
-- is the last bytes, as many as it has room for, of the snapshot before and the new bytes behind it.
pub append-Appended : (w : RawWindow) (p : Bytes) → IsRing w → Appended w p (append w p)
unfolding append
append-Appended w [] h = append-nothing w h
append-Appended w (b ∷ bs) h =
    let p = b ∷ bs in
    let some_room : (cap_bytes w == 0) ≡ false = ground (arith, h.room) in
    let some_bytes : (length p == 0) ≡ false = ground arith in
    elim (Bool-cases (leb (cap_bytes w) (length p))) [
      | inl long ↦ rw (append, some_room, some_bytes, long) (append-long w h p (leb→le _ _ long))
      | inr short ↦
          rw (append, some_room, some_bytes, short)
            (append-short w h p _ (ground (arith, short)) (ground (arith, short)))
    ]
