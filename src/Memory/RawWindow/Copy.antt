-- ===== src/Memory/RawWindow/Copy.antt =====
-- `copyIntoRing`, on one segment and on two.
use mathlib.Core.Path.{subst}
use native.Mathlib.Nat.{mod-lt, mod_self}
use enzo.Prelude.{
  ℕ, ◌+◌, ◌-◌, ◌%◌, ◌<◌, ◌≤◌, ◌≡◌, ◌≢◌, ◌∷◌, refl, sym, ap, ◌∙◌, false, Bool-cases, inl, inr, [],
  ◌++◌, arith, append_assoc, append-nil, Bytes, length, take, drop, ltb, ltb→lt, ◌==◌,
  length-append, length-take, length-drop, take-append-drop, drop-drop, drop-append-le,
}
use enzo.Memory.RawWindow.{RawWindow, cap_bytes, blit, copy_rest, copy_into_ring}
use enzo.Memory.RawWindow.Rotate.{
  IsRing, rotate, rotate_at, rotate_at-wrap, rotate_at-blit, length-blit, length-rotate,
}

-- What a copy of `p` leaves: the bytes of the ring move up by its length, and `p` stands behind them.
pub record Copied (w : RawWindow) (p : Bytes) (w' : RawWindow) : Type 0 where
  pub same_cap : cap_bytes w' ≡ cap_bytes w
  pub next : w'.head < cap_bytes w
  pub moved : rotate w' ≡ drop (length p) (rotate w) ++ p

-- One segment.
abbrev at_once : RawWindow → Bytes → RawWindow
at_once w p = record w { buf = blit w.buf w.head p; head = (w.head + length p) % cap_bytes w }

at_once-Copied :
    (w : RawWindow) (p : Bytes)
    → IsRing w
    → w.head + length p ≤ cap_bytes w
    → Copied w p (at_once w p)
at_once-Copied w p h n =
    let same = length-blit w.buf p w.head n in
    record {
      same_cap = same;
      next = mod-lt (w.head + length p) h.room;
      moved =
          ap (λ c. rotate_at (blit w.buf w.head p) ((w.head + length p) % c)) (sym same)
          ∙ rotate_at-wrap (blit w.buf w.head p) (w.head + length p) (omega (arith, same))
              (omega (arith, same, h.room))
          ∙ rotate_at-blit w.buf p w.head n;
    }

-- A copy behind a copy.
Copied-seq :
    (w w' w'' : RawWindow) (p q : Bytes)
    → IsRing w
    → length p + length q ≤ cap_bytes w
    → Copied w p w'
    → Copied w' q w''
    → Copied w (p ++ q) w''
Copied-seq w w' w'' p q r n h g = record {
  same_cap = g.same_cap ∙ h.same_cap;
  next = omega (arith, g.next, h.same_cap);
  moved =
      g.moved
      ∙ ap (λ b. drop (length q) b ++ q) h.moved
      ∙ ap (λ b. b ++ q)
          (drop-append-le (length q) (drop (length p) (rotate w)) p
            (omega (arith, length-drop (length p) (rotate w), length-rotate w r)))
      ∙ append_assoc (drop (length q) (drop (length p) (rotate w))) p q
      ∙ ap (λ b. b ++ (p ++ q)) (drop-drop (length p) (length q) (rotate w))
      ∙ ap (λ k. drop k (rotate w) ++ (p ++ q)) {x = length p + length q} {y = length (p ++ q)}
          (omega (arith, length-append p q));
}

copy_rest-Copied :
    (w : RawWindow) (q : Bytes)
    → IsRing w
    → (length q ≢ 0 → w.head ≡ 0)
    → length q ≤ cap_bytes w
    → Copied w q (copy_rest w q)
unfolding copy_rest
copy_rest-Copied w [] h z n = record {
  same_cap = refl;
  next = h.next;
  moved = sym (append-nil (rotate w));
}
copy_rest-Copied w (b ∷ q) h z n =
    let start : w.head ≡ 0 = z (λ e. absurd (omega arith)) in
    let e : 0 + length (b ∷ q) ≡ length (b ∷ q) = omega arith in
    let some_left : (length (b ∷ q) == 0) ≡ false = ground arith in
    let once : at_once w (b ∷ q) ≡ copy_rest w (b ∷ q) = rw (copy_rest, start, some_left, e) refl in
    subst (Copied w (b ∷ q)) once (at_once-Copied w (b ∷ q) h (omega arith))

-- The two segments, the first `n` bytes long.
copy_segments-Copied :
    (w : RawWindow) (p : Bytes) (n : ℕ)
    → IsRing w
    → length p ≤ cap_bytes w
    → n ≤ length p
    → w.head + n ≤ cap_bytes w
    → (n < length p → w.head + n ≡ cap_bytes w)
    → Copied w p (
        copy_rest
          (record w { buf = blit w.buf w.head (take n p); head = (w.head + n) % cap_bytes w })
          (drop n p))
copy_segments-Copied w p n h fits part room wraps =
    let q = take n p in
    let long : length q ≡ n = omega (arith, length-take n p) in
    let w' : RawWindow = record w {
      buf = blit w.buf w.head q;
      head = (w.head + n) % cap_bytes w;
    } in
    let first : Copied w q w' =
      subst
        (λ k.
          Copied w q (record w { buf = blit w.buf w.head q; head = (w.head + k) % cap_bytes w }))
        long (at_once-Copied w q h (omega arith)) in
    let h' : IsRing w' = record {
      room = omega (arith, first.same_cap, h.room);
      next = omega (arith, first.same_cap, first.next);
      full = omega (arith, first.same_cap, h.full);
    } in
    let back : length (drop n p) ≢ 0 → w'.head ≡ 0 = λ left.
      ap (λ k. k % cap_bytes w) (wraps (ground (arith, length-drop n p)))
      ∙ mod_self (cap_bytes w) in
    let second =
      copy_rest-Copied w' (drop n p) h' back (omega (arith, length-drop n p, first.same_cap)) in
    subst (λ x. Copied w x (copy_rest w' (drop n p))) (take-append-drop n p)
      (Copied-seq w w' (copy_rest w' (drop n p)) q (drop n p) h (omega (arith, length-drop n p))
        first second)

-- The whole of `copyIntoRing`, for a part that is no longer than the ring.
pub copy_into_ring-Copied :
    (w : RawWindow) (p : Bytes)
    → IsRing w
    → length p ≤ cap_bytes w
    → Copied w p (copy_into_ring w p)
unfolding copy_into_ring
copy_into_ring-Copied w [] h n =
    let some_room : (cap_bytes w == 0) ≡ false = ground (arith, h.room) in
    rw (copy_into_ring, some_room)
      (record { same_cap = refl; next = h.next; moved = sym (append-nil (rotate w)) })
copy_into_ring-Copied w (b ∷ bs) h fits =
    let p = b ∷ bs in
    let some_room : (cap_bytes w == 0) ≡ false = ground (arith, h.room) in
    let some_left : (length p == 0) ≡ false = ground arith in
    elim (Bool-cases (ltb (length p) (cap_bytes w - w.head))) [
      | inl short ↦
          rw (copy_into_ring, some_room, some_left, short)
            (copy_segments-Copied w p (length p) h fits (omega arith)
              (omega (arith, ltb→lt _ _ short)) (λ n. absurd (omega arith)))
      | inr long ↦
          let over : cap_bytes w - w.head ≤ length p = ground (arith, long) in
          rw (copy_into_ring, some_room, some_left, long)
            (copy_segments-Copied w p (cap_bytes w - w.head) h fits over (omega (arith, h.next))
              (λ n. omega (arith, h.next)))
    ]
