-- ===== src/Memory/RawWindow/Rotate.antt =====
-- The ring, read from its oldest byte on: what a copy into it and a snapshot of it are.
use native.Mathlib.Nat.{mod_self, mod-eq_of_lt}
use enzo.Prelude.{
  ℕ, ◌+◌, ◌%◌, ◌<◌, ◌≤◌, ◌≡◌, inl, inr, sym, ap, ◌∙◌, Bool-cases, ◌++◌, arith, append_assoc,
  append-nil, Bytes, length, take, drop, ltb, ltb→lt, length-append, length-take, length-drop,
  drop_of_length-le, take_of_length-le, drop-drop, drop-append-le, take-append, drop-append,
}
use enzo.Memory.RawWindow.{RawWindow, cap_bytes, blit}

-- A ring of one byte at least, with its next index in range and no more bytes than it has room for.
pub record IsRing (w : RawWindow) : Type 0 where
  pub room : 0 < cap_bytes w
  pub next : w.head < cap_bytes w
  pub full : w.size ≤ cap_bytes w

-- The buffer from the next index on, which holds the oldest byte when the ring is full.
abbrev pub rotate_at : Bytes → ℕ → Bytes
rotate_at buf i = drop i buf ++ take i buf

abbrev pub rotate : RawWindow → Bytes
rotate w = rotate_at w.buf w.head

pub length-rotate : (w : RawWindow) → IsRing w → length (rotate w) ≡ cap_bytes w
length-rotate w h = omega (
  arith,
  h.next,
  length-append (drop w.head w.buf) (take w.head w.buf),
  length-drop w.head w.buf,
  length-take w.head w.buf,
)

-- An index that comes to the end of the buffer starts again, and reads the same.
pub rotate_at-wrap :
    (buf : Bytes) (i : ℕ)
    → i ≤ length buf
    → 0 < length buf
    → rotate_at buf (i % length buf) ≡ rotate_at buf i
rotate_at-wrap buf i h r = elim (Bool-cases (ltb i (length buf))) [
  | inl below ↦ ap (rotate_at buf) (mod-eq_of_lt (ltb→lt i (length buf) below))
  | inr at_end ↦
      let e : i ≡ length buf = ground arith in
      let z : i % length buf ≡ 0 = ap (λ k. k % length buf) e ∙ mod_self (length buf) in
      rw (z, drop_of_length-le i buf (omega arith), take_of_length-le i buf (omega arith))
        (append-nil buf)
]

-- A part that fits behind the index `i`, written there, and the index moved behind it.
pub rotate_at-blit :
    (buf p : Bytes) (i : ℕ)
    → i + length p ≤ length buf
    → rotate_at (blit buf i p) (i + length p) ≡ drop (length p) (rotate_at buf i) ++ p
rotate_at-blit buf p i h =
    rw
      (
        split_drop,
        split_take,
        drop-append-le (length p) (drop i buf) (take i buf) (omega (arith, length-drop i buf)),
        drop-drop i (length p) buf,
      )
      (sym (append_assoc (drop (i + length p) buf) (take i buf) p))
  where
    front : length (take i buf) ≡ i
    front = omega (arith, length-take i buf)

    whole : blit buf i p ≡ (take i buf ++ p) ++ drop (i + length p) buf
    whole = sym (append_assoc (take i buf) p (drop (i + length p) buf))

    long : i + length p ≡ length (take i buf ++ p)
    long = omega (arith, front, length-append (take i buf) p)

    split_drop : drop (i + length p) (blit buf i p) ≡ drop (i + length p) buf
    split_drop = rw whole (drop-append (take i buf ++ p) (drop (i + length p) buf) long)

    split_take : take (i + length p) (blit buf i p) ≡ take i buf ++ p
    split_take = rw whole (take-append (take i buf ++ p) (drop (i + length p) buf) long)

pub length-blit :
    (buf p : Bytes) (i : ℕ) → i + length p ≤ length buf → length (blit buf i p) ≡ length buf
length-blit buf p i h = omega (
  arith,
  length-append (take i buf) (p ++ drop (i + length p) buf),
  length-append p (drop (i + length p) buf),
  length-take i buf,
  length-drop (i + length p) buf,
)
