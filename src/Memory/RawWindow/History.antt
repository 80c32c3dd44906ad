-- ===== src/Memory/RawWindow/History.antt =====
-- The window over a history of appends.
use mathlib.Core.List.{foldl}
use enzo.Prelude.{
  ℕ, ◌+◌, ◌-◌, ◌<◌, ◌≡◌, ◌∷◌, List, sym, ap, ◌∙◌, Bool-cases, inl, inr, [], ◌++◌, arith,
  append_assoc, Bytes, length, drop, ◌==◌, length-append, length-drop, drop-drop, drop-append-le,
  concat, replicate, length-replicate, some,
}
use enzo.Memory.RawWindow.{RawWindow, new_raw_window, cap_bytes, append, snapshot}
use enzo.Memory.RawWindow.Rotate.{IsRing}
use enzo.Memory.RawWindow.Fifo.{last, append-Appended, append-nothing}

last-last : (n : ℕ) (s t : Bytes) → last n (last n s ++ t) ≡ last n (s ++ t)
last-last n s t =
    ap (last n) (sym (drop-append-le k s t (omega arith)))
    ∙ drop-drop k (length (drop k (s ++ t)) - n) (s ++ t)
    ∙ ap (λ i. drop i (s ++ t)) {x = k + (length (drop k (s ++ t)) - n)} {y = length (s ++ t) - n}
        (omega (arith, length-drop k (s ++ t), length-append s t))
  where
    k : ℕ
    k = length s - n

appends :
    (w : RawWindow) (ps : List Bytes)
    → IsRing w
    → snapshot (foldl append w ps) ≡ last (cap_bytes w) (snapshot w ++ concat ps)
appends w [] h = (append-nothing w h).shows
appends w (p ∷ ps) h =
    let a = append-Appended w p h in
    appends (append w p) ps a.ring
    ∙ ap (λ c. last c (snapshot (append w p) ++ concat ps)) a.same_cap
    ∙ ap (λ b. last (cap_bytes w) (b ++ concat ps)) a.shows
    ∙ last-last (cap_bytes w) (snapshot w ++ p) (concat ps)
    ∙ ap (last (cap_bytes w)) (append_assoc (snapshot w) p (concat ps))

abbrev fresh : ℕ → RawWindow
fresh n = record { buf = replicate n 0; head = 0; size = 0 }

fresh-appends :
    (n : ℕ) (ps : List Bytes) → 0 < n → snapshot (foldl append (fresh n) ps) ≡ last n (concat ps)
unfolding snapshot
fresh-appends n ps h =
    let long : length (replicate {A = ℕ} n 0) ≡ n = length-replicate n 0 in
    appends (fresh n) ps
      (record { room = omega (arith, long); next = omega (arith, long); full = omega arith })
    ∙ ap (λ c. last c (concat ps)) long

-- `NewRawWindow` of a positive size, and then any appends: the snapshot shows exactly the last bytes
-- of all that was appended, in order, as many as the size, or all of them while they are fewer.
pub snapshot-append_all :
    (n : ℕ) (w : RawWindow) (ps : List Bytes)
    → new_raw_window n ≡ some w
    → snapshot (foldl append w ps) ≡ last n (concat ps)
unfolding new_raw_window
snapshot-append_all n w ps made = elim (Bool-cases (n == 0)) [
  | inl none_made ↦ absurd (ground arith)
  | inr positive ↦
      let same : fresh n ≡ w = ground arith in
      ap (λ x. snapshot (foldl append x ps)) (sym same) ∙ fresh-appends n ps (ground arith)
]
