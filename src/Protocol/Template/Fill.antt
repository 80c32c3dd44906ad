-- ===== src/Protocol/Template/Fill.antt =====
-- The buffer of a payload, written piece by piece.
use enzo.Prelude.{
  ℕ, ◌≤◌, ◌+◌, ◌-◌, ◌≡◌, refl, ap, ◌∙◌, sym, List, [], ◌∷◌, ◌++◌, arith, append_assoc, Bytes,
  length, take, drop, replicate, concat, length-append, length-replicate, take-append, drop-append,
  take_of_length-le, drop-drop, length-drop,
}
use enzo.Protocol.Template.{put, put_all, fill}

-- A write behind `done` into a tail with room for it replaces the head of the tail.
put-append :
    (done bs tail : Bytes)
    → length bs ≤ length tail
    → put bs (done ++ tail, length done)
      ≡ ((done ++ bs) ++ drop (length bs) tail, length (done ++ bs))
unfolding put
put-append done bs tail h = λ i. (buffer i, sym (length-append done bs) i)
  where
    kept : take (length (done ++ tail) - length done) bs ≡ bs
    kept = take_of_length-le _ bs (omega (arith, length-append done tail))

    rest : drop (length done + length bs) (done ++ tail) ≡ drop (length bs) tail
    rest = rw (← drop-drop (length done) (length bs) (done ++ tail), drop-append done tail refl)

    buffer :
        take (length done) (done ++ tail)
          ++ (take (length (done ++ tail) - length done) bs
              ++ drop (length done + length bs) (done ++ tail))
        ≡ (done ++ bs) ++ drop (length bs) tail
    buffer = rw (take-append done tail refl, kept, rest) (sym (append_assoc done bs _))

put_all-append :
    (bss : List Bytes) (done tail : Bytes)
    → length tail ≡ length (concat bss)
    → (put_all bss (done ++ tail, length done)).0 ≡ done ++ concat bss
unfolding put_all
put_all-append [] done [] h = refl
put_all-append [] done (b ∷ tail) h = absurd (omega arith)
put_all-append (bs ∷ bss) done tail h =
    ap (λ c. (put_all bss c).0)
      (put-append done bs tail (omega (arith, length-append bs (concat bss))))
    ∙ put_all-append bss (done ++ bs) (drop (length bs) tail)
        (omega (arith, length-append bs (concat bss), length-drop (length bs) tail))
    ∙ append_assoc done bs (concat bss)

-- Where the total is the sum of the lengths, the buffer is the concatenation.
pub fill-concat :
    (bss : List Bytes) (total : ℕ) → total ≡ length (concat bss) → fill total bss ≡ concat bss
unfolding fill
fill-concat bss total h = put_all-append bss [] (replicate total 0) (length-replicate total 0 ∙ h)
