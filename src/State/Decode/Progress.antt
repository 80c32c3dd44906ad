-- ===== src/State/Decode/Progress.antt =====
-- The decoder's state while a request arrives in pieces, as a function of the bytes so far.
use enzo.Prelude.{
  ℕ, suc, ◌+◌, ◌-◌, ◌<◌, ◌≡◌, refl, sym, ap, ◌∙◌, true, false, Bool-cases, inl, inr, Option, none,
  some, Option-cases, [], ◌∷◌, ◌++◌, arith, append_assoc, append-nil, Bytes, length, take,
  length-append, index, ltb, if◌then◌else◌, lt→ltb, ltb→lt, length-eq-zero,
}
use enzo.Io.Sending.{IsUp, after, write_up}
use enzo.Memory.RawWindow.{observe_window}
use enzo.State.ContentLength.{parse_content_length}
use enzo.State.Decode.{
  Decoder, header_end, reset_req, send_req, flush_req_if_complete, feed, feed_header, feed_body,
  deliver,
}
use enzo.State.Decode.Search.{index-length, index-append, take-append-le}

-- A request: its header ends somewhere, says how long the body is, and the body has that length.
pub record IsRequest (r : Bytes) : Type 0 where
  pub header : ℕ
  pub body : ℕ
  pub ends : index r header_end ≡ some header
  pub says : parse_content_length (take (header + 4) r) ≡ some body
  pub long : length r ≡ header + 4 + body

abbrev pub arriving_at : Option ℕ → Bytes → Decoder → Decoder
arriving_at none p d = record d { req = p; header_done = false; content_len = none; body_have = 0 }
arriving_at (some i) p d = record d {
  req = p;
  header_done = true;
  content_len = parse_content_length (take (i + 4) p);
  body_have = length p - (i + 4);
}

-- The state in which the bytes `p` of a request have arrived.
abbrev pub arriving : Bytes → Decoder → Decoder
arriving p d = arriving_at (index p header_end) p d

-- The state behind a request that was passed on.
abbrev pub delivered : Bytes → Decoder → Decoder
delivered r d = reset_req (record d {
  dest = after d.dest (suc d.dest.writes) r;
  raw_window = observe_window d.raw_window r;
})

module _ (r : Bytes) (q : IsRequest r) where
  -- Where a part of the request shows the end of the header, it is that of the request.
  found_header :
      (s rest : Bytes) (i : ℕ)
      → r ≡ s ++ rest
      → index s header_end ≡ some i
      → (i ≡ q.header) × (parse_content_length (take (i + 4) s) ≡ some q.body)
  found_header s rest i e h =
      let whole : index r header_end ≡ some i = rw e (index-append s rest header_end i h) in
      let same : i ≡ q.header = ground (arith, q.ends) in
      let front : take (i + 4) r ≡ take (i + 4) s =
        rw e (take-append-le (i + 4) s rest (index-length s header_end i h)) in
      (same, rw (← front, same) q.says)

  feed-arriving :
      (d : Decoder) (p b rest : Bytes)
      → r ≡ (p ++ b) ++ rest
      → feed b (arriving p d) ≡ (none, arriving (p ++ b) d)
  unfolding feed feed_header feed_body
  feed-arriving d p [] rest e = rw (append-nil p)
  feed-arriving d p (x ∷ xs) rest e =
      let s = p ++ x ∷ xs in
      elim (Option-cases (index p header_end)) [
        | inr (i, at) ↦
            let at' = index-append p (x ∷ xs) header_end i at in
            let front = take-append-le (i + 4) p (x ∷ xs) (index-length p header_end i at) in
            rw (at, at') (ground (arith, at', ap parse_content_length front))
        | inl before ↦ elim (Option-cases (index s header_end)) [
          | inl still ↦ rw (before, still) (ground (arith, still))
          | inr (i, now) ↦
              let (_, says) = found_header s rest i e now in
              rw (before, now) (ground (arith, now, says))
        ]
      ]

  -- A part of the request is kept back.
  flush-part :
      (d : Decoder) (p rest : Bytes)
      → r ≡ p ++ rest
      → length p < length r
      → flush_req_if_complete (arriving p d) ≡ (none, arriving p d)
  unfolding flush_req_if_complete
  flush-part d p rest e n = elim (Option-cases (index p header_end)) [
    | inl before ↦ rw before
    | inr (i, at) ↦
        let (same, says) = found_header p rest i e at in
        let open_body : length p - (i + 4) < q.body =
          omega (arith, index-length p header_end i at, q.long) in
        rw (at, says, lt→ltb _ _ open_body)
  ]

  -- The whole request is passed on, in one write, and the decoder starts afresh.
  flush-whole :
      (d : Decoder) → IsUp d.dest → flush_req_if_complete (arriving r d) ≡ (none, delivered r d)
  unfolding flush_req_if_complete send_req
  flush-whole d up =
      let (_, says) = found_header r [] q.header (sym (append-nil r)) q.ends in
      rw (q.ends, says) (ground (arith, q.long, write_up d.dest r up))

  -- The state in which the bytes `p` have arrived and what was complete has been passed on.
  abbrev pub progress : Bytes → Decoder → Decoder
  progress p d = if ltb (length p) (length r) then arriving p d else delivered r d

  deliver-part :
      (d : Decoder) (p b rest : Bytes)
      → IsUp d.dest
      → r ≡ (p ++ b) ++ rest
      → length p < length r
      → deliver b (arriving p d) ≡ (none, progress (p ++ b) d)
  unfolding deliver
  deliver-part d p b rest up e n =
      let e' : length r ≡ length (p ++ b) + length rest =
        omega (arith, ap length e, length-append (p ++ b) rest) in
      elim (Bool-cases (ltb (length (p ++ b)) (length r))) [
        | inl part ↦
            rw (deliver, feed-arriving d p b rest e, part)
              (flush-part d (p ++ b) rest e (ltb→lt _ _ part))
        | inr all ↦
            let none_left : rest ≡ [] = length-eq-zero rest (ground arith) in
            let full : p ++ b ≡ r =
              sym (e ∙ ap (λ t. (p ++ b) ++ t) none_left ∙ append-nil (p ++ b)) in
            rw (deliver, feed-arriving d p b rest e, all, full) (flush-whole d up)
      ]

  -- A piece that comes when the request is complete is empty, and changes nothing.
  deliver-done : (d : Decoder) → deliver [] (delivered r d) ≡ (none, delivered r d)
  unfolding deliver feed flush_req_if_complete
  deliver-done d = refl

  -- `feed` and `flushReqIfComplete` on the next piece `b` of a request `r` of which `p` has arrived,
  -- on a connection that takes every write: no error, and the state is the one for `p ++ b`, however
  -- the request is cut into pieces. That state holds the piece back while the request is not whole,
  -- and has written all of it, in one write, and started afresh when it is.
  pub deliver-progress :
      (d : Decoder) (p b rest : Bytes)
      → IsUp d.dest
      → r ≡ p ++ (b ++ rest)
      → deliver b (progress p d) ≡ (none, progress (p ++ b) d)
  deliver-progress d p b rest up e =
      let e' : length r ≡ length p + (length b + length rest) =
        omega (arith, ap length e, length-append p (b ++ rest), length-append b rest) in
      elim (Bool-cases (ltb (length p) (length r))) [
        | inl part ↦
            rw part (deliver-part d p b rest up (e ∙ sym (append_assoc p b rest)) (ltb→lt _ _ part))
        | inr all ↦
            let nothing : b ≡ [] = length-eq-zero b (ground arith) in
            rw (nothing, append-nil p, all) (deliver-done d)
      ]
