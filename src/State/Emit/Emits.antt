-- ===== src/State/Emit/Emits.antt =====
-- What the encoder owes for a piece of input: no error, and frames that stand for exactly that
-- piece; and how the pieces go together.
use enzo.Prelude.{
  ℕ, ◌^◌, ◌<◌, ◌≡◌, refl, ap, sym, ◌∙◌, true, Option, none, some, List, [], ◌++◌, arith,
  append_assoc, append-nil, Bytes, length, length-append, All, All-append, lookup,
}
use enzo.Outcome.{Error, ok, ◌▹◌, ▹-none}
use enzo.Io.{Conn}
use enzo.Io.Sending.{IsUp, after}
use enzo.State.Agreement.{Template, Templates, SpanStat, Enc, add_uint64}
use enzo.State.Meaning.{Frame, wire, IsValid, expand_all, wire-append, expand_all-append}

-- `owner` says which template each identifier belongs to. Every defined span is known to the
-- decoder under its identifier, and the counter of the wire is a `uint64`.
pub record Agrees (owner : ℕ → Template) (e : Enc) : Type 0 where
  pub up : IsUp e.dest
  pub counter : e.wire_out < 2 ^ 64
  pub known :
      (tid : ℕ) (st : SpanStat)
      → lookup tid e.span_stats ≡ some st
      → st.defined ≡ true
      → lookup tid e.templates ≡ some (owner tid)

-- From a connection `c`, templates `d` and a wire counter `w`, the step `r` has written frames that
-- stand for `raw`, has counted their bytes, and keeps the agreement.
pub record Emits (owner : ℕ → Template) (c : Conn) (d : Templates) (w : ℕ) (raw : Bytes)
    (r : Option Error × Enc) : Type 0 where
  pub no_error : r.0 ≡ none
  pub agrees : Agrees owner r.1
  pub frames : List Frame
  pub writes : ℕ
  pub sent : r.1.dest ≡ after c writes (wire frames)
  pub counted : r.1.wire_out ≡ add_uint64 w (length (wire frames))
  pub valid : All IsValid frames
  pub means : expand_all d frames ≡ ok (r.1.templates, raw)

-- The step `r` started from the state `e`.
abbrev pub EmitsFrom : (ℕ → Template) → Enc → Bytes → Option Error × Enc → Type 0
EmitsFrom owner e = Emits owner e.dest e.templates e.wire_out

pub after-nothing : (c : Conn) → c ≡ after c c.writes (wire [])
after-nothing c = sym (ap (λ s. record c { sent = s }) (append-nil c.sent))

-- Frames behind frames.
pub after-wire :
    (c : Conn) (fs gs : List Frame) (n m : ℕ) {c' c'' : Conn}
    → c' ≡ after c n (wire fs)
    → c'' ≡ after c' m (wire gs)
    → c'' ≡ after c m (wire (fs ++ gs))
after-wire c fs gs n m h g =
    g
    ∙ ap (λ x. after x m (wire gs)) h
    ∙ ap (λ s. record c { sent = s; writes = m })
        (append_assoc c.sent (wire fs) (wire gs) ∙ ap (λ s. c.sent ++ s) (sym (wire-append fs gs)))

-- Nothing to send.
pub Emits-nothing :
    (owner : ℕ → Template) (e : Enc) → Agrees owner e → EmitsFrom owner e [] (none, e)
unfolding expand_all
Emits-nothing owner e h = record {
  no_error = refl;
  agrees = h;
  frames = [];
  writes = e.dest.writes;
  sent = after-nothing e.dest;
  counted = omega (arith, h.counter);
  valid = tt;
  means = refl;
}

pub Emits-seq :
    (owner : ℕ → Template) {c : Conn} {d : Templates} {w : ℕ} {a b : Bytes} (r : Option Error × Enc)
    (k : Enc → Option Error × Enc)
    → Emits owner c d w a r
    → EmitsFrom owner r.1 b (k r.1)
    → Emits owner c d w (a ++ b) (r ▹ k)
Emits-seq owner {c} {d} {w} {a} {b} r k h g = rw (▹-none r k h.no_error) (record {
  no_error = g.no_error;
  agrees = g.agrees;
  frames = h.frames ++ g.frames;
  writes = g.writes;
  sent = after-wire c h.frames g.frames h.writes g.writes h.sent g.sent;
  counted = omega (
    arith,
    h.counted,
    g.counted,
    ap length (wire-append h.frames g.frames),
    length-append (wire h.frames) (wire g.frames),
  );
  valid = All-append IsValid h.frames g.frames h.valid g.valid;
  means = expand_all-append h.frames g.frames d h.means g.means;
})
