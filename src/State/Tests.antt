-- ===== src/State/Tests.antt =====
-- The encoder and the decoder on concrete input.
use enzo.Prelude.{
  ℕ, ◌≡◌, refl, true, false, Option, none, some, List, [], ◌∷◌, map, arith, Bytes, codes, take,
  drop, lookup, has_prefix, has_suffix, ◌++◌, ◌↔◌,
}
use enzo.Io.Sending.{after}
use enzo.State.Agreement.{Template, Enc}
use enzo.State.Emit.{template_id_for, emit}
use enzo.State.Emit.Emits.{EmitsFrom}
use enzo.State.Lines.{lf, split_crlf}
use enzo.State.ContentLength.{
  parse_content_length, first_content_length, content_length_of, atoi, atoi_digits, digits_value,
  trim_space, trim_left, trim_right,
}
use enzo.State.Decode.{reset_req, run_decode_template_v1, deliver}
use enzo.State.Decode.Refine.{with_templates}
use enzo.State.Decode.Progress.{IsRequest, arriving, progress, deliver-progress}
use enzo.State.Encode.Normal.{truth_of-IsRequest}
use enzo.State.Decode.Requests.{passed, Spells, decode-requests}
use enzo.State.Encode.{
  Loop, header_of, truth_of, encode_requests, normalize_http_headers, kept_lines, itoa, itoa_digits,
}
use enzo.State.Encode.Lossless.{EmitsAll, EmitsAll-requests}
use enzo.State.Encode.EndToEnd.{decode-encode}
use enzo.State.Encode.Stream.{
  begin, run_encode_template_v1, request_of, stream_wire, run_encode_template_v1-messages,
}
use enzo.State.Encode.Tunnel.{decode-client}
use enzo.Http.Samples.{chunked_put, chunked_put-IsMessage}
use enzo.State.Meaning.{Frame, wire, fill_lane, expand, expand_all}
use enzo.Protocol.{flag_none, frame_raw_data, frame_template_ref}
use enzo.Outcome.{Error, ok}
use enzo.Protocol.Frame.{validate_payload_shape_v1, frame_header, header_bytes}
use enzo.State.Decode.Truncated.{decode-partial, decode-header_alone}
use enzo.State.Emit.Collision.{emit-collision}
use enzo.State.Helpers.{last_index_byte, try_split_const_var_const, try_extract_lane}
use enzo.State.Helpers.Lanes.{try_extract_lane_iff, try_extract_lane-try_split_const_var_const}
use enzo.State.Emit.Spans.{Emits-emit}
use enzo.Protocol.Frame.RoundTrip.{frame_bytes}
use enzo.State.Samples.{
  up_conn, fresh, started, idle, post, body_template, owner, fresh-Agrees, post-IsRequest, posts,
  posts-IsSendable, warm, warm-Agrees, chunked_put-IsSendable,
}

normalized : header_of post ≡ codes "PUT / HTTP/1.1\r\nContent-Length: 4\r\n\r\n"
unfolding normalize_http_headers kept_lines itoa itoa_digits split_crlf has_prefix
normalized = refl

content_lengths :
    (parse_content_length (codes "POST / HTTP/1.1\r\ncontent-LENGTH:  12 \r\n\r\n") ≡ some 12)
    × (parse_content_length (codes "GET / HTTP/1.1\r\nContent-Length: 1x\r\n\r\n") ≡ none)
unfolding parse_content_length first_content_length content_length_of split_crlf has_prefix atoi
    atoi_digits digits_value trim_space trim_left trim_right
content_lengths = (refl, refl)

decode-encode_example :
    (writes : ℕ) × (stream : Bytes) × ((encode_requests posts started).0 ≡ none)
    × ((encode_requests posts started).1.enc.dest ≡ after up_conn writes stream)
    × (run_decode_template_v1 (λ n. false) (record { pending = stream; closed = true }) idle ≡ (
      none,
      passed
          (map truth_of posts)
          (with_templates (encode_requests posts started).1.enc.templates (reset_req idle)),
    ))
decode-encode_example =
    decode-encode owner (λ n. false) posts started idle (λ n. refl) fresh-Agrees (λ n. refl) refl
      posts-IsSendable

-- Two requests in chunks, and a third one that the client gives up.
run_encode_template_v1-messages_example :
    run_encode_template_v1
      (λ n. false)
      (record {
        pending = stream_wire (chunked_put ∷ chunked_put ∷ []) (codes "PUT / HT");
        closed = true;
      })
      started
    ≡ encode_requests (map request_of (chunked_put ∷ chunked_put ∷ [])) (begin started)
run_encode_template_v1-messages_example =
    run_encode_template_v1-messages (λ n. false) (λ n. refl) (codes "PUT / HT") (omega arith)
      (chunked_put ∷ chunked_put ∷ []) started (chunked_put-IsMessage, (chunked_put-IsMessage, tt))

abbrev client_run : Option Error × Loop
client_run =
    run_encode_template_v1 (λ n. false)
      (record { pending = stream_wire (chunked_put ∷ chunked_put ∷ []) []; closed = true }) started

decode-client_example :
    (writes : ℕ) × (stream : Bytes) × (client_run.0 ≡ none)
    × (client_run.1.enc.dest ≡ after up_conn writes stream)
    × (run_decode_template_v1 (λ n. false) (record { pending = stream; closed = true }) idle ≡ (
      none,
      passed
          (map truth_of (map request_of (chunked_put ∷ chunked_put ∷ [])))
          (with_templates client_run.1.enc.templates (reset_req idle)),
    ))
decode-client_example =
    decode-client owner (λ n. false) (chunked_put ∷ chunked_put ∷ []) [] started idle (λ n. refl) tt
      (λ n. refl) (omega arith) (λ n. refl) refl
      (chunked_put-IsMessage, (chunked_put-IsMessage, tt))
      (chunked_put-IsSendable, (chunked_put-IsSendable, tt))

EmitsAll-requests_example :
    EmitsAll owner fresh (map truth_of posts) (encode_requests posts started)
EmitsAll-requests_example = EmitsAll-requests owner posts started fresh-Agrees posts-IsSendable

-- Two frames that stand for the request: its header as it is, and its body.
abbrev post_frames : List Frame
post_frames =
    record { type = frame_raw_data; payload = codes "PUT / HTTP/1.1\r\nContent-Length: 4\r\n\r\n" }
    ∷ record { type = frame_raw_data; payload = codes "a=1\n" }
    ∷ []

post_frames-Spells : Spells [] (truth_of post ∷ []) post_frames []
unfolding Spells expand_all expand validate_payload_shape_v1 normalize_http_headers kept_lines itoa
    itoa_digits split_crlf has_prefix
post_frames-Spells = (
  post-IsRequest,
  post_frames,
  [],
  [],
  refl,
  (record { shape = refl; fits = omega arith }, (record { shape = refl; fits = omega arith }, tt)),
  refl,
  (refl, refl),
)

decode-requests_example :
    run_decode_template_v1 (λ n. false) (record { pending = wire post_frames; closed = true }) idle
    ≡ (none, passed (truth_of post ∷ []) (with_templates [] (reset_req idle)))
decode-requests_example =
    decode-requests (λ n. false) (λ n. refl) (truth_of post ∷ []) post_frames idle [] (λ n. refl)
      post_frames-Spells

deliver-progress_example :
    deliver
      (drop 20 (truth_of post))
      (progress (truth_of post) post-IsRequest (take 20 (truth_of post)) idle)
    ≡ (none, progress (truth_of post) post-IsRequest (truth_of post) idle)
unfolding normalize_http_headers kept_lines itoa itoa_digits split_crlf has_prefix
deliver-progress_example =
    deliver-progress (truth_of post) post-IsRequest idle (take 20 (truth_of post))
      (drop 20 (truth_of post)) [] (λ n. refl) refl

Emits-emit_example :
    EmitsFrom owner warm
      (fill_lane body_template (codes "1"))
      (emit (codes "a=") (codes "1") (codes "\n") warm)
unfolding template_id_for
Emits-emit_example =
    Emits-emit owner warm body_template (codes "1") warm-Agrees refl (omega arith) (omega arith)
      (omega arith)

-- Two spans of line protocol with one identifier, and an encoder that has defined the first.
abbrev acxr : Template
acxr = record { const_a = codes "acxr="; const_b = codes "," }

abbrev alda : Template
alda = record { const_a = codes "alda="; const_b = codes "," }

abbrev defined : Enc
defined = record fresh {
  templates = (39126, acxr) ∷ [];
  span_stats = (39126, record { hits = 3; defined = true }) ∷ [];
}

emit-collision_example :
    (n : ℕ) × (payload : Bytes) × ((emit (codes "alda=") (codes "1") (codes ",") defined).0 ≡ none)
    × ((emit (codes "alda=") (codes "1") (codes ",") defined).1.dest
        ≡ after up_conn n (frame_bytes frame_template_ref payload))
    × (expand defined.templates (record { type = frame_template_ref; payload = payload })
        ≡ ok (defined.templates, codes "acxr=1,"))
unfolding template_id_for lookup
emit-collision_example =
    emit-collision defined alda acxr (codes "1") (record { hits = 3; defined = true }) (λ n. refl)
      refl refl refl (omega arith) (omega arith) (omega arith) (omega arith) (omega arith)

decode-partial_example :
    (run_decode_template_v1
        (λ n. false)
        (record {
          pending = wire (record { type = frame_raw_data; payload = header_of post } ∷ []);
          closed = true;
        })
        idle
      ≡ (none, arriving (header_of post) (with_templates [] idle)))
    × ((arriving (header_of post) (with_templates [] idle)).dest ≡ up_conn)
unfolding expand_all expand validate_payload_shape_v1 normalize_http_headers kept_lines itoa
    itoa_digits split_crlf has_prefix
decode-partial_example =
    decode-partial (λ n. false) (λ n. refl) (truth_of post) post-IsRequest
      (record { type = frame_raw_data; payload = header_of post } ∷ []) (header_of post) post.body
      idle [] (λ n. refl) (record { shape = refl; fits = omega arith }, tt) refl refl (omega arith)

decode-header_alone_example :
    run_decode_template_v1
      (λ n. false)
      (record {
        pending = header_bytes (frame_header frame_raw_data flag_none (codes "abc"));
        closed = true;
      })
      idle
    ≡ (none, reset_req idle)
unfolding validate_payload_shape_v1
decode-header_alone_example =
    decode-header_alone (λ n. false) (λ n. refl) frame_raw_data b'a' (codes "bc") idle
      (record { shape = refl; fits = omega arith })

truth_of-IsRequest_example : IsRequest (truth_of post)
unfolding split_crlf content_length_of has_prefix
truth_of-IsRequest_example =
    truth_of-IsRequest post (codes "PUT / HTTP/1.1") (codes "content-length: 99" ∷ [] ∷ [] ∷ [])
      refl (omega arith) refl (omega arith)

try_extract_lane_iff_example :
    (try_extract_lane (codes "T=21\n") (codes "T=") (lf ∷ []) ≡ some (codes "21"))
    ↔ (codes "T=21\n" ≡ codes "T=" ++ (codes "21" ++ (lf ∷ [])))
try_extract_lane_iff_example =
    try_extract_lane_iff (codes "T=21\n") (codes "T=") (lf ∷ []) (codes "21")

try_extract_lane-try_split_const_var_const_example :
    try_extract_lane (codes "T=21\n") (codes "T=") (lf ∷ []) ≡ some (codes "21")
unfolding last_index_byte try_split_const_var_const
try_extract_lane-try_split_const_var_const_example =
    try_extract_lane-try_split_const_var_const (codes "T=21\n") (codes "T=") (codes "21") (lf ∷ [])
      refl

-- the last separator counts, and a suffix that overlaps the prefix is no lane
try_split_const_var_const_last :
    try_split_const_var_const (codes "a=b=1\n") ≡ some (codes "a=b=", codes "1", lf ∷ [])
unfolding last_index_byte try_split_const_var_const
try_split_const_var_const_last = refl

try_extract_lane_overlap : try_extract_lane (codes "aba") (codes "ab") (codes "ba") ≡ none
unfolding has_prefix has_suffix try_extract_lane
try_extract_lane_overlap = refl
