-- ===== src/State/Samples.antt =====
-- Concrete input for the encoder and the decoder, and what holds of it.
use enzo.Prelude.{
  ℕ, refl, false, none, List, [], ◌∷◌, arith, codes, All, lookup, if◌then◌else◌, ◌==◌, index,
  has_prefix, index_byte,
}
use enzo.Io.{Conn}
use enzo.State.Agreement.{Template, Enc}
use enzo.State.Emit.{template_id_for}
use enzo.State.Emit.Emits.{Agrees}
use enzo.State.Lines.{crlf, split_crlf, cut, find_delim, try_split_header_line}
use enzo.State.Lines.Pieces.{field_pieces, body_pieces, line_pieces, kv_pieces, tail_pieces}
use enzo.State.ContentLength.{
  parse_content_length, first_content_length, content_length_of, atoi, atoi_digits, digits_value,
  trim_space, trim_left, trim_right,
}
use enzo.State.Decode.{Decoder}
use enzo.State.Decode.Progress.{IsRequest}
use enzo.State.Encode.{
  Request, Loop, truth_of, normalize_http_headers, kept_lines, itoa, itoa_digits,
}
use enzo.State.Encode.Lossless.{IsSendable}
use enzo.State.Encode.Stream.{request_of}
use enzo.Http.Samples.{chunked_put}

abbrev pub up_conn : Conn
up_conn = record { sent = []; writes = 0; outcome = λ n. none }

abbrev pub fresh : Enc
fresh = record {
  dest = up_conn;
  templates = [];
  span_stats = [];
  raw_in = 0;
  wire_out = 0;
  obs = [];
}

abbrev pub started : Loop
started = record { enc = fresh; raw_window = none; truth_offset = 0 }

abbrev pub idle : Decoder
idle = record {
  dest = up_conn;
  raw_window = none;
  templates = [];
  epoch = 0;
  req = [];
  header_done = false;
  content_len = none;
  body_have = 0;
}

abbrev pub post : Request
post = record {
  header_bytes = codes "PUT / HTTP/1.1\r\ncontent-length: 99\r\n\r\n";
  body = codes "a=1\n";
}

abbrev pub header_template : Template
header_template = record { const_a = codes "Content-Length: "; const_b = crlf }

abbrev pub body_template : Template
body_template = record { const_a = codes "a="; const_b = codes "\n" }

abbrev pub owner : ℕ → Template
owner tid =
    if tid == template_id_for (codes "Content-Length: ") crlf
    then header_template
    else body_template

pub fresh-Agrees : Agrees owner fresh
unfolding lookup
fresh-Agrees = record {
  up = λ n. refl;
  counter = omega arith;
  known = λ tid st found d. absurd (ground arith);
}

pub post-IsRequest : IsRequest (truth_of post)
unfolding normalize_http_headers kept_lines itoa itoa_digits parse_content_length
    first_content_length content_length_of split_crlf has_prefix atoi atoi_digits digits_value
    trim_space trim_left trim_right index
post-IsRequest = record { header = 33; body = 4; ends = refl; says = refl; long = refl }

pub post-IsSendable : IsSendable owner post
unfolding normalize_http_headers kept_lines itoa itoa_digits split_crlf has_prefix field_pieces
    body_pieces line_pieces kv_pieces tail_pieces index index_byte cut find_delim
    try_split_header_line template_id_for content_length_of
post-IsSendable = record {
  request_line = codes "PUT / HTTP/1.1";
  header_lines = codes "content-length: 99" ∷ [] ∷ [] ∷ [];
  lines = refl;
  start = omega arith;
  no_key = refl;
  header_fits = omega arith;
  header_safe = (tt, ((refl, omega arith, omega arith, omega arith), (tt, (tt, tt))));
  body_fits = omega arith;
  body_safe = ((refl, omega arith, omega arith, omega arith), tt);
}

abbrev pub posts : List Request
posts = post ∷ post ∷ post ∷ post ∷ []

pub posts-IsSendable : All (IsSendable owner) posts
posts-IsSendable = (post-IsSendable, (post-IsSendable, (post-IsSendable, (post-IsSendable, tt))))

-- A state in which the span of the body comes up for the third time.
abbrev pub warm : Enc
warm = record fresh {
  span_stats =
      (template_id_for (codes "a=") (codes "\n"), record { hits = 2; defined = false }) ∷ [];
}

pub warm-Agrees : Agrees owner warm
unfolding lookup
warm-Agrees = record {
  up = λ n. refl;
  counter = omega arith;
  known = λ tid st found d. absurd (ground arith);
}

pub chunked_put-IsSendable : IsSendable owner (request_of chunked_put)
unfolding normalize_http_headers kept_lines itoa itoa_digits split_crlf has_prefix field_pieces
    body_pieces line_pieces kv_pieces tail_pieces index index_byte cut find_delim
    try_split_header_line template_id_for content_length_of
chunked_put-IsSendable = record {
  request_line = codes "PUT / HTTP/1.1";
  header_lines = codes "Transfer-Encoding: chunked" ∷ [] ∷ [] ∷ [];
  lines = refl;
  start = omega arith;
  no_key = refl;
  header_fits = omega arith;
  header_safe = (tt, ((refl, omega arith, omega arith, omega arith), (tt, (tt, tt))));
  body_fits = omega arith;
  body_safe = ((refl, omega arith, omega arith, omega arith), tt);
}
