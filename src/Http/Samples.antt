-- ===== src/Http/Samples.antt =====
-- Concrete requests for the HTTP reader, and what holds of them.
use enzo.Prelude.{refl, none, some, [], ◌∷◌, arith, codes, index, index_byte, has_prefix}
use enzo.State.ContentLength.{atoi, atoi_digits, digits_value, trim_space, trim_left, trim_right}
use enzo.Http.{
  split_byte, parse_request_line, scan_field, parse_length, chunk_size, parse_hex, hex_digits,
  hex_value, hex_digit,
}
use enzo.Http.Chunks.{Chunk, IsChunk, SaysSize}
use enzo.Http.Messages.{Message, sized, chunked, IsMessage}

abbrev pub chunk : Chunk
chunk = record { size_line = codes "4;x"; bytes = codes "a=1\n" }

pub says_four : SaysSize (codes "4;x") 4
unfolding chunk_size parse_hex hex_digits hex_value hex_digit index_byte trim_space trim_left
    trim_right
says_four = record { text = omega arith; fits = omega arith; size = refl }

pub says_zero : SaysSize (codes "0") 0
unfolding chunk_size parse_hex hex_digits hex_value hex_digit index_byte trim_space trim_left
    trim_right
says_zero = record { text = omega arith; fits = omega arith; size = refl }

pub chunk-IsChunk : IsChunk chunk
chunk-IsChunk = record { says = says_four; more = omega arith }

-- The largest size that a size line can say.
pub says_most : SaysSize (codes "7fffffffffffffff") 9223372036854775807
unfolding chunk_size parse_hex hex_digits hex_value hex_digit index_byte trim_space trim_left
    trim_right
says_most = record { text = omega arith; fits = omega arith; size = refl }

abbrev pub chunked_put : Message
chunked_put = record {
  request_line = codes "PUT / HTTP/1.1";
  fields = codes "Transfer-Encoding: chunked" ∷ [];
  framing = chunked (chunk ∷ []) (codes "0") [];
}

abbrev pub sized_put : Message
sized_put = record {
  request_line = codes "PUT / HTTP/1.1";
  fields = codes "Content-Length: 4" ∷ [];
  framing = sized (codes "a=1\n");
}

pub chunked_put-IsMessage : IsMessage 65536 16777216 chunked_put
unfolding parse_request_line split_byte scan_field parse_length trim_space trim_left trim_right
    has_prefix index
chunked_put-IsMessage = record {
  text = omega arith;
  method = codes "PUT";
  path = codes "/";
  proto = codes "HTTP/1.1";
  parts = refl;
  fields = (record { text = omega arith; more = omega arith }, tt);
  header_fits = omega arith;
  announced = none;
  says = refl;
  announces = (refl, (chunk-IsChunk, tt), says_zero, tt);
  body_fits = omega arith;
}

pub sized_put-IsMessage : IsMessage 65536 16777216 sized_put
unfolding parse_request_line split_byte scan_field parse_length trim_space trim_left trim_right
    has_prefix index atoi atoi_digits digits_value
sized_put-IsMessage = record {
  text = omega arith;
  method = codes "PUT";
  path = codes "/";
  proto = codes "HTTP/1.1";
  parts = refl;
  fields = (record { text = omega arith; more = omega arith }, tt);
  header_fits = omega arith;
  announced = some 4;
  says = refl;
  announces = (refl, refl);
  body_fits = omega arith;
}
