-- ===== src/State/HttpHelpers/Tests.antt =====
-- The HTTP helpers on concrete input.
use enzo.Prelude.{◌≡◌, refl, some, List, [], ◌∷◌, arith, Bytes, codes, index, has_prefix}
use enzo.State.ContentLength.{parse_content_length}
use enzo.State.Lines.{split_crlf}
use enzo.State.Encode.{itoa, itoa_digits}
use enzo.State.Decode.{header_end}
use enzo.State.HttpHelpers.{rewrite_content_length, rewrite_lines, join_crlf}
use enzo.State.HttpHelpers.Rewrite.{parse_content_length-rewrite_content_length}

abbrev long_header : Bytes
long_header = codes "PUT / HTTP/1.1\r\nCONTENT-length: 4\r\nA: b\r\n\r\n"

-- The reads cut the end of the header in two.
abbrev three_reads : List Bytes
three_reads =
    codes "PUT / HTTP/1.1\r\nCONTENT-length: 4\r\nA: b\r\n\r" ∷ codes "\na=" ∷ codes "1\nnext" ∷ []

-- One field is rewritten in place, and one is added where there is none.
rewritten :
    (rewrite_content_length long_header 17
      ≡ codes "PUT / HTTP/1.1\r\nContent-Length: 17\r\nA: b\r\n\r\n")
    × (rewrite_content_length (codes "GET / HTTP/1.1\r\n\r\n") 0
        ≡ codes "GET / HTTP/1.1\r\nContent-Length: 0\r\n\r\n")
unfolding rewrite_content_length rewrite_lines join_crlf split_crlf index has_prefix itoa
    itoa_digits
rewritten = (refl, refl)

long_header-ends : index long_header header_end ≡ some 39
unfolding index has_prefix
long_header-ends = refl

parse_content_length-rewrite_content_length_example :
    parse_content_length (rewrite_content_length long_header 17) ≡ some 17
parse_content_length-rewrite_content_length_example =
    parse_content_length-rewrite_content_length long_header 17 39 long_header-ends (omega arith)
