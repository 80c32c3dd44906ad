-- ===== src/State/ContentLength.antt =====
-- `parseContentLength` of encode_v1.go and `parseContentLengthFromHeaderString` of decode_v1.go,
-- which are the same function, with what they call of `strings` and `strconv`, on ASCII.
use enzo.Prelude.{
  ℕ, ◌+◌, ◌-◌, ◌*◌, ◌^◌, Bool, true, false, ◌&&◌, ◌||◌, Option, none, some, List, [], ◌∷◌, map,
  Bytes, length, drop, ltb, leb, ◌==◌, if◌then◌else◌, has_prefix, codes,
}
use enzo.State.Lines.{split_crlf}

-- `strings.ToLower`, one byte.
abbrev pub to_lower : ℕ → ℕ
to_lower b = if leb b'A' b && leb b b'Z' then b + 32 else b

-- `unicode.IsSpace`
abbrev pub is_space : ℕ → Bool
is_space b = leb 9 b && leb b 13 || b == 32

-- `strings.TrimLeft` by white space.
unfoldable pub trim_left : Bytes → Bytes
trim_left [] = []
trim_left (b ∷ s) = elim (is_space b) [ true ↦ trim_left s | false ↦ b ∷ s ]

-- The same from the right: a byte stays if it is no space or a byte behind it stays.
unfoldable pub trim_right : Bytes → Bytes
trim_right [] = []
trim_right (b ∷ s) = elim (trim_right s) [
  | [] ↦ if is_space b then [] else b ∷ []
  | c ∷ r ↦ b ∷ c ∷ r
]

-- `strings.TrimSpace`
unfoldable pub trim_space : Bytes → Bytes
trim_space s = trim_right (trim_left s)

abbrev pub is_digit : ℕ → Bool
is_digit b = leb b'0' b && leb b b'9'

-- The value of the digits `s` behind `n`; `none` at a byte that is no digit.
unfoldable pub digits_value : ℕ → Bytes → Option ℕ
digits_value n [] = some n
digits_value n (b ∷ s) = if is_digit b then digits_value (n * 10 + (b - b'0')) s else none

-- One digit at least, and a value that fits `int`, 64 bits.
unfoldable pub atoi_digits : Bytes → Option ℕ
atoi_digits [] = none
atoi_digits (b ∷ s) = elim (digits_value 0 (b ∷ s)) [
  | none ↦ none
  | some n ↦ if ltb n (2 ^ 63) then some n else none
]

-- `strconv.Atoi` with the test `err == nil && n >= 0` behind it: of the negative numbers "-0" alone
-- passes.
unfoldable pub atoi : Bytes → Option ℕ
atoi [] = none
atoi (b ∷ s) =
    if b == b'+'
    then atoi_digits s
    else if b == b'-'
    then (elim (atoi_digits s) [ none ↦ none | some n ↦ if n == 0 then some 0 else none ])
    else atoi_digits (b ∷ s)

abbrev pub content_length_key : Bytes
content_length_key = codes "content-length:"

-- The value of one header line, if it is a good `Content-Length`.
unfoldable pub content_length_of : Bytes → Option ℕ
content_length_of line =
    if has_prefix (map to_lower line) content_length_key
    then atoi (trim_space (drop (length content_length_key) line))
    else none

-- The loop over the lines.
unfoldable pub first_content_length : List Bytes → Option ℕ
first_content_length [] = none
first_content_length (line ∷ lines) = elim (content_length_of line) [
  | some n ↦ some n
  | none ↦ first_content_length lines
]

-- `parseContentLength`; `none` stands for -1.
unfoldable pub parse_content_length : Bytes → Option ℕ
parse_content_length hdr = first_content_length (split_crlf [] hdr)
