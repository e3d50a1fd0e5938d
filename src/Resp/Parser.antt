-- ===== src/Resp/Parser.antt =====
-- `RequestParser` of src/resp.cpp and include/resp.h: its members are the record below.
pub mod Consume
pub mod RoundTrip
pub mod Pipeline
use cpp_inference_engine.Base.{
  ℕ, zero, suc, ◌+◌, ◌-◌, ◌*◌, ◌^◌, Bool, true, false, ◌&&◌, ◌||◌, Option, none, some, ◌≡◌, refl,
  List, [], ◌∷◌, ◌++◌, Bytes, codes, ltb, ◌==◌, if◌then◌else◌, length, get_elem?, take, drop,
}
use cpp_inference_engine.Base.Decimal.{read_nat}
use cpp_inference_engine.Resp.Replies.{cr, lf}

abbrev pub max_inline_bytes : ℕ
max_inline_bytes = 64 * 1024

abbrev pub max_bulk_bytes : ℕ
max_bulk_bytes = 512 * 1024 * 1024

abbrev pub max_multi_bulk_elements : ℕ
max_multi_bulk_elements = 1024

pub record RequestParser : Type 0 where
  pub buf : Bytes
  pub error_msg : Bytes

abbrev pub fresh_parser : RequestParser
fresh_parser = record { buf = []; error_msg = [] }

abbrev pub has_error : RequestParser → Bool
has_error p = elim p.error_msg [ [] ↦ false | c ∷ s ↦ true ]

-- What `TryParseOne` does: 1 with the arguments and the bytes left in the buffer, 0, or -1 with the
-- error message.
pub data Outcome : Type 0 where
  parsed : List Bytes → Bytes → Outcome
  incomplete : Outcome
  failed : Bytes → Outcome

byte_is : Bytes → ℕ → ℕ → Bool
byte_is b i c = elim (get_elem? b i) [ none ↦ false | some x ↦ x == c ]

unfoldable pub is_crlf_at : Bytes → ℕ → Bool
unfolding byte_is
is_crlf_at b i = byte_is b i cr && byte_is b (i + 1) lf

-- The scan for the first LF: `i` is the index of the first byte that is left, and the result the
-- length of the line without its end.
unfoldable pub scan_line : ℕ → Bool → Bytes → Option ℕ
scan_line i saw_cr [] = none
scan_line i saw_cr (c ∷ s) =
    if c == lf then some (if saw_cr then i - 1 else i) else scan_line (i + 1) (c == cr) s

unfoldable pub peek_line : Bytes → Option ℕ
unfolding scan_line
peek_line buf = scan_line 0 false buf

abbrev is_blank : ℕ → Bool
is_blank c = c == 32 || c == 9

abbrev push_token : Bytes → List Bytes → List Bytes
push_token [] out = out
push_token (c ∷ cur) out = (c ∷ cur) ∷ out

-- the tokens of a line: `cur` is what is read of the token at hand
split_tokens : Bytes → Bytes → List Bytes
split_tokens cur [] = push_token cur []
split_tokens cur (c ∷ s) =
    let between = push_token cur (split_tokens [] s) in
    let within = split_tokens (cur ++ c ∷ []) s in if is_blank c then between else within

-- the bytes of a line and of its end
abbrev line_end : Bytes → ℕ → ℕ
line_end buf line_len = line_len + (if is_crlf_at buf line_len then 2 else 1)

unfoldable pub try_parse_inline : Bytes → Outcome
unfolding peek_line split_tokens is_crlf_at
try_parse_inline buf = elim (peek_line buf) [
  | none ↦
      if ltb max_inline_bytes (length buf)
      then failed (codes "ERR Protocol error: too big inline request")
      else incomplete
  | some line_len ↦ parsed (split_tokens [] (take line_len buf)) (drop (line_end buf line_len) buf)
]

-- A text of digits alone, read by `std::stoll`, which throws where the value does not fit.
unfoldable pub read_length : Bytes → Option ℕ
read_length s = elim (read_nat s) [ none ↦ none | some n ↦ if ltb n (2 ^ 63) then some n else none ]

-- one argument: the payload and the position behind it
pub data Bulk : Type 0 where
  bulk : Bytes → ℕ → Bulk
  bulk_incomplete : Bulk
  bulk_failed : Bytes → Bulk

abbrev invalid_bulk_length : Bytes
invalid_bulk_length = codes "ERR Protocol error: invalid bulk length"

-- the payload of `bulk_len` bytes from `after_len` on, and its CRLF
bulk_payload : Bytes → ℕ → ℕ → Bulk
unfolding is_crlf_at
bulk_payload buf after_len bulk_len =
    let tail = after_len + bulk_len in
    if ltb (length buf) (after_len + bulk_len + 2)
    then bulk_incomplete
    else if is_crlf_at buf tail
    then bulk (take bulk_len (drop after_len buf)) (tail + 2)
    else bulk_failed (codes "ERR Protocol error: expected CRLF after bulk data")

-- the length line from `at` to `len_line`
bulk_header : Bytes → ℕ → ℕ → Bulk
unfolding read_length bulk_payload
bulk_header buf at len_line = elim (read_length (take (len_line - (at + 1)) (drop (at + 1) buf))) [
  | none ↦ bulk_failed invalid_bulk_length
  | some bulk_len ↦
      if ltb max_bulk_bytes bulk_len
      then bulk_failed invalid_bulk_length
      else bulk_payload buf (line_end buf len_line) bulk_len
]

bulk_line : Bytes → ℕ → Bulk
unfolding scan_line bulk_header
bulk_line buf at = elim (scan_line at false (drop at buf)) [
  | none ↦ if ltb 32 (length buf - at) then bulk_failed invalid_bulk_length else bulk_incomplete
  | some len_line ↦ bulk_header buf at len_line
]

unfoldable pub bulk_at : Bytes → ℕ → Bulk
unfolding bulk_line
bulk_at buf at = elim (get_elem? buf at) [
  | none ↦ bulk_incomplete
  | some c ↦
      if c == b'$'
      then bulk_line buf at
      else bulk_failed (codes "ERR Protocol error: expected '$', got '" ++ c ∷ codes "'")
]

-- the `for` loop over the arguments that are left
unfoldable pub bulks : ℕ → Bytes → ℕ → List Bytes → Outcome
unfolding bulk_at
bulks zero buf at out = parsed out (drop at buf)
bulks (suc k) buf at out = elim (bulk_at buf at) [
  | bulk s next ↦ bulks k buf next (out ++ s ∷ [])
  | bulk_incomplete ↦ incomplete
  | bulk_failed msg ↦ failed msg
]

abbrev invalid_multibulk_length : Bytes
invalid_multibulk_length = codes "ERR Protocol error: invalid multibulk length"

-- the rest of a multibulk request whose first line has `line_len` bytes
multi_bulk_header : Bytes → ℕ → Outcome
unfolding read_length bulks is_crlf_at
multi_bulk_header buf line_len =
    let at = line_end buf line_len in
    elim (read_length (take (line_len - 1) (drop 1 buf))) [
      | none ↦ failed invalid_multibulk_length
      | some count ↦
          if ltb max_multi_bulk_elements count
          then failed invalid_multibulk_length
          else if count == 0
          then parsed [] (drop at buf)
          else if ltb (length buf) at
          then incomplete
          else bulks count buf at []
    ]

unfoldable pub try_parse_multi_bulk : Bytes → Outcome
unfolding peek_line multi_bulk_header
try_parse_multi_bulk buf = elim (peek_line buf) [
  | none ↦ if ltb 32 (length buf) then failed invalid_multibulk_length else incomplete
  | some line_len ↦ multi_bulk_header buf line_len
]

unfoldable pub try_parse_one : Bytes → Outcome
unfolding try_parse_multi_bulk try_parse_inline
try_parse_one [] = incomplete
try_parse_one (c ∷ s) = if c == b'*' then try_parse_multi_bulk (c ∷ s) else try_parse_inline (c ∷ s)

-- The `while` loop: each command takes a byte at least, so the fuel is the length of the buffer.
unfoldable pub parse_loop : ℕ → Bytes → List (List Bytes) → List (List Bytes) × RequestParser
unfolding try_parse_one
parse_loop zero buf cmds = (cmds, record { buf = buf; error_msg = [] })
parse_loop (suc fuel) buf cmds = elim (try_parse_one buf) [
  | parsed argv rest ↦ parse_loop fuel rest (cmds ++ argv ∷ [])
  | incomplete ↦ (cmds, record { buf = buf; error_msg = [] })
  | failed msg ↦ (cmds, record { buf = buf; error_msg = msg })
]

unfoldable pub parse_buffered : RequestParser → List (List Bytes) × RequestParser
unfolding parse_loop
parse_buffered p = let r = parse_loop (length p.buf) p.buf [] in if has_error p then ([], p) else r

-- `Feed` appends the bytes, unless there was an error, and refuses a buffer that is too big.
unfoldable pub feed : RequestParser → Bytes → List (List Bytes) × RequestParser
unfolding parse_buffered
feed p bytes =
    let buf = p.buf ++ bytes in
    parse_buffered (
      if has_error p
      then p
      else if ltb max_bulk_bytes (length buf)
      then record { buf = buf; error_msg = codes "ERR Protocol error: too big request buffer" }
      else record { buf = buf; error_msg = [] })

unfoldable pub reset : RequestParser → RequestParser
reset p = fresh_parser
