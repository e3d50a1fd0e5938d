-- ===== src/Resp/Parser/Consume.antt =====
-- Each request takes bytes from the buffer, so the fuel of the parser's loop is enough.
use cpp_inference_engine.Base.{
  ℕ, zero, suc, ◌+◌, ◌-◌, ◌<◌, ◌≤◌, ◌≡◌, refl, ◌⊎◌, inl, inr, Bool, false, some, List, [], ◌∷◌,
  ◌++◌, arith, Bytes, ◌==◌, length, take, drop, length-drop, Option-cases, get_elem?,
}
use cpp_inference_engine.Resp.Parser.{
  RequestParser, Outcome, parsed, incomplete, failed, scan_line, peek_line, line_end,
  try_parse_inline, read_length, Bulk, bulk, bulk_incomplete, bulk_failed, bulk_payload,
  bulk_header, bulk_line, bulk_at, bulks, multi_bulk_header, try_parse_multi_bulk, try_parse_one,
  parse_loop, parse_buffered,
}

scan_line-ge : (i : ℕ) (saw : Bool) (s : Bytes) (n : ℕ) → scan_line i saw s ≡ some n → i ≤ n + 1
unfolding scan_line
scan_line-ge i saw [] n h = cc
scan_line-ge i saw (c ∷ s) n h = ground (arith, scan_line-ge (i + 1) (c == 13) s n)

line_end-gt : (b : Bytes) (n : ℕ) → n < line_end b n
line_end-gt b n = ground arith

bulk_payload-gt :
    (b : Bytes) (after n : ℕ) (s : Bytes) (next : ℕ)
    → bulk_payload b after n ≡ bulk s next
    → after < next
unfolding bulk_payload
bulk_payload-gt b after n s next h = ground arith

bulk_header-gt :
    (b : Bytes) (start len : ℕ) (s : Bytes) (next : ℕ)
    → bulk_header b start len ≡ bulk s next
    → len < next
unfolding bulk_header
bulk_header-gt b start len s next h =
    elim (Option-cases (read_length (take (len - (start + 1)) (drop (start + 1) b)))) [
      | inl e ↦ ground arith
      | inr (n, e) ↦ ground (arith, bulk_payload-gt b (line_end b len) n s next, line_end-gt b len)
    ]

bulk_at-ge :
    (b : Bytes) (start : ℕ) (s : Bytes) (next : ℕ) → bulk_at b start ≡ bulk s next → start ≤ next
unfolding bulk_at bulk_line
bulk_at-ge b start s next h = elim (Option-cases (get_elem? b start)) [
  | inl e ↦ ground arith
  | inr (c, e) ↦ elim (Option-cases (scan_line start false (drop start b))) [
    | inl q ↦ ground arith
    | inr (n, q) ↦
        ground (arith, bulk_header-gt b start n s next, scan_line-ge start false (drop start b) n q)
  ]
]

Bulk-cases :
    (r : Bulk)
    → ((s : Bytes) × (n : ℕ) × (r ≡ bulk s n))
      ⊎ ((r ≡ bulk_incomplete) ⊎ ((m : Bytes) × (r ≡ bulk_failed m)))
Bulk-cases (bulk s n) = inl (s, n, refl)
Bulk-cases bulk_incomplete = inr (inl refl)
Bulk-cases (bulk_failed m) = inr (inr (m, refl))

bulks-consume :
    (k : ℕ) (b : Bytes) (start : ℕ) (out argv : List Bytes) (rest : Bytes)
    → bulks k b start out ≡ parsed argv rest
    → length rest ≤ length b - start
unfolding bulks
bulks-consume zero b start out argv rest h = ground (arith, length-drop start b)
bulks-consume (suc k) b start out argv rest h = elim (Bulk-cases (bulk_at b start)) [
  | inl (s, n, e) ↦ omega (
    arith,
    bulks-consume k b n (out ++ s ∷ []) argv rest (ground arith),
    bulk_at-ge b start s n e,
  )
  | inr (inl e) ↦ ground arith
  | inr (inr (m, e)) ↦ ground arith
]

multi_bulk-consume :
    (b : Bytes) (n : ℕ) (argv : List Bytes) (rest : Bytes)
    → multi_bulk_header b n ≡ parsed argv rest
    → length rest ≤ length b - 1
unfolding multi_bulk_header
multi_bulk-consume b n argv rest h = elim (Option-cases (read_length (take (n - 1) (drop 1 b)))) [
  | inl e ↦ ground arith
  | inr (count, e) ↦ ground (
    arith,
    bulks-consume count b (line_end b n) [] argv rest,
    line_end-gt b n,
    length-drop (line_end b n) b,
  )
]

inline-consume :
    (b : Bytes) (argv : List Bytes) (rest : Bytes)
    → try_parse_inline b ≡ parsed argv rest
    → length rest ≤ length b - 1
unfolding try_parse_inline
inline-consume b argv rest h = elim (Option-cases (peek_line b)) [
  | inl e ↦ ground arith
  | inr (n, e) ↦ ground (arith, line_end-gt b n, length-drop (line_end b n) b)
]

try_multi_bulk-consume :
    (b : Bytes) (argv : List Bytes) (rest : Bytes)
    → try_parse_multi_bulk b ≡ parsed argv rest
    → length rest ≤ length b - 1
unfolding try_parse_multi_bulk
try_multi_bulk-consume b argv rest h = elim (Option-cases (peek_line b)) [
  | inl e ↦ ground arith
  | inr (n, e) ↦ ground (arith, multi_bulk-consume b n argv rest)
]

-- A request that `TryParseOne` takes from the buffer, of either form, leaves a shorter buffer.
pub try_parse_one-consume :
    (b : Bytes) (argv : List Bytes) (rest : Bytes)
    → try_parse_one b ≡ parsed argv rest
    → length rest < length b
unfolding try_parse_one
try_parse_one-consume [] argv rest h = cc
try_parse_one-consume (c ∷ s) argv rest h =
    ground (arith, inline-consume (c ∷ s) argv rest, try_multi_bulk-consume (c ∷ s) argv rest)

-- where the loop stops: at what is not a whole request, or at an error
pub data Ended (p : RequestParser) : Type 0 where
  at_incomplete : try_parse_one p.buf ≡ incomplete → p.error_msg ≡ [] → Ended p
  at_error : try_parse_one p.buf ≡ failed p.error_msg → Ended p

Outcome-cases :
    (r : Outcome)
    → ((argv : List Bytes) × (rest : Bytes) × (r ≡ parsed argv rest))
      ⊎ ((r ≡ incomplete) ⊎ ((m : Bytes) × (r ≡ failed m)))
Outcome-cases (parsed a b) = inl (a, b, refl)
Outcome-cases incomplete = inr (inl refl)
Outcome-cases (failed m) = inr (inr (m, refl))

parse_loop-Ended :
    (fuel : ℕ) (b : Bytes) (cmds : List (List Bytes))
    → length b ≤ fuel
    → Ended (parse_loop fuel b cmds).1
unfolding parse_loop
parse_loop-Ended zero [] cmds h = at_incomplete (unfold try_parse_one in refl) refl
parse_loop-Ended zero (c ∷ b) cmds h = absurd (omega arith)
parse_loop-Ended (suc fuel) b cmds h = elim (Outcome-cases (try_parse_one b)) [
  | inl (argv, rest, e) ↦
      rw (e, parse_loop)
        (parse_loop-Ended fuel rest (cmds ++ argv ∷ [])
          (omega (arith, try_parse_one-consume b argv rest e)))
  | inr (inl e) ↦ rw (e, parse_loop) (at_incomplete e refl)
  | inr (inr (m, e)) ↦ rw (e, parse_loop) (at_error e)
]

-- `ParseBuffered` on a parser with no error takes every whole request from the buffer: its loop
-- stops only at an incomplete request, or at one that is refused, whose message the parser keeps.
pub parse_buffered-Ended : (p : RequestParser) → p.error_msg ≡ [] → Ended (parse_buffered p).1
unfolding parse_buffered
parse_buffered-Ended p h = rw h (parse_loop-Ended (length p.buf) p.buf [] (omega arith))
