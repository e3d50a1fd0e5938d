-- ===== src/Resp/Parser/RoundTrip.antt =====
-- A client's request is written like an array of bulk strings; the parser reads it back.
use native.Mathlib.Nat.{add-zero}
use mathlib.Core.Path.{ap₂}
use cpp_inference_engine.Base.{
  ℕ, zero, suc, ◌+◌, ◌-◌, ◌^◌, ◌<◌, ◌≤◌, ◌≡◌, ◌∙◌, sym, ap, refl, Bool, true, false, some, List, [],
  ◌∷◌, ◌++◌, append_assoc, append-nil, arith, Bytes, ◌==◌, length, take, drop, length-drop, All,
  get_elem?, take-append_length,
}
use cpp_inference_engine.Base.Decimal.{print_nat, read_nat-print_nat, print_nat-digits}
use cpp_inference_engine.Resp.Replies.{cr, lf, crlf}
use cpp_inference_engine.Resp.Parser.{
  parsed, scan_line, peek_line, is_crlf_at, read_length, bulk, bulk_payload, bulk_header, bulk_line,
  bulk_at, bulks, multi_bulk_header, try_parse_multi_bulk, try_parse_one, max_bulk_bytes,
  max_multi_bulk_elements,
}

-- what stands at a position of the buffer
drop-cons : (n : ℕ) (b : Bytes) (c : ℕ) (t : Bytes) → drop n b ≡ c ∷ t → drop (n + 1) b ≡ t
drop-cons zero [] c t h = cc
drop-cons zero (x ∷ b) c t h = cc
drop-cons (suc n) [] c t h = cc
drop-cons (suc n) (x ∷ b) c t h = ground (arith, drop-cons n b c t)

drop-append : (p : Bytes) (n : ℕ) (b t : Bytes) → drop n b ≡ p ++ t → drop (n + length p) b ≡ t
drop-append [] n b t h = rw add-zero h
drop-append (c ∷ p) n b t h =
    let e : n + suc (length p) ≡ n + 1 + length p = omega arith in
    rw e (drop-append p (n + 1) b t (drop-cons n b c (p ++ t) h))

get_elem?-drop : (n : ℕ) (b : Bytes) (c : ℕ) (t : Bytes) → drop n b ≡ c ∷ t → get_elem? b n ≡ some c
get_elem?-drop zero [] c t h = cc
get_elem?-drop zero (x ∷ b) c t h = cc
get_elem?-drop (suc n) [] c t h = cc
get_elem?-drop (suc n) (x ∷ b) c t h = get_elem?-drop n b c t h

length-at : (n : ℕ) (b : Bytes) (c : ℕ) (t : Bytes) → drop n b ≡ c ∷ t → length b ≡ n + 1 + length t
length-at n b c t h = omega (arith, length-drop n b, ap length h)

is_crlf_at-drop : (n : ℕ) (b t : Bytes) → drop n b ≡ cr ∷ lf ∷ t → is_crlf_at b n ≡ true
unfolding is_crlf_at
is_crlf_at-drop n b t h = ground (
  arith,
  get_elem?-drop n b cr (lf ∷ t) h,
  get_elem?-drop (n + 1) b lf t (drop-cons n b cr (lf ∷ t) h),
)

scan_line-crlf :
    (i : ℕ) (saw : Bool) (s t : Bytes)
    → All (λ c. (b'0' ≤ c) × (c ≤ b'9')) s
    → scan_line i saw (s ++ (cr ∷ lf ∷ t)) ≡ some (i + length s)
unfolding scan_line
scan_line-crlf i saw [] t h = ground arith
scan_line-crlf i saw (c ∷ s) t ((lo, hi), h) =
    ground (arith, scan_line-crlf (i + 1) (c == cr) s t h)

read_length-print_nat : (n : ℕ) → n < 2 ^ 63 → read_length (print_nat n) ≡ some n
unfolding read_length
read_length-print_nat n h = ground (arith, read_nat-print_nat n)

-- the text of one argument, with what follows it
abbrev pub bulk_text : Bytes → Bytes → Bytes
bulk_text s rest = b'$' ∷ (print_nat (length s) ++ (cr ∷ lf ∷ (s ++ (cr ∷ lf ∷ rest))))

abbrev bulk_end : Bytes → ℕ → ℕ
bulk_end s n = n + 1 + length (print_nat (length s)) + 2 + length s + 2

module _ (b s rest : Bytes) (n : ℕ) (h : drop n b ≡ bulk_text s rest) where
  at_digits : drop (n + 1) b ≡ print_nat (length s) ++ (cr ∷ lf ∷ (s ++ (cr ∷ lf ∷ rest)))
  at_digits = drop-cons n b b'$' _ h

  at_crlf : drop (n + 1 + length (print_nat (length s))) b ≡ cr ∷ lf ∷ (s ++ (cr ∷ lf ∷ rest))
  at_crlf = drop-append (print_nat (length s)) (n + 1) b _ at_digits

  at_payload : drop (n + 1 + length (print_nat (length s)) + 2) b ≡ s ++ (cr ∷ lf ∷ rest)
  at_payload = drop-append crlf (n + 1 + length (print_nat (length s))) b _ at_crlf

  at_tail : drop (n + 1 + length (print_nat (length s)) + 2 + length s) b ≡ cr ∷ lf ∷ rest
  at_tail = drop-append s _ b _ at_payload

  bulk_end-drop : drop (bulk_end s n) b ≡ rest
  bulk_end-drop = drop-append crlf _ b _ at_tail

  bulk_payload_lem :
      bulk_payload b (n + 1 + length (print_nat (length s)) + 2) (length s) ≡ bulk s (bulk_end s n)
  unfolding bulk_payload
  bulk_payload_lem = ground (
    arith,
    is_crlf_at-drop _ b rest at_tail,
    length-at _ b cr (lf ∷ rest) at_tail,
    at_payload,
    take-append_length s (cr ∷ lf ∷ rest),
  )

  bulk_header_lem :
      length s ≤ max_bulk_bytes
      → bulk_header b n (n + 1 + length (print_nat (length s))) ≡ bulk s (bulk_end s n)
  unfolding bulk_header
  bulk_header_lem small = ground (
    arith,
    bulk_payload_lem,
    is_crlf_at-drop _ b _ at_crlf,
    at_digits,
    take_digits,
    read_length-print_nat (length s) (omega arith),
  )
    where
      take_digits :
          take (n + 1 + length (print_nat (length s)) - (n + 1)) (drop (n + 1) b)
          ≡ print_nat (length s)
      take_digits =
          let e : n + 1 + length (print_nat (length s)) - (n + 1) ≡ length (print_nat (length s)) =
            omega arith in
          rw (e, at_digits) (take-append_length (print_nat (length s)) _)

  -- One argument is read back.
  bulk_at_lem : length s ≤ max_bulk_bytes → bulk_at b n ≡ bulk s (bulk_end s n)
  unfolding bulk_at bulk_line scan_line
  bulk_at_lem small = ground (
    arith,
    get_elem?-drop n b b'$' _ h,
    h,
    bulk_header_lem small,
    scan_line-crlf (n + 1) false (print_nat (length s)) (s ++ (cr ∷ lf ∷ rest))
        (print_nat-digits (length s)),
  )

-- the text of arguments, with what follows them
abbrev pub args_text : List Bytes → Bytes → Bytes
args_text [] rest = rest
args_text (s ∷ argv) rest = bulk_text s (args_text argv rest)

-- No argument is longer than `kMaxBulkBytes`.
abbrev pub IsSmall : List Bytes → Type 0
IsSmall = All (λ s. length s ≤ max_bulk_bytes)

bulks_lem :
    (argv : List Bytes) (b : Bytes) (n : ℕ) (out : List Bytes) (rest : Bytes)
    → drop n b ≡ args_text argv rest
    → IsSmall argv
    → bulks (length argv) b n out ≡ parsed (out ++ argv) rest
unfolding bulks
bulks_lem [] b n out rest h small = ap₂ parsed (sym (append-nil out)) h
bulks_lem (s ∷ argv) b n out rest h (len, small) =
    rw (bulk_at_lem b s (args_text argv rest) n h len, bulks)
      (bulks_lem argv b (bulk_end s n) (out ++ s ∷ []) rest
          (bulk_end-drop b s (args_text argv rest) n h) small
        ∙ ap (λ l. parsed l rest) (append_assoc out (s ∷ []) argv))

abbrev pub request_text : List Bytes → Bytes → Bytes
request_text argv rest = b'*' ∷ (print_nat (length argv) ++ (cr ∷ lf ∷ args_text argv rest))

module _ (argv : List Bytes) (rest : Bytes) (few : length argv ≤ max_multi_bulk_elements)
    (small : IsSmall argv) where
  abbrev first_line : ℕ
  first_line = 1 + length (print_nat (length argv))

  header_crlf : drop first_line (request_text argv rest) ≡ cr ∷ lf ∷ args_text argv rest
  header_crlf = drop-append (print_nat (length argv)) 1 (request_text argv rest) _ refl

  header_end : drop (first_line + 2) (request_text argv rest) ≡ args_text argv rest
  header_end = drop-append crlf first_line (request_text argv rest) _ header_crlf

  take_count : take (first_line - 1) (drop 1 (request_text argv rest)) ≡ print_nat (length argv)
  take_count =
      let e : first_line - 1 ≡ length (print_nat (length argv)) = omega arith in
      rw e (take-append_length (print_nat (length argv)) _)

  multi_bulk_header_lem : multi_bulk_header (request_text argv rest) first_line ≡ parsed argv rest
  unfolding multi_bulk_header
  multi_bulk_header_lem = ground (
    arith,
    take_count,
    read_length-print_nat (length argv) (omega arith),
    is_crlf_at-drop first_line (request_text argv rest) _ header_crlf,
    length-at first_line (request_text argv rest) cr (lf ∷ args_text argv rest) header_crlf,
    bulks_lem argv (request_text argv rest) (first_line + 2) [] rest header_end small,
    no_args argv,
    header_end,
  )
    where
      no_args : (l : List Bytes) → length l ≡ 0 → (l ≡ []) × (args_text l rest ≡ rest)
      no_args [] e = (refl, refl)
      no_args (x ∷ l) e = absurd (omega arith)

  pub try_parse_one_lem : try_parse_one (request_text argv rest) ≡ parsed argv rest
  unfolding try_parse_one try_parse_multi_bulk peek_line scan_line
  try_parse_one_lem = ground (
    arith,
    multi_bulk_header_lem,
    scan_line-crlf 1 false (print_nat (length argv)) (args_text argv rest)
        (print_nat-digits (length argv)),
  )
