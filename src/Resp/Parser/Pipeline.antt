-- ===== src/Resp/Parser/Pipeline.antt =====
-- Requests that a client writes with the array encoder are read back by the parser, alone and in a
-- row.
use cpp_inference_engine.Base.{
  ℕ, zero, suc, ◌<◌, ◌≤◌, ◌≡◌, ◌∙◌, ap, refl, false, List, [], ◌∷◌, ◌++◌, append_assoc, append-nil,
  arith, Bytes, ltb, length, All,
}
use cpp_inference_engine.Base.Int.{pos}
use cpp_inference_engine.Base.Decimal.{to_string}
use cpp_inference_engine.Resp.Replies.{
  append_bulk_reply, append_array_reply, append_bulks, append_bulk_array,
}
use cpp_inference_engine.Resp.Parser.{
  fresh_parser, parsed, try_parse_one, parse_loop, feed, max_bulk_bytes, max_multi_bulk_elements,
}
use cpp_inference_engine.Resp.Parser.Consume.{try_parse_one-consume}
use cpp_inference_engine.Resp.Parser.RoundTrip.{
  IsSmall, bulk_text, args_text, request_text, try_parse_one_lem,
}

bulk-text : (out s rest : Bytes) → append_bulk_reply out s ++ rest ≡ out ++ bulk_text s rest
unfolding append_bulk_reply
bulk-text out s rest = simp append_assoc

append_bulks-text :
    (out : Bytes) (argv : List Bytes) (rest : Bytes)
    → append_bulks out argv ++ rest ≡ out ++ args_text argv rest
unfolding append_bulks
append_bulks-text out [] rest = refl
append_bulks-text out (s ∷ argv) rest =
    append_bulks-text (append_bulk_reply out s) argv rest ∙ bulk-text out s (args_text argv rest)

append_bulk_array-text :
    (argv : List Bytes) (rest : Bytes) → append_bulk_array [] argv ++ rest ≡ request_text argv rest
unfolding append_bulk_array append_array_reply to_string
append_bulk_array-text argv rest =
    append_bulks-text (append_array_reply [] (pos (length argv))) argv rest ∙ simp append_assoc

-- A request that fits the limits.
pub record IsRequest (argv : List Bytes) : Type 0 where
  pub few : length argv ≤ max_multi_bulk_elements
  pub small : IsSmall argv

-- A request of at most 1024 arguments of at most 512 MB each, written as an array of bulk strings,
-- is parsed to its arguments whatever bytes follow, and exactly its bytes are consumed.
pub try_parse_one-append_bulk_array :
    (argv : List Bytes) (rest : Bytes)
    → IsRequest argv
    → try_parse_one (append_bulk_array [] argv ++ rest) ≡ parsed argv rest
try_parse_one-append_bulk_array argv rest r =
    ap try_parse_one (append_bulk_array-text argv rest) ∙ try_parse_one_lem argv rest r.few r.small

-- requests in a row, as a pipelining client sends them
abbrev pub requests : List (List Bytes) → Bytes
requests [] = []
requests (argv ∷ cmds) = append_bulk_array [] argv ++ requests cmds

requests-shorter :
    (argv : List Bytes) (cmds : List (List Bytes))
    → IsRequest argv
    → length (requests cmds) < length (requests (argv ∷ cmds))
requests-shorter argv cmds r =
    try_parse_one-consume _ argv _ (try_parse_one-append_bulk_array argv (requests cmds) r)

parse_loop-requests :
    (fuel : ℕ) (cmds acc : List (List Bytes))
    → All IsRequest cmds
    → length (requests cmds) ≤ fuel
    → parse_loop fuel (requests cmds) acc ≡ (acc ++ cmds, fresh_parser)
unfolding parse_loop
parse_loop-requests zero [] acc all h = rw append-nil
parse_loop-requests zero (argv ∷ cmds) acc (r, all) h =
    absurd (omega (arith, requests-shorter argv cmds r))
parse_loop-requests (suc fuel) [] acc all h = unfold try_parse_one in rw append-nil
parse_loop-requests (suc fuel) (argv ∷ cmds) acc (r, all) h =
    rw (try_parse_one-append_bulk_array argv (requests cmds) r, parse_loop)
      (parse_loop-requests fuel cmds (acc ++ argv ∷ []) all
          (omega (arith, requests-shorter argv cmds r))
        ∙ ap (λ l. (l, fresh_parser)) (append_assoc acc (argv ∷ []) cmds))

-- Requests of at most 1024 arguments, each of at most 512 MB, are written as arrays of bulk
-- strings one after the other, at most 512 MB together. `Feed` on a fresh parser returns all of
-- them in order, with an empty buffer and no error.
pub feed-requests :
    (cmds : List (List Bytes))
    → All IsRequest cmds
    → length (requests cmds) ≤ max_bulk_bytes
    → feed fresh_parser (requests cmds) ≡ (cmds, fresh_parser)
unfolding feed
feed-requests cmds all fits =
    rw (not_big cmds fits) (parse_loop-requests (length (requests cmds)) cmds [] all (omega arith))
  where
    not_big :
        (cmds : List (List Bytes))
        → length (requests cmds) ≤ max_bulk_bytes
        → ltb max_bulk_bytes (length (requests cmds)) ≡ false
    not_big cmds fits = ground arith
