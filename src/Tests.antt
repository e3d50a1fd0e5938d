-- ===== src/Tests.antt =====
-- Sample states and texts, and the theorems at them.
mod Containers
mod Dispatching
mod Handling
mod Scored
mod Shown
mod Snapshots
mod Sorted
use cpp_inference_engine.Base.{
  ◌<◌, ◌≤◌, ◌≡◌, ◌≢◌, ◌↔◌, refl, true, false, ◌&&◌, none, some, List, [], ◌∷◌, ◌++◌, arith, Bytes,
  codes, length, str_eq, ◌==◌, if◌then◌else◌, replicate, take, drop,
}
use cpp_inference_engine.Base.Int.{pos, negsuc, ◌+ℤ◌, in_range64}
use cpp_inference_engine.Base.Decimal.{
  parse_int_strict, to_string, print_nat, read_nat, parse-to_string,
}
use cpp_inference_engine.Base.StrSet.{has, Distinct}
use cpp_inference_engine.Base.Dict.{find, put, total}
use cpp_inference_engine.Value.{raw_string}
use cpp_inference_engine.Db.{
  Entry, Database, size_mod, table, lookup, write_through, set_key, delete, flush_db, flush_all,
  active_expire_cycle, entry_size, value_size,
}
use cpp_inference_engine.Db.Sizes.{sum_tables}
use cpp_inference_engine.Db.Invariant.{IsWellFormed}
use cpp_inference_engine.Db.Accounting.{
  IsAccounted, lookup-IsAccounted, set_key-IsAccounted, delete-IsAccounted,
  write_through-IsAccounted_iff, flush_all_empty, used-flush_all,
}
use cpp_inference_engine.Db.Visible.{hide, view, view-lookup, view-set_key, view-delete}
use cpp_inference_engine.Db.Purge.{Purged, lookup-Purged}
use cpp_inference_engine.Db.Expire.{Swept, active_expire_cycle-Swept}
use cpp_inference_engine.Resp.Replies.{append_bulk_array, append_bulk_reply, append_array_reply}
use cpp_inference_engine.Resp.Parser.{
  fresh_parser, parsed, try_parse_one, max_bulk_bytes, parse_buffered, feed,
}
use cpp_inference_engine.Resp.Parser.Consume.{Ended, try_parse_one-consume, parse_buffered-Ended}
use cpp_inference_engine.Resp.Parser.Pipeline.{
  IsRequest, try_parse_one-append_bulk_array, requests, feed-requests,
}
use cpp_inference_engine.Glob.{glob_match, Matches}
use cpp_inference_engine.Glob.Complete.{NoStar}
use cpp_inference_engine.Glob.Fuel.{glob_match_total}
use cpp_inference_engine.Glob.Decides.{glob_match_iff, star_refused}
use cpp_inference_engine.Commands.State.{ok}
use cpp_inference_engine.Commands.Lists.{list_index_range, slice, trim, push_all, pop_one, pop_loop}
use cpp_inference_engine.Commands.Lists.Windows.{
  list_index_range_bounds, slice_lem, trim_lem, pop_one-push_all, rejoin, pop_loop_lem,
}
use cpp_inference_engine.Commands.Sets.{diff, combine}
use cpp_inference_engine.Commands.Sets.Algebra.{belongs}

-- a database with a key that lasts and one that expires at 40
abbrev lasting : Entry
lasting = record { value = raw_string (codes "x"); expires_at_ms = pos 0 }

abbrev passing : Entry
passing = record { value = raw_string (codes "y"); expires_at_ms = pos 40 }

abbrev sample : Database
sample = record {
  dbs = ((codes "a", lasting) ∷ (codes "b", passing) ∷ []) ∷ replicate 15 [];
  used = 132;
  max_memory = 0;
  total_expired = 0;
}

sample-IsWellFormed : IsWellFormed sample
unfolding find str_eq
sample-IsWellFormed = record {
  count = refl;
  unique = (
    (refl, (refl, tt)),
    (tt, (tt, (tt, (tt, (tt, (tt, (tt, (tt, (tt, (tt, (tt, (tt, (tt, (tt, (tt, tt))))))))))))))),
  );
}

sample-IsAccounted : IsAccounted sample
unfolding entry_size total value_size
sample-IsAccounted = record { exact = refl; fits = omega arith }

-- ---- the key space ----
active_expire_cycle-Swept_example :
    Swept (pos 50) sample 0 (active_expire_cycle (pos 50) (λ i. 0) sample)
active_expire_cycle-Swept_example =
    active_expire_cycle-Swept (pos 50) (λ i. 0) sample sample-IsWellFormed sample-IsAccounted

lookup-Purged_example : Purged (pos 40) 0 (codes "b") sample (lookup (pos 40) 0 (codes "b") sample)
lookup-Purged_example =
    lookup-Purged (pos 40) 0 (codes "b") sample (omega arith) sample-IsWellFormed

view-lookup_example :
    view (pos 60) (lookup (pos 50) 0 (codes "b") sample).1 0 (codes "a")
    ≡ view (pos 60) sample 0 (codes "a")
view-lookup_example =
    view-lookup 0 (codes "b") sample (omega arith) sample-IsWellFormed (pos 50) (pos 60) 0
      (codes "a") (omega arith)

view-set_key_example :
    view (pos 50) (set_key 0 (codes "b") (raw_string []) (pos 70) sample) 0 (codes "b") ≡ (
      if (0 == 0) && str_eq (codes "b") (codes "b")
      then hide (pos 50) (some (record { value = raw_string []; expires_at_ms = pos 70 }))
      else view (pos 50) sample 0 (codes "b"))
view-set_key_example =
    view-set_key 0 (codes "b") sample (omega arith) sample-IsWellFormed (pos 50) (raw_string [])
      (pos 70) 0 (codes "b")

view-delete_example : view (pos 10) (delete 0 (codes "b") sample).1 0 (codes "a") ≡ (
    if (0 == 0) && str_eq (codes "b") (codes "a") then none else view (pos 10) sample 0 (codes "a"))
view-delete_example =
    view-delete 0 (codes "b") sample (omega arith) sample-IsWellFormed (pos 10) 0 (codes "a")

lookup-IsAccounted_example : IsAccounted (lookup (pos 50) 0 (codes "b") sample).1
lookup-IsAccounted_example =
    lookup-IsAccounted 0 (codes "b") sample (omega arith) (pos 50) sample-IsAccounted

delete-IsAccounted_example : IsAccounted (delete 0 (codes "a") sample).1
delete-IsAccounted_example =
    delete-IsAccounted 0 (codes "a") sample (omega arith) sample-IsAccounted

sample_set_fits : sum_tables (set_key 0 (codes "b") (raw_string []) (pos 70) sample).dbs < size_mod
unfolding set_key entry_size total value_size put str_eq
sample_set_fits = omega arith

set_key-IsAccounted_example : IsAccounted (set_key 0 (codes "b") (raw_string []) (pos 70) sample)
set_key-IsAccounted_example =
    set_key-IsAccounted 0 (codes "b") sample (omega arith) (raw_string []) (pos 70)
      sample-IsAccounted sample_set_fits

sample_a : find (codes "a") (table sample 0) ≡ some lasting
unfolding find str_eq
sample_a = refl

write_through-IsAccounted_iff_example :
    IsAccounted (write_through 0 (codes "a") passing sample)
    ↔ (entry_size (codes "a") passing ≡ entry_size (codes "a") lasting)
write_through-IsAccounted_iff_example =
    write_through-IsAccounted_iff 0 (codes "a") sample (omega arith) lasting passing sample_a
      sample-IsAccounted

flush_all_empty_example : table (flush_all sample) 3 ≡ []
flush_all_empty_example = flush_all_empty sample 3 sample-IsWellFormed (omega arith)

used-flush_all_example : (flush_all sample).used ≡ 0
used-flush_all_example = used-flush_all sample sample-IsWellFormed sample-IsAccounted

-- ---- requests ----
abbrev get_a : List Bytes
get_a = codes "GET" ∷ codes "a" ∷ []

get_a-IsRequest : IsRequest get_a
get_a-IsRequest = record { few = omega arith; small = (omega arith, (omega arith, tt)) }

two_fit : length (requests (get_a ∷ get_a ∷ [])) ≤ max_bulk_bytes
unfolding append_bulk_array to_string append_bulk_reply append_array_reply print_nat
two_fit = omega arith

feed-requests_example :
    feed fresh_parser (requests (get_a ∷ get_a ∷ [])) ≡ (get_a ∷ get_a ∷ [], fresh_parser)
feed-requests_example =
    feed-requests (get_a ∷ get_a ∷ []) (get_a-IsRequest, (get_a-IsRequest, tt)) two_fit

try_parse_one-append_bulk_array_example :
    try_parse_one (append_bulk_array [] get_a ++ codes "*1") ≡ parsed get_a (codes "*1")
try_parse_one-append_bulk_array_example =
    try_parse_one-append_bulk_array get_a (codes "*1") get_a-IsRequest

try_parse_one-consume_example :
    length (codes "*1") < length (append_bulk_array [] get_a ++ codes "*1")
try_parse_one-consume_example =
    try_parse_one-consume (append_bulk_array [] get_a ++ codes "*1") get_a (codes "*1")
      (try_parse_one-append_bulk_array get_a (codes "*1") get_a-IsRequest)

parse_buffered-Ended_example :
    Ended (parse_buffered (record { buf = codes "*1\r\n$4\r\nPING\r\n*1\r"; error_msg = [] })).1
parse_buffered-Ended_example =
    parse_buffered-Ended (record { buf = codes "*1\r\n$4\r\nPING\r\n*1\r"; error_msg = [] }) refl

minus_42 : in_range64 (negsuc 41) ≡ true
minus_42 = refl

parse-to_string_example : parse_int_strict (to_string (negsuc 41)) ≡ some (negsuc 41)
parse-to_string_example = parse-to_string (negsuc 41) minus_42

pipelined :
    parse_buffered (record { buf = codes "*1\r\n$4\r\nPING\r\nGET  a\n*1\r"; error_msg = [] }) ≡ (
      (codes "PING" ∷ []) ∷ (codes "GET" ∷ codes "a" ∷ []) ∷ [],
      record { buf = codes "*1\r"; error_msg = [] },
    )
unfolding parse_buffered read_nat
pipelined = refl
