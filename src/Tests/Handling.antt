-- ===== src/Tests/Handling.antt =====
-- Handlers at sample states.
use cpp_inference_engine.Base.{
  ℕ, ◌+◌, ◌≡◌, refl, true, false, some, [], ◌∷◌, arith, codes, length, if◌then◌else◌, ◌==◌, get_or,
}
use cpp_inference_engine.Base.Int.{pos, leb_ℤ, ◌+ℤ◌, scale}
use cpp_inference_engine.Base.Decimal.{parse_int_strict, read_nat}
use cpp_inference_engine.Db.Invariant.{IsWellFormed}
use cpp_inference_engine.Db.Visible.{view}
use cpp_inference_engine.Resp.Replies.{
  append_simple_reply, append_bulk_reply, append_null_bulk_reply,
}
use cpp_inference_engine.Commands.State.{LongDouble, Floats, Env, ◌>>=◌}
use cpp_inference_engine.Commands.Strings.{cmd_get, cmd_setex}
use cpp_inference_engine.Commands.Strings.Expiry.{get_reply, cmd_get-view, cmd_setex-cmd_get}
use cpp_inference_engine.Commands.Shown.{out_of}
use cpp_inference_engine.Tests.Dispatching.{sample_server}

-- whole numbers in the place of `long double`
abbrev whole : LongDouble
whole = record {
  strtold = λ s. some (length s);
  add = λ a b. a + b;
  is_nan = λ a. false;
  is_inf = λ a. false;
  is_positive = λ a. true;
  is_zero = λ a. a == 0;
  plus_zero = 0;
  print_17lf = λ a. codes "1.00000000000000000";
}

-- whole numbers in the place of `double` in text: `strtod` reads a byte as its code
abbrev short : Floats
short = record { strtod = λ s. (get_or s 0 0, 1); add = λ a b. a + b; print_g = λ prec a. a ∷ [] }

abbrev pub env_at : ℕ → Env
env_at now = record {
  now_ms = pos now;
  draw = λ i. i;
  shuffle = λ l. l;
  flips = λ n i. false;
  long_double = whole;
  floats = short;
}

pub sample_server-IsWellFormed : IsWellFormed sample_server.state.db
sample_server-IsWellFormed = record {
  count = refl;
  unique = (
    tt,
    (tt, (tt, (tt, (tt, (tt, (tt, (tt, (tt, (tt, (tt, (tt, (tt, (tt, (tt, (tt, tt))))))))))))))),
  );
}

cmd_get-view_example :
    out_of (cmd_get (env_at 5) (codes "GET" ∷ codes "a" ∷ []) sample_server.state)
    ≡ some (get_reply (view (pos 5) sample_server.state.db 0 (codes "a")) [])
cmd_get-view_example = cmd_get-view (env_at 5) (codes "GET") (codes "a") [] sample_server.state

seven : parse_int_strict (codes "7") ≡ some (pos 7)
unfolding parse_int_strict read_nat
seven = refl

cmd_setex-cmd_get_example :
    out_of (
      cmd_setex 1000
        (env_at 5)
        (codes "SETEX" ∷ codes "a" ∷ codes "7" ∷ codes "x" ∷ [])
        sample_server.state
      >>= cmd_get (env_at 8000) (codes "GET" ∷ codes "a" ∷ []))
    ≡ some (
        if leb_ℤ (pos 5 +ℤ scale (pos 7) 1000) (pos 8000)
        then append_null_bulk_reply (append_simple_reply [] (codes "OK"))
        else append_bulk_reply (append_simple_reply [] (codes "OK")) (codes "x"))
unfolding ◌+ℤ◌ scale
cmd_setex-cmd_get_example =
    cmd_setex-cmd_get 1000 (env_at 5) (env_at 8000) (codes "SETEX") (codes "GET") (codes "a")
      (codes "7") (codes "x") (pos 7) sample_server.state (omega arith) sample_server-IsWellFormed
      seven refl refl refl
