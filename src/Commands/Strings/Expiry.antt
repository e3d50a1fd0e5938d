-- ===== src/Commands/Strings/Expiry.antt =====
-- What GET replies, by the view of the database, and for how long it sees what SETEX wrote.
use cpp_inference_engine.Base.{
  ℕ, ◌≡◌, ◌<◌, ◌∙◌, ap, true, false, Option, none, some, List, [], ◌∷◌, arith, Bytes, codes, length,
  if◌then◌else◌, str_eq_refl,
}
use cpp_inference_engine.Base.Int.{ℤ, pos, ◌+ℤ◌, leb_ℤ, is_zero, in_range64, scale, wrap64_lem}
use cpp_inference_engine.Base.Decimal.{parse_int_strict}
use cpp_inference_engine.Value.{raw_string}
use cpp_inference_engine.Db.{Entry, expired, set_key}
use cpp_inference_engine.Db.Invariant.{IsWellFormed}
use cpp_inference_engine.Db.Visible.{hide, hide-expired, view, lookup-eq-view, view-set_key}
use cpp_inference_engine.Resp.Replies.{
  append_simple_reply, append_bulk_reply, append_null_bulk_reply, append_error_reply,
}
use cpp_inference_engine.Commands.State.{
  ok, ◌>>=◌, Env, State, lookup_key, store, as_string, typed, get_typed, with_typed, err_wrong_type,
}
use cpp_inference_engine.Commands.Shown.{out_of}
use cpp_inference_engine.Commands.Strings.{cmd_get, cmd_setex}

-- the reply to GET for what a client can read
abbrev pub get_reply : Option Entry → Bytes → Bytes
get_reply none out = append_null_bulk_reply out
get_reply (some e) out = elim (as_string e.value) [
  | none ↦
      append_error_reply out
        (codes "WRONGTYPE Operation against a key holding the wrong kind of value")
  | some v ↦ append_bulk_reply out v
]

-- GET does not fault, and its reply is given by what the key shows at the time: null for nothing,
-- the value of a string, and the error WRONGTYPE for another type.
pub cmd_get-view :
    (env : Env) (name key : Bytes) (rest : List Bytes) (s : State)
    → out_of (cmd_get env (name ∷ key ∷ rest) s)
      ≡ some (get_reply (view env.now_ms s.db s.cs.db_index key) s.out)
unfolding cmd_get with_typed get_typed lookup_key typed err_wrong_type
cmd_get-view env name key rest s =
    let e = lookup-eq-view s.cs.db_index key s.db env.now_ms in ground (arith, e)

expires_lem :
    (later t : ℤ) (val : Bytes) (out : Bytes)
    → is_zero t ≡ false
    → get_reply (hide later (some (record { value = raw_string val; expires_at_ms = t }))) out
      ≡ (if leb_ℤ t later then append_null_bulk_reply out else append_bulk_reply out val)
unfolding expired
expires_lem later t val out z =
    let e = hide-expired later (record { value = raw_string val; expires_at_ms = t }) in
    ground (arith, e, z)

-- the state behind SETEX
abbrev stored : Bytes → Bytes → ℤ → State → State
stored key val t s = record s {
  db = set_key s.cs.db_index key (raw_string val) t s.db;
  out = append_simple_reply s.out (codes "OK");
}

cmd_setex-stored :
    (unit : ℕ) (env : Env) (name key time val : Bytes) (v : ℤ) (s : State)
    → parse_int_strict time ≡ some v
    → leb_ℤ v (pos 0) ≡ false
    → in_range64 (env.now_ms +ℤ scale v unit) ≡ true
    → cmd_setex unit env (name ∷ key ∷ time ∷ val ∷ []) s
      ≡ ok (stored key val (env.now_ms +ℤ scale v unit) s)
unfolding cmd_setex store
cmd_setex-stored unit env name key time val v s p positive range =
    let e = wrap64_lem (env.now_ms +ℤ scale v unit) range in ground (arith, p, positive, e)

view-stored :
    (later t : ℤ) (key val : Bytes) (s : State)
    → s.cs.db_index < length s.db.dbs
    → IsWellFormed s.db
    → view later (stored key val t s).db s.cs.db_index key
      ≡ hide later (some (record { value = raw_string val; expires_at_ms = t }))
view-stored later t key val s bound w =
    let e =
      view-set_key s.cs.db_index key s.db bound w later (raw_string val) t s.cs.db_index key in
    ground (arith, e, str_eq_refl key)

-- SETEX (or PSETEX, by the length of the unit) with a positive time, and then GET of the same key
-- at any time: both succeed, and GET replies the stored value before the sum of the first clock
-- and the time, and null from then on. The database is well-formed and has the selected table, and
-- that sum is a `long long` other than zero.
pub cmd_setex-cmd_get :
    (unit : ℕ) (env later : Env) (name get key time val : Bytes) (v : ℤ) (s : State)
    → s.cs.db_index < length s.db.dbs
    → IsWellFormed s.db
    → parse_int_strict time ≡ some v
    → leb_ℤ v (pos 0) ≡ false
    → in_range64 (env.now_ms +ℤ scale v unit) ≡ true
    → is_zero (env.now_ms +ℤ scale v unit) ≡ false
    → out_of
        (cmd_setex unit env (name ∷ key ∷ time ∷ val ∷ []) s >>= cmd_get later (get ∷ key ∷ []))
      ≡ some (
          if leb_ℤ (env.now_ms +ℤ scale v unit) later.now_ms
          then append_null_bulk_reply (append_simple_reply s.out (codes "OK"))
          else append_bulk_reply (append_simple_reply s.out (codes "OK")) val)
cmd_setex-cmd_get unit env later name get key time val v s bound w p positive range nonzero =
    let t = env.now_ms +ℤ scale v unit in
    ap (λ r. out_of (r >>= cmd_get later (get ∷ key ∷ [])))
      (cmd_setex-stored unit env name key time val v s p positive range)
    ∙ cmd_get-view later get key [] (stored key val t s)
    ∙ ap (λ o. some (get_reply o (append_simple_reply s.out (codes "OK"))))
        (view-stored later.now_ms t key val s bound w)
    ∙ ap (λ b. some b) (expires_lem later.now_ms t val _ nonzero)
