-- ===== src/Commands/Keys/Shown.antt =====
-- What every key shows after `CmdExpire` of src/commands.cpp.
use cpp_inference_engine.Base.{
  ℕ, refl, ap, inl, inr, Option-cases, Bool, true, ◌<◌, ◌≡◌, Option, none, some, List, ◌∷◌, arith,
  Bytes, if◌then◌else◌,
}
use cpp_inference_engine.Base.Int.{ℤ, pos, ◌+ℤ◌, ◌≤ℤ◌, in_range64, scale, wrap64_lem}
use cpp_inference_engine.Base.Decimal.{parse_int_strict}
use cpp_inference_engine.Resp.Replies.{append_int_reply}
use cpp_inference_engine.Db.{Entry, num_databases}
use cpp_inference_engine.Db.Invariant.{IsWellFormed}
use cpp_inference_engine.Db.Visible.{hide, view, lookup-eq-view}
use cpp_inference_engine.Commands.State.{Env, State, lookup_key, say_int, assign}
use cpp_inference_engine.Commands.Keys.{cmd_expire, expire_time}
use cpp_inference_engine.Commands.Shown.{
  out_of, seen, at_key, is_some, looked, view-looked, view-assign,
}

-- a length of time, in milliseconds
abbrev pub span_of : Bool → ℤ → ℤ
span_of ms v = if ms then v else scale v 1000

-- the time at which a key is to expire
abbrev pub deadline : Env → Bool → Bool → ℤ → ℤ
deadline env at ms v = if at then span_of ms v else env.now_ms +ℤ span_of ms v

expire_time-deadline :
    (env : Env) (at ms : Bool) (v : ℤ)
    → in_range64 (span_of ms v) ≡ true
    → in_range64 (deadline env at ms v) ≡ true
    → expire_time env at ms v ≡ deadline env at ms v
unfolding expire_time
expire_time-deadline env at ms v a b =
    ground (arith, wrap64_lem (scale v 1000), wrap64_lem (env.now_ms +ℤ span_of ms v))

-- what is shown with the new time
abbrev pub expiring : ℤ → ℤ → Bool → Option Entry → Option Entry → Option Entry
expiring later t here none old = old
expiring later t here (some e) old =
    if here then hide later (some (record { value = e.value; expires_at_ms = t })) else old

module _ (at ms : Bool) (env : Env) (name key time : Bytes) (rest : List Bytes) (v : ℤ) (s : State)
    (p : parse_int_strict time ≡ some v) where
  expire_missing :
      view env.now_ms s.db s.cs.db_index key ≡ none
      → cmd_expire at ms env (name ∷ key ∷ time ∷ rest) s ≡ say_int (pos 0) (looked env key s)
  unfolding cmd_expire lookup_key
  expire_missing n =
      let e = lookup-eq-view s.cs.db_index key s.db env.now_ms in ground (arith, e, p, n)

  expire_found :
      (x : Entry)
      → view env.now_ms s.db s.cs.db_index key ≡ some x
      → cmd_expire at ms env (name ∷ key ∷ time ∷ rest) s
        ≡ say_int (pos 1) (assign key x.value (expire_time env at ms v) (looked env key s))
  unfolding cmd_expire lookup_key
  expire_found x n =
      let e = lookup-eq-view s.cs.db_index key s.db env.now_ms in ground (arith, e, p, n)

-- EXPIRE, PEXPIRE, EXPIREAT and PEXPIREAT with a number, on a well-formed database that has the
-- selected table, where the length of time and the deadline fit into 64 bits, end without a fault.
-- The reply is 1 if the key shows an entry, and 0 otherwise. At `now` or later the key shows its
-- old value until the deadline (for ever if this is 0), and every other key of every table shows
-- what it showed.
pub cmd_expire-view :
    (at ms : Bool) (env : Env) (name key time : Bytes) (rest : List Bytes) (v : ℤ) (s : State)
    → s.cs.db_index < num_databases
    → IsWellFormed s.db
    → parse_int_strict time ≡ some v
    → in_range64 (span_of ms v) ≡ true
    → in_range64 (deadline env at ms v) ≡ true
    → (later : ℤ) (j : ℕ) (q : Bytes) → env.now_ms ≤ℤ later
    → let r = cmd_expire at ms env (name ∷ key ∷ time ∷ rest) s in
      let shown = view env.now_ms s.db s.cs.db_index key in
      (out_of r ≡ some (append_int_reply s.out (if is_some shown then pos 1 else pos 0)))
      × (seen later j q r
          ≡ some (
              expiring later (deadline env at ms v) (at_key s key j q) shown (view later s.db j q)))
unfolding assign
cmd_expire-view at ms env name key time rest v s h w p a b later j q le =
    let t = expire_time-deadline env at ms v a b in
    elim (Option-cases (view env.now_ms s.db s.cs.db_index key)) [
      | inl n ↦
          rw (expire_missing at ms env name key time rest v s p n, n)
            (refl, ap (λ o. some o) (view-looked env key s h w later j q le))
      | inr (x, m) ↦
          rw (expire_found at ms env name key time rest v s p x m, m, t)
            (refl, ap (λ o. some o) (view-assign env key s h w key x.value _ later j q le))
    ]
