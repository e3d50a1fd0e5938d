-- ===== src/Commands/Keys/Renamed.antt =====
-- What every key shows after RENAME of src/commands.cpp.
use cpp_inference_engine.Base.{
  ℕ, refl, ap, inl, inr, Option-cases, Bool-cases, Bool, ◌<◌, ◌≡◌, Option, none, some, List, ◌∷◌,
  arith, Bytes, codes, if◌then◌else◌, str_eq, str_eq_sound,
}
use cpp_inference_engine.Base.Int.{ℤ, ◌≤ℤ◌}
use cpp_inference_engine.Resp.Replies.{append_simple_reply, append_error_reply}
use cpp_inference_engine.Db.{Entry, num_databases, delete}
use cpp_inference_engine.Db.Invariant.{
  IsWellFormed, delete-IsWellFormed, write_through-IsWellFormed,
}
use cpp_inference_engine.Db.Visible.{hide, view, lookup-eq-view, view-set_key, view-delete}
use cpp_inference_engine.Commands.State.{
  Env, State, lookup_key, say_simple, say_error, assign, store,
}
use cpp_inference_engine.Commands.Strings.{delete_key}
use cpp_inference_engine.Commands.Keys.{cmd_rename, moved_out}
use cpp_inference_engine.Commands.Shown.{
  out_of, seen, at_key, looked, view-looked, view-assign, bound_of, looked-IsWellFormed,
  view-at_key,
}

-- what is shown when the entry, if there is one, has moved
abbrev pub moved : ℤ → Bool → Bool → Option Entry → Option Entry → Option Entry
moved later at_new at_old none before = before
moved later at_new at_old (some e) before =
    if at_new then hide later (some e) else if at_old then none else before

abbrev pub rename_reply : Option Entry → Bytes → Bytes
rename_reply none out = append_error_reply out (codes "ERR no such key")
rename_reply (some e) out = append_simple_reply out (codes "OK")

-- the state behind a move between two keys
abbrev renamed : Env → Bytes → Bytes → Entry → State → State
renamed env old new x s =
    store new x.value x.expires_at_ms
      (delete_key old (assign old (moved_out x.value) x.expires_at_ms (looked env old s))).1

module _ (env : Env) (name old new : Bytes) (rest : List Bytes) (s : State) where
  rename_missing :
      view env.now_ms s.db s.cs.db_index old ≡ none
      → cmd_rename env (name ∷ old ∷ new ∷ rest) s
        ≡ say_error (codes "ERR no such key") (looked env old s)
  unfolding cmd_rename lookup_key
  rename_missing n =
      let e = lookup-eq-view s.cs.db_index old s.db env.now_ms in ground (arith, e, n)

  rename_found :
      (x : Entry)
      → view env.now_ms s.db s.cs.db_index old ≡ some x
      → cmd_rename env (name ∷ old ∷ new ∷ rest) s
        ≡ say_simple
            (codes "OK")
            (if str_eq old new then looked env old s else renamed env old new x s)
  unfolding cmd_rename lookup_key
  rename_found x n =
      let e = lookup-eq-view s.cs.db_index old s.db env.now_ms in ground (arith, e, n)

-- a write, a removal and a write, each at its key
writes_lem :
    (n o : Bool) (new empty before emptied removed after : Option Entry)
    → after ≡ (if n then new else removed)
    → removed ≡ (if o then none else emptied)
    → emptied ≡ (if o then empty else before)
    → after ≡ (if n then new else if o then none else before)
writes_lem n o new empty before emptied removed after a b c = ground arith

module _ (env : Env) (old new : Bytes) (s : State) (h : s.cs.db_index < num_databases)
    (w : IsWellFormed s.db) (x : Entry) (later : ℤ) (j : ℕ) (q : Bytes)
    (le : env.now_ms ≤ℤ later) where
  emptied-IsWellFormed :
      IsWellFormed (assign old (moved_out x.value) x.expires_at_ms (looked env old s)).db
  unfolding assign
  emptied-IsWellFormed =
      write_through-IsWellFormed s.cs.db_index old _ (looked-IsWellFormed env old s h w) _

  view-renamed : view later (renamed env old new x s).db j q ≡ (
      if at_key s new j q
      then hide later (some x)
      else if at_key s old j q
      then none
      else view later s.db j q)
  unfolding store delete_key assign hide
  view-renamed =
      let i = s.cs.db_index in
      let w₁ = emptied-IsWellFormed in
      let d₁ = (assign old (moved_out x.value) x.expires_at_ms (looked env old s)).db in
      let w₂ = delete-IsWellFormed i old d₁ w₁ in
      writes_lem (at_key s new j q) (at_key s old j q) _ _ _ _ _ _
        (view-set_key i new (delete i old d₁).1 (bound_of i w₂ h) w₂ later x.value x.expires_at_ms j
          q)
        (view-delete i old d₁ (bound_of i w₁ h) w₁ later j q)
        (view-assign env old s h w old (moved_out x.value) x.expires_at_ms later j q le)

  -- a key that is renamed to itself
  view-looked_same :
      view env.now_ms s.db s.cs.db_index old ≡ some x
      → old ≡ new
      → view later (looked env old s).db j q ≡ (
          if at_key s new j q
          then hide later (some x)
          else if at_key s old j q
          then none
          else view later s.db j q)
  view-looked_same m e = elim (Bool-cases (at_key s old j q)) [
    | inl a ↦
        rw (← e, view-looked env old s h w later j q le, a)
          (view-at_key env old s h w x later j q m a)
    | inr b ↦ rw (← e, view-looked env old s h w later j q le, b) refl
  ]

-- RENAME on a well-formed database that has the selected table ends without a fault. If the old
-- key shows nothing, the reply is an error, and nothing that any key shows at `now` or later
-- changes. Otherwise the reply is OK, the new key shows the entry of the old one until its expiry
-- time, the old key shows nothing, unless it is the new one, and every other key of every table
-- shows what it showed.
pub cmd_rename-view :
    (env : Env) (name old new : Bytes) (rest : List Bytes) (s : State)
    → s.cs.db_index < num_databases
    → IsWellFormed s.db
    → (later : ℤ) (j : ℕ) (q : Bytes) → env.now_ms ≤ℤ later
    → let r = cmd_rename env (name ∷ old ∷ new ∷ rest) s in
      let shown = view env.now_ms s.db s.cs.db_index old in
      (out_of r ≡ some (rename_reply shown s.out))
      × (seen later j q r
          ≡ some (moved later (at_key s new j q) (at_key s old j q) shown (view later s.db j q)))
unfolding store delete_key assign
cmd_rename-view env name old new rest s h w later j q le =
    elim (Option-cases (view env.now_ms s.db s.cs.db_index old)) [
      | inl n ↦
          rw (rename_missing env name old new rest s n, n)
            (refl, ap (λ o. some o) (view-looked env old s h w later j q le))
      | inr (x, m) ↦ elim (Bool-cases (str_eq old new)) [
        | inl same ↦
            rw (rename_found env name old new rest s x m, m, same)
              (
                refl,
                ap (λ o. some o)
                    (view-looked_same env old new s h w x later j q le m
                      (str_eq_sound old new same)),
              )
        | inr ne ↦
            rw (rename_found env name old new rest s x m, m, ne)
              (refl, ap (λ o. some o) (view-renamed env old new s h w x later j q le))
      ]
    ]
