-- ===== src/Commands/Numbers/Counted.antt =====
-- What INCR, DECR, INCRBY and DECRBY of src/commands.cpp reply, and what every key shows afterwards.
use cpp_inference_engine.Base.{
  ℕ, refl, ap, inl, inr, Option-cases, Bool-cases, Bool, true, false, ◌<◌, ◌≡◌, Option, none, some,
  List, [], ◌∷◌, arith, Bytes, codes, if◌then◌else◌,
}
use cpp_inference_engine.Base.Int.{ℤ, pos, negsuc, ◌+ℤ◌, ◌≤ℤ◌, in_range64, add_overflow}
use cpp_inference_engine.Base.Decimal.{to_string}
use cpp_inference_engine.Value.{Value, raw_string, hash_value, list_value, set_value, zset_value}
use cpp_inference_engine.Resp.Replies.{append_int_reply, append_error_reply}
use cpp_inference_engine.Db.{Entry, Database, num_databases}
use cpp_inference_engine.Db.Invariant.{IsWellFormed}
use cpp_inference_engine.Db.Visible.{hide, view, lookup-eq-view, view-write_through}
use cpp_inference_engine.Commands.State.{
  Run, Env, State, lookup_key, say_int, assign, store, get_or_create, with_created, err_wrong_type,
  err_not_int,
}
use cpp_inference_engine.Commands.Numbers.{cmd_incr_by, int_of}
use cpp_inference_engine.Commands.Numbers.Created.{
  fresh, created, stored_db-IsWellFormed, shows_fresh, view-created_elsewhere,
}
use cpp_inference_engine.Commands.Shown.{
  out_of, seen, at_key, looked, view-looked, bound_of, looked-IsWellFormed,
}

abbrev pub number_reply : ℤ → Bytes → Option ℤ → Bytes
number_reply by out none =
    append_error_reply out (codes "ERR value is not an integer or out of range")
number_reply by out (some n) =
    if in_range64 (n +ℤ by)
    then append_int_reply out (n +ℤ by)
    else append_error_reply out (codes "ERR value is not an integer or out of range")

-- the reply, by the value that the key shows
abbrev pub value_reply : ℤ → Bytes → Value → Bytes
value_reply by out (raw_string v) = number_reply by out (int_of v)
value_reply by out _ =
    append_error_reply out
      (codes "WRONGTYPE Operation against a key holding the wrong kind of value")

abbrev pub incr_reply : ℤ → Bytes → Option Entry → Bytes
incr_reply by out none = append_int_reply out by
incr_reply by out (some e) = value_reply by out e.value

-- a number, as the entry that holds it
abbrev pub number_entry : ℤ → ℤ → Entry
number_entry n t = record { value = raw_string (to_string n); expires_at_ms = t }

abbrev pub next_number : ℤ → ℤ → Option ℤ → Option Entry
next_number by t none = none
next_number by t (some n) = if in_range64 (n +ℤ by) then some (number_entry (n +ℤ by) t) else none

abbrev pub next_value : ℤ → ℤ → Value → Option Entry
next_value by t (raw_string v) = next_number by t (int_of v)
next_value by t _ = none

-- the entry that is written, where one is
abbrev pub incremented : ℤ → Option Entry → Option Entry
incremented by none = some (number_entry by (pos 0))
incremented by (some e) = next_value by e.expires_at_ms e.value

-- what is shown after a write of an entry, where there is one
abbrev pub written : ℤ → Bool → Option Entry → Option Entry → Option Entry
written later here none before = before
written later here (some e) before = if here then hide later (some e) else before

-- what is done with a number, and with a value
abbrev numbered : ℤ → Bytes → ℤ → State → Option ℤ → Run State
numbered by key t s none = err_not_int s
numbered by key t s (some n) = elim (add_overflow n by) [
  | none ↦ err_not_int s
  | some m ↦ say_int m (assign key (raw_string (to_string m)) t s)
]

abbrev acted : ℤ → Bytes → ℤ → State → Value → Run State
acted by key t s (raw_string v) = numbered by key t s (int_of v)
acted by key t s _ = err_wrong_type s

add_overflow_fits : (a b : ℤ) → in_range64 (a +ℤ b) ≡ true → add_overflow a b ≡ some (a +ℤ b)
unfolding add_overflow
add_overflow_fits a b r = rw r refl

add_overflow-none : (a b : ℤ) → in_range64 (a +ℤ b) ≡ false → add_overflow a b ≡ none
unfolding add_overflow
add_overflow-none a b r = rw r refl

module _ (key : Bytes) (s : State) (h : s.cs.db_index < num_databases) (d : Database)
    (w : IsWellFormed d) (later : ℤ) (j : ℕ) (q : Bytes) (before : Option Entry) where
  numbered_lem :
      (m t : ℤ)
      → (at_key s key j q ≡ false → view later d j q ≡ before)
      → view later (assign key (raw_string (to_string m)) t (record s { db = d })).db j q
        ≡ (if at_key s key j q then hide later (some (number_entry m t)) else before)
  unfolding assign
  numbered_lem m t same =
      let e =
        view-write_through s.cs.db_index key d (bound_of s.cs.db_index w h) w later
          (number_entry m t) j q in
      elim (Bool-cases (at_key s key j q)) [ inl a ↦ rw (e, a) refl | inr b ↦ rw (e, b) (same b) ]

module _ (by : ℤ) (key : Bytes) (s : State) (h : s.cs.db_index < num_databases) (d : Database)
    (w : IsWellFormed d) (later : ℤ) (j : ℕ) (q : Bytes) (before : Option Entry)
    (same : view later d j q ≡ before) where
  seen-numbered :
      (t : ℤ) (o : Option ℤ)
      → (out_of (numbered by key t (record s { db = d }) o) ≡ some (number_reply by s.out o))
        × (seen later j q (numbered by key t (record s { db = d }) o)
            ≡ some (written later (at_key s key j q) (next_number by t o) before))
  unfolding err_not_int assign
  seen-numbered t none = (refl, ap (λ o. some o) same)
  seen-numbered t (some n) = elim (Bool-cases (in_range64 (n +ℤ by))) [
    | inl r ↦
        rw (add_overflow_fits n by r, numbered, r)
          (
            refl,
            ap (λ o. some o) (numbered_lem key s h d w later j q before (n +ℤ by) t (λ b. same)),
          )
    | inr r ↦ rw (add_overflow-none n by r, numbered, r) (refl, ap (λ o. some o) same)
  ]

  seen-acted :
      (t : ℤ) (v : Value)
      → (out_of (acted by key t (record s { db = d }) v) ≡ some (value_reply by s.out v))
        × (seen later j q (acted by key t (record s { db = d }) v)
            ≡ some (written later (at_key s key j q) (next_value by t v) before))
  unfolding err_wrong_type
  seen-acted t (raw_string v) = seen-numbered t (int_of v)
  seen-acted t (hash_value v) = (refl, ap (λ o. some o) same)
  seen-acted t (list_value v) = (refl, ap (λ o. some o) same)
  seen-acted t (set_value v) = (refl, ap (λ o. some o) same)
  seen-acted t (zset_value v) = (refl, ap (λ o. some o) same)

module _ (by : ℤ) (env : Env) (name key : Bytes) (rest : List Bytes) (s : State) where
  incr_found :
      (x : Entry)
      → view env.now_ms s.db s.cs.db_index key ≡ some x
      → cmd_incr_by by env (name ∷ key ∷ rest) s
        ≡ acted by key x.expires_at_ms (looked env key s) x.value
  unfolding cmd_incr_by with_created get_or_create lookup_key
  incr_found x m = let e = lookup-eq-view s.cs.db_index key s.db env.now_ms in ground (arith, e, m)

  incr_missing :
      view env.now_ms s.db s.cs.db_index key ≡ none
      → view env.now_ms (store key (raw_string []) (pos 0) (looked env key s)).db s.cs.db_index key
        ≡ some fresh
      → cmd_incr_by by env (name ∷ key ∷ rest) s
        ≡ numbered by key (pos 0) (created env key s) (some (pos 0))
  unfolding cmd_incr_by with_created get_or_create lookup_key store int_of
  incr_missing n f =
      let e = lookup-eq-view s.cs.db_index key s.db env.now_ms in
      let d = (store key (raw_string []) (pos 0) (looked env key s)).db in
      let e' = lookup-eq-view s.cs.db_index key d env.now_ms in ground (arith, e, n, e', f)

zero_add : (b : ℤ) → pos 0 +ℤ b ≡ b
unfolding ◌+ℤ◌
zero_add (pos n) = ground arith
zero_add (negsuc n) = ground arith

module _ (by : ℤ) (range : in_range64 by ≡ true) (key : Bytes) (s : State)
    (h : s.cs.db_index < num_databases) where
  first_number :
      (d : Database)
      → IsWellFormed d
      → (later : ℤ) (j : ℕ) (q : Bytes) (before : Option Entry)
      → (at_key s key j q ≡ false → view later d j q ≡ before)
      → (out_of (numbered by key (pos 0) (record s { db = d }) (some (pos 0)))
          ≡ some (append_int_reply s.out by))
        × (seen later j q (numbered by key (pos 0) (record s { db = d }) (some (pos 0)))
            ≡ some (written later (at_key s key j q) (some (number_entry by (pos 0))) before))
  unfolding assign
  first_number d w later j q before same =
      rw (add_overflow_fits (pos 0) by (rw (zero_add by) range), numbered, zero_add by)
        (refl, ap (λ o. some o) (numbered_lem key s h d w later j q before by (pos 0) same))

-- `CmdIncrBy` on integers, which INCR, DECR, INCRBY and DECRBY run, ends without a fault for a
-- number that fits into 64 bits, on a well-formed database that has the selected table. The reply,
-- and what every key of every table shows at `now` or later, are given by what the key shows: an
-- absent key becomes the number; a text that is a number (or empty, for zero) becomes the sum,
-- with its old expiry time; a text that is no number, a sum outside the 64 bits and a value of
-- another type are refused with their errors, and nothing that is shown changes.
pub cmd_incr_by-view :
    (by : ℤ) (env : Env) (name key : Bytes) (rest : List Bytes) (s : State)
    → s.cs.db_index < num_databases
    → IsWellFormed s.db
    → in_range64 by ≡ true
    → (later : ℤ) (j : ℕ) (q : Bytes) → env.now_ms ≤ℤ later
    → let r = cmd_incr_by by env (name ∷ key ∷ rest) s in
      let shown = view env.now_ms s.db s.cs.db_index key in
      (out_of r ≡ some (incr_reply by s.out shown))
      × (seen later j q r
          ≡ some (written later (at_key s key j q) (incremented by shown) (view later s.db j q)))
unfolding store
cmd_incr_by-view by env name key rest s h w range later j q le =
    elim (Option-cases (view env.now_ms s.db s.cs.db_index key)) [
      | inl n ↦
          rw (incr_missing by env name key rest s n (shows_fresh env key s h w), n)
            (first_number by range key s h (created env key s).db
              (looked-IsWellFormed env key (store key (raw_string []) (pos 0) (looked env key s)) h
                (stored_db-IsWellFormed env key s h w))
              later j q _ (view-created_elsewhere env key s h w later j q le))
      | inr (x, m) ↦
          rw (incr_found by env name key rest s x m, m)
            (seen-acted by key s h (looked env key s).db (looked-IsWellFormed env key s h w) later j
              q _ (view-looked env key s h w later j q le) x.expires_at_ms x.value)
    ]
