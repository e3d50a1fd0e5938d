-- ===== src/Tests/Shown.antt =====
-- The commands on one key, at a database that holds it.
use cpp_inference_engine.Base.{◌≡◌, refl, true, some, [], ◌∷◌, arith, codes, if◌then◌else◌}
use cpp_inference_engine.Base.Int.{pos}
use cpp_inference_engine.Base.Decimal.{parse_int_strict, read_nat}
use cpp_inference_engine.Value.{raw_string}
use cpp_inference_engine.Resp.Replies.{append_int_reply}
use cpp_inference_engine.Db.{set_key}
use cpp_inference_engine.Db.Invariant.{IsWellFormed, set_key-IsWellFormed}
use cpp_inference_engine.Db.Visible.{view}
use cpp_inference_engine.Commands.State.{State}
use cpp_inference_engine.Commands.Shown.{out_of, seen, at_key, is_some}
use cpp_inference_engine.Commands.Keys.{cmd_expire, cmd_rename}
use cpp_inference_engine.Commands.Keys.Shown.{deadline, expiring, cmd_expire-view}
use cpp_inference_engine.Commands.Keys.Renamed.{moved, rename_reply, cmd_rename-view}
use cpp_inference_engine.Commands.Numbers.{cmd_incr_by}
use cpp_inference_engine.Commands.Numbers.Counted.{
  incr_reply, written, incremented, cmd_incr_by-view,
}
use cpp_inference_engine.Tests.Dispatching.{sample_server}
use cpp_inference_engine.Tests.Handling.{env_at, sample_server-IsWellFormed}

-- the key `a` holds 41 until 900
abbrev holding : State
holding = record sample_server.state {
  db = set_key 0 (codes "a") (raw_string (codes "41")) (pos 900) sample_server.state.db;
}

holding-IsWellFormed : IsWellFormed holding.db
holding-IsWellFormed =
    set_key-IsWellFormed 0 (codes "a") sample_server.state.db sample_server-IsWellFormed
      (raw_string (codes "41")) (pos 900)

nine : parse_int_strict (codes "9") ≡ some (pos 9)
unfolding parse_int_strict read_nat
nine = refl

cmd_expire-view_example :
    let r = cmd_expire true true (env_at 5) (codes "EXPIRE" ∷ codes "a" ∷ codes "9" ∷ []) holding in
    let shown = view (pos 5) holding.db 0 (codes "a") in
    (out_of r ≡ some (append_int_reply [] (if is_some shown then pos 1 else pos 0)))
    × (seen (pos 8) 0 (codes "a") r
        ≡ some (
            expiring
              (pos 8)
              (deadline (env_at 5) true true (pos 9))
              (at_key holding (codes "a") 0 (codes "a"))
              shown
              (view (pos 8) holding.db 0 (codes "a"))))
cmd_expire-view_example =
    cmd_expire-view true true (env_at 5) (codes "EXPIRE") (codes "a") (codes "9") [] (pos 9) holding
      (omega arith) holding-IsWellFormed nine refl refl (pos 8) 0 (codes "a") (omega arith)

cmd_rename-view_example :
    let r = cmd_rename (env_at 5) (codes "RENAME" ∷ codes "a" ∷ codes "b" ∷ []) holding in
    let shown = view (pos 5) holding.db 0 (codes "a") in
    (out_of r ≡ some (rename_reply shown []))
    × (seen (pos 8) 0 (codes "b") r
        ≡ some (
            moved
              (pos 8)
              (at_key holding (codes "b") 0 (codes "b"))
              (at_key holding (codes "a") 0 (codes "b"))
              shown
              (view (pos 8) holding.db 0 (codes "b"))))
cmd_rename-view_example =
    cmd_rename-view (env_at 5) (codes "RENAME") (codes "a") (codes "b") [] holding (omega arith)
      holding-IsWellFormed (pos 8) 0 (codes "b") (omega arith)

cmd_incr_by-view_example :
    let r = cmd_incr_by (pos 1) (env_at 5) (codes "INCR" ∷ codes "a" ∷ []) holding in
    let shown = view (pos 5) holding.db 0 (codes "a") in
    (out_of r ≡ some (incr_reply (pos 1) [] shown))
    × (seen (pos 8) 0 (codes "a") r
        ≡ some (
            written
              (pos 8)
              (at_key holding (codes "a") 0 (codes "a"))
              (incremented (pos 1) shown)
              (view (pos 8) holding.db 0 (codes "a"))))
cmd_incr_by-view_example =
    cmd_incr_by-view (pos 1) (env_at 5) (codes "INCR") (codes "a") [] holding (omega arith)
      holding-IsWellFormed refl (pos 8) 0 (codes "a") (omega arith)
