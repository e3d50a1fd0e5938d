-- ===== src/Dispatch/Fuel.antt =====
-- Two levels are enough for `Dispatch`: the commands that EXEC runs do not call it again.
use cpp_inference_engine.Base.{
  ℕ, suc, ◌≡◌, refl, List, ◌∷◌, arith, Bytes, length, All, Bool-cases, inl, inr,
}
use cpp_inference_engine.Commands.State.{Args, to_upper, to_lower}
use cpp_inference_engine.Dispatch.{
  Server, Handler, exec, leave_multi, with_cs, execute, gate, guarded, dispatch,
}
use cpp_inference_engine.Dispatch.Queue.{IsQueueable, Untouched, run_queued, run_all-queueable}

module _ (handle : Handler) (keeps : Untouched handle) where
  exec-run_queued :
      (f : ℕ) (v : Server)
      → All IsQueueable v.state.cs.multi_queue
      → exec (dispatch handle (suc f)) v ≡ exec (run_queued handle) v
  unfolding exec
  exec-run_queued f v q =
      let e =
        run_all-queueable handle keeps f v.state.cs.multi_queue
          (record v { state = leave_multi (length v.state.cs.multi_queue) v.state }) q
          (unfold leave_multi with_cs in refl) in
      elim (Bool-cases v.state.cs.in_multi) [
        | inr n ↦ ground (arith, n)
        | inl m ↦ ground (arith, m, e)
      ]

  execute-run_queued :
      (f : ℕ) (upper lower : Bytes) (argv : Args) (v : Server)
      → All IsQueueable v.state.cs.multi_queue
      → execute handle (dispatch handle (suc f)) upper lower argv v
        ≡ execute handle (run_queued handle) upper lower argv v
  unfolding execute
  execute-run_queued f upper lower argv v q = ground (arith, exec-run_queued f v q)

  gate-run_queued :
      (f : ℕ) (upper lower : Bytes) (argv : Args) (v : Server)
      → All IsQueueable v.state.cs.multi_queue
      → gate handle (dispatch handle (suc f)) upper lower argv v
        ≡ gate handle (run_queued handle) upper lower argv v
  unfolding gate
  gate-run_queued f upper lower argv v q = ground (arith, execute-run_queued f upper lower argv v q)

  guarded-run_queued :
      (f : ℕ) (upper lower : Bytes) (argv : Args) (v : Server)
      → All IsQueueable v.state.cs.multi_queue
      → guarded handle (dispatch handle (suc f)) upper lower argv v
        ≡ guarded handle (run_queued handle) upper lower argv v
  unfolding guarded
  guarded-run_queued f upper lower argv v q = ground (arith, gate-run_queued f upper lower argv v q)

  pub dispatch-run_queued :
      (f : ℕ) (name : Bytes) (args : List Bytes) (v : Server)
      → All IsQueueable v.state.cs.multi_queue
      → dispatch handle (suc (suc f)) (name ∷ args) v
        ≡ guarded handle (run_queued handle) (to_upper name) (to_lower name) (name ∷ args) v
  unfolding dispatch
  dispatch-run_queued f name args v q =
      guarded-run_queued f (to_upper name) (to_lower name) (name ∷ args) v q
