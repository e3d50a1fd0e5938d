-- ===== src/Dispatch/Queue.antt =====
-- What `Dispatch` does with a command that can be queued: it is queued inside a transaction, and run
-- behind the maxmemory gate outside.
use cpp_inference_engine.Base.{
  ℕ, suc, ◌≡◌, ◌∙◌, ap, refl, true, false, not, ◌&&◌, List, [], ◌∷◌, ◌++◌, arith, Bytes, codes,
  length, All, if◌then◌else◌,
}
use cpp_inference_engine.Resp.Replies.{append_simple_reply}
use cpp_inference_engine.Commands.State.{Run, ok, fault, ◌>>=◌, Args, say_error, to_upper, to_lower}
use cpp_inference_engine.Dispatch.Arity.{command_exists, arity_ok, is_write_command, IsPlain}
use cpp_inference_engine.Dispatch.{
  Server, Handler, reply, with_cs, is_immediate, enqueue, out_of_memory, run_all, execute, gate,
  guarded, dispatch,
}

-- A known command with a right number of arguments that has to wait for EXEC.
abbrev pub IsQueueable : Args → Type 0
IsQueueable [] = ⊥
IsQueueable (name ∷ args) =
    (command_exists (to_upper name) ≡ true)
    × (arity_ok (to_upper name) (suc (length args)) ≡ true)
    × (is_immediate (to_upper name) ≡ false)

-- The handlers of the other commands leave the fields of the transaction alone.
abbrev pub Untouched : Handler → Type 0
Untouched handle =
    (upper lower : Bytes) (argv : Args) (v w : Server)
    → handle upper lower argv v ≡ ok w
    → (w.state.cs.in_multi ≡ v.state.cs.in_multi)
      × (w.state.cs.multi_queue ≡ v.state.cs.multi_queue)

-- the state after a command was queued
abbrev pub queued : Args → Server → Server
queued argv v = record v {
  state = record v.state {
    cs = record v.state.cs { multi_queue = v.state.cs.multi_queue ++ argv ∷ [] };
    out = append_simple_reply v.state.out (codes "QUEUED");
  };
}

abbrev pub queued_all : List Args → Server → Server
queued_all [] v = v
queued_all (argv ∷ cmds) v = queued_all cmds (queued argv v)

module _ (handle : Handler) where
  -- a queued command, when EXEC runs it
  abbrev pub run_queued : Args → Server → Run Server
  run_queued [] v = ok v
  run_queued (name ∷ args) v =
      if out_of_memory (to_upper name) v
      then reply (say_error (codes "OOM command not allowed when used memory > 'maxmemory'.")) v
      else handle (to_upper name) (to_lower name) (name ∷ args) v

  execute-handle :
      (run : Args → Server → Run Server) (upper lower : Bytes) (argv : Args) (v : Server)
      → is_immediate upper ≡ false
      → execute handle run upper lower argv v ≡ handle upper lower argv v
  unfolding execute is_immediate
  execute-handle run upper lower argv v h = ground arith

  guarded-gate :
      (run : Args → Server → Run Server) (upper lower : Bytes) (argv : Args) (v : Server)
      → command_exists upper ≡ true
      → arity_ok upper (length argv) ≡ true
      → (v.state.cs.in_multi && not (is_immediate upper)) ≡ false
      → guarded handle run upper lower argv v ≡ gate handle run upper lower argv v
  unfolding guarded
  guarded-gate run upper lower argv v e a h = ground arith

  gate-handle :
      (run : Args → Server → Run Server) (upper lower : Bytes) (argv : Args) (v : Server)
      → is_immediate upper ≡ false
      → gate handle run upper lower argv v ≡ (
          if out_of_memory upper v
          then reply (say_error (codes "OOM command not allowed when used memory > 'maxmemory'.")) v
          else handle upper lower argv v)
  unfolding gate
  gate-handle run upper lower argv v i =
      ap
        (λ r.
          if out_of_memory upper v
          then reply (say_error (codes "OOM command not allowed when used memory > 'maxmemory'.")) v
          else r)
        (execute-handle run upper lower argv v i)

  -- a command without arguments that runs inside a transaction at once
  pub dispatch-IsPlain :
      (f : ℕ) (name : Bytes) (v : Server)
      → IsPlain (to_upper name)
      → is_immediate (to_upper name) ≡ true
      → dispatch handle (suc f) (name ∷ []) v
        ≡ execute handle (dispatch handle f) (to_upper name) (to_lower name) (name ∷ []) v
  unfolding dispatch
  dispatch-IsPlain f name v (e, a, w) i =
      guarded-gate (dispatch handle f) (to_upper name) (to_lower name) (name ∷ []) v e a
        (ground (arith, i))
      ∙ gate-execute (dispatch handle f) (to_upper name) (to_lower name) (name ∷ []) v w
    where
      gate-execute :
          (run : Args → Server → Run Server) (upper lower : Bytes) (argv : Args) (v : Server)
          → is_write_command upper ≡ false
          → gate handle run upper lower argv v ≡ execute handle run upper lower argv v
      gate-execute run upper lower argv v w = unfold gate in unfold out_of_memory in ground arith

  pub dispatch-queueable :
      (f : ℕ) (argv : Args) (v : Server)
      → IsQueueable argv
      → v.state.cs.in_multi ≡ false
      → dispatch handle (suc f) argv v ≡ run_queued argv v
  unfolding dispatch
  dispatch-queueable f [] v q h = absurd q
  dispatch-queueable f (name ∷ args) v (e, a, i) h =
      guarded-gate (dispatch handle f) (to_upper name) (to_lower name) (name ∷ args) v e a
        (ground (arith, h))
      ∙ gate-handle (dispatch handle f) (to_upper name) (to_lower name) (name ∷ args) v i

  pub dispatch-queued :
      (f : ℕ) (argv : Args) (v : Server)
      → IsQueueable argv
      → v.state.cs.in_multi ≡ true
      → dispatch handle (suc f) argv v ≡ ok (queued argv v)
  unfolding dispatch guarded enqueue with_cs
  dispatch-queued f [] v q h = absurd q
  dispatch-queued f (name ∷ args) v (e, a, i) h = rw (h, i, e, a)

  pub run_all-queued :
      (f : ℕ) (cmds : List Args) (v : Server)
      → All IsQueueable cmds
      → v.state.cs.in_multi ≡ true
      → run_all (dispatch handle (suc f)) cmds v ≡ ok (queued_all cmds v)
  unfolding run_all
  run_all-queued f [] v q h = refl
  run_all-queued f (argv ∷ cmds) v (q, qs) h =
      rw (dispatch-queued f argv v q h) (run_all-queued f cmds (queued argv v) qs h)

  run_queued-in_multi :
      Untouched handle
      → (argv : Args) (v w : Server) → run_queued argv v ≡ ok w
      → v.state.cs.in_multi ≡ false
      → w.state.cs.in_multi ≡ false
  run_queued-in_multi keeps [] v w e h = ground (arith, e, h)
  run_queued-in_multi keeps (name ∷ args) v w e h =
      ground (arith, e, h, keeps (to_upper name) (to_lower name) (name ∷ args) v w)

  pub run_all-queueable :
      Untouched handle
      → (f : ℕ) (cmds : List Args) (v : Server) → All IsQueueable cmds
      → v.state.cs.in_multi ≡ false
      → run_all (dispatch handle (suc f)) cmds v ≡ run_all run_queued cmds v
  unfolding run_all
  run_all-queueable keeps f [] v q h = refl
  run_all-queueable keeps f (argv ∷ cmds) v (q, qs) h = rw (dispatch-queueable f argv v q h) (
      step (run_queued argv v) refl
        (λ w e. run_all-queueable keeps f cmds w qs (run_queued-in_multi keeps argv v w e h)))
    where
      step :
          (r : Run Server)
          → run_queued argv v ≡ r
          → ((w : Server)
              → run_queued argv v ≡ ok w
              → run_all (dispatch handle (suc f)) cmds w ≡ run_all run_queued cmds w)
          → (r >>= run_all (dispatch handle (suc f)) cmds) ≡ (r >>= run_all run_queued cmds)
      step (fault x) e rest = refl
      step (ok w) e rest = rest w e

pub run_all-append :
    (run : Args → Server → Run Server) (a b : List Args) (v : Server)
    → run_all run (a ++ b) v ≡ (run_all run a v >>= run_all run b)
unfolding run_all
run_all-append run [] b v = refl
run_all-append run (argv ∷ a) b v = step (run argv v) (λ w. run_all-append run a b w)
  where
    step :
        (r : Run Server)
        → ((w : Server) → run_all run (a ++ b) w ≡ (run_all run a w >>= run_all run b))
        → (r >>= run_all run (a ++ b)) ≡ ((r >>= run_all run a) >>= run_all run b)
    step (fault x) rest = refl
    step (ok w) rest = rest w
