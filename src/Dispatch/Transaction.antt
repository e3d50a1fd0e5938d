-- ===== src/Dispatch/Transaction.antt =====
-- MULTI, the commands that follow, and EXEC, as one run.
use cpp_inference_engine.Base.{
  ℕ, suc, ◌≡◌, ◌∙◌, ap, refl, true, false, List, [], ◌∷◌, ◌++◌, append_assoc, append-nil, Bytes,
  codes, length, All, str_eq,
}
use cpp_inference_engine.Base.Int.{pos}
use cpp_inference_engine.Resp.Replies.{append_simple_reply, append_array_reply}
use cpp_inference_engine.Commands.State.{Run, ok, fault, ◌>>=◌, Args, to_upper}
use cpp_inference_engine.Dispatch.Arity.{multi-IsPlain, exec-IsPlain}
use cpp_inference_engine.Dispatch.{
  Server, Handler, with_cs, is_immediate, multi, exec, leave_multi, run_all, execute, dispatch,
}
use cpp_inference_engine.Dispatch.Queue.{
  IsQueueable, Untouched, queued, queued_all, run_queued, dispatch-IsPlain, run_all-queued,
  run_all-queueable, run_all-append,
}

-- the replies to MULTI and to the queued commands
abbrev pub acks : List Args → Bytes → Bytes
acks [] out = out
acks (argv ∷ cmds) out = acks cmds (append_simple_reply out (codes "QUEUED"))

-- behind MULTI
abbrev opened : Server → Server
opened v = record v {
  state = record v.state {
    cs = record v.state.cs { in_multi = true; multi_error = false; multi_queue = [] };
    out = append_simple_reply v.state.out (codes "OK");
  };
}

-- where the queued commands start to run
abbrev pub began : List Args → Server → Server
began cmds v = record v {
  state = record v.state {
    cs = record v.state.cs { in_multi = false; multi_error = false; multi_queue = [] };
    out =
        append_array_reply (acks cmds (append_simple_reply v.state.out (codes "OK")))
          (pos (length cmds));
  };
}

queued_all_lem :
    (cmds : List Args) (v : Server)
    → queued_all cmds v ≡ record v {
      state = record v.state {
        cs = record v.state.cs { multi_queue = v.state.cs.multi_queue ++ cmds };
        out = acks cmds v.state.out;
      };
    }
queued_all_lem [] v = rw append-nil
queued_all_lem (argv ∷ cmds) v = queued_all_lem cmds (queued argv v) ∙ rw append_assoc

module _ (handle : Handler) where
  dispatch-multi :
      (f : ℕ) (v : Server)
      → v.state.cs.in_multi ≡ false
      → dispatch handle (suc f) (codes "MULTI" ∷ []) v ≡ ok (opened v)
  unfolding to_upper is_immediate execute multi with_cs str_eq
  dispatch-multi f v h = dispatch-IsPlain handle f (codes "MULTI") v multi-IsPlain refl ∙ rw h

  dispatch-exec :
      (f : ℕ) (v : Server)
      → dispatch handle (suc f) (codes "EXEC" ∷ []) v ≡ exec (dispatch handle f) v
  unfolding to_upper is_immediate execute str_eq
  dispatch-exec f v = dispatch-IsPlain handle f (codes "EXEC") v exec-IsPlain refl

  exec-queued :
      (f : ℕ) (cmds : List Args) (v : Server)
      → Untouched handle
      → All IsQueueable cmds
      → exec (dispatch handle (suc f)) (queued_all cmds (opened v))
        ≡ run_all (run_queued handle) cmds (began cmds v)
  unfolding exec leave_multi with_cs
  exec-queued f cmds v keeps qs =
      rw (queued_all_lem cmds (opened v))
        (run_all-queueable handle keeps f cmds (began cmds v) qs refl)

  -- Outside a transaction, MULTI, any commands that can be queued and EXEC, dispatched in this
  -- order, do exactly what the commands do one after the other behind the maxmemory gate, from the
  -- state with the transaction closed and the replies OK, one QUEUED for each command and the
  -- header of the array written. The handlers leave the transaction fields alone.
  pub multi-exec :
      (f : ℕ) (cmds : List Args) (v : Server)
      → Untouched handle
      → All IsQueueable cmds
      → v.state.cs.in_multi ≡ false
      → run_all
          (dispatch handle (suc (suc f)))
          ((codes "MULTI" ∷ []) ∷ (cmds ++ (codes "EXEC" ∷ []) ∷ []))
          v
        ≡ run_all (run_queued handle) cmds (began cmds v)
  unfolding run_all
  multi-exec f cmds v keeps qs h =
      let run = dispatch handle (suc (suc f)) in
      let last : List Args = (codes "EXEC" ∷ []) ∷ [] in
      ap (λ r. r >>= run_all run (cmds ++ last)) (dispatch-multi (suc f) v h)
      ∙ run_all-append run cmds last (opened v)
      ∙ ap (λ r. r >>= run_all run last) (run_all-queued handle (suc f) cmds (opened v) qs refl)
      ∙ ap (λ r. r >>= run_all run []) (dispatch-exec (suc f) (queued_all cmds (opened v)))
      ∙ bind-ok (exec (dispatch handle (suc f)) (queued_all cmds (opened v)))
      ∙ exec-queued f cmds v keeps qs
    where
      bind-ok : (r : Run Server) → (r >>= λ w. ok w) ≡ r
      bind-ok (ok w) = refl
      bind-ok (fault x) = refl
