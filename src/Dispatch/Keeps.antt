-- ===== src/Dispatch/Keeps.antt =====
-- The queue of a transaction holds only commands that EXEC can run, so `Dispatch` calls itself one level
-- deep.
use cpp_inference_engine.Base.{
  ℕ, suc, ◌≡◌, ◌≢◌, refl, true, false, not, ◌&&◌, List, [], ◌∷◌, ◌++◌, arith, Bytes, codes, length,
  All, Bool-cases, inl, inr, str_eq,
}
use cpp_inference_engine.Commands.State.{
  Run, ok, fault, null_pointer, out_of_range, cut_off, ◌>>=◌, Args, err_wrong_args, to_upper,
  to_lower,
}
use cpp_inference_engine.Dispatch.Arity.{command_exists, arity_ok}
use cpp_inference_engine.Dispatch.{
  Server, Handler, reply, with_cs, err_unknown_command, is_immediate, enqueue, multi, discard, exec,
  leave_multi, out_of_memory, run_all, execute, gate, guarded, dispatch,
}
use cpp_inference_engine.Dispatch.Queue.{IsQueueable, Untouched, run_queued}
use cpp_inference_engine.Dispatch.Fuel.{dispatch-run_queued}

-- The queue holds commands that can be queued, and none outside a transaction.
abbrev pub IsTransaction : Server → Type 0
IsTransaction v =
    All IsQueueable v.state.cs.multi_queue
    × (v.state.cs.in_multi ≡ false → v.state.cs.multi_queue ≡ [])

-- what holds of the result, where there is one; the fuel is not spent
abbrev pub Holds : (Server → Type 0) → Run Server → Type 0
Holds P (ok v) = P v
Holds P (fault null_pointer) = Unit
Holds P (fault out_of_range) = Unit
Holds P (fault cut_off) = ⊥

All-append : (P : Args → Type 0) (a b : List Args) → All P a → All P b → All P (a ++ b)
All-append P [] b p q = q
All-append P (x ∷ a) b (p, ps) q = (p, All-append P a b ps q)

unknown_keeps :
    (name : Bytes) (args : List Bytes) (v : Server)
    → IsTransaction v
    → Holds IsTransaction (reply (err_unknown_command (name ∷ args)) v)
unfolding err_unknown_command
unknown_keeps name [] v t = t
unknown_keeps name (a ∷ args) v t = t

unknown_keeps_failed :
    (name : Bytes) (args : List Bytes) (v : Server)
    → IsTransaction v
    → Holds IsTransaction (
        reply
          (λ s.
            err_unknown_command (name ∷ args) (with_cs (λ c. record c { multi_error = true }) s))
          v)
unfolding err_unknown_command with_cs
unknown_keeps_failed name [] v t = t
unknown_keeps_failed name (a ∷ args) v t = t

enqueue-keeps :
    (name : Bytes) (args : List Bytes) (v : Server)
    → IsTransaction v
    → (v.state.cs.in_multi && not (is_immediate (to_upper name))) ≡ true
    → Holds IsTransaction (reply (enqueue (to_upper name) (to_lower name) (name ∷ args)) v)
unfolding enqueue
enqueue-keeps name args v (q, idle) h = elim (Bool-cases (command_exists (to_upper name))) [
  | inr n ↦ rw n (unknown_keeps_failed name args v (q, idle))
  | inl e ↦ elim (Bool-cases (arity_ok (to_upper name) (suc (length args)))) [
    | inr n ↦ unfold err_wrong_args with_cs in rw (e, n) (q, idle)
    | inl a ↦
        unfold with_cs in
        rw (e, a)
          (
            All-append IsQueueable v.state.cs.multi_queue ((name ∷ args) ∷ []) q
                ((e, a, ground (arith, h)), tt),
            λ o. absurd (ground (arith, h, o)),
          )
  ]
]

run_all-keeps :
    (run : Args → Server → Run Server)
    → ((argv : Args) (v : Server) → IsTransaction v → Holds IsTransaction (run argv v))
    → (queue : List Args) (v : Server) → IsTransaction v
    → Holds IsTransaction (run_all run queue v)
unfolding run_all
run_all-keeps run keeps [] v t = t
run_all-keeps run keeps (argv ∷ queue) v t =
    step (run argv v) (keeps argv v t) (λ w. run_all-keeps run keeps queue w)
  where
    step :
        (r : Run Server)
        → Holds IsTransaction r
        → ((w : Server) → IsTransaction w → Holds IsTransaction (run_all run queue w))
        → Holds IsTransaction (r >>= run_all run queue)
    step (ok w) t rest = rest w t
    step (fault x) t rest = t

exec-keeps :
    (run : Args → Server → Run Server)
    → ((argv : Args) (v : Server) → IsTransaction v → Holds IsTransaction (run argv v))
    → (v : Server) → IsTransaction v
    → Holds IsTransaction (exec run v)
unfolding exec leave_multi with_cs
exec-keeps run keeps v t = elim (Bool-cases v.state.cs.in_multi) [
  | inr n ↦ rw n (t.0, λ o. t.1 n)
  | inl m ↦ elim (Bool-cases v.state.cs.multi_error) [
    | inl e ↦ rw (m, e) (tt, λ o. refl)
    | inr n ↦ rw (m, n) (run_all-keeps run keeps v.state.cs.multi_queue _ (tt, λ o. refl))
  ]
]

multi-keeps : (v : Server) → IsTransaction v → Holds IsTransaction (reply multi v)
unfolding multi with_cs
multi-keeps v t = elim (Bool-cases v.state.cs.in_multi) [
  | inl m ↦ rw m (t.0, λ o. absurd (ground (arith, o)))
  | inr n ↦ rw n (tt, λ o. refl)
]

discard-keeps : (v : Server) → IsTransaction v → Holds IsTransaction (reply discard v)
unfolding discard with_cs
discard-keeps v t = elim (Bool-cases v.state.cs.in_multi) [
  | inl m ↦ rw m (tt, λ o. refl)
  | inr n ↦ rw n (t.0, λ o. t.1 n)
]

-- The handlers end.
abbrev pub Ends : Handler → Type 0
Ends handle =
    (upper lower : Bytes) (argv : Args) (v : Server) → handle upper lower argv v ≢ fault cut_off

module _ (handle : Handler) (keeps : Untouched handle) (ends : Ends handle) where
  handle-keeps :
      (upper lower : Bytes) (argv : Args) (v : Server)
      → IsTransaction v
      → Holds IsTransaction (handle upper lower argv v)
  handle-keeps upper lower argv v t =
      step (handle upper lower argv v) (λ w. keeps upper lower argv v w) (ends upper lower argv v)
    where
      step :
          (r : Run Server)
          → ((w : Server)
              → r ≡ ok w
              → (w.state.cs.in_multi ≡ v.state.cs.in_multi)
                × (w.state.cs.multi_queue ≡ v.state.cs.multi_queue))
          → r ≢ fault cut_off
          → Holds IsTransaction r
      step (ok w) same end = let (m, q) = same w refl in rw (m, q) t
      step (fault null_pointer) same end = tt
      step (fault out_of_range) same end = tt
      step (fault cut_off) same end = absurd (end refl)

  run_queued-keeps :
      (argv : Args) (v : Server) → IsTransaction v → Holds IsTransaction (run_queued handle argv v)
  run_queued-keeps [] v t = t
  run_queued-keeps (name ∷ args) v t = elim (Bool-cases (out_of_memory (to_upper name) v)) [
    | inl o ↦ rw o t
    | inr n ↦ rw n (handle-keeps (to_upper name) (to_lower name) (name ∷ args) v t)
  ]

  execute-keeps :
      (run : Args → Server → Run Server)
      → ((argv : Args) (v : Server) → IsTransaction v → Holds IsTransaction (run argv v))
      → (upper lower : Bytes) (argv : Args) (v : Server) → IsTransaction v
      → Holds IsTransaction (execute handle run upper lower argv v)
  unfolding execute
  execute-keeps run k upper lower argv v t = elim (Bool-cases (str_eq upper (codes "MULTI"))) [
    | inl m ↦ rw m (multi-keeps v t)
    | inr m ↦ elim (Bool-cases (str_eq upper (codes "EXEC"))) [
      | inl e ↦ rw (m, e) (exec-keeps run k v t)
      | inr e ↦ elim (Bool-cases (str_eq upper (codes "DISCARD"))) [
        | inl d ↦ rw (m, e, d) (discard-keeps v t)
        | inr d ↦ rw (m, e, d) (handle-keeps upper lower argv v t)
      ]
    ]
  ]

  gate-keeps :
      (run : Args → Server → Run Server)
      → ((argv : Args) (v : Server) → IsTransaction v → Holds IsTransaction (run argv v))
      → (upper lower : Bytes) (argv : Args) (v : Server) → IsTransaction v
      → Holds IsTransaction (gate handle run upper lower argv v)
  unfolding gate
  gate-keeps run k upper lower argv v t = elim (Bool-cases (out_of_memory upper v)) [
    | inl o ↦ rw o t
    | inr n ↦ rw n (execute-keeps run k upper lower argv v t)
  ]

  guarded-keeps :
      (run : Args → Server → Run Server)
      → ((argv : Args) (v : Server) → IsTransaction v → Holds IsTransaction (run argv v))
      → (name : Bytes) (args : List Bytes) (v : Server) → IsTransaction v
      → Holds IsTransaction (guarded handle run (to_upper name) (to_lower name) (name ∷ args) v)
  unfolding guarded
  guarded-keeps run k name args v t =
      elim (Bool-cases (v.state.cs.in_multi && not (is_immediate (to_upper name)))) [
        | inl w ↦ rw w (enqueue-keeps name args v t w)
        | inr w ↦ rw w (elim (Bool-cases (command_exists (to_upper name))) [
          | inr n ↦ rw n (unknown_keeps name args v t)
          | inl e ↦ rw e (elim (Bool-cases (arity_ok (to_upper name) (suc (length args)))) [
            | inr n ↦ unfold err_wrong_args in rw n t
            | inl a ↦ rw a (gate-keeps run k (to_upper name) (to_lower name) (name ∷ args) v t)
          ])
        ])
      ]

  -- If the queue holds only known commands with a right number of arguments that do not run at
  -- once, and nothing outside a transaction, then `Dispatch` on any request ends with two levels
  -- of fuel or more, and leaves such a queue where it does not fault. The handlers end and leave
  -- the transaction fields alone.
  pub dispatch-IsTransaction :
      (f : ℕ) (argv : Args) (v : Server)
      → IsTransaction v
      → Holds IsTransaction (dispatch handle (suc (suc f)) argv v)
  dispatch-IsTransaction f [] v t = unfold dispatch in t
  dispatch-IsTransaction f (name ∷ args) v t =
      rw (dispatch-run_queued handle keeps f name args v t.0)
        (guarded-keeps (run_queued handle) run_queued-keeps name args v t)
