-- ===== src/Dispatch.antt =====
-- `Dispatch` of src/commands.cpp: its guards, the queue of MULTI and the transactions. The branches of
-- the other commands are its parameter `handle`.
pub mod Arity
pub mod Queue
pub mod Transaction
pub mod Fuel
pub mod Keeps
use cpp_inference_engine.Base.{
  ℕ, zero, suc, Bool, true, false, not, ◌&&◌, ◌||◌, List, [], ◌∷◌, ◌++◌, Bytes, codes, ltb,
  if◌then◌else◌, length, str_eq,
}
use cpp_inference_engine.Base.Int.{pos}
use cpp_inference_engine.Resp.Replies.{append_array_reply}
use cpp_inference_engine.Dispatch.Arity.{command_exists, arity_ok, is_write_command}
use cpp_inference_engine.Commands.State.{
  Run, ok, fault, out_of_range, cut_off, ◌>>=◌, ClientState, State, Args, Action, say_simple,
  say_error, err_wrong_args, to_upper, to_lower,
}

pub record ServerOptions : Type 0 where
  pub port : ℕ
  pub bind : Bytes
  pub dir : Bytes
  pub dbfilename : Bytes
  pub maxmemory : ℕ
  pub num_databases : ℕ

-- What `Dispatch` reads and writes.
pub record Server : Type 0 where
  pub opts : ServerOptions
  pub state : State

abbrev pub Handler : Type 0
Handler = Bytes → Bytes → Args → Server → Run Server

-- a change of the state alone
abbrev pub reply : Action → Server → Run Server
reply act v = act v.state >>= λ s. ok (record v { state = s })

unfoldable pub with_cs : (ClientState → ClientState) → State → State
with_cs f s = record s { cs = f s.cs }

-- `ErrUnknownCommand`
unfoldable pub err_unknown_command : Args → Action
err_unknown_command [] s = fault out_of_range
err_unknown_command (name ∷ []) s =
    say_error (codes "ERR unknown command '" ++ (name ++ codes "'")) s
err_unknown_command (name ∷ arg ∷ rest) s =
    say_error
      (codes "ERR unknown command '"
        ++ (name ++ (codes "', with args beginning with: '" ++ (arg ++ codes "' "))))
      s

-- the commands that run inside a transaction at once
unfoldable pub is_immediate : Bytes → Bool
is_immediate upper =
    str_eq upper (codes "MULTI")
    || str_eq upper (codes "EXEC")
    || str_eq upper (codes "DISCARD")
    || str_eq upper (codes "QUIT")

-- The queueing path of MULTI.
unfoldable pub enqueue : Bytes → Bytes → Args → Action
unfolding with_cs
enqueue upper lower argv s =
    let failed = with_cs (λ c. record c { multi_error = true }) s in
    if not (command_exists upper)
    then err_unknown_command argv failed
    else if not (arity_ok upper (length argv))
    then err_wrong_args lower failed
    else say_simple (codes "QUEUED")
        (with_cs (λ c. record c { multi_queue = c.multi_queue ++ argv ∷ [] }) s)

-- The maxmemory gate.
unfoldable pub out_of_memory : Bytes → Server → Bool
out_of_memory upper v =
    ltb 0 v.opts.maxmemory
    && is_write_command upper
    && ltb v.opts.maxmemory v.state.db.used
    && not (str_eq upper (codes "FLUSHDB"))
    && not (str_eq upper (codes "FLUSHALL"))

-- MULTI
unfoldable pub multi : Action
unfolding with_cs
multi s =
    if s.cs.in_multi
    then say_error (codes "ERR MULTI calls can not be nested") s
    else say_simple (codes "OK")
        (with_cs (λ c. record c { in_multi = true; multi_error = false; multi_queue = [] }) s)

-- DISCARD
unfoldable pub discard : Action
unfolding with_cs
discard s =
    if not s.cs.in_multi
    then say_error (codes "ERR DISCARD without MULTI") s
    else say_simple (codes "OK")
        (with_cs (λ c. record c { in_multi = false; multi_error = false; multi_queue = [] }) s)

-- the commands of a queue, one after the other
unfoldable pub run_all : (Args → Server → Run Server) → List Args → Server → Run Server
run_all run [] v = ok v
run_all run (argv ∷ queue) v = run argv v >>= run_all run queue

-- the state in which EXEC runs its queue of `n` commands
unfoldable pub leave_multi : ℕ → State → State
unfolding with_cs
leave_multi n s =
    with_cs (λ c. record c { in_multi = false; multi_queue = [] })
      (record s { out = append_array_reply s.out (pos n) })

-- EXEC
unfoldable pub exec : (Args → Server → Run Server) → Server → Run Server
unfolding with_cs run_all leave_multi
exec run v =
    if not v.state.cs.in_multi
    then reply (say_error (codes "ERR EXEC without MULTI")) v
    else if v.state.cs.multi_error
    then reply (say_error (codes "EXECABORT Transaction discarded because of previous errors."))
        (record v {
          state = with_cs (λ c. record c { in_multi = false; multi_queue = [] }) v.state;
        })
    else run_all run v.state.cs.multi_queue
        (record v { state = leave_multi (length v.state.cs.multi_queue) v.state })

module _ (handle : Handler) where
  -- the chain of branches
  unfoldable pub execute : (Args → Server → Run Server) → Bytes → Bytes → Args → Server → Run Server
  unfolding multi discard exec
  execute run upper lower argv v =
      if str_eq upper (codes "MULTI")
      then reply multi v
      else if str_eq upper (codes "EXEC")
      then exec run v
      else if str_eq upper (codes "DISCARD")
      then reply discard v
      else handle upper lower argv v

  -- behind the guards
  unfoldable pub gate : (Args → Server → Run Server) → Bytes → Bytes → Args → Server → Run Server
  unfolding out_of_memory execute
  gate run upper lower argv v =
      if out_of_memory upper v
      then reply (say_error (codes "OOM command not allowed when used memory > 'maxmemory'.")) v
      else execute run upper lower argv v

  unfoldable pub guarded : (Args → Server → Run Server) → Bytes → Bytes → Args → Server → Run Server
  unfolding is_immediate enqueue gate err_unknown_command
  guarded run upper lower argv v =
      if v.state.cs.in_multi && not (is_immediate upper)
      then reply (enqueue upper lower argv) v
      else if not (command_exists upper)
      then reply (err_unknown_command argv) v
      else if not (arity_ok upper (length argv))
      then reply (err_wrong_args lower) v
      else gate run upper lower argv v

  -- `Dispatch` on fuel: a level for EXEC and one for the commands that it runs.
  unfoldable pub dispatch : ℕ → Args → Server → Run Server
  unfolding guarded
  dispatch zero argv v = fault cut_off
  dispatch (suc f) [] v = ok v
  dispatch (suc f) (name ∷ args) v =
      guarded (dispatch f) (to_upper name) (to_lower name) (name ∷ args) v
