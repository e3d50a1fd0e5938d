-- ===== src/Tests/Dispatching.antt =====
-- A server with one handler, and transactions on it.
use cpp_inference_engine.Base.{
  ◌≡◌, refl, false, List, [], ◌∷◌, ◌++◌, arith, codes, All, str_eq, if◌then◌else◌,
}
use cpp_inference_engine.Base.Int.{pos}
use cpp_inference_engine.Db.{empty_database, flush_all}
use cpp_inference_engine.Commands.State.{Args, say_simple, to_upper}
use cpp_inference_engine.Dispatch.Arity.{command_exists, arity_ok}
use cpp_inference_engine.Dispatch.{Server, Handler, reply, is_immediate, run_all, dispatch}
use cpp_inference_engine.Dispatch.Queue.{IsQueueable, Untouched, run_queued}
use cpp_inference_engine.Dispatch.Transaction.{began, multi-exec}
use cpp_inference_engine.Dispatch.Keeps.{IsTransaction, Holds, Ends, dispatch-IsTransaction}

-- FLUSHALL, and PING for the other commands
abbrev small_handler : Handler
small_handler upper lower argv v =
    if str_eq upper (codes "FLUSHALL")
    then reply (λ s. say_simple (codes "OK") (record s { db = flush_all s.db })) v
    else reply (say_simple (codes "PONG")) v

small_handler-Untouched : Untouched small_handler
small_handler-Untouched upper lower argv v w h = ground (arith, h)

small_handler-Ends : Ends small_handler
small_handler-Ends upper lower argv v h = ground (arith, h)

abbrev pub sample_server : Server
sample_server = record {
  opts = record {
    port = 6379;
    bind = codes "127.0.0.1";
    dir = codes ".";
    dbfilename = codes "dump.rdb";
    maxmemory = 100;
    num_databases = 16;
  };
  state = record {
    db = empty_database;
    cs = record {
      db_index = 0;
      name = [];
      id = 1;
      in_multi = false;
      multi_error = false;
      multi_queue = [];
      quit_requested = false;
    };
    stats = record {
      total_commands = 0;
      total_connections = 1;
      rejected_connections = 0;
      expired_keys = 0;
      start_time_us = pos 0;
      connected_clients = 1;
      shutdown_requested = false;
      shutdown_nosave = false;
    };
    out = [];
  };
}

abbrev two_commands : List Args
two_commands = (codes "FLUSHALL" ∷ []) ∷ (codes "PING" ∷ codes "x" ∷ []) ∷ []

two_commands-All : All IsQueueable two_commands
unfolding command_exists arity_ok is_immediate to_upper str_eq
two_commands-All = ((refl, refl, refl), ((refl, refl, refl), tt))

multi-exec_example :
    run_all
      (dispatch small_handler 2)
      ((codes "MULTI" ∷ []) ∷ (two_commands ++ (codes "EXEC" ∷ []) ∷ []))
      sample_server
    ≡ run_all (run_queued small_handler) two_commands (began two_commands sample_server)
multi-exec_example =
    multi-exec small_handler 0 two_commands sample_server small_handler-Untouched two_commands-All
      refl

dispatch-IsTransaction_example :
    Holds IsTransaction (dispatch small_handler 2 (codes "MULTI" ∷ []) sample_server)
dispatch-IsTransaction_example =
    dispatch-IsTransaction small_handler small_handler-Untouched small_handler-Ends 0
      (codes "MULTI" ∷ []) sample_server (tt, λ h. refl)
