-- ===== src/Tests/Sorted.antt =====
-- Sorted set commands, INFO and the chain of branches at sample states.
use cpp_inference_engine.Base.{◌≡◌, refl, false, not, ◌&&◌, none, [], ◌∷◌, codes, str_eq}
use cpp_inference_engine.Base.Int.{pos}
use cpp_inference_engine.Dispatch.Arity.{command_exists}
use cpp_inference_engine.Commands.State.{Args, ok, to_lower}
use cpp_inference_engine.Commands.Zsets.{ZaddFlags, Adding, empty_zset, zadd_loop}
use cpp_inference_engine.Commands.Zsets.Counts.{Counted, zadd_loop-Counted}
use cpp_inference_engine.Commands.Info.{build_info}
use cpp_inference_engine.Commands.Info.Sections.{build_info-to_lower}
use cpp_inference_engine.Commands.Handle.{World, branches}
use cpp_inference_engine.Commands.Handle.Complete.{
  has_branch, is_transaction, branches-command_exists,
}
use cpp_inference_engine.Tests.Handling.{env_at}
use cpp_inference_engine.Tests.Dispatching.{sample_server}

abbrev no_options : ZaddFlags
no_options = record { nx = false; xx = false; ch = false; incr = false }

abbrev from_empty : Adding
from_empty = record { zset = empty_zset; inserted = 0; added = 0; changed = 0; refused = false }

-- two members, of which the first has its score changed
abbrev two_members : Args
two_members = codes "1" ∷ codes "a" ∷ codes "2" ∷ codes "b" ∷ codes "3" ∷ codes "a" ∷ []

zadd_loop-Counted_example :
    (b : Adding) × (zadd_loop (env_at 5) no_options two_members from_empty ≡ ok b)
    × Counted from_empty b
zadd_loop-Counted_example = zadd_loop-Counted (env_at 5) no_options two_members from_empty refl tt

memory_section : to_lower (codes "Memory") ≡ codes "memory"
unfolding to_lower
memory_section = refl

build_info-to_lower_example :
    build_info sample_server.state.db sample_server.opts sample_server.state.stats
      (pos 9)
      (pos 0)
      (to_lower (codes "Memory"))
    ≡ []
unfolding to_lower str_eq
build_info-to_lower_example =
    build_info-to_lower sample_server.state.db sample_server.opts sample_server.state.stats (pos 9)
      (pos 0) (codes "Memory") refl

abbrev at_five : World
at_five = record {
  env = env_at 5;
  now_us = pos 5000;
  last_save = pos 0;
  save_error = none;
  fork_error = none;
}

branches-command_exists_example :
    has_branch
      (codes "ZADD")
      (branches at_five sample_server.opts (codes "zadd") (codes "ZADD" ∷ []))
    ≡ (command_exists (codes "ZADD") && not (is_transaction (codes "ZADD")))
branches-command_exists_example =
    branches-command_exists at_five sample_server.opts (codes "zadd") (codes "ZADD" ∷ [])
      (codes "ZADD")
