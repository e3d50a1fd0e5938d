-- ===== src/Commands/Sets/Algebra.antt =====
-- `EvalSetOp` of src/commands.cpp computes the union, the intersection and the difference.
use cpp_inference_engine.Base.{Bool, false, not, ◌&&◌, ◌||◌, List, [], ◌∷◌, Bytes}
use cpp_inference_engine.Base.StrSet.{StrSet, has}
use cpp_inference_engine.Commands.Sets.{SetOp, union, inter, diff, in_all, in_any}

-- membership in the result, as the operations of set theory say
abbrev pub belongs : SetOp → Bytes → List StrSet → Bool
belongs op m [] = false
belongs union m (base ∷ others) = has m base || in_any m others
belongs inter m (base ∷ others) = has m base && in_all m others
belongs diff m (base ∷ others) = has m base && not (in_any m others)
