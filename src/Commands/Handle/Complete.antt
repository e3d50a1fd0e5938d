-- ===== src/Commands/Handle/Complete.antt =====
-- The chain of branches and the arity table of src/commands.cpp name the same commands.
use cpp_inference_engine.Base.{
  ◌≡◌, ◌∙◌, sym, refl, ap, arith, Bool, true, false, not, ◌&&◌, ◌||◌, none, some, List, [], ◌∷◌,
  ◌++◌, Bytes, codes, map, str_eq, str_eq_sound, Bool-cases, inl, inr,
}
use cpp_inference_engine.Dispatch.{ServerOptions}
use cpp_inference_engine.Dispatch.Arity.{Arity, arity_table, arity_of, command_exists}
use cpp_inference_engine.Commands.State.{Args}
use cpp_inference_engine.Commands.Handle.{World, Branches, branches, branch_of}

-- `str_eq` with one of the names
unfoldable known : Bytes → List Bytes → Bool
known upper [] = false
known upper (n ∷ ns) = str_eq n upper || known upper ns

known-append :
    (upper : Bytes) (a b : List Bytes) → known upper (a ++ b) ≡ (known upper a || known upper b)
unfolding known
known-append upper [] b = refl
known-append upper (n ∷ a) b = ground (arith, known-append upper a b)

-- there is a branch for the name
abbrev pub has_branch : Bytes → Branches → Bool
has_branch upper rows = elim (branch_of upper rows) [ none ↦ false | some act ↦ true ]

has_branch-known :
    (upper : Bytes) (rows : Branches) → has_branch upper rows ≡ known upper (map (λ r. r.0) rows)
unfolding branch_of known
has_branch-known upper [] = refl
has_branch-known upper ((n, act) ∷ rows) = ground (arith, has_branch-known upper rows)

abbrev has_arity : Bytes → List (Bytes × Arity) → Bool
has_arity upper rows = elim (arity_of upper rows) [ none ↦ false | some a ↦ true ]

has_arity-known :
    (upper : Bytes) (rows : List (Bytes × Arity))
    → has_arity upper rows ≡ known upper (map (λ r. r.0) rows)
unfolding arity_of known
has_arity-known upper [] = refl
has_arity-known upper ((n, a) ∷ rows) = ground (arith, has_arity-known upper rows)

-- the commands that `Dispatch` handles itself
abbrev pub transactions : List Bytes
transactions = codes "MULTI" ∷ codes "EXEC" ∷ codes "DISCARD" ∷ []

abbrev pub is_transaction : Bytes → Bool
is_transaction upper =
    str_eq (codes "MULTI") upper || (str_eq (codes "EXEC") upper || str_eq (codes "DISCARD") upper)

last : (upper : Bytes) → known upper transactions ≡ is_transaction upper
unfolding known
last upper = ground arith

split : (x y : Bool) → (y ≡ true → x ≡ false) → x ≡ ((x || y) && not y)
split true true h = h refl
split true false h = refl
split false true h = refl
split false false h = refl

module _ (w : World) (opts : ServerOptions) (lower : Bytes) (argv : Args) where
  names : List Bytes
  names = map (λ r. r.0) (branches w opts lower argv)

  names_lem : map (λ r. r.0) arity_table ≡ names ++ transactions
  unfolding arity_table names branches
  names_lem = refl

  command_exists-known :
      (upper : Bytes) → command_exists upper ≡ (known upper names || is_transaction upper)
  unfolding command_exists
  command_exists-known upper =
      has_arity-known upper arity_table
      ∙ ap (known upper) names_lem
      ∙ known-append upper names transactions
      ∙ ap (λ b. known upper names || b) (last upper)

  apart :
      (known (codes "MULTI") names ≡ false)
      × (known (codes "EXEC") names ≡ false)
      × (known (codes "DISCARD") names ≡ false)
  unfolding known names branches str_eq
  apart = (refl, refl, refl)

  apart_at :
      (name upper : Bytes)
      → known name names ≡ false
      → str_eq name upper ≡ true
      → known upper names ≡ false
  apart_at name upper h e = ap (λ u. known u names) (sym (str_eq_sound name upper e)) ∙ h

  disjoint : (upper : Bytes) → is_transaction upper ≡ true → known upper names ≡ false
  disjoint upper h =
      let (multi, exec, discard) = apart in
      elim (Bool-cases (str_eq (codes "MULTI") upper)) [
        | inl e ↦ apart_at (codes "MULTI") upper multi e
        | inr m ↦ elim (Bool-cases (str_eq (codes "EXEC") upper)) [
          | inl e ↦ apart_at (codes "EXEC") upper exec e
          | inr x ↦ apart_at (codes "DISCARD") upper discard (ground (arith, h, m, x))
        ]
      ]

  -- A name has a branch in the chain of `Dispatch`, other than those of MULTI, EXEC and DISCARD,
  -- exactly when it is a name of the arity table and none of these three: a command that passes
  -- the guards does not reach the last branch, and no branch is dead.
  pub branches-command_exists :
      (upper : Bytes)
      → has_branch upper (branches w opts lower argv)
        ≡ (command_exists upper && not (is_transaction upper))
  unfolding known names
  branches-command_exists upper =
      let a = has_branch-known upper (branches w opts lower argv) in
      let b = command_exists-known upper in
      rw (a, b) (split (known upper names) (is_transaction upper) (disjoint upper))
