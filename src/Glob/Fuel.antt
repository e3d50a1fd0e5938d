-- ===== src/Glob/Fuel.antt =====
-- The loop of `GlobMatch` ends: the fuel is enough for every pattern and text.
use cpp_inference_engine.Base.{
  ℕ, zero, suc, ◌+◌, ◌*◌, ◌<◌, ◌≤◌, ◌≢◌, inl, inr, ◌||◌, none, some, [], ◌∷◌, arith, Bytes, ◌==◌,
  Bool-cases, length,
}
use cpp_inference_engine.Glob.{Star, retry, glob_loop, glob_fuel, glob_match}

-- How much the last star has left, `n` where there is none.
abbrev room : ℕ → Star → ℕ
room n none = n + 1
room n (some (q, b)) = length b

abbrev StarFits : ℕ → ℕ → Bytes → Star → Type 0
StarFits m n s none = Unit
StarFits m n s (some (q, b)) = (length q ≤ m) × (length s ≤ length b) × (length b ≤ n)

-- Each round takes a byte of the pattern, or gives the star one more byte.
abbrev Ends : ℕ → ℕ → ℕ → Type 0
Ends m n f =
    (p s : Bytes) (star : Star)
    → length p ≤ m
    → length s ≤ n
    → StarFits m n s star
    → room n star * (m + 1) + length p < f
    → glob_loop f p s star ≢ none

retry-Ends :
    (m n f : ℕ)
    → Ends m n f
    → (star : Star) (s : Bytes) → StarFits m n s star
    → room n star * (m + 1) ≤ f
    → retry (glob_loop f) star ≢ none
unfolding retry
retry-Ends m n f ih none s fits r h = cc
retry-Ends m n f ih (some (q, [])) s fits r h = cc
retry-Ends m n f ih (some (q, d ∷ t)) s (lq, ls, lb) r h =
    ih q t (some (q, t)) lq (omega arith) (lq, omega arith, omega arith) (omega arith) h

shorter_text :
    (m n c : ℕ) (s : Bytes) (star : Star) → StarFits m n (c ∷ s) star → StarFits m n s star
shorter_text m n c s none h = tt
shorter_text m n c s (some (q, b)) (lq, ls, lb) = (lq, omega arith, lb)

room-le :
    (m n : ℕ) (s : Bytes) (star : Star)
    → StarFits m n s star
    → length s ≤ n
    → length s ≤ room n star
room-le m n s none h l = omega arith
room-le m n s (some (q, b)) (lq, ls, lb) l = ls

begin_fuel : (a b m p f : ℕ) → a ≤ b → b * (m + 1) + suc p < suc f → a * (m + 1) + p < f
begin_fuel a b m p f le h = grind arith

glob_loop-Ends : (m n f : ℕ) → Ends m n f
unfolding glob_loop
glob_loop-Ends m n zero p s star lp ls fits h e = absurd (omega arith)
glob_loop-Ends m n (suc f) p [] star lp ls fits h e = cc
glob_loop-Ends m n (suc f) [] (c ∷ s) star lp ls fits h e =
    retry-Ends m n f (glob_loop-Ends m n f) star (c ∷ s) fits (omega arith) e
glob_loop-Ends m n (suc f) (x ∷ p) (c ∷ s) star lp ls fits h e =
    elim (Bool-cases ((x == b'?') || (x == c))) [
      | inl yes_step ↦
          glob_loop-Ends m n f p s star (omega arith) (omega arith) (shorter_text m n c s star fits)
            (omega arith) (ground arith)
      | inr no_step ↦ elim (Bool-cases (x == b'*')) [
        | inl begin ↦
            glob_loop-Ends m n f p (c ∷ s) (some (p, c ∷ s)) (omega arith) ls
              (omega arith, omega arith, ls)
              (begin_fuel (length (c ∷ s)) (room n star) m (length p) f
                (room-le m n (c ∷ s) star fits ls) h)
              (ground arith)
        | inr other ↦
            retry-Ends m n f (glob_loop-Ends m n f) star (c ∷ s) fits (omega arith) (ground arith)
      ]
    ]

-- The loop of `GlobMatch` ends for every pattern and text: (|text| + 2) * (|pattern| + 1) rounds
-- are enough.
pub glob_match_total : (pattern str : Bytes) → glob_match pattern str ≢ none
unfolding glob_match
glob_match_total pattern str =
    glob_loop-Ends (length pattern) (length str) (glob_fuel pattern str) pattern str none
      (omega arith) (omega arith) tt (grind arith)
