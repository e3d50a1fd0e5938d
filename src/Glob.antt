-- ===== src/Glob.antt =====
-- `GlobMatch` of src/commands.cpp. The positions `p`, `s` and `star_s` are what is left of the texts
-- there; `star_p` and `star_s` are set together.
pub mod Sound
pub mod Complete
pub mod Fuel
pub mod Decides
use cpp_inference_engine.Base.{
  ℕ, zero, suc, ◌+◌, ◌*◌, ◌≡◌, refl, ◌≢◌, ◌⊎◌, Bool, true, false, ◌&&◌, ◌||◌, Option, none, some,
  [], ◌∷◌, Bytes, codes, ◌==◌, if◌then◌else◌, length,
}

-- `while (p < pn && pattern[p] == '*') ++p; return p == pn;`
unfoldable pub only_stars : Bytes → Bool
only_stars [] = true
only_stars (x ∷ p) = (x == b'*') && only_stars p

-- what stands behind the last star of the pattern, and the text at which that star began
abbrev pub Star : Type 0
Star = Option (Bytes × Bytes)

-- The last two branches of the loop: one more byte for the star, or no match.
unfoldable pub retry : (Bytes → Bytes → Star → Option Bool) → Star → Option Bool
retry next none = some false
retry next (some (p, [])) = some false
retry next (some (p, c ∷ s)) = next p s (some (p, s))

-- The `while` loop on fuel: `none` is a loop that did not end.
unfoldable pub glob_loop : ℕ → Bytes → Bytes → Star → Option Bool
unfolding only_stars retry
glob_loop zero p s star = none
glob_loop (suc f) p [] star = some (only_stars p)
glob_loop (suc f) [] (c ∷ s) star = retry (glob_loop f) star
glob_loop (suc f) (x ∷ p) (c ∷ s) star =
    let step = glob_loop f p s star in
    let begin = glob_loop f p (c ∷ s) (some (p, c ∷ s)) in
    let again = retry (glob_loop f) star in
    if (x == b'?') || (x == c) then step else if x == b'*' then begin else again

abbrev pub glob_fuel : Bytes → Bytes → ℕ
glob_fuel pattern str = (length str + 2) * (length pattern + 1)

unfoldable pub glob_match : Bytes → Bytes → Option Bool
unfolding glob_loop
glob_match pattern str = glob_loop (glob_fuel pattern str) pattern str none

-- What a pattern means: a star stands for any text, a question mark for any byte.
pub data Matches : Bytes → Bytes → Type 0 where
  done : Matches [] []
  skip : {x : ℕ} {p s : Bytes} → x ≡ b'*' → Matches p s → Matches (x ∷ p) s
  more : {x c : ℕ} {p s : Bytes} → x ≡ b'*' → Matches (x ∷ p) s → Matches (x ∷ p) (c ∷ s)
  one :
      {x c : ℕ} {p s : Bytes}
      → x ≢ b'*'
      → (x ≡ b'?') ⊎ (x ≡ c)
      → Matches p s
      → Matches (x ∷ p) (c ∷ s)
