-- ===== src/Glob/Decides.antt =====
-- What `GlobMatch` decides, and where it goes wrong.
use cpp_inference_engine.Base.{
  ℕ, suc, ◌+◌, ◌*◌, ◌≡◌, refl, ◌↔◌, Bool, true, false, Option, none, some, [], ◌∷◌, arith, Bytes,
  length,
}
use cpp_inference_engine.Glob.{glob_loop, glob_fuel, glob_match, Matches, done, skip, more}
use cpp_inference_engine.Glob.Sound.{glob_match_sound}
use cpp_inference_engine.Glob.Complete.{NoStar, glob_match_complete}
use cpp_inference_engine.Glob.Fuel.{glob_match_total}

-- On a text without stars `GlobMatch` returns true exactly when the text matches the pattern,
-- where a star stands for any text and a question mark for any byte.
pub glob_match_iff :
    (pattern str : Bytes) → NoStar str → (glob_match pattern str ≡ some true) ↔ Matches pattern str
glob_match_iff pattern str n = (
  glob_match_sound pattern str,
  λ m.
      answer (glob_match pattern str) (glob_match_total pattern str)
        (glob_match_complete pattern str n m),
)
  where
    answer : (r : Option Bool) → (r ≡ none → ⊥) → (r ≡ some false → ⊥) → r ≡ some true
    answer none t c = absurd (t refl)
    answer (some true) t c = refl
    answer (some false) t c = absurd (c refl)

Matches-star : (s : Bytes) → Matches (b'*' ∷ []) s
Matches-star [] = skip refl done
Matches-star (c ∷ s) = more refl (Matches-star s)

-- `GlobMatch` with the pattern `*` refuses each text of two bytes or more that begins with a star,
-- though the text matches that pattern.
pub star_refused :
    (c : ℕ) (s : Bytes)
    → (glob_match (b'*' ∷ []) (b'*' ∷ c ∷ s) ≡ some false) × Matches (b'*' ∷ []) (b'*' ∷ c ∷ s)
unfolding glob_match glob_loop
star_refused c s =
    let f : ℕ = length s * 2 + 6 in
    let e : glob_fuel (b'*' ∷ []) (b'*' ∷ c ∷ s) ≡ suc (suc f) = omega arith in
    (rw e, Matches-star (b'*' ∷ c ∷ s))
