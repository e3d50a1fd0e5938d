-- ===== src/Glob/Sound.antt =====
-- A text that `GlobMatch` accepts matches.
use cpp_inference_engine.Base.{
  ℕ, zero, suc, ◌≡◌, refl, inl, inr, true, ◌||◌, none, some, [], ◌∷◌, arith, Bytes, ◌==◌,
  Bool-cases,
}
use cpp_inference_engine.Glob.{
  only_stars, Star, retry, glob_loop, glob_fuel, glob_match, Matches, done, skip, more, one,
}

only_stars-Matches : (p : Bytes) → only_stars p ≡ true → Matches p []
unfolding only_stars
only_stars-Matches [] h = done
only_stars-Matches (x ∷ p) h = skip (ground arith) (only_stars-Matches p (ground arith))

-- a byte that the loop takes without a star, or that a star can take
step-Matches :
    (x c : ℕ) (p s : Bytes)
    → ((x == b'?') || (x == c)) ≡ true
    → Matches p s
    → Matches (x ∷ p) (c ∷ s)
step-Matches x c p s h m = elim (Bool-cases (x == b'*')) [
  | inl star ↦ more (ground arith) (skip (ground arith) m)
  | inr other ↦ one (ground arith) (ground arith) m
]

module _ (P S : Bytes) where
  -- a match of the rest gives a match of the whole
  abbrev Back : Star → Type 0
  Back none = Unit
  Back (some (p, s)) = Matches (b'*' ∷ p) s → Matches P S

  abbrev Sound : ℕ → Type 0
  Sound f =
      (p s : Bytes) (star : Star)
      → (Matches p s → Matches P S)
      → Back star
      → glob_loop f p s star ≡ some true
      → Matches P S

  retry-Sound :
      (f : ℕ)
      → Sound f
      → (star : Star) → Back star
      → retry (glob_loop f) star ≡ some true
      → Matches P S
  unfolding retry
  retry-Sound f ih none b h = cc
  retry-Sound f ih (some (q, [])) b h = cc
  retry-Sound f ih (some (q, d ∷ t)) b h =
      ih q t (some (q, t)) (λ m. b (more refl (skip refl m))) (λ m. b (more refl m)) h

  glob_loop-Sound : (f : ℕ) → Sound f
  unfolding glob_loop
  glob_loop-Sound zero p s star k b h = cc
  glob_loop-Sound (suc f) p [] star k b h = k (only_stars-Matches p (ground arith))
  glob_loop-Sound (suc f) [] (c ∷ s) star k b h = retry-Sound f (glob_loop-Sound f) star b h
  glob_loop-Sound (suc f) (x ∷ p) (c ∷ s) star k b h = elim (Bool-cases ((x == b'?') || (x == c))) [
    | inl yes_step ↦
        glob_loop-Sound f p s star (λ m. k (step-Matches x c p s yes_step m)) b (ground arith)
    | inr no_step ↦ elim (Bool-cases (x == b'*')) [
      | inl begin ↦
          glob_loop-Sound f p (c ∷ s) (some (p, c ∷ s)) (λ m. k (skip (ground arith) m))
            (λ m. k (star_lem (ground arith) m)) (ground arith)
      | inr other ↦ retry-Sound f (glob_loop-Sound f) star b (ground arith)
    ]
  ]
    where
      star_lem : {x : ℕ} {q t : Bytes} → x ≡ b'*' → Matches (b'*' ∷ q) t → Matches (x ∷ q) t
      star_lem {q = q} {t = t} e m = rw e m

-- A text that `GlobMatch` accepts matches the pattern.
pub glob_match_sound :
    (pattern str : Bytes) → glob_match pattern str ≡ some true → Matches pattern str
unfolding glob_match
glob_match_sound pattern str h =
    glob_loop-Sound pattern str (glob_fuel pattern str) pattern str none (λ m. m) tt h
