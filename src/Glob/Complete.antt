-- ===== src/Glob/Complete.antt =====
-- A text without stars that matches is accepted, unless the fuel runs out. (The loop compares a star of
-- the pattern with the text first, so a text with a star can be refused: see `Glob.Star`.)
use cpp_inference_engine.Base.{
  ℕ, zero, suc, ◌≡◌, refl, ◌≢◌, ◌⊎◌, inl, inr, true, false, ◌||◌, none, some, [], ◌∷◌, arith, Bytes,
  ◌==◌, Bool-cases, All,
}
use cpp_inference_engine.Glob.{
  only_stars, Star, retry, glob_loop, glob_fuel, glob_match, Matches, skip, more, one,
}

Matches-only_stars : (p : Bytes) → Matches p [] → only_stars p ≡ true
unfolding only_stars
Matches-only_stars [] m = refl
Matches-only_stars (x ∷ p) (skip e m) = ground (arith, Matches-only_stars p m)

-- A match of a byte that is no star.
one_inv :
    {x c : ℕ} {p s : Bytes}
    → Matches (x ∷ p) (c ∷ s)
    → x ≢ b'*'
    → Matches p s × (((x == b'?') || (x == c)) ≡ true)
one_inv (skip e m) h = absurd (h e)
one_inv (more e m) h = absurd (h e)
one_inv (one n (inl e) m) h = (m, ground arith)
one_inv (one n (inr e) m) h = (m, ground arith)

star_inv :
    {x c : ℕ} {p s : Bytes}
    → Matches (x ∷ p) (c ∷ s)
    → x ≡ b'*'
    → Matches p (c ∷ s) ⊎ Matches (x ∷ p) s
star_inv (skip e m) h = inl m
star_inv (more e m) h = inr m
star_inv (one n o m) h = absurd (n h)

star_nil : {x : ℕ} {p : Bytes} → Matches (x ∷ p) [] → Matches p []
star_nil (skip e m) = m

star_drop :
    {y x : ℕ} {p s : Bytes} → y ≡ b'*' → x ≢ b'*' → Matches (y ∷ x ∷ p) s → Matches (y ∷ p) s
star_drop e n (skip h (skip k m)) = absurd (n k)
star_drop e n (skip h (more k m)) = absurd (n k)
star_drop e n (skip h (one k o m)) = more e (skip e m)
star_drop e n (more h m) = more e (star_drop e n m)
star_drop e n (one k o m) = absurd (k e)

star_step :
    {y x c : ℕ} {p s : Bytes}
    → y ≡ b'*'
    → x ≢ b'*'
    → Matches (y ∷ x ∷ p) (c ∷ s)
    → Matches (y ∷ p) s
star_step e n m = elim (star_inv m e) [
  | inl here ↦ skip e (one_inv here n).0
  | inr later ↦ star_drop e n later
]

two_stars :
    {y x : ℕ} {p s : Bytes} → y ≡ b'*' → x ≡ b'*' → Matches (y ∷ x ∷ p) s → Matches (x ∷ p) s
two_stars e k (skip h m) = m
two_stars e k (more h m) = more k (two_stars e k m)
two_stars e k (one h o m) = absurd (h e)

abbrev pub NoStar : Bytes → Type 0
NoStar = All (λ c. c ≢ b'*')

-- the last star may still take more of the text
abbrev Chance : Star → Type 0
Chance none = ⊥
Chance (some (q, [])) = ⊥
Chance (some (q, d ∷ t)) = Matches (b'*' ∷ q) t

-- what the last star can match, a star in the place of the loop can match
abbrev Inv : Star → Bytes → Bytes → Type 0
Inv none p s = Unit
Inv (some (q, b)) p s = (Matches (b'*' ∷ q) b → Matches (b'*' ∷ p) s) × NoStar b

abbrev Alive : Bytes → Bytes → Star → Type 0
Alive p s star = Matches p s ⊎ Chance star

abbrev Complete : ℕ → Type 0
Complete f =
    (p s : Bytes) (star : Star)
    → NoStar s
    → Inv star p s
    → Alive p s star
    → glob_loop f p s star ≢ some false

retry-Complete :
    (f : ℕ)
    → Complete f
    → (star : Star) (p s : Bytes) → Inv star p s
    → Chance star
    → retry (glob_loop f) star ≢ some false
unfolding retry
retry-Complete f ih none p s v c = absurd c
retry-Complete f ih (some (q, [])) p s v c = absurd c
retry-Complete f ih (some (q, d ∷ [])) p s (v, n) c =
    ih q [] (some (q, [])) tt ((λ m. m), tt) (inl (star_nil c))
retry-Complete f ih (some (q, d ∷ e ∷ t)) p s (v, (nd, n)) c =
    ih q (e ∷ t) (some (q, e ∷ t)) n ((λ m. m), n) (star_inv c refl)

-- a chance of the last star is a chance of a star in the place of the loop
Chance-here : (star : Star) (p s : Bytes) → Inv star p s → Chance star → Matches (b'*' ∷ p) s
Chance-here none p s v c = absurd c
Chance-here (some (q, [])) p s v c = absurd c
Chance-here (some (q, d ∷ t)) p s (v, n) c = v (more refl c)

step-Inv :
    (star : Star) (x c : ℕ) (p s : Bytes) → x ≢ b'*' → Inv star (x ∷ p) (c ∷ s) → Inv star p s
step-Inv none x c p s n v = tt
step-Inv (some (q, b)) x c p s n (v, h) = ((λ m. star_step refl n (v m)), h)

glob_loop-Complete : (f : ℕ) → Complete f
unfolding glob_loop
glob_loop-Complete zero p s star ns v a h = cc
glob_loop-Complete (suc f) p [] star ns v (inl m) h = ground (arith, Matches-only_stars p m)
glob_loop-Complete (suc f) p [] star ns v (inr c) h =
    ground (arith, Matches-only_stars p (star_nil (Chance-here star p [] v c)))
glob_loop-Complete (suc f) [] (c ∷ s) star ns v (inl m) h = no_match m
  where
    no_match : {c : ℕ} {s : Bytes} → Matches [] (c ∷ s) → ⊥
    no_match m = elim m [ ]
glob_loop-Complete (suc f) [] (c ∷ s) star ns v (inr k) h =
    retry-Complete f (glob_loop-Complete f) star [] (c ∷ s) v k h
glob_loop-Complete (suc f) (x ∷ p) (c ∷ s) star (nc, ns) v a h =
    elim (Bool-cases ((x == b'?') || (x == c))) [
      | inl yes_step ↦
          let n : x ≢ b'*' = not_star nc yes_step in
          glob_loop-Complete f p s star ns (step-Inv star x c p s n v) (stepped n a) (ground arith)
      | inr no_step ↦ elim (Bool-cases (x == b'*')) [
        | inl begin ↦
            glob_loop-Complete f p (c ∷ s) (some (p, c ∷ s)) (nc, ns) ((λ m. m), (nc, ns))
              (begun (ground arith) v a) (ground arith)
        | inr other ↦
            retry-Complete f (glob_loop-Complete f) star (x ∷ p) (c ∷ s) v
              (failed_here (ground arith) no_step a) (ground arith)
      ]
    ]
  where
    not_star : c ≢ b'*' → ((x == b'?') || (x == c)) ≡ true → x ≢ b'*'
    not_star nc e k = ground arith

    stepped : x ≢ b'*' → Alive (x ∷ p) (c ∷ s) star → Alive p s star
    stepped n (inl m) = inl (one_inv m n).0
    stepped n (inr k) = inr k

    starred : x ≡ b'*' → Matches (x ∷ p) (c ∷ s) → Alive p (c ∷ s) (some (p, c ∷ s))
    starred e m = elim (star_inv m e) [ inl here ↦ inl here | inr later ↦ inr (rw (← e) later) ]

    begun :
        x ≡ b'*'
        → Inv star (x ∷ p) (c ∷ s)
        → Alive (x ∷ p) (c ∷ s) star
        → Alive p (c ∷ s) (some (p, c ∷ s))
    begun e v (inl m) = starred e m
    begun e v (inr k) = starred e (two_stars refl e (Chance-here star (x ∷ p) (c ∷ s) v k))

    failed_here :
        x ≢ b'*' → ((x == b'?') || (x == c)) ≡ false → Alive (x ∷ p) (c ∷ s) star → Chance star
    failed_here n e (inl m) = absurd (ground (arith, (one_inv m n).1))
    failed_here n e (inr k) = k

-- `GlobMatch` does not refuse a text without stars that matches the pattern.
pub glob_match_complete :
    (pattern str : Bytes) → NoStar str → Matches pattern str → glob_match pattern str ≢ some false
unfolding glob_match
glob_match_complete pattern str n m =
    glob_loop-Complete (glob_fuel pattern str) pattern str none n tt (inl m)
