-- ===== src/Zskiplist/Frame.antt =====
-- What the loops of `Insert` in src/zskiplist.cpp leave alone, and which pointers they write.
use cpp_inference_engine.Base.{
  ℕ, zero, suc, ◌+◌, ◌≡◌, ◌≢◌, ◌∙◌, ap, subst, refl, arith, Option, none, List, [], ◌∷◌, ◌==◌,
  length, get_or, set, length-set, Bool-cases, inl, inr,
}
use cpp_inference_engine.Value.{SkipList}
use cpp_inference_engine.Zskiplist.{forward_at, span_at, add64, link, raise, widen}

-- The same nodes and numbers, but for pointers and spans.
pub record Frame (l l' : SkipList) : Type 0 where
  pub header : l'.header ≡ l.header
  pub next_free : l'.next_free ≡ l.next_free
  pub level : l'.level ≡ l.level
  pub size : l'.length ≡ l.length
  pub score : (y : ℕ) → (l'.heap y).score ≡ (l.heap y).score
  pub member : (y : ℕ) → (l'.heap y).member ≡ (l.heap y).member
  pub height : (y : ℕ) → length (l'.heap y).forward ≡ length (l.heap y).forward

pub Frame-refl : (l : SkipList) → Frame l l
Frame-refl l = record {
  header = refl;
  next_free = refl;
  level = refl;
  size = refl;
  score = λ y. refl;
  member = λ y. refl;
  height = λ y. refl;
}

pub Frame-trans : (a b c : SkipList) → Frame a b → Frame b c → Frame a c
Frame-trans a b c p q = record {
  header = q.header ∙ p.header;
  next_free = q.next_free ∙ p.next_free;
  level = q.level ∙ p.level;
  size = q.size ∙ p.size;
  score = λ y. q.score y ∙ p.score y;
  member = λ y. q.member y ∙ p.member y;
  height = λ y. q.height y ∙ p.height y;
}

module _ (x i : ℕ) (next : Option ℕ) (w : ℕ) (l : SkipList) where
  pub link-Frame : Frame l (link x i next w l)
  unfolding link
  link-Frame = record {
    header = refl;
    next_free = refl;
    level = refl;
    size = refl;
    score = λ y. ground arith;
    member = λ y. ground arith;
    height = λ y. elim (Bool-cases (y == x)) [
      | inl e ↦
          rw (link, e)
            (length-set (l.heap x).forward i next
              ∙ subst (λ z. length (l.heap z).forward ≡ length (l.heap y).forward)
                  (ground (arith, e)) refl)
      | inr e ↦ rw (link, e) refl
    ];
  }

  pub link-forward_self : ((link x i next w l).heap x).forward ≡ set (l.heap x).forward i next
  unfolding link
  link-forward_self = ground arith

  pub link-forward_ne : (y : ℕ) → y ≢ x → ((link x i next w l).heap y).forward ≡ (l.heap y).forward
  unfolding link
  link-forward_ne y n = ground (arith, n)

module _ {ℓ} {A : Type ℓ} where
  set-get_or : (xs : List A) (i : ℕ) (d : A) → set xs i (get_or xs i d) ≡ xs
  set-get_or [] i d = refl
  set-get_or (x ∷ xs) zero d = refl
  set-get_or (x ∷ xs) (suc i) d = ap (λ t. x ∷ t) (set-get_or xs i d)

-- a pointer that is written as it was
relink :
    (x i w : ℕ) (l : SkipList) (y : ℕ)
    → ((link x i (forward_at l x i) w l).heap y).forward ≡ (l.heap y).forward
unfolding link
relink x i w l y = elim (Bool-cases (y == x)) [
  | inl h ↦
      rw (link, h)
        (set-get_or (l.heap x).forward i none
          ∙ subst (λ z. (l.heap z).forward ≡ (l.heap y).forward) (ground (arith, h)) refl)
  | inr h ↦ rw (link, h) refl
]

-- The same nodes and numbers, but for spans.
pub record Kept (l l' : SkipList) : Type 0 where
  pub frame : Frame l l'
  pub forward : (y : ℕ) → (l'.heap y).forward ≡ (l.heap y).forward

relink-Kept : (x i w : ℕ) (l : SkipList) → Kept l (link x i (forward_at l x i) w l)
relink-Kept x i w l = record {
  frame = link-Frame x i (forward_at l x i) w l;
  forward = relink x i w l;
}

Kept-trans : (a b c : SkipList) → Kept a b → Kept b c → Kept a c
Kept-trans a b c p q = record {
  frame = Frame-trans a b c p.frame q.frame;
  forward = λ y. q.forward y ∙ p.forward y;
}

pub raise-Kept : (n i : ℕ) (l : SkipList) → Kept l (raise n i l)
unfolding raise
raise-Kept zero i l = record { frame = Frame-refl l; forward = λ y. refl }
raise-Kept (suc n) i l =
    let l' = link l.header i (forward_at l l.header i) l.length l in
    Kept-trans l l' (raise n (i + 1) l') (relink-Kept l.header i l.length l)
      (raise-Kept n (i + 1) l')

pub widen-Kept : (i : ℕ) (path : List (ℕ × ℕ)) (l : SkipList) → Kept l (widen i path l)
unfolding widen
widen-Kept i [] l = record { frame = Frame-refl l; forward = λ y. refl }
widen-Kept i ((u, r) ∷ path) l =
    let w = add64 (span_at l u i) 1 in
    let l' = link u i (forward_at l u i) w l in
    Kept-trans l l' (widen (i + 1) path l') (relink-Kept u i w l) (widen-Kept (i + 1) path l')
