-- ===== src/Zskiplist/Order.antt =====
-- The order of scores and members in src/zskiplist.cpp: `KeyLess` and `KeyEqual`.
use cpp_inference_engine.Base.{
  ℕ, subst, ◌≡◌, refl, true, false, arith, [], ◌∷◌, Bytes, str_eq, str_lt, str_eq_sound, Bool-cases,
  inl, inr,
}
use cpp_inference_engine.Base.Double.{dlt, deq, is_nan}
use cpp_inference_engine.Zskiplist.{key_less, key_equal}

str_lt_trans : (a b c : Bytes) → str_lt a b ≡ true → str_lt b c ≡ true → str_lt a c ≡ true
unfolding str_lt
str_lt_trans a [] c p q = cc
str_lt_trans a (y ∷ b) [] p q = cc
str_lt_trans [] (y ∷ b) (z ∷ c) p q = refl
str_lt_trans (x ∷ a) (y ∷ b) (z ∷ c) p q = ground (arith, str_lt_trans a b c)

str_lt_irrefl : (a : Bytes) → str_lt a a ≡ false
unfolding str_lt
str_lt_irrefl [] = refl
str_lt_irrefl (x ∷ a) = ground (arith, str_lt_irrefl a)

module _ (a b c : ℕ) where
  dlt_trans : dlt a b ≡ true → dlt b c ≡ true → dlt a c ≡ true
  unfolding dlt
  dlt_trans p q = ground (arith, p, q)

  deq_trans : deq a b ≡ true → deq b c ≡ true → deq a c ≡ true
  unfolding deq
  deq_trans p q = ground (arith, p, q)

  deq-dlt : deq a b ≡ true → dlt b c ≡ true → dlt a c ≡ true
  unfolding dlt deq
  deq-dlt p q = ground (arith, p, q)

  dlt-deq : dlt a b ≡ true → deq b c ≡ true → dlt a c ≡ true
  unfolding dlt deq
  dlt-deq p q = ground (arith, p, q)

dlt-not_deq : (a b : ℕ) → dlt a b ≡ true → deq a b ≡ false
unfolding dlt deq
dlt-not_deq a b p = ground (arith, p)

pub key_less_trans :
    (s₁ : ℕ) (m₁ : Bytes) (s₂ : ℕ) (m₂ : Bytes) (s₃ : ℕ) (m₃ : Bytes)
    → key_less s₁ m₁ s₂ m₂ ≡ true
    → key_less s₂ m₂ s₃ m₃ ≡ true
    → key_less s₁ m₁ s₃ m₃ ≡ true
unfolding key_less
key_less_trans s₁ m₁ s₂ m₂ s₃ m₃ p q = ground (
  arith,
  p,
  q,
  str_lt_trans m₁ m₂ m₃,
  dlt_trans s₁ s₂ s₃,
  deq_trans s₁ s₂ s₃,
  deq-dlt s₁ s₂ s₃,
  dlt-deq s₁ s₂ s₃,
  dlt-not_deq s₁ s₃,
)

pub key_less-key_equal :
    (s₁ : ℕ) (m₁ : Bytes) (s₂ : ℕ) (m₂ : Bytes)
    → key_less s₁ m₁ s₂ m₂ ≡ true
    → key_equal s₁ m₁ s₂ m₂ ≡ false
unfolding key_less key_equal
key_less-key_equal s₁ m₁ s₂ m₂ p = elim (Bool-cases (str_eq m₁ m₂)) [
  | inr h ↦ ground (arith, h)
  | inl h ↦
      let irrefl = subst (λ m. str_lt m₁ m ≡ false) (str_eq_sound m₁ m₂ h) (str_lt_irrefl m₁) in
      ground (arith, p, h, irrefl)
]

-- a key in front of one that is equal
pub key_less-through :
    (s₁ : ℕ) (m₁ : Bytes) (s₂ : ℕ) (m₂ : Bytes) (s₃ : ℕ) (m₃ : Bytes)
    → key_less s₁ m₁ s₂ m₂ ≡ true
    → key_equal s₂ m₂ s₃ m₃ ≡ true
    → key_less s₁ m₁ s₃ m₃ ≡ true
unfolding key_less key_equal
key_less-through s₁ m₁ s₂ m₂ s₃ m₃ p q = elim (Bool-cases (str_eq m₂ m₃)) [
  | inr h ↦ ground (arith, h, q)
  | inl h ↦
      let same = subst (λ m. str_lt m₁ m₂ ≡ str_lt m₁ m) (str_eq_sound m₂ m₃ h) refl in
      ground (arith, p, q, h, same, deq_trans s₁ s₂ s₃, dlt-deq s₁ s₂ s₃, dlt-not_deq s₁ s₃)
]

str_lt-total : (a b : Bytes) → str_lt a b ≡ false → str_eq a b ≡ false → str_lt b a ≡ true
unfolding str_lt str_eq
str_lt-total [] [] p q = cc
str_lt-total [] (y ∷ b) p q = cc
str_lt-total (x ∷ a) [] p q = refl
str_lt-total (x ∷ a) (y ∷ b) p q = ground (arith, p, q, str_lt-total a b)

double_total :
    (a b : ℕ)
    → is_nan a ≡ false
    → is_nan b ≡ false
    → deq a b ≡ false
    → dlt a b ≡ false
    → (dlt b a ≡ true) × (deq b a ≡ false)
unfolding dlt deq
double_total a b na nb p q = (ground (arith, na, nb, p, q), ground (arith, na, nb, p, q))

deq-sym : (a b : ℕ) → deq a b ≡ deq b a
unfolding deq
deq-sym a b = ground arith

-- of two keys that are not equal one is less
pub key_less-total :
    (s₁ : ℕ) (m₁ : Bytes) (s₂ : ℕ) (m₂ : Bytes)
    → is_nan s₁ ≡ false
    → is_nan s₂ ≡ false
    → key_less s₁ m₁ s₂ m₂ ≡ false
    → key_equal s₁ m₁ s₂ m₂ ≡ false
    → key_less s₂ m₂ s₁ m₁ ≡ true
unfolding key_less key_equal
key_less-total s₁ m₁ s₂ m₂ n₁ n₂ p q = elim (Bool-cases (deq s₁ s₂)) [
  | inl e ↦ ground (arith, p, q, e, deq-sym s₁ s₂, str_lt-total m₁ m₂)
  | inr e ↦
      let both = double_total s₁ s₂ n₁ n₂ e (ground (arith, p, e)) in ground (arith, both.0, both.1)
]
