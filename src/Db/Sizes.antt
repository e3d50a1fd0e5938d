-- ===== src/Db/Sizes.antt =====
-- The memory that the tables of a database hold by `EntrySize`, the number of keys, and how a write to one table changes it.
use cpp_inference_engine.Base.{
  ℕ, zero, suc, ◌+◌, ◌<◌, ◌≡◌, refl, List, [], ◌∷◌, arith, length, get_or, set, All,
}
use cpp_inference_engine.Base.Dict.{total}
use cpp_inference_engine.Db.{Table, entry_size, count_keys}

abbrev pub table_size : Table → ℕ
table_size = total entry_size

abbrev pub sum_tables : List Table → ℕ
sum_tables [] = 0
sum_tables (t ∷ ts) = table_size t + sum_tables ts

pub sum_tables-set :
    (ts : List Table) (i : ℕ) (t : Table)
    → i < length ts
    → sum_tables (set ts i t) + table_size (get_or ts i []) ≡ sum_tables ts + table_size t
sum_tables-set [] i t h = absurd (omega arith)
sum_tables-set (u ∷ ts) zero t h = omega arith
sum_tables-set (u ∷ ts) (suc i) t h = omega (arith, sum_tables-set ts i t)

pub table_size-le :
    (ts : List Table) (i : ℕ)
    → i < length ts
    → (r : ℕ) × (sum_tables ts ≡ table_size (get_or ts i []) + r)
table_size-le [] i h = absurd (omega arith)
table_size-le (u ∷ ts) zero h = (sum_tables ts, refl)
table_size-le (u ∷ ts) (suc i) h =
    let (r, e) = table_size-le ts i (omega arith) in (table_size u + r, omega arith)

pub count_keys-set :
    (ts : List Table) (i : ℕ) (t : Table)
    → i < length ts
    → count_keys (set ts i t) + length (get_or ts i []) ≡ count_keys ts + length t
unfolding count_keys
count_keys-set [] i t h = absurd (omega arith)
count_keys-set (u ∷ ts) zero t h = omega arith
count_keys-set (u ∷ ts) (suc i) t h = omega (arith, count_keys-set ts i t)

module _ {ℓ κ} {A : Type ℓ} (P : A → Type κ) where
  pub All-set : (xs : List A) (i : ℕ) (v : A) → All P xs → P v → All P (set xs i v)
  All-set [] i v all p = tt
  All-set (x ∷ xs) zero v (px, all) p = (p, all)
  All-set (x ∷ xs) (suc i) v (px, all) p = (px, All-set xs i v all p)

  pub All-get_or : (xs : List A) (i : ℕ) (d : A) → All P xs → P d → P (get_or xs i d)
  All-get_or [] i d all p = p
  All-get_or (x ∷ xs) zero d (px, all) p = px
  All-get_or (x ∷ xs) (suc i) d (px, all) p = All-get_or xs i d all p
