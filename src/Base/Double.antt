-- ===== src/Base/Double.antt =====
-- `double`: the 64-bit pattern of an IEEE 754 value, with the order that `<` and `==` have on values.
-- Arithmetic and text (`+`, `strtod`, `snprintf`) are the C library's, and are parameters elsewhere.
use Prim.Native.Nat.{ℕ, ◌%◌, ◌^◌}
use mathlib.Core.Path.{◌≡◌, refl}
use mathlib.Core.Bool.{Bool, true, false, not, ◌&&◌}
use cpp_inference_engine.Base.Tests.{ltb, ◌==◌, if◌then◌else◌}
use cpp_inference_engine.Base.Int.{ℤ, pos, sub_ℕ, ltb_ℤ, eqb_ℤ}

-- the bits below the sign
abbrev pub magnitude : ℕ → ℕ
magnitude d = d % 2 ^ 63

-- the pattern of +inf
abbrev pub inf : ℕ
inf = 0x7ff0_0000_0000_0000

-- the pattern of -inf
abbrev pub neg_inf : ℕ
neg_inf = 0xfff0_0000_0000_0000

abbrev pub is_nan : ℕ → Bool
is_nan d = ltb inf (magnitude d)

abbrev pub is_inf : ℕ → Bool
is_inf d = magnitude d == inf

-- Patterns of the same sign are ordered as their magnitudes; both zeros have the key 0.
abbrev pub key : ℕ → ℤ
key d = if ltb d (2 ^ 63) then pos (magnitude d) else sub_ℕ 0 (magnitude d)

unfoldable pub dlt : ℕ → ℕ → Bool
dlt a b = not (is_nan a) && not (is_nan b) && ltb_ℤ (key a) (key b)

unfoldable pub deq : ℕ → ℕ → Bool
deq a b = not (is_nan a) && not (is_nan b) && eqb_ℤ (key a) (key b)

-- -1.0 < -0.0, -0.0 == 0.0, 0.0 < 1.0 < inf
samples :
    (dlt 0xbff0_0000_0000_0000 0x8000_0000_0000_0000 ≡ true)
    × (deq 0x8000_0000_0000_0000 0 ≡ true)
    × (dlt 0 0x3ff0_0000_0000_0000 ≡ true)
    × (dlt 0x3ff0_0000_0000_0000 inf ≡ true)
    × (dlt 0x7ff8_0000_0000_0000 inf ≡ false)
unfolding dlt deq
samples = (refl, refl, refl, refl, refl)
