-- ===== src/Commands/Info/Sections.antt =====
-- INFO with the name of a section.
use cpp_inference_engine.Base.{
  ℕ, ◌≡◌, ◌≤◌, refl, Bool, false, arith, [], ◌∷◌, Bytes, codes, str_eq, ◌||◌,
}
use cpp_inference_engine.Base.Int.{ℤ}
use cpp_inference_engine.Db.{Database}
use cpp_inference_engine.Dispatch.{ServerOptions}
use cpp_inference_engine.Commands.State.{ServerStats, to_lower}
use cpp_inference_engine.Commands.Info.{build_info, info_section, want}

-- a name that begins with a capital letter
lowered :
    (section name : Bytes) (c : ℕ)
    → b'A' ≤ c
    → c ≤ b'Z'
    → str_eq (to_lower section) (c ∷ name) ≡ false
unfolding str_eq to_lower
lowered [] name c lo hi = refl
lowered (b ∷ section) name c lo hi = ground arith

-- The names of all sections.
abbrev pub is_all : Bytes → Bool
is_all section =
    str_eq section [] || str_eq section (codes "all") || str_eq section (codes "default")

skipped :
    (section name lines : Bytes) (c : ℕ)
    → b'A' ≤ c
    → c ≤ b'Z'
    → is_all (to_lower section) ≡ false
    → info_section (to_lower section) (c ∷ name) lines ≡ []
unfolding info_section want
skipped section name lines c lo hi h = ground (arith, h, lowered section name c lo hi)

-- INFO with a section whose name in small letters is not empty, `all` or `default` prints nothing,
-- whatever section it names.
pub build_info-to_lower :
    (db : Database) (opts : ServerOptions) (stats : ServerStats) (now_us last_save : ℤ)
    (section : Bytes)
    → is_all (to_lower section) ≡ false
    → build_info db opts stats now_us last_save (to_lower section) ≡ []
unfolding build_info
build_info-to_lower db opts stats now_us last_save section h =
    let none = λ (name lines : Bytes) (c : ℕ) (lo : b'A' ≤ c) (hi : c ≤ b'Z').
      skipped section name lines c lo hi h in
    rw
      (
        none (codes "erver") _ b'S' (omega arith) (omega arith),
        none (codes "lients") _ b'C' (omega arith) (omega arith),
        none (codes "emory") _ b'M' (omega arith) (omega arith),
        none (codes "ersistence") _ b'P' (omega arith) (omega arith),
        none (codes "tats") _ b'S' (omega arith) (omega arith),
        none (codes "eplication") _ b'R' (omega arith) (omega arith),
        none (codes "eyspace") _ b'K' (omega arith) (omega arith),
      )
      refl
