-- ===== src/NameManager/Plain.antt =====
-- Names without a NUL that are not empty, which both managers show alike
-- (include/oneplog/name_manager.hpp and include/oneplog/internal/optimized_name_manager.hpp).
use oneplog.Prelude.{
  ℕ, zero, suc, ◌<◌, ◌≡◌, refl, ap, List, [], ◌∷◌, ◌==◌, length, take, length-take, Bool-cases, inl,
  inr, arith,
}
use oneplog.NameTable.FixedName as FixedName
use oneplog.NameTable.FixedName.{until_nul, view-assign, read-count_chars}
use oneplog.Snapshot.Bytes.{read}
use oneplog.NameManager.Global.{truncated}
use oneplog.NameManager.Optimized.{shown}
use oneplog.NameManager.Lookup.{truncated-eq-take}

-- A name without a NUL that is not empty.
abbrev pub IsPlain : List ℕ → Type 0
IsPlain name = (until_nul name ≡ name) × (0 < length name)

pub until_nul-take :
    (n : ℕ) (name : List ℕ) → until_nul name ≡ name → until_nul (take n name) ≡ take n name
until_nul-take zero name e = refl
until_nul-take (suc n) [] e = refl
until_nul-take (suc n) (c ∷ cs) e = elim (Bool-cases (c == 0)) [
  | inl nul ↦ absurd (ground arith)
  | inr char ↦ rw char (ap (λ t. c ∷ t) (until_nul-take n cs (ground arith)))
]

pub truncated-IsPlain : (name : List ℕ) → IsPlain name → IsPlain (truncated name)
truncated-IsPlain name p =
    let size = length-take 31 name in
    rw (truncated-eq-take name) (until_nul-take 31 name p.0, omega (arith, size, p.1))

pub shown-plain :
    (d : ℕ → ℕ) (name : List ℕ) → FixedName.view 31 d ≡ name → 0 < length name → shown 31 d ≡ name
unfolding shown FixedName.empty FixedName.view FixedName.name_length FixedName.count_chars read
shown-plain d name e h = ground arith
