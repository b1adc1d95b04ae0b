-- ===== src/NameTable/Direct.antt =====
-- `DirectMappingTable<MaxTid, MaxNameLen>` (include/oneplog/internal/direct_mapping_table.hpp),
-- each operation as one step: the entry of a thread id is the one at that index.
use oneplog.Prelude.{
  ℕ, zero, suc, ◌+◌, ◌%◌, ◌^◌, ◌≡◌, Bool, true, false, not, List, [], ◌∷◌, if◌then◌else◌, leb,
  update,
}
use oneplog.NameTable.FixedName.{assign, c_string}

-- The number of flags set below an index.
unfoldable pub count_valid : (ℕ → Bool) → ℕ → ℕ
count_valid valid zero = 0
count_valid valid (suc n) = let rest = count_valid valid n in if valid n then suc rest else rest

-- "main"
abbrev pub default_name : List ℕ
default_name = 109 ∷ 97 ∷ 105 ∷ 110 ∷ []

pub record DirectTable : Type 0 where
  pub names : ℕ → ℕ → ℕ
  pub valid : ℕ → Bool
  pub count : ℕ

abbrev pub new_direct : DirectTable
new_direct = record { names = λ _ _. 0; valid = λ _. false; count = 0 }

-- The loop of `Clear` over the indexes below `n`
unfoldable pub invalidate : ℕ → (ℕ → Bool) → ℕ → Bool
invalidate zero valid = valid
invalidate (suc n) valid = update (invalidate n valid) n false

module _ (max_tid cap : ℕ) where
  unfoldable pub register : DirectTable → ℕ → List ℕ → DirectTable × Bool
  register t tid name =
      if leb max_tid tid
      then (t, false)
      else let named = record t { names = update t.names tid (assign cap name (t.names tid)) } in
        let was_valid = named.valid tid in
        let flagged = record named { valid = update named.valid tid true } in
        let counted =
          if not was_valid
          then record flagged { count = (flagged.count + 1) % 2 ^ 64 }
          else flagged in
        (counted, true)

  unfoldable pub get_name : DirectTable → ℕ → List ℕ
  get_name t tid =
      if leb max_tid tid
      then default_name
      else if not (t.valid tid)
      then default_name
      else c_string (cap + 1) (t.names tid)

  unfoldable pub clear : DirectTable → DirectTable
  clear t = record t { valid = invalidate max_tid t.valid; count = 0 }

  unfoldable pub is_registered : DirectTable → ℕ → Bool
  is_registered t tid = if leb max_tid tid then false else t.valid tid

  -- The counter is the number of valid entries.
  unfoldable pub IsCounted : DirectTable → Type 0
  IsCounted t = t.count ≡ count_valid t.valid max_tid
