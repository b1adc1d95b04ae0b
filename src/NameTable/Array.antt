-- ===== src/NameTable/Array.antt =====
-- `ArrayMappingTable<MaxEntries, MaxNameLen>` (include/oneplog/internal/array_mapping_table.hpp),
-- each operation as one step: the entry of a thread id is the first valid one that names it.
use oneplog.Prelude.{
  ℕ, zero, suc, ◌+◌, Bool, true, false, ◌&&◌, Option, none, some, List, ◌==◌, if◌then◌else◌, ltb,
  leb, update,
}
use oneplog.NameTable.FixedName.{assign, c_string}
use oneplog.NameTable.Direct.{default_name, invalidate}

pub record ArrayTable : Type 0 where
  pub tids : ℕ → ℕ
  pub names : ℕ → ℕ → ℕ
  pub valid : ℕ → Bool
  pub count : ℕ

abbrev pub new_array : ArrayTable
new_array = record { tids = λ _. 0; names = λ _ _. 0; valid = λ _. false; count = 0 }

-- The loop over the entries that `Register`, `GetName` and `IsRegistered` share: the first of the
-- `n` entries from `i` on that is valid and has the id.
unfoldable pub find : ArrayTable → ℕ → ℕ → ℕ → Option ℕ
find t tid i zero = none
find t tid i (suc n) =
    let rest = find t tid (i + 1) n in if t.valid i && (t.tids i == tid) then some i else rest

unfoldable pub is_registered : ArrayTable → ℕ → Bool
is_registered t tid = elim (find t tid 0 t.count) [ none ↦ false | some i ↦ true ]

unfoldable pub clear : ArrayTable → ArrayTable
clear t = record t { count = 0; valid = invalidate t.count t.valid }

-- The name that `GetName` returns for the entry found.
abbrev pub name_at : ℕ → (ℕ → ℕ → ℕ) → Option ℕ → List ℕ
name_at cap names none = default_name
name_at cap names (some i) = c_string (cap + 1) (names i)

-- The state once `CopyName` has run on entry `i`.
abbrev pub named : ℕ → ArrayTable → ℕ → List ℕ → ArrayTable
named cap t i name = record t { names = update t.names i (assign cap name (t.names i)) }

-- The state once entry `t.count` has been claimed and filled.
abbrev pub appended : ℕ → ArrayTable → ℕ → List ℕ → ArrayTable
appended cap t tid name =
    let i = t.count in
    record t {
      count = i + 1;
      tids = update t.tids i tid;
      names = update t.names i (assign cap name (t.names i));
      valid = update t.valid i true;
    }

module _ (max_entries cap : ℕ) where
  unfoldable pub is_full : ArrayTable → Bool
  is_full t = leb max_entries t.count

  unfoldable pub register : ArrayTable → ℕ → List ℕ → ArrayTable × Bool
  register t tid name = elim (find t tid 0 t.count) [
    | some i ↦ (named cap t i name, true)
    | none ↦ if ltb t.count max_entries then (appended cap t tid name, true) else (t, false)
  ]

  unfoldable pub get_name : ArrayTable → ℕ → List ℕ
  get_name t tid = name_at cap t.names (find t tid 0 t.count)
