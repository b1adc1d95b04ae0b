-- ===== src/NameTable/Platform.antt =====
-- The table a platform gets (include/oneplog/internal/platform_lookup_table.hpp): what the two
-- tables promise to a client that registers names and looks them up.
use oneplog.Prelude.{
  ℕ, ◌≡◌, refl, ◌∙◌, ap, Bool, true, false, ◌&&◌, List, [], ◌∷◌, ◌==◌, if◌then◌else◌, arith, take,
}
use oneplog.NameTable.FixedName.{until_nul}
use oneplog.NameTable.Direct as Direct
use oneplog.NameTable.Direct.{DirectTable, new_direct, default_name}
use oneplog.NameTable.Array as Array
use oneplog.NameTable.Array.{ArrayTable, new_array}
use oneplog.NameTable.DirectLookup.{get_name-register}
use oneplog.NameTable.ArrayLookup.{get_name-register_array}

pub record LookupTable (cap : ℕ) : Type 1 where
  pub Table : Type 0
  pub start : Table
  pub register : Table → ℕ → List ℕ → Table × Bool
  pub get_name : Table → ℕ → List ℕ
  pub is_registered : Table → ℕ → Bool
  pub clear : Table → Table
  pub get_name-start : (tid : ℕ) → get_name start tid ≡ default_name
  pub get_name-register :
      (t : Table) (tid : ℕ) (name : List ℕ) (other : ℕ)
      → get_name (register t tid name).0 other ≡ (
          if (register t tid name).1 && (tid == other)
          then until_nul (take cap name)
          else get_name t other)

pub new_direct-get_name :
    (max_tid cap tid : ℕ) → Direct.get_name max_tid cap new_direct tid ≡ default_name
unfolding Direct.get_name
new_direct-get_name max_tid cap tid = ground arith

pub new_array-get_name :
    (max_entries cap tid : ℕ) → Array.get_name max_entries cap new_array tid ≡ default_name
unfolding Array.get_name Array.find
new_array-get_name max_entries cap tid = refl

abbrev pub direct_table : (cap : ℕ) → LookupTable cap
direct_table cap = record {
  Table = DirectTable;
  start = new_direct;
  register = Direct.register 32768 cap;
  get_name = Direct.get_name 32768 cap;
  is_registered = Direct.is_registered 32768 cap;
  clear = Direct.clear 32768 cap;
  get_name-start = new_direct-get_name 32768 cap;
  get_name-register = get_name-register 32768 cap;
}

abbrev pub array_table : (cap : ℕ) → LookupTable cap
array_table cap = record {
  Table = ArrayTable;
  start = new_array;
  register = Array.register 256 cap;
  get_name = Array.get_name 256 cap;
  is_registered = Array.is_registered;
  clear = Array.clear;
  get_name-start = new_array-get_name 256 cap;
  get_name-register = get_name-register_array 256 cap;
}

-- `PlatformLookupTableSelector`, by `kIsLinuxPlatform`
unfoldable pub platform_table : Bool → (cap : ℕ) → LookupTable cap
platform_table true cap = direct_table cap
platform_table false cap = array_table cap

-- A thread's name after registrations, the latest first, each with the table's answer.
abbrev pub latest : ℕ → ℕ → List (ℕ × List ℕ × Bool) → List ℕ
latest cap tid [] = default_name
latest cap tid ((other, name, taken) ∷ earlier) =
    if taken && (other == tid) then until_nul (take cap name) else latest cap tid earlier

module _ (cap : ℕ) (l : LookupTable cap) where
  -- The table and the answers after a list of registrations, the latest first.
  unfoldable pub register_all : List (ℕ × List ℕ) → l.Table × List (ℕ × List ℕ × Bool)
  register_all [] = (l.start, [])
  register_all ((tid, name) ∷ earlier) =
      let before = register_all earlier in
      let res = l.register before.0 tid name in (res.0, (tid, name, res.1) ∷ before.1)

  pub get_name-register_all :
      (calls : List (ℕ × List ℕ)) (tid : ℕ)
      → l.get_name (register_all calls).0 tid ≡ latest cap tid (register_all calls).1
  unfolding register_all
  get_name-register_all [] tid = l.get_name-start tid
  get_name-register_all ((other, name) ∷ earlier) tid =
      let before = register_all earlier in
      let res = l.register before.0 other name in
      l.get_name-register before.0 other name tid
      ∙ ap (λ rest. if res.1 && (other == tid) then until_nul (take cap name) else rest)
          (get_name-register_all earlier tid)

-- On either platform a lookup gives, after any registrations on an empty table, the truncated name
-- of the thread's latest registration that was taken, and the default name if there is none.
pub platform_table-get_name :
    (linux : Bool) (cap : ℕ) (calls : List (ℕ × List ℕ)) (tid : ℕ)
    → (platform_table linux cap).get_name (register_all cap (platform_table linux cap) calls).0 tid
      ≡ latest cap tid (register_all cap (platform_table linux cap) calls).1
platform_table-get_name linux cap calls tid =
    get_name-register_all cap (platform_table linux cap) calls tid
