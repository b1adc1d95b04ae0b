-- ===== src/SharedMemory/Names.antt =====
-- `NameIdMapping` and `ProcessThreadNameTable` (include/oneplog/internal/shared_memory.hpp), each
-- operation as one step. A string of the caller is the list of its characters, read up to a NUL.
use Prim.Native.Nat.{min}
use oneplog.Prelude.{
  ℕ, zero, suc, ◌+◌, ◌-◌, Bool, ◌||◌, Option, none, some, List, [], ◌∷◌, ◌==◌, if◌then◌else◌, ltb,
  leb, update, length, take, replicate,
}
use oneplog.Prelude.{same_text}
use oneplog.NameTable.FixedName.{c_string, until_nul}
use oneplog.Snapshot.Bytes.{write}

abbrev pub max_name_length : ℕ
max_name_length = 31

-- `std::strncpy`
unfoldable pub strncpy : (ℕ → ℕ) → List ℕ → ℕ → ℕ → ℕ
strncpy d src n =
    let text = take n (until_nul src) in
    write (write d 0 text) (length text) (replicate (n - length text) 0)

pub record NameIdMapping : Type 0 where
  pub id : ℕ
  pub name : ℕ → ℕ

unfoldable pub set : NameIdMapping → ℕ → List ℕ → NameIdMapping
set e new_id new_name = record {
  id = new_id;
  name = write (strncpy e.name new_name max_name_length) max_name_length (0 ∷ []);
}

unfoldable pub is_empty : NameIdMapping → Bool
is_empty e = e.name 0 == 0

-- A counter and its entries: `processCount` and `processes`, or `threadCount` and `threads`.
pub record Names : Type 0 where
  pub count : ℕ
  pub entries : ℕ → NameIdMapping

unfoldable pub new_names : Names
new_names = record { count = 0; entries = λ _. record { id = 0; name = λ _. 0 } }

-- The loop of `RegisterProcess` and `RegisterThread` over the `n` entries from `i` on.
unfoldable pub find_name : (ℕ → NameIdMapping) → List ℕ → ℕ → ℕ → Option ℕ
find_name entries name i zero = none
find_name entries name i (suc n) =
    let rest = find_name entries name (i + 1) n in
    if same_text (c_string 32 (entries i).name) (until_nul name) then some i else rest

module _ (max : ℕ) where
  unfoldable pub register : Names → List ℕ → Names × ℕ
  register t name = elim (find_name t.entries name 0 (min t.count max)) [
    | some i ↦ (t, (t.entries i).id)
    | none ↦
        let new_index = t.count in
        let claimed : Names = record t { count = t.count + 1 } in
        if leb max new_index then (record claimed { count = claimed.count - 1 }, 0) else (
          record claimed {
            entries = update t.entries new_index (set (t.entries new_index) (new_index + 1) name);
          },
          new_index + 1,
        )
  ]

  unfoldable pub get_name : Names → ℕ → Option (List ℕ)
  get_name t id =
      if (id == 0) || ltb max id
      then none
      else if leb t.count (id - 1)
      then none
      else some (c_string 32 (t.entries (id - 1)).name)

abbrev pub max_processes : ℕ
max_processes = 64

abbrev pub max_threads : ℕ
max_threads = 256

pub record ProcessThreadNameTable : Type 0 where
  pub processes : Names
  pub threads : Names

unfoldable pub init : ProcessThreadNameTable
init = record { processes = new_names; threads = new_names }

unfoldable pub register_process : ProcessThreadNameTable → List ℕ → ProcessThreadNameTable × ℕ
register_process t name =
    let done = register max_processes t.processes name in (record t { processes = done.0 }, done.1)

unfoldable pub register_thread : ProcessThreadNameTable → List ℕ → ProcessThreadNameTable × ℕ
register_thread t name =
    let done = register max_threads t.threads name in (record t { threads = done.0 }, done.1)

unfoldable pub get_process_name : ProcessThreadNameTable → ℕ → Option (List ℕ)
get_process_name t id = get_name max_processes t.processes id

unfoldable pub get_thread_name : ProcessThreadNameTable → ℕ → Option (List ℕ)
get_thread_name t id = get_name max_threads t.threads id

unfoldable pub get_process_count : ProcessThreadNameTable → ℕ
get_process_count t = t.processes.count

unfoldable pub get_thread_count : ProcessThreadNameTable → ℕ
get_thread_count t = t.threads.count
