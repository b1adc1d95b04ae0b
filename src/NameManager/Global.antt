-- ===== src/NameManager/Global.antt =====
-- The functions on names and `NameManager`, `ThreadModuleTable` and `ThreadWithModuleName`
-- (include/oneplog/name_manager.hpp). The calling thread is given by its id; `thread_local` names are
-- a function of it.
use oneplog.Prelude.{
  ℕ, Bool, true, false, not, ◌&&◌, ◌||◌, Option, none, some, List, [], ◌∷◌, ◌==◌, if◌then◌else◌,
  ltb, update, length, take, same_text, to_string,
}
use oneplog.Common.Level.{Mode, sync, async, mproc}
use oneplog.NameTable.Direct.{default_name}
use oneplog.NameTable.Platform.{LookupTable}
use oneplog.SharedMemory.Names.{ProcessThreadNameTable, register_process, register_thread}

-- A name cut at `kMaxNameLength`.
unfoldable pub truncated : List ℕ → List ℕ
truncated name = if ltb 31 (length name) then take 31 name else name

unfoldable pub is_mode : Mode → Mode → Bool
is_mode sync sync = true
is_mode async async = true
is_mode mproc mproc = true
is_mode m k = false

unfoldable pub or_main : List ℕ → List ℕ
or_main [] = default_name
or_main (c ∷ cs) = c ∷ cs

module _ (l : LookupTable 31) where
  -- `segment` is the table of names behind `GetGlobalMProcSharedMemory()`, if there is one.
  pub record GlobalNames : Type 0 where
    pub process_name : List ℕ
    pub module_names : ℕ → List ℕ
    pub auto_register : Bool
    pub table : l.Table
    pub segment : Option ProcessThreadNameTable
    pub mode : Mode
    pub is_initialized : Bool

  abbrev pub new_global : GlobalNames
  new_global = record {
    process_name = default_name;
    module_names = λ _. default_name;
    auto_register = false;
    table = l.start;
    segment = none;
    mode = async;
    is_initialized = false;
  }

  unfoldable pub shared_process :
      List ℕ → Option ProcessThreadNameTable → Option ProcessThreadNameTable
  shared_process name none = none
  shared_process name (some t) = some (register_process t name).0

  unfoldable pub shared_thread :
      List ℕ → Option ProcessThreadNameTable → Option ProcessThreadNameTable
  shared_thread name none = none
  shared_thread name (some t) = some (register_thread t name).0

  unfoldable pub set_process_name : List ℕ → GlobalNames → GlobalNames
  set_process_name name g = record g {
    process_name = truncated name;
    segment = shared_process (truncated name) g.segment;
  }

  -- `RegisterModuleName` on the thread.
  unfoldable pub register_module_name : ℕ → GlobalNames → GlobalNames
  register_module_name tid g = record g { table = (l.register g.table tid (g.module_names tid)).0 }

  unfoldable pub set_module_name : ℕ → List ℕ → GlobalNames → GlobalNames
  set_module_name tid name g =
      let named = record g { module_names = update g.module_names tid (truncated name) } in
      let listed = if named.auto_register then register_module_name tid named else named in
      record listed { segment = shared_thread (truncated name) listed.segment }

  unfoldable pub set_auto_register_module_name : Bool → GlobalNames → GlobalNames
  set_auto_register_module_name enable g = record g { auto_register = enable }

  -- `ThreadModuleTable::GetName`
  unfoldable pub table_get_name : l.Table → ℕ → List ℕ
  table_get_name t tid =
      let name = l.get_name t tid in
      if same_text name default_name && not (l.is_registered t tid) then [] else name

  unfoldable pub lookup_module_name : GlobalNames → ℕ → List ℕ
  lookup_module_name g tid = or_main (table_get_name g.table tid)

  -- `NameManager::GetProcessName`
  unfoldable pub get_process_name : GlobalNames → ℕ → List ℕ
  get_process_name g process_id = if process_id == 0 then g.process_name else to_string process_id

  -- `NameManager::GetModuleName`, called by the thread `caller`.
  unfoldable pub get_module_name : GlobalNames → ℕ → ℕ → List ℕ
  get_module_name g caller thread_id =
      if is_mode g.mode sync || (thread_id == 0)
      then g.module_names caller
      else if is_mode g.mode async
      then lookup_module_name g thread_id
      else if is_mode g.mode mproc && not (thread_id == 0)
      then to_string thread_id
      else default_name

  unfoldable pub initialize : Mode → GlobalNames → GlobalNames
  initialize mode g =
      set_auto_register_module_name (is_mode mode async || is_mode mode mproc)
        (record g { mode = mode; is_initialized = true })

  unfoldable pub shutdown : GlobalNames → GlobalNames
  shutdown g = set_auto_register_module_name false (record g { is_initialized = false })

  -- `ThreadWithModuleName::Create` until the child's function runs.
  unfoldable pub create : ℕ → ℕ → GlobalNames → GlobalNames
  create parent child g = set_module_name child (g.module_names parent) g

  unfoldable pub create_with_name : List ℕ → ℕ → GlobalNames → GlobalNames
  create_with_name name child g = set_module_name child name g
