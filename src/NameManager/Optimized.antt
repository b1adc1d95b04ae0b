-- ===== src/NameManager/Optimized.antt =====
-- `OptimizedNameManager` and `OptimizedThreadWithModuleName`
-- (include/oneplog/internal/optimized_name_manager.hpp), with names in fixed arrays.
use oneplog.Prelude.{
  ℕ, Bool, true, false, not, ◌&&◌, ◌||◌, List, ◌==◌, if◌then◌else◌, update, to_string,
}
use oneplog.Common.Level.{Mode, sync, async, mproc}
use oneplog.NameTable.Direct.{default_name}
use oneplog.NameTable.FixedName as FixedName
use oneplog.NameTable.Platform.{LookupTable}
use oneplog.NameManager.Global.{is_mode}

-- What a name is shown as: "main" if it is empty.
unfoldable pub shown : ℕ → (ℕ → ℕ) → List ℕ
shown cap storage = if FixedName.empty storage then default_name else FixedName.view cap storage

module _ (cap : ℕ) (l : LookupTable cap) where
  pub record OptimizedNames : Type 0 where
    pub process_name : ℕ → ℕ
    pub module_names : ℕ → ℕ → ℕ
    pub auto_register : Bool
    pub table : l.Table
    pub mode : Mode
    pub is_initialized : Bool

  abbrev pub new_optimized : OptimizedNames
  new_optimized = record {
    process_name = FixedName.make cap default_name;
    module_names = λ _. FixedName.make cap default_name;
    auto_register = false;
    table = l.start;
    mode = async;
    is_initialized = false;
  }

  unfoldable pub set_process_name : List ℕ → OptimizedNames → OptimizedNames
  set_process_name name o = record o { process_name = FixedName.assign cap name o.process_name }

  unfoldable pub get_process_name : OptimizedNames → ℕ → List ℕ
  get_process_name o process_id =
      if process_id == 0 then shown cap o.process_name else to_string process_id

  unfoldable pub register_module_name : ℕ → OptimizedNames → OptimizedNames
  register_module_name tid o = record o {
    table = (l.register o.table tid (FixedName.view cap (o.module_names tid))).0;
  }

  unfoldable pub set_module_name : ℕ → List ℕ → OptimizedNames → OptimizedNames
  set_module_name tid name o =
      let named = record o {
        module_names = update o.module_names tid (FixedName.assign cap name (o.module_names tid));
      } in
      if named.auto_register then register_module_name tid named else named

  unfoldable pub lookup_module_name : OptimizedNames → ℕ → List ℕ
  lookup_module_name o tid = l.get_name o.table tid

  unfoldable pub get_module_name : OptimizedNames → ℕ → ℕ → List ℕ
  get_module_name o caller thread_id =
      if (thread_id == 0) || is_mode o.mode sync
      then shown cap (o.module_names caller)
      else if is_mode o.mode async
      then lookup_module_name o thread_id
      else if is_mode o.mode mproc && not (thread_id == 0)
      then to_string thread_id
      else default_name

  unfoldable pub initialize : Mode → OptimizedNames → OptimizedNames
  initialize mode o = record o {
    mode = mode;
    is_initialized = true;
    auto_register = is_mode mode async || is_mode mode mproc;
  }

  unfoldable pub shutdown : OptimizedNames → OptimizedNames
  shutdown o = record o { is_initialized = false; auto_register = false }

  unfoldable pub set_auto_register_module_name : Bool → OptimizedNames → OptimizedNames
  set_auto_register_module_name enable o = record o { auto_register = enable }

  unfoldable pub clear_lookup_table : OptimizedNames → OptimizedNames
  clear_lookup_table o = record o { table = l.clear o.table }

  unfoldable pub create : ℕ → ℕ → OptimizedNames → OptimizedNames
  create parent child o = set_module_name child (shown cap (o.module_names parent)) o

  unfoldable pub create_with_name : List ℕ → ℕ → OptimizedNames → OptimizedNames
  create_with_name name child o = set_module_name child name o
