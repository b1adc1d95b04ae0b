-- ===== src/SharedMemory/Access.antt =====
-- The calls that `SharedMemory` passes on to its parts (include/oneplog/internal/shared_memory.hpp);
-- none is a null pointer.
use oneplog.Prelude.{ℕ, Bool, false, Option, none, some, List}
use oneplog.RingBuffer.State.{Ring}
use oneplog.RingBuffer.Wait.{EventFd}
use oneplog.RingBuffer.Wait
use oneplog.Logger.Entry.{LogEntry}
use oneplog.SharedMemory.Config.{SharedLoggerConfig}
use oneplog.SharedMemory.Names.{ProcessThreadNameTable}
use oneplog.SharedMemory.Names

pub record SharedMemory : Type 0 where
  pub name : List ℕ
  pub is_owner : Bool
  pub total_size : ℕ
  pub config : Option SharedLoggerConfig
  pub name_table : Option ProcessThreadNameTable
  pub ring : Option (Ring LogEntry)

unfoldable pub register_process : SharedMemory → List ℕ → SharedMemory × ℕ
register_process s name = elim s.name_table [
  | none ↦ (s, 0)
  | some t ↦ let (t', id) = Names.register_process t name in (record s { name_table = some t' }, id)
]

unfoldable pub register_thread : SharedMemory → List ℕ → SharedMemory × ℕ
register_thread s name = elim s.name_table [
  | none ↦ (s, 0)
  | some t ↦ let (t', id) = Names.register_thread t name in (record s { name_table = some t' }, id)
]

unfoldable pub get_process_name : SharedMemory → ℕ → Option (List ℕ)
get_process_name s id = elim s.name_table [ none ↦ none | some t ↦ Names.get_process_name t id ]

unfoldable pub get_thread_name : SharedMemory → ℕ → Option (List ℕ)
get_thread_name s id = elim s.name_table [ none ↦ none | some t ↦ Names.get_thread_name t id ]

unfoldable pub notify_consumer : SharedMemory → SharedMemory
notify_consumer s = elim s.ring [
  | none ↦ s
  | some q ↦ record s { ring = some (Wait.notify_consumer q) }
]

unfoldable pub wait_for_data :
    EventFd
    → List (Ring LogEntry → Ring LogEntry)
    → (Ring LogEntry → Ring LogEntry)
    → (Ring LogEntry → Ring LogEntry)
    → (Ring LogEntry → Ring LogEntry)
    → SharedMemory
    → Bool × SharedMemory
wait_for_data e rounds missed before during s = elim s.ring [
  | none ↦ (false, s)
  | some q ↦
      let (found, q') = Wait.wait_for_data e rounds missed before during q in
      (found, record s { ring = some q' })
]
