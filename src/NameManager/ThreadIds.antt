-- ===== src/NameManager/ThreadIds.antt =====
-- The two ids of a thread on Linux: the one that log entries carry (include/oneplog/logger.hpp) and
-- the one that names are registered under (include/oneplog/name_manager.hpp).
use oneplog.Prelude.{ℕ, ◌%◌, ◌^◌}

-- What the system answers a thread: `gettid()` and `pthread_self()` as a number.
pub record ThreadIds : Type 0 where
  pub gettid : ℕ
  pub pthread_self : ℕ

unfoldable pub current_thread_id : ThreadIds → ℕ
current_thread_id t = t.pthread_self % 2 ^ 32

unfoldable pub current_thread_id_internal : ThreadIds → ℕ
current_thread_id_internal t = t.gettid % 2 ^ 32
