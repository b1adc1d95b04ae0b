-- ===== src/Common/ErrorCode.antt =====
-- `enum class ErrorCode` and its names (include/oneplog/common.hpp).
use Prim.Native.String.{String}
use text.Mathlib.Text.{◌==◌ as str_eq}
use oneplog.Prelude.{
  ℕ, ◌≡◌, refl, ◌∙◌, ap, sym, Bool, not, if◌then◌else◌, Option, none, some, List, [], ◌∷◌, ◌==◌,
}

pub data ErrorCode : Type 0 where
  success memory_allocation_failed memory_pool_exhausted buffer_overflow buffer_underflow queue_full
        queue_empty queue_slot_busy queue_timeout queue_closed file_open_failed file_write_failed
        file_read_failed file_rotate_failed file_close_failed file_flush_failed
        network_connect_failed network_send_failed network_receive_failed network_disconnected
        network_timeout network_bind_failed shared_memory_create_failed shared_memory_attach_failed
        shared_memory_detach_failed shared_memory_corrupted shared_memory_version_mismatch
        config_parse_error config_invalid_value config_missing_required config_file_not_found
        thread_create_failed thread_join_failed thread_already_running thread_not_running
        invalid_argument not_initialized already_initialized not_supported internal_error :
      ErrorCode

-- The enumerators' values.
abbrev pub error_value : ErrorCode → ℕ
error_value success = 0
error_value memory_allocation_failed = 100
error_value memory_pool_exhausted = 101
error_value buffer_overflow = 102
error_value buffer_underflow = 103
error_value queue_full = 200
error_value queue_empty = 201
error_value queue_slot_busy = 202
error_value queue_timeout = 203
error_value queue_closed = 204
error_value file_open_failed = 300
error_value file_write_failed = 301
error_value file_read_failed = 302
error_value file_rotate_failed = 303
error_value file_close_failed = 304
error_value file_flush_failed = 305
error_value network_connect_failed = 400
error_value network_send_failed = 401
error_value network_receive_failed = 402
error_value network_disconnected = 403
error_value network_timeout = 404
error_value network_bind_failed = 405
error_value shared_memory_create_failed = 500
error_value shared_memory_attach_failed = 501
error_value shared_memory_detach_failed = 502
error_value shared_memory_corrupted = 503
error_value shared_memory_version_mismatch = 504
error_value config_parse_error = 600
error_value config_invalid_value = 601
error_value config_missing_required = 602
error_value config_file_not_found = 603
error_value thread_create_failed = 700
error_value thread_join_failed = 701
error_value thread_already_running = 702
error_value thread_not_running = 703
error_value invalid_argument = 900
error_value not_initialized = 901
error_value already_initialized = 902
error_value not_supported = 903
error_value internal_error = 999

-- `ErrorCodeToString`; a value that is no enumerator, which gives "UnknownError", has no place here.
unfoldable pub error_code_to_string : ErrorCode → String
error_code_to_string success = "Success"
error_code_to_string memory_allocation_failed = "MemoryAllocationFailed"
error_code_to_string memory_pool_exhausted = "MemoryPoolExhausted"
error_code_to_string buffer_overflow = "BufferOverflow"
error_code_to_string buffer_underflow = "BufferUnderflow"
error_code_to_string queue_full = "QueueFull"
error_code_to_string queue_empty = "QueueEmpty"
error_code_to_string queue_slot_busy = "QueueSlotBusy"
error_code_to_string queue_timeout = "QueueTimeout"
error_code_to_string queue_closed = "QueueClosed"
error_code_to_string file_open_failed = "FileOpenFailed"
error_code_to_string file_write_failed = "FileWriteFailed"
error_code_to_string file_read_failed = "FileReadFailed"
error_code_to_string file_rotate_failed = "FileRotateFailed"
error_code_to_string file_close_failed = "FileCloseFailed"
error_code_to_string file_flush_failed = "FileFlushFailed"
error_code_to_string network_connect_failed = "NetworkConnectFailed"
error_code_to_string network_send_failed = "NetworkSendFailed"
error_code_to_string network_receive_failed = "NetworkReceiveFailed"
error_code_to_string network_disconnected = "NetworkDisconnected"
error_code_to_string network_timeout = "NetworkTimeout"
error_code_to_string network_bind_failed = "NetworkBindFailed"
error_code_to_string shared_memory_create_failed = "SharedMemoryCreateFailed"
error_code_to_string shared_memory_attach_failed = "SharedMemoryAttachFailed"
error_code_to_string shared_memory_detach_failed = "SharedMemoryDetachFailed"
error_code_to_string shared_memory_corrupted = "SharedMemoryCorrupted"
error_code_to_string shared_memory_version_mismatch = "SharedMemoryVersionMismatch"
error_code_to_string config_parse_error = "ConfigParseError"
error_code_to_string config_invalid_value = "ConfigInvalidValue"
error_code_to_string config_missing_required = "ConfigMissingRequired"
error_code_to_string config_file_not_found = "ConfigFileNotFound"
error_code_to_string thread_create_failed = "ThreadCreateFailed"
error_code_to_string thread_join_failed = "ThreadJoinFailed"
error_code_to_string thread_already_running = "ThreadAlreadyRunning"
error_code_to_string thread_not_running = "ThreadNotRunning"
error_code_to_string invalid_argument = "InvalidArgument"
error_code_to_string not_initialized = "NotInitialized"
error_code_to_string already_initialized = "AlreadyInitialized"
error_code_to_string not_supported = "NotSupported"
error_code_to_string internal_error = "InternalError"

-- The comparison of two codes by their values.
abbrev pub same_code : ErrorCode → ErrorCode → Bool
same_code a b = error_value a == error_value b

unfoldable pub is_success : ErrorCode → Bool
is_success code = same_code code success

unfoldable pub is_error : ErrorCode → Bool
is_error code = not (same_code code success)

-- Reading a name back.
abbrev code_of_name : String → List ErrorCode → Option ErrorCode
code_of_name name [] = none
code_of_name name (c ∷ codes) =
    if str_eq (error_code_to_string c) name then some c else code_of_name name codes

abbrev all_codes : List ErrorCode
all_codes =
    success ∷ memory_allocation_failed ∷ memory_pool_exhausted ∷ buffer_overflow ∷ buffer_underflow
    ∷ queue_full ∷ queue_empty ∷ queue_slot_busy ∷ queue_timeout ∷ queue_closed ∷ file_open_failed
    ∷ file_write_failed ∷ file_read_failed ∷ file_rotate_failed ∷ file_close_failed
    ∷ file_flush_failed ∷ network_connect_failed ∷ network_send_failed ∷ network_receive_failed
    ∷ network_disconnected ∷ network_timeout ∷ network_bind_failed ∷ shared_memory_create_failed
    ∷ shared_memory_attach_failed ∷ shared_memory_detach_failed ∷ shared_memory_corrupted
    ∷ shared_memory_version_mismatch ∷ config_parse_error ∷ config_invalid_value
    ∷ config_missing_required ∷ config_file_not_found ∷ thread_create_failed ∷ thread_join_failed
    ∷ thread_already_running ∷ thread_not_running ∷ invalid_argument ∷ not_initialized
    ∷ already_initialized ∷ not_supported ∷ internal_error ∷ []

name_back : (c : ErrorCode) → code_of_name (error_code_to_string c) all_codes ≡ some c
unfolding error_code_to_string
name_back success = refl
name_back memory_allocation_failed = refl
name_back memory_pool_exhausted = refl
name_back buffer_overflow = refl
name_back buffer_underflow = refl
name_back queue_full = refl
name_back queue_empty = refl
name_back queue_slot_busy = refl
name_back queue_timeout = refl
name_back queue_closed = refl
name_back file_open_failed = refl
name_back file_write_failed = refl
name_back file_read_failed = refl
name_back file_rotate_failed = refl
name_back file_close_failed = refl
name_back file_flush_failed = refl
name_back network_connect_failed = refl
name_back network_send_failed = refl
name_back network_receive_failed = refl
name_back network_disconnected = refl
name_back network_timeout = refl
name_back network_bind_failed = refl
name_back shared_memory_create_failed = refl
name_back shared_memory_attach_failed = refl
name_back shared_memory_detach_failed = refl
name_back shared_memory_corrupted = refl
name_back shared_memory_version_mismatch = refl
name_back config_parse_error = refl
name_back config_invalid_value = refl
name_back config_missing_required = refl
name_back config_file_not_found = refl
name_back thread_create_failed = refl
name_back thread_join_failed = refl
name_back thread_already_running = refl
name_back thread_not_running = refl
name_back invalid_argument = refl
name_back not_initialized = refl
name_back already_initialized = refl
name_back not_supported = refl
name_back internal_error = refl

abbrev or_success : Option ErrorCode → ErrorCode
or_success none = success
or_success (some c) = c

-- No two error codes share a name.
pub error_code_to_string-injective :
    (a b : ErrorCode) → error_code_to_string a ≡ error_code_to_string b → a ≡ b
error_code_to_string-injective a b e =
    ap or_success (sym (name_back a) ∙ ap (λ s. code_of_name s all_codes) e ∙ name_back b)
