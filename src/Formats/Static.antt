-- ===== src/Formats/Static.antt =====
-- `SimpleFormat`, `FullFormat` and `FileFormat`, each `FormatEntry` on the fields of an entry
-- (include/oneplog/internal/static_formats.hpp). Local time is a parameter.
use oneplog.Prelude.{ℕ, ◌/◌, ◌%◌, true, List, [], ◌∷◌, ◌++◌, ◌==◌, if◌then◌else◌, to_string}
use oneplog.Common.Level.{Level, level_value, short4, level_to_string}
use oneplog.Snapshot.Capture.{Snapshot}
use oneplog.Snapshot.Format.{Printer, format_all}
use oneplog.NameTable.FixedName.{until_nul}
use oneplog.NameTable.Platform.{LookupTable}
use oneplog.NameManager.Global.{GlobalNames, lookup_module_name}
use oneplog.Logger.Sinks.{Format}
use oneplog.Formats.Text.{
  codes, format_fixed_width_name, zero_padded, buffered, reset_color, get_level_color,
}

-- `std::tm`, with the year counted from 0 and the month from 1.
pub record Tm : Type 0 where
  pub year : ℕ
  pub month : ℕ
  pub day : ℕ
  pub hour : ℕ
  pub minute : ℕ
  pub second : ℕ

-- What a format reads besides the entry: `localtime_r`, the names, the id of the process and the id
-- of the thread that formats.
pub record Place (l : LookupTable 31) : Type 0 where
  pub printer : Printer
  pub memory : ℕ → ℕ
  pub local_time : ℕ → Tm
  pub names : GlobalNames l
  pub self_pid : ℕ
  pub self_tid : ℕ

abbrev pub short_name : Level → List ℕ
short_name level = codes (level_to_string (level_value level) short4)

-- "HH:MM:SS"
abbrev pub clock : Tm → List ℕ
clock tm =
    zero_padded 2 tm.hour ++ (58 ∷ (zero_padded 2 tm.minute ++ (58 ∷ zero_padded 2 tm.second)))

-- "YYYY-MM-DD"
abbrev pub date : Tm → List ℕ
date tm = zero_padded 4 tm.year ++ (45 ∷ (zero_padded 2 tm.month ++ (45 ∷ zero_padded 2 tm.day)))

module _ (l : LookupTable 31) where
  unfoldable pub shown_process : Place l → ℕ → List ℕ
  shown_process w pid =
      format_fixed_width_name (if pid == 0 then w.names.process_name else to_string pid)

  unfoldable pub shown_module : Place l → ℕ → List ℕ
  shown_module w tid =
      format_fixed_width_name
        (if tid == 0 then w.names.module_names w.self_tid else lookup_module_name l w.names tid)

  -- The level between its colour and the reset.
  unfoldable pub colored_level : Level → List ℕ
  colored_level level =
      32 ∷ (get_level_color level ++ (91 ∷ (short_name level ++ (93 ∷ reset_color))))

  -- " [<name>:<id>] [<name>:<id>] "
  unfoldable pub ids : List ℕ → ℕ → List ℕ → ℕ → List ℕ
  ids process_name pid module_name tid =
      codes " ["
      ++ (until_nul process_name
          ++ (58
              ∷ (to_string pid
                  ++ (codes "] ["
                      ++ (until_nul module_name ++ (58 ∷ (to_string tid ++ codes "] ")))))))

  unfoldable pub simple_entry : Place l → Level → ℕ → ℕ → ℕ → Snapshot → List ℕ
  simple_entry w level timestamp tid pid s =
      let tm = w.local_time (timestamp / 1000000000) in
      buffered 16 (91 ∷ (clock tm ++ (93 ∷ [])))
      ++ (colored_level level
          ++ (codes " ["
              ++ (shown_process w pid
                  ++ (codes "] ["
                      ++ (shown_module w tid ++ (codes "] " ++ format_all w.printer w.memory s))))))

  unfoldable pub full_entry : Place l → Level → ℕ → ℕ → ℕ → Snapshot → List ℕ
  full_entry w level timestamp tid pid s =
      let tm = w.local_time (timestamp / 1000000000) in
      let millis = (timestamp % 1000000000) / 1000000 in
      let own_pid = if pid == 0 then w.self_pid else pid in
      let own_tid = if tid == 0 then w.self_tid else tid in
      buffered 16 (91 ∷ (clock tm ++ (46 ∷ (zero_padded 3 millis ++ (93 ∷ [])))))
      ++ (colored_level level
          ++ (buffered 64 (ids (shown_process w pid) own_pid (shown_module w tid) own_tid)
              ++ format_all w.printer w.memory s))

  unfoldable pub file_entry : Place l → Level → ℕ → ℕ → ℕ → Snapshot → List ℕ
  file_entry w level timestamp tid pid s =
      let tm = w.local_time (timestamp / 1000000000) in
      let nanos = timestamp % 1000000000 in
      let own_pid = if pid == 0 then w.self_pid else pid in
      let own_tid = if tid == 0 then w.self_tid else tid in
      buffered 40 (91 ∷ (date tm ++ (32 ∷ (clock tm ++ (46 ∷ (zero_padded 9 nanos ++ (93 ∷ [])))))))
      ++ (codes " ["
          ++ (short_name level
              ++ (93
                  ∷ (buffered 64 (ids (shown_process w pid) own_pid (shown_module w tid) own_tid)
                      ++ format_all w.printer w.memory s))))

  abbrev pub with_header : (Level → ℕ → ℕ → ℕ → Snapshot → List ℕ) → Format
  with_header entry = record {
    needs_timestamp = true;
    needs_thread_id = true;
    needs_process_id = true;
    format_fields = entry;
  }

  unfoldable pub simple_format : Place l → Format
  simple_format w = with_header (simple_entry w)

  unfoldable pub full_format : Place l → Format
  full_format w = with_header (full_entry w)

  unfoldable pub file_format : Place l → Format
  file_format w = with_header (file_entry w)
