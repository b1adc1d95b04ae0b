-- ===== src/Formats/Tests.antt =====
-- Lines of the formats with a header, on Linux (include/oneplog/internal/static_formats.hpp).
use oneplog.Prelude.{◌≡◌, refl, List, [], ◌∷◌, ◌++◌, to_string, arith}
use oneplog.Common.Level.{info, sync}
use oneplog.Snapshot.Capture.{Snapshot, new_snapshot}
use oneplog.Snapshot.Format.{Printer, format_all}
use oneplog.NameTable.Platform.{direct_table}
use oneplog.NameManager.Global.{new_global, initialize}
use oneplog.NameManager.Lookup.{Naming, set_name, named_all}
use oneplog.Formats.Text.{codes, zero_padded, format_fixed_width_name}
use oneplog.Formats.Static.{
  Tm, Place, clock, date, short_name, shown_process, shown_module, colored_level, ids, full_entry,
  file_entry,
}
use oneplog.Formats.Uncut.{full_entry-uncut}

abbrev printer : Printer
printer = record {
  print_int32 = to_string;
  print_int64 = to_string;
  print_uint32 = to_string;
  print_uint64 = to_string;
  print_float = to_string;
  print_double = to_string;
  print_pointer = to_string;
}

abbrev noon : Tm
noon = record { year = 2024; month = 2; day = 9; hour = 12; minute = 0; second = 7 }

abbrev namings : List Naming
namings = set_name 5 (110 ∷ 101 ∷ 116 ∷ []) ∷ []

abbrev place : Place (direct_table 31)
place = record {
  printer = printer;
  memory = λ _. 0;
  local_time = λ _. noon;
  names =
      named_all (direct_table 31) namings
        (initialize (direct_table 31) sync (new_global (direct_table 31)));
  self_pid = 300;
  self_tid = 5;
}

abbrev snapshot : Snapshot
snapshot = new_snapshot (λ _. 0)

time_of_day : clock noon ≡ codes "12:00:07"
unfolding zero_padded to_string
time_of_day = refl

centred : format_fixed_width_name (codes "net") ≡ codes " net  "
unfolding format_fixed_width_name
centred = refl

full_entry-uncut_example :
    (let end =
        ids
          (direct_table 31)
          (shown_process (direct_table 31) place 0)
          300
          (shown_module (direct_table 31) place 0)
          5
        ++ format_all printer (λ _. 0) snapshot in
      (full_entry (direct_table 31) place info 1000000 0 0 snapshot
        ≡ (91 ∷ (clock noon ++ (46 ∷ (zero_padded 3 1 ++ (93 ∷ [])))))
          ++ (colored_level (direct_table 31) info ++ end))
      × (file_entry (direct_table 31) place info 1000000 0 0 snapshot
          ≡ (91 ∷ (date noon ++ (32 ∷ (clock noon ++ (46 ∷ (zero_padded 9 1000000 ++ (93 ∷ [])))))))
            ++ (codes " [" ++ (short_name info ++ (93 ∷ end)))))
full_entry-uncut_example =
    full_entry-uncut (direct_table 31) place info 1000000 0 0 snapshot
      (record {
        years = omega arith;
        months = omega arith;
        days = omega arith;
        hours = omega arith;
        minutes = omega arith;
        seconds = omega arith;
      })
      (omega arith) (omega arith) (omega arith) (omega arith)
