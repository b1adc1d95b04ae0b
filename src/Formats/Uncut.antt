-- ===== src/Formats/Uncut.antt =====
-- The buffers of the formats are large enough for every header
-- (include/oneplog/internal/static_formats.hpp).
use oneplog.Prelude.{
  ℕ, ◌/◌, ◌%◌, ◌<◌, ◌^◌, ◌≡◌, refl, List, [], ◌∷◌, ◌++◌, ◌==◌, if◌then◌else◌, length, length-append,
  to_string, length-to_string, arith,
}
use oneplog.Common.Level.{Level}
use oneplog.Snapshot.Capture.{Snapshot}
use oneplog.Snapshot.Format.{format_all}
use oneplog.NameTable.FixedName.{until_nul}
use oneplog.NameTable.Platform.{LookupTable}
use oneplog.Formats.Text.{codes, zero_padded, buffered}
use oneplog.Formats.Width.{length-format_fixed_width_name, length-zero_padded}
use oneplog.Formats.Clean.{
  IsClean, cons-IsClean, append-IsClean, until_nul-IsClean, to_string-IsClean, zero_padded-IsClean,
  buffered-whole, length-until_nul,
}
use oneplog.Formats.Static.{
  Tm, Place, clock, date, short_name, shown_process, shown_module, colored_level, ids, full_entry,
  file_entry,
}

-- The fields that `localtime_r` gives for a date before the year 10000.
pub record IsCalendar (tm : Tm) : Type 0 where
  pub years : tm.year < 10000
  pub months : tm.month < 100
  pub days : tm.day < 100
  pub hours : tm.hour < 100
  pub minutes : tm.minute < 100
  pub seconds : tm.second < 100

pair_of_digits : (n : ℕ) → n < 100 → length (zero_padded 2 n) ≡ 2
pair_of_digits n h = length-zero_padded 2 n (omega arith) (omega (arith, h))

length-clock : (tm : Tm) → IsCalendar tm → length (clock tm) ≡ 8
length-clock tm c =
    let h = pair_of_digits tm.hour c.hours in
    let m = pair_of_digits tm.minute c.minutes in
    let s = pair_of_digits tm.second c.seconds in
    let tail = length-append (zero_padded 2 tm.minute) (58 ∷ zero_padded 2 tm.second) in
    let whole =
      length-append (zero_padded 2 tm.hour)
        (58 ∷ (zero_padded 2 tm.minute ++ (58 ∷ zero_padded 2 tm.second))) in
    omega (arith, h, m, s, tail, whole)

length-date : (tm : Tm) → IsCalendar tm → length (date tm) ≡ 10
length-date tm c =
    let y = length-zero_padded 4 tm.year (omega arith) (omega (arith, c.years)) in
    let m = pair_of_digits tm.month c.months in
    let d = pair_of_digits tm.day c.days in
    let tail = length-append (zero_padded 2 tm.month) (45 ∷ zero_padded 2 tm.day) in
    let whole =
      length-append (zero_padded 4 tm.year)
        (45 ∷ (zero_padded 2 tm.month ++ (45 ∷ zero_padded 2 tm.day))) in
    omega (arith, y, m, d, tail, whole)

clock-IsClean : (tm : Tm) → IsClean (clock tm)
clock-IsClean tm = append-IsClean (zero_padded 2 tm.hour) _ (zero_padded-IsClean 2 tm.hour) (
    cons-IsClean 58 _ refl (
      append-IsClean (zero_padded 2 tm.minute) _ (zero_padded-IsClean 2 tm.minute)
        (cons-IsClean 58 _ refl (zero_padded-IsClean 2 tm.second))))

date-IsClean : (tm : Tm) → IsClean (date tm)
date-IsClean tm = append-IsClean (zero_padded 4 tm.year) _ (zero_padded-IsClean 4 tm.year) (
    cons-IsClean 45 _ refl (
      append-IsClean (zero_padded 2 tm.month) _ (zero_padded-IsClean 2 tm.month)
        (cons-IsClean 45 _ refl (zero_padded-IsClean 2 tm.day))))

-- "[HH:MM:SS.mmm]" fits in 15 characters.
full_time-whole :
    (tm : Tm) (nanos : ℕ)
    → IsCalendar tm
    → nanos < 1000000000
    → (let time = 91 ∷ (clock tm ++ (46 ∷ (zero_padded 3 (nanos / 1000000) ++ (93 ∷ [])))) in
        buffered 16 time ≡ time)
full_time-whole tm nanos c h =
    let millis = zero_padded 3 (nanos / 1000000) in
    let clock_size = length-clock tm c in
    let size = length-append (clock tm) (46 ∷ (millis ++ (93 ∷ []))) in
    let millis_size = length-zero_padded 3 (nanos / 1000000) (omega arith) (omega (arith, h)) in
    let tail = length-append millis (93 ∷ []) in
    buffered-whole 16 (91 ∷ (clock tm ++ (46 ∷ (millis ++ (93 ∷ [])))))
      (omega (arith, clock_size, size, millis_size, tail))
      (cons-IsClean 91 _ refl (
        append-IsClean (clock tm) _ (clock-IsClean tm) (
          cons-IsClean 46 _ refl (
            append-IsClean millis (93 ∷ []) (zero_padded-IsClean 3 (nanos / 1000000))
              (λ rest. refl)))))

-- "[YYYY-MM-DD HH:MM:SS.nnnnnnnnn]" fits in 39 characters.
file_time-whole :
    (tm : Tm) (nanos : ℕ)
    → IsCalendar tm
    → nanos < 1000000000
    → (let time =
          91 ∷ (date tm ++ (32 ∷ (clock tm ++ (46 ∷ (zero_padded 9 nanos ++ (93 ∷ [])))))) in
        buffered 40 time ≡ time)
file_time-whole tm nanos c h =
    let fraction = zero_padded 9 nanos in
    let end_of_time = clock tm ++ (46 ∷ (fraction ++ (93 ∷ []))) in
    let clock_size = length-clock tm c in
    let date_size = length-date tm c in
    let size = length-append (date tm) (32 ∷ end_of_time) in
    let end_size = length-append (clock tm) (46 ∷ (fraction ++ (93 ∷ []))) in
    let fraction_size = length-zero_padded 9 nanos (omega arith) (omega (arith, h)) in
    let tail = length-append fraction (93 ∷ []) in
    buffered-whole 40 (91 ∷ (date tm ++ (32 ∷ end_of_time)))
      (omega (arith, clock_size, date_size, size, end_size, fraction_size, tail))
      (cons-IsClean 91 _ refl (
        append-IsClean (date tm) _ (date-IsClean tm) (
          cons-IsClean 32 _ refl (
            append-IsClean (clock tm) _ (clock-IsClean tm) (
              cons-IsClean 46 _ refl (
                append-IsClean fraction (93 ∷ []) (zero_padded-IsClean 9 nanos) (λ rest. refl)))))))

-- The ids with names of fixed width fit in 63 characters.
module _ (l : LookupTable 31) where
  ids-IsClean : (p : List ℕ) (pid : ℕ) (m : List ℕ) (tid : ℕ) → IsClean (ids l p pid m tid)
  unfolding ids
  ids-IsClean p pid m tid =
      append-IsClean (codes " [") _ (λ rest. refl)
        (append-IsClean (until_nul p) _ (until_nul-IsClean p) (
          cons-IsClean 58 _ refl (
            append-IsClean (to_string pid) _ (to_string-IsClean pid) (
              append-IsClean (codes "] [") _ (λ rest. refl)
                (append-IsClean (until_nul m) _ (until_nul-IsClean m) (
                  cons-IsClean 58 _ refl (
                    append-IsClean (to_string tid) (codes "] ") (to_string-IsClean tid)
                      (λ rest. refl))))))))

  length-ids :
      (p : List ℕ) (pid : ℕ) (m : List ℕ) (tid : ℕ)
      → length p ≡ 6
      → length m ≡ 6
      → pid < 2 ^ 32
      → tid < 2 ^ 32
      → length (ids l p pid m tid) < 64
  unfolding ids
  length-ids p pid m tid hp hm hpid htid =
      let p_size = length-until_nul p in
      let m_size = length-until_nul m in
      let pid_size = length-to_string 10 pid (omega arith) (omega (arith, hpid)) in
      let tid_size = length-to_string 10 tid (omega arith) (omega (arith, htid)) in
      let part4 = length-append (to_string tid) (codes "] ") in
      let part3 = length-append (until_nul m) (58 ∷ (to_string tid ++ codes "] ")) in
      let part2 =
        length-append (to_string pid)
          (codes "] [" ++ (until_nul m ++ (58 ∷ (to_string tid ++ codes "] ")))) in
      let part1 = length-append (until_nul p) (
        58
        ∷ (to_string pid
            ++ (codes "] [" ++ (until_nul m ++ (58 ∷ (to_string tid ++ codes "] ")))))) in
      omega (arith, p_size, m_size, pid_size, tid_size, part1, part2, part3, part4)

  -- With a time before the year 10000 and ids of 32 bits, the headers of `FullFormat` and `FileFormat`
  -- come out whole: the line is the time, the level, the names with their ids and the message, and no
  -- buffer cuts any of them.
  pub full_entry-uncut :
      (w : Place l) (level : Level) (timestamp tid pid : ℕ) (s : Snapshot)
      → IsCalendar (w.local_time (timestamp / 1000000000))
      → pid < 2 ^ 32
      → tid < 2 ^ 32
      → w.self_pid < 2 ^ 32
      → w.self_tid < 2 ^ 32
      → (let tm = w.local_time (timestamp / 1000000000) in
          let nanos = timestamp % 1000000000 in
          let own_pid = if pid == 0 then w.self_pid else pid in
          let own_tid = if tid == 0 then w.self_tid else tid in
          let end =
            ids l (shown_process l w pid) own_pid (shown_module l w tid) own_tid
            ++ format_all w.printer w.memory s in
          (full_entry l w level timestamp tid pid s
            ≡ (91 ∷ (clock tm ++ (46 ∷ (zero_padded 3 (nanos / 1000000) ++ (93 ∷ [])))))
              ++ (colored_level l level ++ end))
          × (file_entry l w level timestamp tid pid s
              ≡ (91 ∷ (date tm ++ (32 ∷ (clock tm ++ (46 ∷ (zero_padded 9 nanos ++ (93 ∷ [])))))))
                ++ (codes " [" ++ (short_name level ++ (93 ∷ end)))))
  unfolding full_entry file_entry shown_process shown_module
  full_entry-uncut w level timestamp tid pid s c hpid htid hself hthread =
      let tm = w.local_time (timestamp / 1000000000) in
      let nanos = timestamp % 1000000000 in
      let own_pid = if pid == 0 then w.self_pid else pid in
      let own_tid = if tid == 0 then w.self_tid else tid in
      let names_fit =
        buffered-whole 64 (ids l (shown_process l w pid) own_pid (shown_module l w tid) own_tid)
          (length-ids (shown_process l w pid) own_pid (shown_module l w tid) own_tid
            (length-format_fixed_width_name _) (length-format_fixed_width_name _) (ground arith)
            (ground arith))
          (ids-IsClean (shown_process l w pid) own_pid (shown_module l w tid) own_tid) in
      (
        rw (full_time-whole tm nanos c (omega arith), names_fit) refl,
        rw (file_time-whole tm nanos c (omega arith), names_fit) refl,
      )
