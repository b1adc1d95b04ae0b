-- ===== src/Pipeline/Message.antt =====
-- What the pipeline makes of entries, and what another process prints of them
-- (include/oneplog/internal/pipeline_thread.hpp).
use oneplog.Prelude.{ℕ, ◌+◌, ◌≤◌, ◌<◌, ◌≡◌, refl, ap₂, List, [], ◌∷◌, map, arith, length}
use oneplog.Snapshot.Capture.{Arg, default_buffer_size}
use oneplog.Snapshot.Layout.{AllTyped, Holds, encode_all}
use oneplog.Snapshot.ConvertHolds.{to_copy, AllSafe}
use oneplog.Snapshot.Format.{Printer, format_all}
use oneplog.Snapshot.FormatAll.{IsText}
use oneplog.Snapshot.Transfer.{convert-format_all}
use oneplog.Logger.Entry.{LogEntry}
use oneplog.Pipeline.Forward.{Turn, convert_pointers, add_process_id, forward}

-- What `FormatAll` gives of an entry, in a process with the memory given.
unfoldable pub message : Printer → (ℕ → ℕ) → LogEntry → List ℕ
message p m e = format_all p m e.snapshot

module _ (mem : ℕ → ℕ) where
  -- An entry as the logger makes it, whose arguments fit in a snapshot with their views copied.
  pub record IsPortable (e : LogEntry) : Type 0 where
    pub format : Arg
    pub args : List Arg
    pub holds : Holds e.snapshot (format ∷ args)
    pub typed : AllTyped (format ∷ args)
    pub safe : AllSafe (format ∷ args)
    pub text : IsText format
    pub fits : 2 + length (encode_all (map (to_copy mem) (format ∷ args))) ≤ default_buffer_size

  abbrev pub ArePortable : List LogEntry → Type 0
  ArePortable [] = Unit {0}
  ArePortable (e ∷ es) = IsPortable e × ArePortable es

module _ (mem : ℕ → ℕ) (pid : ℕ) where
  -- The entries forwarded, one turn each.
  unfoldable pub forward_all : List Turn → List LogEntry → List LogEntry
  forward_all (t ∷ turns) (e ∷ es) = forward mem pid t e ∷ forward_all turns es
  forward_all [] es = []
  forward_all (t ∷ turns) [] = []

  pub forward-message :
      (p : Printer) (mem' : ℕ → ℕ) (t : Turn) (e : LogEntry)
      → IsPortable mem e
      → message p mem' (forward mem pid t e) ≡ message p mem e
  unfolding message forward convert_pointers add_process_id
  forward-message p mem' t e h =
      convert-format_all p mem mem' t.junk e.snapshot h.format h.args h.holds h.typed h.safe h.text
        h.fits

  pub forward_all-message :
      (p : Printer) (mem' : ℕ → ℕ) (turns : List Turn) (es : List LogEntry)
      → length es < length turns
      → ArePortable mem es
      → map (message p mem') (forward_all turns es) ≡ map (message p mem) es
  unfolding forward_all
  forward_all-message p mem' [] es l h = absurd (omega (arith, l))
  forward_all-message p mem' (t ∷ turns) [] l h = refl
  forward_all-message p mem' (t ∷ turns) (e ∷ es) l h =
      ap₂ ◌∷◌ (forward-message p mem' t e h.0)
        (forward_all-message p mem' turns es (omega (arith, l)) h.1)
