-- ===== src/Mproc/Messages.antt =====
-- Sinks that print messages (include/oneplog/internal/logger_config.hpp).
use oneplog.Prelude.{ℕ, ◌≡◌, refl, ◌∙◌, ap, List, [], ◌∷◌, map}
use oneplog.Snapshot.Format.{Printer}
use oneplog.Logger.Entry.{LogEntry}
use oneplog.Logger.Sinks.{
  World, SinkType, SinkBinding, sink_write, message_only, format_entry, write_async,
  write_all_async,
}
use oneplog.Logger.Drain.{write_each}
use oneplog.Pipeline.Message.{message}

-- Sinks that print the message alone.
abbrev pub message_bindings : Printer → (ℕ → ℕ) → List SinkType → List SinkBinding
message_bindings p mem [] = []
message_bindings p mem (s ∷ sinks) =
    record { sink = s; format = message_only p mem } ∷ message_bindings p mem sinks

abbrev pub print_one : List SinkType → List ℕ → World → World
print_one [] msg w = w
print_one (s ∷ sinks) msg w = print_one sinks msg (sink_write s msg w)

-- Each message to every sink.
abbrev pub print_each : List SinkType → List (List ℕ) → World → World
print_each sinks [] w = w
print_each sinks (msg ∷ msgs) w = print_each sinks msgs (print_one sinks msg w)

pub write_all_async-message :
    (p : Printer) (mem : ℕ → ℕ) (sinks : List SinkType) (e : LogEntry) (w : World)
    → write_all_async (message_bindings p mem sinks) e w ≡ print_one sinks (message p mem e) w
unfolding write_all_async write_async format_entry message_only message
write_all_async-message p mem [] e w = refl
write_all_async-message p mem (s ∷ sinks) e w =
    write_all_async-message p mem sinks e (sink_write s (message p mem e) w)

pub write_each-message :
    (p : Printer) (mem : ℕ → ℕ) (sinks : List SinkType) (es : List LogEntry) (w : World)
    → write_each (message_bindings p mem sinks) es w ≡ print_each sinks (map (message p mem) es) w
unfolding write_each
write_each-message p mem sinks [] w = refl
write_each-message p mem sinks (e ∷ es) w =
    write_each-message p mem sinks es (write_all_async (message_bindings p mem sinks) e w)
    ∙ ap (print_each sinks (map (message p mem) es)) (write_all_async-message p mem sinks e w)
