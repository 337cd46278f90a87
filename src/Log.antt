-- ===== src/Log.antt =====
-- utils.c: `log_message`, and the line that `console_log_command` of nfs_console.c writes. The
-- timestamp is the text that `get_timestamp` writes from the clock, a parameter.
use nfs_system.Base.{List, [], ◌∷◌, ◌++◌, Bool, true, false}
use nfs_system.Text.{Bytes, codes}
use nfs_system.Net.{bounded}
use nfs_system.Spec.{max_buffer_size}

-- The format with its arguments: NULL, one that `vsnprintf` refuses, or a text.
pub data Message : Type 0 where
  no_format refused : Message
  formatted : Bytes → Message

-- What is written to the standard output and to the log.
pub record Written : Type 0 where
  pub output : List Bytes
  pub logged : List Bytes

unfoldable pub stamped : Bytes → Bytes → Bytes
stamped timestamp text = codes "[" ++ (timestamp ++ (codes "] " ++ (text ++ codes "\n")))

-- The text is cut to the buffer. `has_log` says that `logfile` is not NULL.
unfoldable pub log_message : Bytes → Bool → Message → Written
log_message timestamp has_log no_format = record { output = []; logged = [] }
log_message timestamp has_log refused = record { output = []; logged = [] }
log_message timestamp true (formatted text) =
    let line = stamped timestamp (bounded max_buffer_size text) in
    record { output = line ∷ []; logged = line ∷ [] }
log_message timestamp false (formatted text) = record {
  output = stamped timestamp (bounded max_buffer_size text) ∷ [];
  logged = [];
}
