-- ===== src/Logging.antt =====
-- core/logging.go, and `LogIntentMessage` of core/negotiation.go: the audit log.
pub mod Entries
use agent_semantic_protocol.Common.{
  ℕ, ◌<◌, Option, none, some, List, [], ◌∷◌, ◌++◌, Bytes, codes, length, take, ltb, get_elem?, set,
  if◌then◌else◌,
}
use agent_semantic_protocol.Common.Outcome.{message, Error, Result, ok, err, panic, wrap, wrapping}
use agent_semantic_protocol.Wire.Maps.{Assoc, get, put}
use agent_semantic_protocol.Messages.Types.{IntentMessage}
use agent_semantic_protocol.Negotiation.{bracketed}

-- An `*os.File`, opened for appending, or closed.
pub data LogFile : Type 0 where
  opened : Bytes → LogFile
  closed : LogFile

-- The files, by path, and the file of each logger: a pointer to a logger is its place in the list.
pub record Logs : Type 0 where
  pub files : Assoc Bytes
  pub loggers : List LogFile

abbrev pub contents : Option Bytes → Bytes
contents none = []
contents (some b) = b

abbrev pub error_of : Option Error → Result (Unit {0})
error_of none = ok tt
error_of (some e) = err e

-- `os.OpenFile` creates a file that is missing and leaves one that is there; `failed` is its error.
unfoldable pub new_logger : Option Error → Bytes → Logs → Logs × Result ℕ
new_logger (some e) path logs = (logs, err (wrap "failed to open log file: %w" e))
new_logger none path logs = (
  record {
    files = put path (contents (get path logs.files)) logs.files;
    loggers = logs.loggers ++ (opened path ∷ []);
  },
  ok (length logs.loggers),
)

abbrev pub log_line : Bytes → Bytes → Bytes → Bytes → Bytes
log_line stamp id type details =
    stamp
    ++ (codes " | ID: "
        ++ (id ++ (codes " | Type: " ++ (type ++ (codes " | Details: " ++ details)))))

abbrev pub log_entry : Bytes → Bytes → Bytes → Bytes → Bytes
log_entry stamp id type details = log_line stamp id type details ++ (0x0a ∷ [])

-- The system takes `n` bytes of the text, and reports an error
-- if these are not all.
unfoldable pub write_string : ℕ → Bytes → Bytes → Logs → Logs × Option Error
write_string n path text logs = (
  record logs { files = put path (contents (get path logs.files) ++ take n text) logs.files },
  if ltb n (length text) then some (message "write") else none,
)

-- A logger that is nowhere is a nil pointer.
abbrev pub log_to : ℕ → Bytes → Option LogFile → Logs → Logs × Result (Unit {0})
log_to n text none logs = (logs, panic)
log_to n text (some closed) logs =
    (logs, err (wrap "failed to write log entry: %w" (message "file already closed")))
log_to n text (some (opened path)) logs =
    let (logs', e) = write_string n path text logs in
    (logs', wrapping "failed to write log entry: %w" (error_of e))

-- `stamp` is `time.Now().Format(time.RFC3339)`.
unfoldable pub log_message : Bytes → ℕ → ℕ → Bytes → Bytes → Bytes → Logs → Logs × Result (Unit {0})
log_message stamp n logger id type details logs =
    log_to n (log_entry stamp id type details) (get_elem? logs.loggers logger) logs

abbrev pub intent_details : IntentMessage → Bytes
intent_details m =
    codes "Capabilities: " ++ (bracketed m.capabilities ++ (codes ", Payload: " ++ m.payload))

abbrev pub log_intent_to : Bytes → ℕ → IntentMessage → Option ℕ → Logs → Logs × Result (Unit {0})
log_intent_to stamp n m none logs = (logs, ok tt)
log_intent_to stamp n m (some logger) logs =
    let (logs', r) =
      log_message stamp n logger m.id (codes "IntentMessage") (intent_details m) logs in
    (logs', wrapping "failed to log intent message: %w" r)

unfoldable pub log_intent_message : Bytes → ℕ → IntentMessage → Logs → Logs × Result (Unit {0})
log_intent_message stamp n m logs = log_intent_to stamp n m m.logger logs

abbrev pub close_at : Option Error → ℕ → Option LogFile → Logs → Logs × Result (Unit {0})
close_at e logger none logs = (logs, panic)
close_at e logger (some closed) logs = (logs, err (message "file already closed"))
close_at e logger (some (opened path)) logs =
    (record logs { loggers = set logs.loggers logger closed }, error_of e)

-- `Close`; `e` is an error that the system reports.
unfoldable pub close : Option Error → ℕ → Logs → Logs × Result (Unit {0})
close e logger logs = close_at e logger (get_elem? logs.loggers logger) logs
