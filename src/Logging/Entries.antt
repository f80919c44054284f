-- ===== src/Logging/Entries.antt =====
-- core/logging.go: what the log files hold after some calls.
use agent_semantic_protocol.Common.{
  ℕ, zero, suc, ◌≤◌, ◌≡◌, refl, sym, ap, ◌∙◌, Option, none, some, List, [], ◌∷◌, ◌++◌, Bytes, codes,
  length, length-append, take, get_elem?, arith, append-nil, append_assoc, Bool-cases, inl, inr,
  bytes_eq, bytes_eq→eq,
}
use mathlib.Core.Path.{subst}
use agent_semantic_protocol.Common.Outcome.{Error}
use agent_semantic_protocol.Wire.Maps.{Assoc, get, put, get-put, get-put_self}
use agent_semantic_protocol.Messages.Types.{IntentMessage}
use agent_semantic_protocol.Logging.{
  LogFile, opened, closed, Logs, contents, close_at, close, new_logger, write_string, log_line,
  log_entry, log_to, log_intent_to, log_message, intent_details, log_intent_message,
}

-- The calls that touch the files.
pub data LogCall : Type 0 where
  opens : Option Error → Bytes → LogCall
  logs_message : Bytes → ℕ → ℕ → Bytes → Bytes → Bytes → LogCall
  logs_intent : Bytes → ℕ → IntentMessage → LogCall
  closes : Option Error → ℕ → LogCall

unfoldable pub log_call : LogCall → Logs → Logs
log_call (opens e path) logs = (new_logger e path logs).0
log_call (logs_message stamp n logger id type details) logs =
    (log_message stamp n logger id type details logs).0
log_call (logs_intent stamp n m) logs = (log_intent_message stamp n m logs).0
log_call (closes e logger) logs = (close e logger logs).0

unfoldable pub log_calls : List LogCall → Logs → Logs
log_calls [] logs = logs
log_calls (call ∷ calls) logs = log_calls calls (log_call call logs)

abbrev pub file : Bytes → Logs → Bytes
file path logs = contents (get path logs.files)

-- The first text, and more behind it.
abbrev pub Extends : Bytes → Bytes → Type 0
Extends b b' = (more : Bytes) × (b' ≡ b ++ more)

Extends-refl : (b : Bytes) → Extends b b
Extends-refl b = ([], sym (append-nil b))

Extends-trans : (a b c : Bytes) → Extends a b → Extends b c → Extends a c
Extends-trans a b c (m, e) (m', e') =
    (m ++ m', e' ∙ ap (λ (x : Bytes). x ++ m') e ∙ append_assoc a m m')

Extends-put :
    (path at more : Bytes) (files : Assoc Bytes)
    → Extends
        (contents (get path files))
        (contents (get path (put at (contents (get at files) ++ more) files)))
Extends-put path at more files = elim (Bool-cases (bytes_eq at path)) [
  | inl same ↦
      rw (get-put, same)
        (more, ap (λ (p : Bytes). contents (get p files) ++ more) (bytes_eq→eq at path same))
  | inr other ↦ rw (get-put, other) (Extends-refl (contents (get path files)))
]

new_logger-Extends :
    (e : Option Error) (at path : Bytes) (logs : Logs)
    → Extends (file path logs) (file path (new_logger e at logs).0)
unfolding new_logger
new_logger-Extends (some e) at path logs = Extends-refl (file path logs)
new_logger-Extends none at path logs =
    subst (λ (b : Bytes). Extends (file path logs) (contents (get path (put at b logs.files))))
      (append-nil (contents (get at logs.files))) (Extends-put path at [] logs.files)

log_to-Extends :
    (n : ℕ) (text path : Bytes) (at : Option LogFile) (logs : Logs)
    → Extends (file path logs) (file path (log_to n text at logs).0)
unfolding write_string
log_to-Extends n text path none logs = Extends-refl (file path logs)
log_to-Extends n text path (some closed) logs = Extends-refl (file path logs)
log_to-Extends n text path (some (opened at)) logs = Extends-put path at (take n text) logs.files

log_intent_to-Extends :
    (stamp path : Bytes) (n : ℕ) (m : IntentMessage) (logger : Option ℕ) (logs : Logs)
    → Extends (file path logs) (file path (log_intent_to stamp n m logger logs).0)
unfolding log_message
log_intent_to-Extends stamp path n m none logs = Extends-refl (file path logs)
log_intent_to-Extends stamp path n m (some logger) logs = log_to-Extends n _ path _ logs

close_at-Extends :
    (e : Option Error) (logger : ℕ) (path : Bytes) (at : Option LogFile) (logs : Logs)
    → Extends (file path logs) (file path (close_at e logger at logs).0)
close_at-Extends e logger path none logs = Extends-refl (file path logs)
close_at-Extends e logger path (some closed) logs = Extends-refl (file path logs)
close_at-Extends e logger path (some (opened at)) logs = Extends-refl (file path logs)

log_call-Extends :
    (path : Bytes) (call : LogCall) (logs : Logs)
    → Extends (file path logs) (file path (log_call call logs))
unfolding log_call log_message log_intent_message close
log_call-Extends path (opens e at) logs = new_logger-Extends e at path logs
log_call-Extends path (logs_message stamp n logger id type details) logs =
    log_to-Extends n _ path _ logs
log_call-Extends path (logs_intent stamp n m) logs =
    log_intent_to-Extends stamp path n m m.logger logs
log_call-Extends path (closes e logger) logs =
    close_at-Extends e logger path (get_elem? logs.loggers logger) logs

-- The log is only added to: whatever is opened, logged and closed, with writes that fail or stop half way
-- included, what a file held before stands at its front afterwards.
pub log_calls-Extends :
    (path : Bytes) (calls : List LogCall) (logs : Logs)
    → Extends (file path logs) (file path (log_calls calls logs))
unfolding log_calls
log_calls-Extends path [] logs = Extends-refl (file path logs)
log_calls-Extends path (call ∷ calls) logs =
    Extends-trans _ _ _ (log_call-Extends path call logs)
      (log_calls-Extends path calls (log_call call logs))

take-all : (n : ℕ) (b : Bytes) → length b ≤ n → take n b ≡ b
take-all zero [] h = refl
take-all zero (x ∷ b) h = absurd (omega arith)
take-all (suc n) [] h = refl
take-all (suc n) (x ∷ b) h = ap (λ (t : Bytes). x ∷ t) (take-all n b (omega arith))

-- What a write that is whole leaves in the file.
file-log_to :
    (n : ℕ) (text path : Bytes) (logs : Logs)
    → length text ≤ n
    → file path (log_to n text (some (opened path)) logs).0 ≡ file path logs ++ text
unfolding write_string
file-log_to n text path logs h = rw (get-put_self, take-all n text h)

log_entry-split :
    (stamp id type payload front line : Bytes)
    → log_entry stamp id type (front ++ (payload ++ (0x0a ∷ line)))
      ≡ log_entry stamp id type (front ++ payload) ++ (line ++ (0x0a ∷ []))
log_entry-split stamp id type payload front line = simp append_assoc

-- The payload of the intent, a newline, and some line.
abbrev pub with_line : IntentMessage → Bytes → IntentMessage
with_line m line = record m { payload = m.payload ++ (0x0a ∷ line) }

abbrev pub entry_of : Bytes → IntentMessage → Bytes
entry_of stamp m = log_entry stamp m.id (codes "IntentMessage") (intent_details m)

entry_of-with_line :
    (stamp line : Bytes) (m : IntentMessage)
    → entry_of stamp (with_line m line) ≡ entry_of stamp m ++ (line ++ (0x0a ∷ []))
entry_of-with_line stamp line m = simp append_assoc

-- One whole write of two texts, or one of each.
log_to-append :
    (n : ℕ) (b b' path : Bytes) (logs : Logs)
    → length (b ++ b') ≤ n
    → file path (log_to n (b ++ b') (some (opened path)) logs).0
      ≡ file path (log_to n b' (some (opened path)) (log_to n b (some (opened path)) logs).0).0
log_to-append n b b' path logs h =
    file-log_to n (b ++ b') path logs h
    ∙ sym (append_assoc (file path logs) b b')
    ∙ ap (λ (x : Bytes). x ++ b')
        (sym (file-log_to n b path logs (omega (arith, length-append b b'))))
    ∙ sym (
        file-log_to n b' path (log_to n b (some (opened path)) logs).0
          (omega (arith, length-append b b')))

-- A line of the log is no proof of a call: an intent whose payload ends with a newline and the line
-- of some other message leaves the open file as two calls would, the one for the intent with the rest of
-- the payload, and the one for that message, if the writes are whole.
pub log_intent_message_forged :
    (n logger : ℕ) (path stamp stamp' id type details : Bytes) (m : IntentMessage) (logs : Logs)
    → get_elem? logs.loggers logger ≡ some (opened path)
    → m.logger ≡ some logger
    → length (entry_of stamp (with_line m (log_line stamp' id type details))) ≤ n
    → file path (log_intent_message stamp n (with_line m (log_line stamp' id type details)) logs).0
      ≡ file path
          (log_message stamp' n logger id type details (log_intent_message stamp n m logs).0).0
unfolding log_intent_message log_message write_string
log_intent_message_forged n logger path stamp stamp' id type details m logs hl hm h =
    let line = log_line stamp' id type details in
    let split = entry_of-with_line stamp line m in
    let small : length (entry_of stamp m ++ (line ++ (0x0a ∷ []))) ≤ n = rw split at h in
    rw (hm, hl, split)
      (rw hl (log_to-append n (entry_of stamp m) (line ++ (0x0a ∷ [])) path logs small))
