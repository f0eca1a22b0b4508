-- ===== src/Intake/Scope.antt =====
-- apps/server/src/jobs/intake.rs: `scope_program_data_logs`. The stack of invocations stands top first; the
-- map of event indexes is an association list in which a key is found by its first entry.
pub mod Nested
pub mod Numbered
use text.Mathlib.Text.{◌==◌ as str_eq}
use soldisco.Prelude.{
  ℕ, zero, suc, ◌+◌, String, Option, none, some, List, [], ◌∷◌, ◌++◌, Bool, true, false, not, ◌&&◌,
  ◌||◌, ◌==◌, ltb, leb, length, map, Result, ok, err, ◌>>=◌, ◌>>◌, reject_if, if◌then◌else◌,
}
use soldisco.Prelude.Text.{is_blank}
use soldisco.Domain.{ChainCoordinate}
use soldisco.Intake.Lines.{LogLine, truncation, invoke, exits, program_data, other, line_of}

pub record ScopedProgramData : Type 0 where
  pub coordinate : ChainCoordinate
  pub log : String

pub data LogScopeError : Type 0 where
  empty_signature truncated_logs : LogScopeError
  invalid_invocation_depth unclosed_invocations too_many_instructions too_many_events :
      ℕ → LogScopeError
  unexpected_program_exit : String → LogScopeError

-- The active invocations: the program and the top-level instruction of each.
abbrev pub Stack : Type 0
Stack = List (String × ℕ)

-- The event indexes of the instructions and the records so far.
pub record Records : Type 0 where
  pub event_indexes : List (ℕ × ℕ)
  pub scoped : List ScopedProgramData

abbrev pub no_records : Records
no_records = record { event_indexes = []; scoped = [] }

-- event_indexes.entry(instruction_index).or_default()
abbrev pub event_index_at : ℕ → List (ℕ × ℕ) → ℕ
event_index_at instruction [] = 0
event_index_at instruction ((i, n) ∷ rest) =
    let later = event_index_at instruction rest in if i == instruction then n else later

module _ (program_id : String) (slot : ℕ) (transaction_index : Option ℕ) (signature : String) where
  -- A log of the program's own, in an instruction.
  unfoldable pub push_event : Records → ℕ × String → Result LogScopeError Records
  push_event self (instruction_index, log) =
      let event_index = event_index_at instruction_index self.event_indexes in
      reject_if (not (ltb event_index 65535)) (too_many_events 65535)
      >> ok (record {
        event_indexes = (instruction_index, event_index + 1) ∷ self.event_indexes;
        scoped =
            self.scoped
            ++ (record {
              coordinate = record {
                slot = slot;
                transaction_index = transaction_index;
                signature = signature;
                instruction_index = instruction_index;
                event_index = event_index;
              };
              log = log;
            }
                ∷ []);
      })

  abbrev is_active : Stack → String → Bool
  is_active [] program = false
  is_active ((active, i) ∷ stack) program = str_eq active program

  abbrev pub pop : Stack → Stack
  pop [] = []
  pop (top ∷ stack) = stack

  abbrev pub emit : Stack → Records → String → Result LogScopeError Records
  emit [] self log = ok self
  emit ((active, i) ∷ stack) self log =
      if str_eq active program_id then push_event self (i, log) else ok self

  -- The instruction of an invocation and the next instruction: depth one begins a new one.
  abbrev pub instruction_of : Stack → ℕ → Result LogScopeError (ℕ × ℕ)
  instruction_of [] next =
      reject_if (not (ltb next 65535)) (too_many_instructions 65535) >> ok (next, next + 1)
  instruction_of ((active, i) ∷ stack) next = ok (i, next)

  -- The loop over the lines.
  unfoldable pub walk :
      Stack → ℕ → Records → List LogLine → Result LogScopeError (List ScopedProgramData)
  walk stack next self [] =
      reject_if (not (length stack == 0)) (unclosed_invocations (length stack)) >> ok self.scoped
  walk stack next self (truncation ∷ lines) = err truncated_logs
  walk stack next self (invoke program depth ∷ lines) = do
    reject_if (not (depth == length stack + 1)) (invalid_invocation_depth depth)
    (instruction, after) ← instruction_of stack next
    walk ((program, instruction) ∷ stack) after self lines
  walk stack next self (exits program succeeded ∷ lines) = do
    reject_if (not (is_active stack program)) (unexpected_program_exit program)
    walk (pop stack) next self lines
  walk stack next self (program_data log ∷ lines) = do
    after ← emit stack self log
    walk stack next after lines
  walk stack next self (other log ∷ lines) = walk stack next self lines

  unfoldable pub scope_program_data_logs :
      List String → Result LogScopeError (List ScopedProgramData)
  scope_program_data_logs logs = do
    reject_if (is_blank signature) empty_signature
    walk [] 0 no_records (map line_of logs)
