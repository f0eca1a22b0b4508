-- ===== src/Intake/Scope/Numbered.antt =====
-- The records of a transaction's program data, and their coordinates (apps/server/src/jobs/intake.rs).
use mathlib.Core.List.{append_assoc, append-nil}
use soldisco.Prelude.{
  ℕ, ◌+◌, ◌≤◌, ◌<◌, String, Option, List, [], ◌∷◌, ◌++◌, true, false, ◌==◌, ==_iff, ltb, length,
  map, Result, ok, ◌>>=◌, Bool-cases, inl, inr, ◌≡◌, refl, sym, ◌∙◌, ap, subst, arith,
}
use soldisco.Prelude.Text.{is_blank}
use soldisco.Intake.Lines.{LogLine, invoke, exits, line_of}
use soldisco.Intake.Scope.{
  ScopedProgramData, LogScopeError, Records, no_records, event_index_at, push_event, walk,
  scope_program_data_logs,
}
use soldisco.Intake.Scope.Nested.{
  Happenings, done, emits, remarks, calls, lines_of, instructions_of, count, own_data,
  own_data_from, numbered, push_all, step, nested, walk_exit, bind_ext, bind_assoc, push_all-append,
}

count_le : (i : ℕ) (before : List ℕ) → count i before ≤ length before
count_le i [] = omega arith
count_le i (j ∷ before) = ground (arith, count_le i before)

-- The event index at an instruction is the number of its logs so far.
abbrev Counts : List (ℕ × ℕ) → List ℕ → Type 0
Counts indexes before = (i : ℕ) → event_index_at i indexes ≡ count i before

Counts-next :
    (indexes : List (ℕ × ℕ)) (before : List ℕ) (i : ℕ)
    → Counts indexes before
    → Counts ((i, event_index_at i indexes + 1) ∷ indexes) (i ∷ before)
Counts-next indexes before i h j = elim (Bool-cases (i == j)) [
  | inl same ↦
      let e : i ≡ j = (==_iff i j).0 same in
      rw same
        (subst (λ k. event_index_at i indexes + 1 ≡ count k before + 1) e (omega (arith, h i)))
  | inr differs ↦ rw differs (h j)
]

module _ (program_id : String) (slot : ℕ) (transaction_index : Option ℕ) (signature : String) where
  record_at : ℕ → String → ℕ → ScopedProgramData
  record_at i log n = record {
    coordinate = record {
      slot = slot;
      transaction_index = transaction_index;
      signature = signature;
      instruction_index = i;
      event_index = n;
    };
    log = log;
  }

  pushed : Records → ℕ → String → Records
  pushed self i log = record {
    event_indexes = (i, event_index_at i self.event_indexes + 1) ∷ self.event_indexes;
    scoped = self.scoped ++ (record_at i log (event_index_at i self.event_indexes) ∷ []);
  }

  push_all-numbered :
      (es : List (ℕ × String)) (self : Records) (before : List ℕ)
      → Counts self.event_indexes before
      → length before + length es ≤ 65535
      → (push_all program_id slot transaction_index signature self es
          >>= (λ after. ok after.scoped))
        ≡ ok (self.scoped ++ numbered program_id slot transaction_index signature before es)
  unfolding push_all push_event record_at pushed
  push_all-numbered [] self before counts small = ap ok (sym (append-nil self.scoped))
  push_all-numbered ((i, log) ∷ es) self before counts small =
      let room : ltb (event_index_at i self.event_indexes) 65535 ≡ true =
        ground (arith, counts i, count_le i before) in
      let later = numbered program_id slot transaction_index signature (i ∷ before) es in
      rw room (
        push_all-numbered es (pushed self i log) (i ∷ before)
          (Counts-next self.event_indexes before i counts) (omega (arith, small))
        ∙ ap ok (
            append_assoc self.scoped (record_at i log (event_index_at i self.event_indexes) ∷ [])
              later
            ∙ ap (λ n. self.scoped ++ (record_at i log n ∷ later)) (counts i)))

  walk_instruction :
      (program : String) (next : ℕ) (self : Records) (lines : List LogLine)
      → next < 65535
      → step program_id slot transaction_index signature [] next self (invoke program 1 ∷ lines)
        ≡ step program_id slot transaction_index signature
            ((program, next) ∷ [])
            (next + 1)
            self
            lines
  unfolding walk step
  walk_instruction program next self lines h =
      let small : ltb next 65535 ≡ true = ground arith in rw small refl

  pushes : Records → List (ℕ × String) → Result LogScopeError Records
  pushes = push_all program_id slot transaction_index signature

  walk_all :
      (h : Happenings) (next : ℕ) (self : Records)
      → next + instructions_of h ≤ 65535
      → step program_id slot transaction_index signature [] next self (lines_of 1 h) ≡ (
          push_all program_id slot transaction_index signature self
            (own_data_from program_id next h)
          >>= (λ after. ok after.scoped))
  unfolding walk step push_all pushes
  walk_all done next self small = refl
  walk_all (emits log later) next self small = walk_all later next self small
  walk_all (remarks log later) next self small = walk_all later next self small
  walk_all (calls program succeeded inner later) next self small =
      walk_instruction program next self
        (lines_of 2 inner ++ (exits program succeeded ∷ lines_of 1 later)) (omega arith)
      ∙ nested program_id slot transaction_index signature inner program next 2 [] (next + 1) self
          (exits program succeeded ∷ lines_of 1 later) (omega arith)
      ∙ bind_ext program_id slot transaction_index signature
          (pushes self (own_data program_id program next inner)) _ _
          (λ after.
            walk_exit program_id slot transaction_index signature program next succeeded []
              (next + 1) after (lines_of 1 later)
            ∙ walk_all later (next + 1) after (omega arith))
      ∙ sym (
          bind_assoc program_id slot transaction_index signature
            (pushes self (own_data program_id program next inner)) _ _)
      ∙ ap (λ (o : Result LogScopeError Records). o >>= (λ after. ok after.scoped))
          (sym (
            push_all-append program_id slot transaction_index signature self
              (own_data program_id program next inner) (own_data_from program_id (next + 1) later)))

  -- Of the logs of properly nested invocations, with at most 65535 top-level instructions and 65535 data logs
  -- of the program, exactly the data logs made while the program is the active one are kept, in order, each
  -- with the index of its top-level instruction and its place among the kept logs of that instruction.
  pub scope_program_data_logs-numbered :
      (logs : List String) (h : Happenings)
      → is_blank signature ≡ false
      → map line_of logs ≡ lines_of 1 h
      → instructions_of h ≤ 65535
      → length (own_data_from program_id 0 h) ≤ 65535
      → scope_program_data_logs program_id slot transaction_index signature logs
        ≡ ok
            (numbered program_id slot transaction_index signature [] (own_data_from program_id 0 h))
  unfolding scope_program_data_logs step
  scope_program_data_logs-numbered logs h signed rendered few_instructions few_events =
      rw (signed, rendered)
        (walk_all h 0 no_records (omega arith)
          ∙ push_all-numbered (own_data_from program_id 0 h) no_records [] (λ i. refl)
              (omega arith))
