-- ===== src/Intake/Scope/Nested.antt =====
-- The walk over the logs of properly nested invocations (apps/server/src/jobs/intake.rs).
use mathlib.Core.List.{append_assoc}
use text.Mathlib.Text.{◌==◌ as str_eq}
use text.Mathlib.TextPositions.{eq_refl}
use soldisco.Prelude.{
  ℕ, suc, ◌+◌, String, Option, List, [], ◌∷◌, ◌++◌, Bool, true, ◌==◌, ==_iff, length, Result, ok,
  err, ◌>>=◌, if◌then◌else◌, Bool-cases, inl, inr, ◌≡◌, refl, sym, ◌∙◌, ap, arith,
}
use soldisco.Intake.Lines.{LogLine, invoke, exits, program_data, other}
use soldisco.Intake.Scope.{ScopedProgramData, LogScopeError, Stack, Records, push_event, walk}

-- What happens during an invocation, or at the top level: logs, and nested invocations with what happens
-- during each.
pub data Happenings : Type 0 where
  done : Happenings
  emits remarks : String → Happenings → Happenings
  calls : String → Bool → Happenings → Happenings → Happenings

-- The lines that it logs, where an invocation made there has the depth.
abbrev pub lines_of : ℕ → Happenings → List LogLine
lines_of depth done = []
lines_of depth (emits log later) = program_data log ∷ lines_of depth later
lines_of depth (remarks log later) = other log ∷ lines_of depth later
lines_of depth (calls program succeeded inner later) =
    invoke program depth
    ∷ (lines_of (suc depth) inner ++ (exits program succeeded ∷ lines_of depth later))

-- The number of top-level invocations.
abbrev pub instructions_of : Happenings → ℕ
instructions_of done = 0
instructions_of (emits log later) = instructions_of later
instructions_of (remarks log later) = instructions_of later
instructions_of (calls program succeeded inner later) = suc (instructions_of later)

abbrev pub count : ℕ → List ℕ → ℕ
count i [] = 0
count i (j ∷ rest) = let n = count i rest in if j == i then n + 1 else n

module _ (program_id : String) where
  -- The program's own data logged while `active` is the active program of an instruction.
  abbrev pub own_data : String → ℕ → Happenings → List (ℕ × String)
  own_data active i done = []
  own_data active i (emits log later) =
      let rest = own_data active i later in
      if str_eq active program_id then (i, log) ∷ rest else rest
  own_data active i (remarks log later) = own_data active i later
  own_data active i (calls program succeeded inner later) =
      own_data program i inner ++ own_data active i later

  -- The same for a whole transaction, whose next instruction is the one given.
  abbrev pub own_data_from : ℕ → Happenings → List (ℕ × String)
  own_data_from next done = []
  own_data_from next (emits log later) = own_data_from next later
  own_data_from next (remarks log later) = own_data_from next later
  own_data_from next (calls program succeeded inner later) =
      own_data program next inner ++ own_data_from (next + 1) later

  module _ (slot : ℕ) (transaction_index : Option ℕ) (signature : String) where
    -- Each log at its place among the logs of its instruction, those before it given.
    abbrev pub numbered : List ℕ → List (ℕ × String) → List ScopedProgramData
    numbered before [] = []
    numbered before ((i, log) ∷ rest) =
        record {
          coordinate = record {
            slot = slot;
            transaction_index = transaction_index;
            signature = signature;
            instruction_index = i;
            event_index = count i before;
          };
          log = log;
        }
        ∷ numbered (i ∷ before) rest

    unfoldable pub push_all : Records → List (ℕ × String) → Result LogScopeError Records
    push_all self [] = ok self
    push_all self (e ∷ es) =
        push_event program_id slot transaction_index signature self e
        >>= (λ after. push_all after es)

    pub bind_assoc {κ} :
        {A B : Type 0} {C : Type κ} (m : Result LogScopeError A) (f : A → Result LogScopeError B)
        (g : B → Result LogScopeError C)
        → ((m >>= f) >>= g) ≡ (m >>= (λ a. f a >>= g))
    bind_assoc (ok a) f g = refl
    bind_assoc (err e) f g = refl

    pub bind_ext {κ} :
        {A : Type 0} {C : Type κ} (m : Result LogScopeError A) (f g : A → Result LogScopeError C)
        → ((a : A) → f a ≡ g a)
        → (m >>= f) ≡ (m >>= g)
    bind_ext (ok a) f g h = h a
    bind_ext (err e) f g h = refl

    pub push_all-append :
        (self : Records) (xs ys : List (ℕ × String))
        → push_all self (xs ++ ys) ≡ (push_all self xs >>= (λ after. push_all after ys))
    unfolding push_all
    push_all-append self [] ys = refl
    push_all-append self (x ∷ xs) ys =
        bind_ext (push_event program_id slot transaction_index signature self x) _ _
          (λ after. push_all-append after xs ys)
        ∙ sym (bind_assoc (push_event program_id slot transaction_index signature self x) _ _)

    unfoldable pub step :
        Stack → ℕ → Records → List LogLine → Result LogScopeError (List ScopedProgramData)
    step = walk program_id slot transaction_index signature

    pub walk_exit :
        (program : String) (i : ℕ) (succeeded : Bool) (stack : Stack) (next : ℕ) (self : Records)
        (lines : List LogLine)
        → step ((program, i) ∷ stack) next self (exits program succeeded ∷ lines)
          ≡ step stack next self lines
    unfolding walk step
    walk_exit program i succeeded stack next self lines = rw (eq_refl program) refl

    walk_invoke :
        (program active : String) (i depth : ℕ) (stack : Stack) (next : ℕ) (self : Records)
        (lines : List LogLine)
        → depth ≡ length stack + 2
        → step ((active, i) ∷ stack) next self (invoke program depth ∷ lines)
          ≡ step ((program, i) ∷ ((active, i) ∷ stack)) next self lines
    unfolding walk step
    walk_invoke program active i depth stack next self lines d =
        let fits : (depth == length ((active, i) ∷ stack) + 1) ≡ true =
          (==_iff depth (length ((active, i) ∷ stack) + 1)).1 (omega (arith, d)) in
        rw fits refl

    pub nested :
        (h : Happenings) (active : String) (i depth : ℕ) (stack : Stack) (next : ℕ) (self : Records)
        (rest : List LogLine)
        → depth ≡ length stack + 2
        → step ((active, i) ∷ stack) next self (lines_of depth h ++ rest) ≡ (
            push_all self (own_data active i h)
            >>= (λ after. step ((active, i) ∷ stack) next after rest))
    unfolding walk push_all step
    nested done active i depth stack next self rest d = refl
    nested (emits log later) active i depth stack next self rest d =
        let ih = λ (after : Records). nested later active i depth stack next after rest d in
        elim (Bool-cases (str_eq active program_id)) [
          | inl own ↦ rw own (
              bind_ext (push_event program_id slot transaction_index signature self (i, log)) _ _ ih
              ∙ sym (
                  bind_assoc (push_event program_id slot transaction_index signature self (i, log))
                    _ _))
          | inr others ↦ rw others (ih self)
        ]
    nested (remarks log later) active i depth stack next self rest d =
        nested later active i depth stack next self rest d
    nested (calls program succeeded inner later) active i depth stack next self rest d =
        let here = (active, i) ∷ stack in
        let after_exit = lines_of depth later ++ rest in
        walk_invoke program active i depth stack next self
          ((lines_of (suc depth) inner ++ (exits program succeeded ∷ lines_of depth later)) ++ rest)
          d
        ∙ ap (step ((program, i) ∷ here) next self) (
            append_assoc (lines_of (suc depth) inner)
              (exits program succeeded ∷ lines_of depth later) rest)
        ∙ nested inner program i (suc depth) here next self (exits program succeeded ∷ after_exit)
            (omega arith)
        ∙ bind_ext (push_all self (own_data program i inner)) _ _ (λ after.
          walk_exit program i succeeded here next after after_exit
          ∙ nested later active i depth stack next after rest d)
        ∙ sym (bind_assoc (push_all self (own_data program i inner)) _ _)
        ∙ ap (λ o. o >>= (λ after. step here next after rest))
            (sym (push_all-append self (own_data program i inner) (own_data active i later)))
