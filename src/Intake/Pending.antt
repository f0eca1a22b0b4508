-- ===== src/Intake/Pending.antt =====
-- apps/server/src/jobs/pending_activity.rs, with the batch of apps/server/src/jobs/collector.rs and the
-- instruction record of crates/solana-rpc/src/model.rs. A method gets the heap of the tokens' cells and
-- returns it where it changes them. A queue that `new` refuses by a panic is `none`.
pub mod Drained
pub mod Dropped
pub mod Accounted
use soldisco.Prelude.{
  ℕ, zero, suc, String, Option, none, some, List, [], ◌∷◌, ◌++◌, Bool, true, false, not, ◌&&◌, ◌||◌,
  any, leb, ◌==◌, length, if◌then◌else◌,
}
use soldisco.Prelude.Int.{ℤ, ltb_ℤ}
use soldisco.Window.Target.{queue_overflow, processing_failed}
use soldisco.Window.Cells.{
  Cells, WindowState, ObservationWindowStatus, status_of, mark_incomplete, mark_settled,
  cancel_with_reason,
}
use soldisco.Window.Registry.{Token, write}
use soldisco.Intake.Targets.{BatchPurpose, discovery, tracked_activity, millis_of, saturating_add}

pub record TransactionInstructionRecord : Type 0 where
  pub outer_instruction_index : ℕ  -- u16
  pub inner_instruction_index : Option ℕ  -- u16
  pub stack_height : Option ℕ  -- u32
  pub program_id : String
  pub instruction_data : List ℕ  -- u8, `data`

pub record ProgramLogBatch : Type 0 where
  pub purpose : BatchPurpose
  pub slot : ℕ  -- u64
  pub transaction_index : Option ℕ  -- u64
  pub signature : String
  pub received_time_unix_ms : ℤ
  pub instructions : List TransactionInstructionRecord
  pub log_messages : List String
  pub transaction_error : Option String
  pub window_tokens : List Token
  pub processing_succeeded : Bool

pub record PendingActivityBatch : Type 0 where
  pub batch : ProgramLogBatch
  pub release_at_unix_ms : ℤ

pub record PendingActivityQueue : Type 0 where
  pub capacity : ℕ
  pub maximum_hold : ℕ  -- milliseconds
  pub batches : List PendingActivityBatch

pub data PendingActivityAdmission : Type 0 where
  ready : ProgramLogBatch → PendingActivityAdmission
  deferred dropped : PendingActivityAdmission

abbrev pub Heap : Type 0
Heap = ℕ → Cells

-- A method of every token, in turn.
unfoldable pub for_tokens : (Cells → Cells) → Heap → List Token → Heap
for_tokens f heap [] = heap
for_tokens f heap (t ∷ tokens) = for_tokens f (write heap t.cell (f (heap t.cell))) tokens

-- The body of the loop of `drop`.
abbrev pub drop_token : Bool → Cells → Cells
drop_token processing_succeeded self =
    (mark_settled
      (if processing_succeeded then self else (mark_incomplete self processing_failed).0)).0

unfoldable pub drop_batch : Heap → ProgramLogBatch → Heap
drop_batch heap self = for_tokens (drop_token self.processing_succeeded) heap self.window_tokens

unfoldable pub mark_processing_succeeded : ProgramLogBatch → ProgramLogBatch
mark_processing_succeeded self = record self { processing_succeeded = true }

abbrev pub is_pending : ObservationWindowStatus → Bool
is_pending ObservationWindowStatus.pending = true
is_pending _ = false

unfoldable pub has_pending_token : Heap → ProgramLogBatch → Bool
has_pending_token heap batch =
    any (λ (t : Token). is_pending (status_of (heap t.cell).state)) batch.window_tokens

unfoldable pub new_queue : ℕ → ℕ → Option PendingActivityQueue
new_queue capacity maximum_hold =
    if capacity == 0 || maximum_hold == 0
    then none
    else some (record { capacity = capacity; maximum_hold = maximum_hold; batches = [] })

abbrev pub is_tracked_activity : BatchPurpose → Bool
is_tracked_activity discovery = false
is_tracked_activity tracked_activity = true

abbrev pub cancel_overflow : Cells → Cells
cancel_overflow self = cancel_with_reason self queue_overflow

-- The batch, with the end of its hold.
abbrev pub queued_at : PendingActivityQueue → ProgramLogBatch → ℤ → PendingActivityBatch
queued_at self batch now_unix_ms = record {
  batch = batch;
  release_at_unix_ms = saturating_add now_unix_ms (millis_of self.maximum_hold);
}

-- A batch that is neither handed back nor queued is dropped at the end of the call.
unfoldable pub admit :
    Heap
    → PendingActivityQueue
    → ProgramLogBatch
    → ℤ
    → Heap × PendingActivityQueue × PendingActivityAdmission
admit heap self batch now_unix_ms =
    if not (is_tracked_activity batch.purpose) || not (has_pending_token heap batch)
    then (heap, self, ready batch)
    else if leb self.capacity (length self.batches)
    then (drop_batch (for_tokens cancel_overflow heap batch.window_tokens) batch, self, dropped)
    else (
      heap,
      record self { batches = self.batches ++ (queued_at self batch now_unix_ms ∷ []) },
      deferred,
    )

-- The batch waits on.
unfoldable pub is_held : Heap → ℤ → PendingActivityBatch → Bool
is_held heap now_unix_ms pending =
    has_pending_token heap pending.batch && ltb_ℤ now_unix_ms pending.release_at_unix_ms

-- The turns of the loop, on the queue and what is ready.
unfoldable pub drain_turns :
    Heap
    → ℤ
    → ℕ
    → List PendingActivityBatch
    → List ProgramLogBatch
    → List PendingActivityBatch × List ProgramLogBatch
drain_turns heap now zero batches drained = (batches, drained)
drain_turns heap now (suc turns) [] drained = ([], drained)
drain_turns heap now (suc turns) (pending ∷ batches) drained =
    if is_held heap now pending
    then drain_turns heap now turns (batches ++ (pending ∷ [])) drained
    else drain_turns heap now turns batches (drained ++ (pending.batch ∷ []))

unfoldable pub drain_resolved :
    Heap → PendingActivityQueue → ℤ → PendingActivityQueue × List ProgramLogBatch
drain_resolved heap self now_unix_ms =
    let (batches, drained) = drain_turns heap now_unix_ms (length self.batches) self.batches [] in
    (record self { batches = batches }, drained)
