-- ===== src/Tests/Activity.antt =====
-- Pending activity of apps/server/src/jobs/pending_activity.rs.
use soldisco.Prelude.{
  ℕ, ◌≤◌, ◌≡◌, List, [], ◌∷◌, ◌==◌, none, Bool, false, length, if◌then◌else◌, inl, refl,
}
use soldisco.Prelude.Int.{pos}
use soldisco.Window.Target.{pump_mint}
use soldisco.Window.Cells.{WindowState, new_cells}
use soldisco.Window.Registry.{Token}
use soldisco.Intake.Targets.{tracked_activity}
use soldisco.Intake.Pending.{
  Heap, ProgramLogBatch, PendingActivityBatch, PendingActivityQueue, dropped, admit, new_queue,
  drain_resolved, drain_turns, is_held, has_pending_token,
}
use soldisco.Intake.Pending.Drained.{Drains, drain_resolved-Drains}
use soldisco.Intake.Pending.Dropped.{IsCancelled, HasReason, admit_dropped}
use soldisco.Intake.Pending.Accounted.{
  QueueCall, admits, drains, call_all, opened, count_accounts, count_admitted, call_all-accounted,
}

abbrev token_at : ℕ → Token
token_at cell = record {
  generation = cell;
  window = record {
    target = pump_mint "mint";
    mint = "mint";
    opened_at_unix_ms = pos 1000;
    closes_at_unix_ms = pos 61000;
  };
  cell = cell;
}

abbrev batch_of : ℕ → ProgramLogBatch
batch_of cell = record {
  purpose = tracked_activity;
  slot = 42;
  transaction_index = none;
  signature = "activity";
  received_time_unix_ms = pos 1100;
  instructions = [];
  log_messages = [];
  transaction_error = none;
  window_tokens = token_at cell ∷ [];
  processing_succeeded = false;
}

-- The window of cell 0 is confirmed, all others are pending.
abbrev cells : Heap
cells = λ cell. if cell == 0 then record new_cells { state = WindowState.confirmed } else new_cells

abbrev queued : ℕ → PendingActivityBatch
queued cell = record { batch = batch_of cell; release_at_unix_ms = pos 3100 }

abbrev full_queue : PendingActivityQueue
full_queue = record { capacity = 2; maximum_hold = 2000; batches = queued 1 ∷ (queued 0 ∷ []) }

abbrev empty_queue : PendingActivityQueue
empty_queue = record { capacity = 1; maximum_hold = 2000; batches = [] }

abbrev some_calls : List QueueCall
some_calls =
    admits cells (batch_of 1) (pos 1100)
    ∷ admits cells (batch_of 2) (pos 1100)
    ∷ admits cells (batch_of 0) (pos 1200)
    ∷ drains cells (pos 3100)
    ∷ []

drained_in_order :
    drain_resolved cells full_queue (pos 1200)
    ≡ (record full_queue { batches = queued 1 ∷ [] }, batch_of 0 ∷ [])
unfolding drain_resolved drain_turns is_held has_pending_token
drained_in_order = refl

drain_resolved-Drains_example :
    Drains cells
      (pos 1200)
      full_queue.batches
      (drain_resolved cells full_queue (pos 1200)).0.batches
      (drain_resolved cells full_queue (pos 1200)).1
    × ((drain_resolved cells full_queue (pos 1200)).0.capacity ≡ 2)
    × ((drain_resolved cells full_queue (pos 1200)).0.maximum_hold ≡ 2000)
drain_resolved-Drains_example = drain_resolved-Drains cells (pos 1200) full_queue

refused : (admit cells full_queue (batch_of 2) (pos 1200)).2 ≡ dropped
unfolding admit has_pending_token
refused = refl

admit_dropped_example :
    IsCancelled ((admit cells full_queue (batch_of 2) (pos 1200)).0 2)
    × HasReason ((admit cells full_queue (batch_of 2) (pos 1200)).0 2)
admit_dropped_example =
    admit_dropped cells full_queue (batch_of 2) (pos 1200) (token_at 2) refl (inl refl) refused

call_all-accounted_example :
    (length (call_all (opened empty_queue) some_calls).queue.batches ≤ 1)
    × ((p : ProgramLogBatch → Bool)
        → count_accounts p (call_all (opened empty_queue) some_calls) ≡ count_admitted p some_calls)
unfolding new_queue
call_all-accounted_example = call_all-accounted 1 2000 empty_queue some_calls refl
