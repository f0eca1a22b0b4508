-- ===== src/Intake/Pending/Accounted.antt =====
-- The pending activity over a sequence of calls (apps/server/src/jobs/pending_activity.rs): it keeps within its
-- capacity, and every batch is held, handed on or dropped. Each call has the heap that it meets, since other
-- tasks change the tokens in between.
use soldisco.Prelude.{
  ℕ, ◌+◌, ◌≤◌, ◌<◌, ◌≡◌, refl, ap, some, List, [], ◌∷◌, ◌++◌, Bool, false, not, ◌||◌, leb, length,
  length-append, length-retain, Bool-cases, inl, inr, arith, if◌then◌else◌,
}
use soldisco.Prelude.Int.{ℤ}
use soldisco.Intake.Pending.{
  Heap, ProgramLogBatch, PendingActivityBatch, PendingActivityQueue, PendingActivityAdmission,
  ready, deferred, dropped, is_held, queued_at, is_tracked_activity, has_pending_token, admit,
  drain_resolved, new_queue,
}
use soldisco.Intake.Pending.Drained.{held, released, drain_resolved-split}

pub data QueueCall : Type 0 where
  admits : Heap → ProgramLogBatch → ℤ → QueueCall
  drains : Heap → ℤ → QueueCall

-- The queue and the batches that left it or never entered it.
pub record Accounts : Type 0 where
  pub queue : PendingActivityQueue
  pub handed_on : List ProgramLogBatch
  pub refused : List ProgramLogBatch

abbrev file : Accounts → ProgramLogBatch → PendingActivityAdmission → Accounts
file self batch (ready same) = record self { handed_on = self.handed_on ++ (same ∷ []) }
file self batch deferred = self
file self batch dropped = record self { refused = self.refused ++ (batch ∷ []) }

unfoldable pub call : Accounts → QueueCall → Accounts
call self (admits heap batch now) =
    let (after, queue, admission) = admit heap self.queue batch now in
    file (record self { queue = queue }) batch admission
call self (drains heap now) =
    let (queue, drained) = drain_resolved heap self.queue now in
    record self { queue = queue; handed_on = self.handed_on ++ drained }

unfoldable pub call_all : Accounts → List QueueCall → Accounts
call_all self [] = self
call_all self (c ∷ calls) = call_all (call self c) calls

abbrev pub opened : PendingActivityQueue → Accounts
opened queue = record { queue = queue; handed_on = []; refused = [] }

below_of : (a b : ℕ) → leb a b ≡ false → b < a
below_of a b h = ground arith

-- How many elements pass a test.
module _ {A : Type 0} (p : A → Bool) where
  abbrev pub count : List A → ℕ
  count [] = 0
  count (x ∷ xs) = (if p x then 1 else 0) + count xs

  count-append : (xs ys : List A) → count (xs ++ ys) ≡ count xs + count ys
  count-append [] ys = omega arith
  count-append (x ∷ xs) ys = omega (arith, count-append xs ys)

module _ (p : ProgramLogBatch → Bool) where
  abbrev pub count_held : List PendingActivityBatch → ℕ
  count_held batches = count (λ (b : PendingActivityBatch). p b.batch) batches

  abbrev pub count_admitted : List QueueCall → ℕ
  count_admitted [] = 0
  count_admitted (admits heap batch now ∷ calls) = (if p batch then 1 else 0) + count_admitted calls
  count_admitted (drains heap now ∷ calls) = count_admitted calls

  abbrev pub count_accounts : Accounts → ℕ
  count_accounts self =
      count_held self.queue.batches + count p self.handed_on + count p self.refused

  count-split :
      (heap : Heap) (now : ℤ) (batches : List PendingActivityBatch)
      → count_held (held heap now batches) + count p (released heap now batches)
        ≡ count_held batches
  count-split heap now [] = refl
  count-split heap now (b ∷ batches) = ground (arith, count-split heap now batches)

  count-drains :
      (self : Accounts) (heap : Heap) (now : ℤ)
      → count_accounts (call self (drains heap now)) ≡ count_accounts self
  unfolding call
  count-drains self heap now = rw (drain_resolved-split heap now self.queue) (
      omega (
        arith,
        count-append p self.handed_on (released heap now self.queue.batches),
        count-split heap now self.queue.batches,
      ))

  count-admits :
      (self : Accounts) (heap : Heap) (batch : ProgramLogBatch) (now : ℤ)
      → count_accounts (call self (admits heap batch now))
        ≡ count_accounts self + (if p batch then 1 else 0)
  unfolding call admit
  count-admits self heap batch now =
      elim (Bool-cases
        (not (is_tracked_activity batch.purpose) || not (has_pending_token heap batch))) [
          | inl passed ↦ rw passed (omega (arith, count-append p self.handed_on (batch ∷ [])))
          | inr waits ↦ elim (Bool-cases (leb self.queue.capacity (length self.queue.batches))) [
            | inl full ↦ rw (waits, full) (omega (arith, count-append p self.refused (batch ∷ [])))
            | inr room ↦
                rw (waits, room)
                  (omega (
                    arith,
                    count-append (λ (b : PendingActivityBatch). p b.batch) self.queue.batches
                        (queued_at self.queue batch now ∷ []),
                  ))
          ]
        ]

  count_calls :
      (self : Accounts) (calls : List QueueCall)
      → count_accounts (call_all self calls) ≡ count_accounts self + count_admitted calls
  unfolding call_all
  count_calls self [] = omega arith
  count_calls self (admits heap batch now ∷ calls) = omega (
    arith,
    count_calls (call self (admits heap batch now)) calls,
    count-admits self heap batch now,
  )
  count_calls self (drains heap now ∷ calls) =
      omega (arith, count_calls (call self (drains heap now)) calls, count-drains self heap now)

abbrev pub Fits : ℕ → PendingActivityQueue → Type 0
Fits capacity queue = (queue.capacity ≡ capacity) × (length queue.batches ≤ capacity)

module _ (capacity : ℕ) where
  call-Fits :
      (self : Accounts) (c : QueueCall)
      → Fits capacity self.queue
      → Fits capacity (call self c).queue
  unfolding call admit
  call-Fits self (admits heap batch now) (same, h) =
      elim (Bool-cases
        (not (is_tracked_activity batch.purpose) || not (has_pending_token heap batch))) [
          | inl passed ↦ rw passed (same, h)
          | inr waits ↦ elim (Bool-cases (leb self.queue.capacity (length self.queue.batches))) [
            | inl full ↦ rw (waits, full) (same, h)
            | inr room ↦
                let longer =
                  length-append self.queue.batches (queued_at self.queue batch now ∷ []) in
                let below = below_of self.queue.capacity (length self.queue.batches) room in
                rw (waits, room) (same, omega (arith, longer, below, same))
          ]
        ]
  call-Fits self (drains heap now) (same, h) =
      rw (drain_resolved-split heap now self.queue)
        (same, omega (arith, h, length-retain (λ b. is_held heap now b) self.queue.batches))

  call_all-Fits :
      (self : Accounts) (calls : List QueueCall)
      → Fits capacity self.queue
      → Fits capacity (call_all self calls).queue
  unfolding call_all
  call_all-Fits self [] h = h
  call_all-Fits self (c ∷ calls) h = call_all-Fits (call self c) calls (call-Fits self c h)

new_queue_empty :
    (capacity maximum_hold : ℕ) (queue : PendingActivityQueue)
    → new_queue capacity maximum_hold ≡ some queue
    → (queue.batches ≡ []) × (queue.capacity ≡ capacity)
unfolding new_queue
new_queue_empty capacity maximum_hold queue fresh = ground arith

-- After any calls of a new queue, it holds at most its capacity of batches, and each batch that was brought
-- to it is held, was handed on or was refused: a test passes as often among these as among those brought.
pub call_all-accounted :
    (capacity maximum_hold : ℕ) (queue : PendingActivityQueue) (calls : List QueueCall)
    → new_queue capacity maximum_hold ≡ some queue
    → (length (call_all (opened queue) calls).queue.batches ≤ capacity)
      × ((p : ProgramLogBatch → Bool)
          → count_accounts p (call_all (opened queue) calls) ≡ count_admitted p calls)
call_all-accounted capacity maximum_hold queue calls fresh =
    let (empty, same) = new_queue_empty capacity maximum_hold queue fresh in
    (
      (call_all-Fits capacity (opened queue) calls (same, rw empty (omega arith))).1,
      λ p. omega (arith, count_calls p (opened queue) calls, ap (λ bs. count_held p bs) empty),
    )
