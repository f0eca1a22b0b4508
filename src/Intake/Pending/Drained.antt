-- ===== src/Intake/Pending/Drained.antt =====
-- What the draining of the pending activity releases and keeps (apps/server/src/jobs/pending_activity.rs).
use mathlib.Core.List.{append_assoc}
use soldisco.Prelude.{
  any, true, Bool, arith, ◌≡◌, refl, ap, subst, List, [], ◌∷◌, ◌++◌, map, retain, length, not,
  Bool-cases, inl, inr,
}
use soldisco.Prelude.Int.{ℤ, ◌<ℤ◌}
use soldisco.Window.Cells.{WindowState, status_of}
use soldisco.Window.Registry.{Token, IsIn}
use soldisco.Intake.Pending.{
  Heap, ProgramLogBatch, PendingActivityBatch, PendingActivityQueue, is_held, is_pending,
  has_pending_token, drain_turns, drain_resolved,
}

module _ {A : Type 0} where
  append_nil : (xs : List A) → xs ++ [] ≡ xs
  append_nil [] = refl
  append_nil (x ∷ xs) = ap (λ ys. x ∷ ys) (append_nil xs)

module _ (heap : Heap) (now : ℤ) where
  abbrev pub held : List PendingActivityBatch → List PendingActivityBatch
  held batches = retain (λ p. is_held heap now p) batches

  abbrev pub released : List PendingActivityBatch → List ProgramLogBatch
  released batches =
      map (λ (p : PendingActivityBatch). p.batch) (retain (λ p. not (is_held heap now p)) batches)

  drain_turns-split :
      (front back : List PendingActivityBatch) (ready : List ProgramLogBatch)
      → drain_turns heap now (length front) (front ++ back) ready
        ≡ (back ++ held front, ready ++ released front)
  unfolding drain_turns
  drain_turns-split [] back ready = rw (append_nil back, append_nil ready) refl
  drain_turns-split (p ∷ front) back ready = elim (Bool-cases (is_held heap now p)) [
    | inl waits ↦
        rw
          (
            waits,
            append_assoc front back (p ∷ []),
            drain_turns-split front (back ++ (p ∷ [])) ready,
            append_assoc back (p ∷ []) (held front),
          )
          refl
    | inr resolved ↦
        rw
          (
            resolved,
            drain_turns-split front back (ready ++ (p.batch ∷ [])),
            append_assoc ready (p.batch ∷ []) (released front),
          )
          refl
  ]

  drain_turns_all :
      (batches : List PendingActivityBatch)
      → drain_turns heap now (length batches) batches [] ≡ (held batches, released batches)
  drain_turns_all batches =
      subst (λ b. drain_turns heap now (length batches) b [] ≡ (held batches, released batches))
        (append_nil batches) (drain_turns-split batches [] [])

  pub drain_resolved-split :
      (self : PendingActivityQueue)
      → drain_resolved heap self now
        ≡ (record self { batches = held self.batches }, released self.batches)
  unfolding drain_resolved
  drain_resolved-split self =
      ap (λ split. (record self { batches = split.0 }, split.1)) (drain_turns_all self.batches)

  -- A batch with a token in the pending state, whose hold has not ended.
  pub record Waits (p : PendingActivityBatch) : Type 0 where
    pub token : Token
    pub member : IsIn token p.batch.window_tokens
    pub undecided : (heap token.cell).state ≡ WindowState.pending
    pub before_release : now <ℤ p.release_at_unix_ms

  -- The batches of a queue, those that are kept of them and those that are handed on, each in its order.
  pub data Drains
      : List PendingActivityBatch → List PendingActivityBatch → List ProgramLogBatch → Type 0 where
    nothing : Drains [] [] []
    keeps :
        {queue kept : List PendingActivityBatch} {handed_on : List ProgramLogBatch}
        (p : PendingActivityBatch)
        → Waits p
        → Drains queue kept handed_on
        → Drains (p ∷ queue) (p ∷ kept) handed_on
    hands_on :
        {queue kept : List PendingActivityBatch} {handed_on : List ProgramLogBatch}
        (p : PendingActivityBatch)
        → ¬ Waits p
        → Drains queue kept handed_on
        → Drains (p ∷ queue) kept (p.batch ∷ handed_on)

  abbrev pending_test : Token → Bool
  pending_test t = is_pending (status_of (heap t.cell).state)

  pending_found :
      (tokens : List Token)
      → any pending_test tokens ≡ true
      → (t : Token) × IsIn t tokens × ((heap t.cell).state ≡ WindowState.pending)
  pending_found [] h = ground arith
  pending_found (t ∷ tokens) h = elim (Bool-cases (pending_test t)) [
    | inl here ↦ (t, inl refl, ground arith)
    | inr other ↦
        let (u, member, undecided) = pending_found tokens (ground arith) in
        (u, inr member, undecided)
  ]

  found_pending :
      (tokens : List Token) (t : Token)
      → IsIn t tokens
      → (heap t.cell).state ≡ WindowState.pending
      → any pending_test tokens ≡ true
  found_pending [] t member h = elim member [ ]
  found_pending (u ∷ tokens) t (inl same) h =
      let here : pending_test u ≡ true = subst (λ v. pending_test v ≡ true) same (rw h refl) in
      rw here refl
  found_pending (u ∷ tokens) t (inr later) h = ground (arith, found_pending tokens t later h)

  is_held-Waits : (p : PendingActivityBatch) → is_held heap now p ≡ true → Waits p
  unfolding is_held has_pending_token
  is_held-Waits p h =
      let (t, member, undecided) = pending_found p.batch.window_tokens (ground arith) in
      record { token = t; member = member; undecided = undecided; before_release = ground arith }

  Waits-is_held : (p : PendingActivityBatch) → Waits p → is_held heap now p ≡ true
  unfolding is_held has_pending_token
  Waits-is_held p w =
      rw (found_pending p.batch.window_tokens w.token w.member w.undecided)
        (ground (arith, w.before_release))

  split-Drains :
      (batches : List PendingActivityBatch) → Drains batches (held batches) (released batches)
  split-Drains [] = nothing
  split-Drains (p ∷ batches) = elim (Bool-cases (is_held heap now p)) [
    | inl waits ↦ rw waits (keeps p (is_held-Waits p waits) (split-Drains batches))
    | inr resolved ↦ rw resolved (hands_on p (λ w. cc (Waits-is_held p w)) (split-Drains batches))
  ]

  -- The draining keeps, in their order, the batches that have a token in the pending state and whose hold has
  -- not ended, and hands on all others in theirs; the capacity and the hold stay.
  pub drain_resolved-Drains :
      (self : PendingActivityQueue)
      → Drains self.batches
          (drain_resolved heap self now).0.batches
          (drain_resolved heap self now).1
        × ((drain_resolved heap self now).0.capacity ≡ self.capacity)
        × ((drain_resolved heap self now).0.maximum_hold ≡ self.maximum_hold)
  drain_resolved-Drains self =
      rw (drain_resolved-split self) (split-Drains self.batches, refl, refl)
