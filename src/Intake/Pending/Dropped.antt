-- ===== src/Intake/Pending/Dropped.antt =====
-- Activity that the queue cannot hold closes its windows (apps/server/src/jobs/pending_activity.rs).
use soldisco.Prelude.{
  ℕ, ◌<◌, ◌≡◌, sym, subst, List, [], ◌∷◌, Bool, true, false, not, ◌||◌, leb, length, Bool-cases,
  inl, inr, arith, ◌==◌,
}
use soldisco.Prelude.Int.{ℤ}
use soldisco.Window.Target.{code}
use soldisco.Window.Cells.{Cells, is_live, mark_incomplete, mark_settled, cancel_with_reason}
use soldisco.Window.Registry.{Token, IsIn, write}
use soldisco.Intake.Pending.{
  Heap, ProgramLogBatch, PendingActivityQueue, dropped, for_tokens, drop_token, drop_batch,
  cancel_overflow, is_tracked_activity, admit, has_pending_token,
}

eq_same : (a b : ℕ) → (a == b) ≡ true → a ≡ b
eq_same a b h = ground arith

eq_self : (a : ℕ) → (a == a) ≡ true
eq_self a = ground arith

module _ {P : Cells → Type 0} (f : Cells → Cells) (kept : (c : Cells) → P c → P (f c)) where
  write-kept :
      (heap : Heap) (written cell : ℕ)
      → P (heap cell)
      → P (write heap written (f (heap written)) cell)
  write-kept heap written cell h = elim (Bool-cases (cell == written)) [
    | inl same ↦
        rw same (kept (heap written) (subst (λ c. P (heap c)) (eq_same cell written same) h))
    | inr other ↦ rw other h
  ]

  pub for_tokens-kept :
      (heap : Heap) (tokens : List Token) (cell : ℕ)
      → P (heap cell)
      → P (for_tokens f heap tokens cell)
  unfolding for_tokens
  for_tokens-kept heap [] cell h = h
  for_tokens-kept heap (t ∷ tokens) cell h =
      for_tokens-kept (write heap t.cell (f (heap t.cell))) tokens cell
        (write-kept heap t.cell cell h)

  pub for_tokens-reached :
      ((c : Cells) → P (f c))
      → (heap : Heap) (tokens : List Token) (t : Token) → IsIn t tokens
      → P (for_tokens f heap tokens t.cell)
  unfolding for_tokens
  for_tokens-reached sets heap [] t impossible = elim impossible [ ]
  for_tokens-reached sets heap (u ∷ tokens) t (inl same) =
      let after = write heap u.cell (f (heap u.cell)) in
      subst (λ v. P (for_tokens f after tokens v.cell)) (sym same)
        (for_tokens-kept after tokens u.cell (rw (eq_self u.cell) (sets (heap u.cell))))
  for_tokens-reached sets heap (u ∷ tokens) t (inr later) =
      for_tokens-reached sets (write heap u.cell (f (heap u.cell))) tokens t later

-- A window that can no longer receive and has a reason to be incomplete.
abbrev pub IsCancelled : Cells → Type 0
IsCancelled self = is_live self.state ≡ false

abbrev pub HasReason : Cells → Type 0
HasReason self = 0 < self.incomplete_reason

cancel_overflow-IsCancelled : (c : Cells) → IsCancelled (cancel_overflow c)
unfolding cancel_with_reason
cancel_overflow-IsCancelled c = ground arith

drop_token-IsCancelled : (b : Bool) (c : Cells) → IsCancelled c → IsCancelled (drop_token b c)
unfolding mark_settled mark_incomplete
drop_token-IsCancelled b c h = ground arith

drop_token-HasReason : (c : Cells) → HasReason (drop_token false c)
unfolding mark_settled mark_incomplete code
drop_token-HasReason c = ground arith

-- When the queue drops a batch that was not processed, each window of the batch has been cancelled and has a
-- reason to be incomplete.
pub admit_dropped :
    (heap : Heap) (self : PendingActivityQueue) (batch : ProgramLogBatch) (now : ℤ) (t : Token)
    → batch.processing_succeeded ≡ false
    → IsIn t batch.window_tokens
    → (admit heap self batch now).2 ≡ dropped
    → IsCancelled ((admit heap self batch now).0 t.cell)
      × HasReason ((admit heap self batch now).0 t.cell)
unfolding admit drop_batch
admit_dropped heap self batch now t unprocessed member refused =
    elim (Bool-cases
      (not (is_tracked_activity batch.purpose) || not (has_pending_token heap batch))) [
        | inl passed ↦ ground arith
        | inr waits ↦ elim (Bool-cases (leb self.capacity (length self.batches))) [
          | inl full ↦
              let cancelled = for_tokens cancel_overflow heap batch.window_tokens in
              rw (waits, full)
                (
                  for_tokens-kept {P = IsCancelled} (drop_token batch.processing_succeeded)
                      (drop_token-IsCancelled batch.processing_succeeded) cancelled
                      batch.window_tokens t.cell
                      (for_tokens-reached {P = IsCancelled} cancel_overflow
                        (λ c h. cancel_overflow-IsCancelled c) cancel_overflow-IsCancelled heap
                        batch.window_tokens t member),
                  rw unprocessed (
                      for_tokens-reached {P = HasReason} (drop_token false)
                        (λ c h. drop_token-HasReason c) drop_token-HasReason cancelled
                        batch.window_tokens t member),
                )
          | inr room ↦ ground arith
        ]
      ]
