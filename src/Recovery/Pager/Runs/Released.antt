-- ===== src/Recovery/Pager/Runs/Released.antt =====
-- A recovery releases exactly the records newer than the checkpoint (crates/solana-rpc/src/recovery.rs).
use mathlib.Core.List.{append_assoc}
use soldisco.Prelude.{
  ◌≡◌, refl, ◌∙◌, ap, sym, subst, List, [], ◌∷◌, ◌++◌, some, Result, ok, err, ◌+◌,
}
use soldisco.Recovery.{RecoveryCheckpoint, SignatureRecord, SignaturePage, RpcError}
use soldisco.Recovery.Pager.{
  RecoveryPager, RecoveryBatch, RecoveryProgress, more, complete, Outcome, accept_page,
  accept_records, check_request,
}
use soldisco.Recovery.Pager.Runs.{accept_pages, or_later, records_of}
use soldisco.Recovery.Pager.Runs.Ends.{or_fail-eq-ok}
use soldisco.Recovery.Pager.Runs.Gap.{
  AreOthers, AreOthers-append, Buffers, IsGap, Meets, records-Meets,
}

page-Meets :
    (self : RecoveryPager) (page : SignaturePage) (c : RecoveryCheckpoint)
    (later : List SignatureRecord) (p : RecoveryProgress)
    → self.checkpoint ≡ some c
    → AreOthers c self.records_newest_first
    → (accept_page self page).1 ≡ ok p
    → Meets c self page later (accept_page self page).0 p
unfolding accept_page
page-Meets self page c later p checkpoint others h =
    let counted = record self { pages_fetched = self.pages_fetched + 1 } in
    let (checked, e) =
      or_fail-eq-ok self (check_request self page) (accept_records counted page self.checkpoint)
        h in
    let at_checkpoint : accept_records counted page self.checkpoint
        ≡ accept_records counted page (some c) =
      ap (accept_records counted page) checkpoint in
    let whole = e ∙ at_checkpoint in
    from_counted p (
      subst (λ (o : Outcome). Meets c counted page later o.0 p) (sym whole)
        (records-Meets counted page c later p checkpoint others
          (sym (ap (λ (o : Outcome). o.1) whole) ∙ h)))
  where
    from_counted :
        (q : RecoveryProgress)
        → Meets c
            (record self { pages_fetched = self.pages_fetched + 1 })
            page
            later
            (accept_page self page).0
            q
        → Meets c self page later (accept_page self page).0 q
    from_counted more m = record {
      buffered = m.buffered;
      same_checkpoint = m.same_checkpoint;
      same_program = m.same_program;
      page_others = m.page_others;
    }
    from_counted (complete batch) m = m

released_later :
    (c : RecoveryCheckpoint) (self after : RecoveryPager) (page : SignaturePage)
    (later : List SignatureRecord) (batch : RecoveryBatch)
    → Buffers c self after page
    → IsGap c after.program_id (after.records_newest_first ++ later) batch
    → IsGap c self.program_id
        (self.records_newest_first ++ (page.records_newest_first ++ later))
        batch
released_later c self after page later batch kept g =
    subst (λ l. IsGap c self.program_id l batch)
      (ap (λ l. l ++ later) kept.buffered
        ∙ append_assoc self.records_newest_first page.records_newest_first later)
      (subst (λ i. IsGap c i (after.records_newest_first ++ later) batch) kept.same_program g)

-- When a recovery after a checkpoint completes, its batch holds, oldest first, exactly the records that
-- stand before the first record with the checkpoint's signature among those received; that record has
-- the checkpoint's slot, and the new head is the newest record released, or the checkpoint if none is.
pub accept_pages-IsGap :
    (pages : List SignaturePage) (self : RecoveryPager) (c : RecoveryCheckpoint)
    (batch : RecoveryBatch)
    → self.checkpoint ≡ some c
    → AreOthers c self.records_newest_first
    → accept_pages self pages ≡ ok (some batch)
    → IsGap c self.program_id (self.records_newest_first ++ records_of pages) batch
unfolding accept_pages
accept_pages-IsGap [] self c batch checkpoint others h = cc
accept_pages-IsGap (page ∷ rest) self c batch checkpoint others h =
    let after = (accept_page self page).0 in
    after_page (accept_page self page).1 refl h (λ kept e.
      accept_pages-IsGap rest after c batch (kept.same_checkpoint ∙ checkpoint)
        (subst (AreOthers c) (sym kept.buffered) (
          AreOthers-append c self.records_newest_first page.records_newest_first others
            kept.page_others))
        e)
  where
    after_page :
        (outcome : Result RpcError RecoveryProgress)
        → (accept_page self page).1 ≡ outcome
        → or_later outcome (accept_pages (accept_page self page).0 rest) ≡ ok (some batch)
        → (Buffers c self (accept_page self page).0 page
            → accept_pages (accept_page self page).0 rest ≡ ok (some batch)
            → IsGap c
                (accept_page self page).0.program_id
                ((accept_page self page).0.records_newest_first ++ records_of rest)
                batch)
        → IsGap c self.program_id
            (self.records_newest_first ++ (page.records_newest_first ++ records_of rest))
            batch
    after_page (err x) e l ih = cc
    after_page (ok more) e l ih =
        let kept = page-Meets self page c (records_of rest) more checkpoint others e in
        released_later c self (accept_page self page).0 page (records_of rest) batch kept
          (ih kept l)
    after_page (ok (complete b)) e l ih =
        let same : b ≡ batch = cc in
        subst
          (IsGap c self.program_id
            (self.records_newest_first ++ (page.records_newest_first ++ records_of rest)))
          same (page-Meets self page c (records_of rest) (complete b) checkpoint others e)
