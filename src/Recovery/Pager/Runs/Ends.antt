-- ===== src/Recovery/Pager/Runs/Ends.antt =====
-- The pager asks for finitely many pages (crates/solana-rpc/src/recovery.rs).
use soldisco.Prelude.{
  ℕ, String, ◌≢◌, subst, ◌+◌, ◌≤◌, ◌<◌, ◌≡◌, refl, ◌∙◌, ap, sym, List, [], ◌∷◌, length,
  length-append, last, Option, none, some, true, false, Result, ok, err, >>=-eq-ok, arith,
  Bool-cases, inl, inr,
}
use soldisco.Recovery.{RecoveryCheckpoint, SignatureRecord, SignaturePage, RpcError, option_text_eq}
use soldisco.Recovery.Pager.{
  RecoveryPager, RecoveryBatch, more, complete, Outcome, RecoveryProgress, has_cursor,
  last_signature_of, accept_page, accept_records, accept_full, accept_boundary, accept_found,
  find_boundary, advance, or_fail, continue_after, extend, ensure_capacity, usize_max,
  check_request, validate_page_shape, next_request,
}
use soldisco.Recovery.Pager.Runs.{accept_pages, or_later}

-- What a page leaves when the pager wants more.
record Advances (self after : RecoveryPager) : Type 0 where
  pub grows : length self.records_newest_first < length after.records_newest_first
  pub within : length after.records_newest_first ≤ self.max_records
  pub same_limit : after.max_records ≡ self.max_records

ensure_capacity-fits :
    (self : RecoveryPager) (additional : ℕ)
    → self.max_records < usize_max
    → ensure_capacity self additional ≡ ok tt
    → length self.records_newest_first + additional ≤ self.max_records
unfolding ensure_capacity
ensure_capacity-fits self additional small h = ground arith

pub or_fail-eq-ok :
    (self : RecoveryPager) (r : Result RpcError (Unit {0})) (next : Outcome) {p : RecoveryProgress}
    → (or_fail self r next).1 ≡ ok p
    → (r ≡ ok tt) × (or_fail self r next ≡ next)
or_fail-eq-ok self (ok tt) next h = (refl, refl)
or_fail-eq-ok self (err e) next h = cc

cursor_nonempty :
    (next : Option String) (rs : List SignatureRecord)
    → option_text_eq next (last_signature_of (last rs)) ≡ true
    → has_cursor next ≡ true
    → 0 < length rs
cursor_nonempty none rs h c = cc
cursor_nonempty (some n) [] h c = cc
cursor_nonempty (some n) (r ∷ rs) h c = omega arith

page_nonempty :
    (page : SignaturePage)
    → validate_page_shape page ≡ ok tt
    → page.exhausted ≡ false
    → has_cursor page.next_before ≡ true
    → 0 < length page.records_newest_first
unfolding validate_page_shape
page_nonempty page shape open_end cursor =
    cursor_nonempty page.next_before page.records_newest_first (ground arith) cursor

advance_more :
    (self : RecoveryPager) (next : Option String)
    → (advance self next).1 ≡ ok more
    → (has_cursor next ≡ true)
      × ((advance self next).0.records_newest_first ≡ self.records_newest_first)
      × ((advance self next).0.max_records ≡ self.max_records)
advance_more self none h = cc
advance_more self (some n) h = ground arith

continue_after-Advances :
    (self extended : RecoveryPager) (page : SignaturePage) (checkpoint : RecoveryCheckpoint)
    → validate_page_shape page ≡ ok tt
    → length extended.records_newest_first
      ≡ length self.records_newest_first + length page.records_newest_first
    → length extended.records_newest_first ≤ self.max_records
    → extended.max_records ≡ self.max_records
    → (continue_after extended page checkpoint).1 ≡ ok more
    → Advances self (continue_after extended page checkpoint).0
unfolding continue_after
continue_after-Advances self extended page checkpoint shape longer within same h =
    elim (Bool-cases page.exhausted) [
      | inl last_page ↦ cc (rw last_page at h)
      | inr open_end ↦
          let (cursor, records, limit) =
            advance_more extended page.next_before (rw open_end at h) in
          let some_records = page_nonempty page shape open_end cursor in
          rw open_end (record {
            grows = rw records (omega arith);
            within = rw records within;
            same_limit = limit ∙ same;
          })
    ]

full_more :
    (self : RecoveryPager) (page : SignaturePage) (checkpoint : RecoveryCheckpoint)
    → self.max_records < usize_max
    → validate_page_shape page ≡ ok tt
    → (accept_full self page checkpoint).1 ≡ ok more
    → Advances self (accept_full self page checkpoint).0
unfolding accept_full
full_more self page checkpoint small shape h =
    let extended = extend self page.records_newest_first in
    let next = continue_after extended page checkpoint in
    let (fits, e) =
      or_fail-eq-ok self (ensure_capacity self (length page.records_newest_first)) next h in
    let longer = length-append self.records_newest_first page.records_newest_first in
    subst (λ (o : Outcome). Advances self o.0) (sym e)
      (continue_after-Advances self extended page checkpoint shape longer
        (omega
          (arith, longer, ensure_capacity-fits self (length page.records_newest_first) small fits))
        refl (sym (ap (λ (o : Outcome). o.1) e) ∙ h))

pub boundary_not_more :
    (self : RecoveryPager) (page : SignaturePage) (checkpoint : RecoveryCheckpoint) (index : ℕ)
    (boundary : SignatureRecord)
    → (accept_boundary self page checkpoint index boundary).1 ≢ ok more
unfolding accept_boundary
boundary_not_more self page checkpoint index boundary h = ground arith

found_more :
    (self : RecoveryPager) (page : SignaturePage) (checkpoint : RecoveryCheckpoint)
    (found : Option (ℕ × SignatureRecord))
    → self.max_records < usize_max
    → validate_page_shape page ≡ ok tt
    → (accept_found self page checkpoint found).1 ≡ ok more
    → Advances self (accept_found self page checkpoint found).0
found_more self page checkpoint none small shape h = full_more self page checkpoint small shape h
found_more self page checkpoint (some (index, boundary)) small shape h =
    absurd (boundary_not_more self page checkpoint index boundary h)

records_more :
    (self : RecoveryPager) (page : SignaturePage) (checkpoint : Option RecoveryCheckpoint)
    → self.max_records < usize_max
    → validate_page_shape page ≡ ok tt
    → (accept_records self page checkpoint).1 ≡ ok more
    → Advances self (accept_records self page checkpoint).0
unfolding accept_records
records_more self page none small shape h = cc
records_more self page (some checkpoint) small shape h =
    found_more self page checkpoint
      (find_boundary checkpoint.last_signature page.records_newest_first) small shape h

pub check_request-shape :
    (self : RecoveryPager) (page : SignaturePage)
    → check_request self page ≡ ok tt
    → validate_page_shape page ≡ ok tt
check_request-shape self page h =
    let (expected, requested, rest) = >>=-eq-ok (next_request self) _ h in ground arith

-- A page after which the pager wants more adds at least one record and stays within the limit.
accept_page-Advances :
    (self : RecoveryPager) (page : SignaturePage)
    → self.max_records < usize_max
    → (accept_page self page).1 ≡ ok more
    → Advances self (accept_page self page).0
unfolding accept_page
accept_page-Advances self page small h =
    let counted = record self { pages_fetched = self.pages_fetched + 1 } in
    let (checked, e) =
      or_fail-eq-ok self (check_request self page) (accept_records counted page self.checkpoint)
        h in
    let advanced : Advances counted (accept_records counted page self.checkpoint).0 =
      records_more counted page self.checkpoint small (check_request-shape self page checked)
        (sym (ap (λ (o : Outcome). o.1) e) ∙ h) in
    subst (λ (o : Outcome). Advances self o.0) (sym e)
      (record {
        grows = advanced.grows;
        within = advanced.within;
        same_limit = advanced.same_limit;
      })

pub or_later-none :
    (outcome : Result RpcError RecoveryProgress) (later : Result RpcError (Option RecoveryBatch))
    → or_later outcome later ≡ ok none
    → (outcome ≡ ok more) × (later ≡ ok none)
or_later-none (err e) later h = cc
or_later-none (ok more) later h = (refl, h)
or_later-none (ok (complete batch)) later h = cc

-- While the pager wants more, the number of pages it has accepted is at most the number of records it
-- may still buffer: a recovery with a limit below the largest usize ends after finitely many pages.
pub accept_pages_bounded :
    (pages : List SignaturePage) (self : RecoveryPager)
    → self.max_records < usize_max
    → length self.records_newest_first ≤ self.max_records
    → accept_pages self pages ≡ ok none
    → length self.records_newest_first + length pages ≤ self.max_records
unfolding accept_pages
accept_pages_bounded [] self small within h = omega arith
accept_pages_bounded (page ∷ rest) self small within h =
    let after = (accept_page self page).0 in
    let (wants_more, later) = or_later-none (accept_page self page).1 (accept_pages after rest) h in
    let step = accept_page-Advances self page small wants_more in
    let small_after : after.max_records < usize_max = omega (arith, step.same_limit) in
    let within_after : length after.records_newest_first ≤ after.max_records =
      omega (arith, step.within, step.same_limit) in
    omega (
      arith,
      step.grows,
      step.same_limit,
      accept_pages_bounded rest after small_after within_after later,
    )
