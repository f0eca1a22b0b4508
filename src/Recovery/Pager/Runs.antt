-- ===== src/Recovery/Pager/Runs.antt =====
-- A recovery over a sequence of pages (crates/solana-rpc/src/recovery.rs): the pager gets each page in
-- turn until it completes or fails.
pub mod Gap
pub mod Ends
pub mod Released
use soldisco.Prelude.{◌+◌, Option, none, some, List, [], ◌∷◌, ◌++◌, Result, ok, err}
use soldisco.Recovery.{SignatureRecord, SignaturePage, RpcError}
use soldisco.Recovery.Pager.{
  RecoveryBatch, RecoveryPager, RecoveryProgress, more, complete, Outcome, accept_page,
}

-- The end of the recovery, or what comes later.
abbrev pub or_later :
    Result RpcError RecoveryProgress
    → Result RpcError (Option RecoveryBatch)
    → Result RpcError (Option RecoveryBatch)
or_later (err e) later = err e
or_later (ok more) later = later
or_later (ok (complete batch)) later = ok (some batch)

-- What the pager says after the pages: `none` while it wants more.
unfoldable pub accept_pages :
    RecoveryPager → List SignaturePage → Result RpcError (Option RecoveryBatch)
accept_pages self [] = ok none
accept_pages self (page ∷ rest) =
    or_later (accept_page self page).1 (accept_pages (accept_page self page).0 rest)

-- All records of the pages, in the order received.
abbrev pub records_of : List SignaturePage → List SignatureRecord
records_of [] = []
records_of (page ∷ rest) = page.records_newest_first ++ records_of rest
