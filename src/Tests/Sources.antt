-- ===== src/Tests/Sources.antt =====
-- Pagers of crates/solana-rpc/src/recovery.rs and assessments of crates/risk-engine/src/lib.rs at concrete
-- inputs.
use soldisco.Prelude.{
  List, [], ◌∷◌, ◌++◌, some, none, false, true, ok, ◌≡◌, ◌≤◌, refl, arith, ◌+◌, ◌↔◌, All, length,
}
use soldisco.Domain.{confirmed, pass, reject, RuleResult}
use soldisco.Risk.{available, missing, required_evidence_rule, from_rules, no_rules}
use soldisco.Risk.Decision.{AnyRejects, from_rules_decides}
use soldisco.Recovery.{
  RecoveryCheckpoint, ReadContext, SignatureRecord, SignaturePage, SignaturePageRequest, request_eq,
}
use soldisco.Recovery.Pager.{
  RecoveryPager, RecoveryBatch, accept_page, next_request, validate_page_shape, accept_records,
  find_boundary, accept_full, ensure_capacity, continue_after, accept_boundary, finish_batch,
  head_checkpoint,
}
use soldisco.Recovery.Pager.Runs.{accept_pages, records_of}
use soldisco.Recovery.Pager.Runs.Ends.{accept_pages_bounded}
use soldisco.Recovery.Pager.Runs.Gap.{IsGap}
use soldisco.Recovery.Pager.Runs.Released.{accept_pages-IsGap}

abbrev last_seen : RecoveryCheckpoint
last_seen = record {
  program_id = "program";
  last_slot = 7;
  last_transaction_index = none;
  last_signature = "sig-7";
}

abbrev any_slot : ReadContext
any_slot = record { commitment = confirmed; minimum_slot = none }

abbrev new_pager : RecoveryPager
new_pager = record {
  program_id = "program";
  context = any_slot;
  page_size = 2;
  max_records = 4;
  checkpoint = some last_seen;
  before = none;
  records_newest_first = [];
  pages_fetched = 0;
  is_complete = false;
}

abbrev newer : SignatureRecord
newer = record {
  slot = 9;
  transaction_index = none;
  signature = "sig-9";
  block_time_unix_seconds = none;
  confirmation_status = none;
  transaction_error = none;
}

abbrev newest : SignatureRecord
newest = record newer { slot = 10; signature = "sig-10" }

abbrev seen : SignatureRecord
seen = record newer { slot = 7; signature = "sig-7" }

abbrev first_request : SignaturePageRequest
first_request = record { program_id = "program"; before = none; limit = 2; context = any_slot }

abbrev full_page : SignaturePage
full_page = record {
  request = first_request;
  records_newest_first = newest ∷ newer ∷ [];
  next_before = some "sig-9";
  exhausted = false;
}

abbrev last_page : SignaturePage
last_page = record {
  request = record first_request { before = some "sig-9" };
  records_newest_first = seen ∷ [];
  next_before = none;
  exhausted = true;
}

abbrev recovered : RecoveryBatch
recovered = record {
  program_id = "program";
  records_oldest_first = newer ∷ newest ∷ [];
  head_checkpoint = some (record last_seen { last_slot = 10; last_signature = "sig-10" });
  pages_fetched = 2;
}

recovers : accept_pages new_pager (full_page ∷ last_page ∷ []) ≡ ok (some recovered)
unfolding accept_pages accept_page next_request request_eq validate_page_shape accept_records
    find_boundary accept_full ensure_capacity continue_after accept_boundary finish_batch
    head_checkpoint
recovers = refl

accept_pages-IsGap_example :
    IsGap last_seen "program" ([] ++ records_of (full_page ∷ last_page ∷ [])) recovered
accept_pages-IsGap_example =
    accept_pages-IsGap (full_page ∷ last_page ∷ []) new_pager last_seen recovered refl tt recovers

wants_more : accept_pages new_pager (full_page ∷ []) ≡ ok none
unfolding accept_pages accept_page next_request request_eq validate_page_shape accept_records
    find_boundary accept_full ensure_capacity continue_after
wants_more = refl

accept_pages_bounded_example :
    length new_pager.records_newest_first + length (full_page ∷ []) ≤ new_pager.max_records
accept_pages_bounded_example =
    accept_pages_bounded (full_page ∷ []) new_pager (omega arith) (omega arith) wants_more

abbrev passed_rule : RuleResult
passed_rule = required_evidence_rule "quote" available

abbrev missing_rule : RuleResult
missing_rule = required_evidence_rule "volume" missing

abbrev two_rules : List RuleResult
two_rules = passed_rule ∷ missing_rule ∷ []

from_rules_decides_example :
    (((from_rules two_rules none none).decision ≡ reject) ↔ AnyRejects two_rules)
    × (((from_rules two_rules none none).decision ≡ pass)
        ↔ ((no_rules two_rules ≡ false) × All (λ r. r.decision ≡ pass) two_rules))
    × ((from_rules two_rules none none).rules ≡ two_rules)
    × ((from_rules two_rules none none).risk_score ≡ none)
    × ((from_rules two_rules none none).opportunity_score ≡ none)
from_rules_decides_example = from_rules_decides two_rules none none
