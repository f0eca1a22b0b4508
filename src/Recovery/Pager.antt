-- ===== src/Recovery/Pager.antt =====
-- crates/solana-rpc/src/recovery.rs: the pager that recovers the signatures after a checkpoint.
-- A method that mutates the pager returns the pager after it, also beside an error.
pub mod Runs
use text.Mathlib.Text.{◌==◌ as str_eq}
use Prim.Native.String.{◌++◌ as concat_text}
use soldisco.Prelude.Text.{is_empty_text}
use soldisco.Prelude.Display.{show_ℕ}
use soldisco.Prelude.{
  ℕ, zero, suc, ◌+◌, String, Option, none, some, List, [], ◌∷◌, ◌++◌, reverse, Bool, true, false,
  not, ◌&&◌, ◌||◌, ◌==◌, ltb, leb, length, first, last, Result, ok, err, ◌>>=◌, ◌>>◌, reject_if,
  if◌then◌else◌,
}
use soldisco.Recovery.{
  RecoveryCheckpoint, ReadContext, SignaturePageRequest, SignatureRecord, SignaturePage, RpcError,
  invalid_request, recovery_protocol, recovery_checkpoint_not_found, recovery_limit_exceeded,
  option_text_eq, new_request, request_eq,
}

pub record RecoveryBatch : Type 0 where
  pub program_id : String
  pub records_oldest_first : List SignatureRecord
  pub head_checkpoint : Option RecoveryCheckpoint
  pub pages_fetched : ℕ

pub data RecoveryProgress : Type 0 where
  more : RecoveryProgress
  complete : RecoveryBatch → RecoveryProgress

pub record RecoveryPager : Type 0 where
  pub program_id : String
  pub context : ReadContext
  pub page_size : ℕ
  pub max_records : ℕ
  pub checkpoint : Option RecoveryCheckpoint
  pub before : Option String
  pub records_newest_first : List SignatureRecord
  pub pages_fetched : ℕ
  pub is_complete : Bool

unfoldable pub initial_head : String → ℕ → ReadContext → Result RpcError RecoveryPager
unfolding new_request
initial_head program_id page_size context = do
  request ← new_request program_id none page_size context
  ok (record {
    program_id = program_id;
    context = context;
    page_size = page_size;
    max_records = page_size;
    checkpoint = none;
    before = none;
    records_newest_first = [];
    pages_fetched = 0;
    is_complete = false;
  })

unfoldable pub after_checkpoint :
    RecoveryCheckpoint → ℕ → ℕ → ReadContext → Result RpcError RecoveryPager
unfolding new_request
after_checkpoint checkpoint page_size max_records context = do
  reject_if (is_empty_text checkpoint.program_id || is_empty_text checkpoint.last_signature)
      (invalid_request "recovery checkpoint program and signature cannot be empty")
  request ← new_request checkpoint.program_id none page_size context
  reject_if (ltb max_records page_size)
      (invalid_request "recovery max_records cannot be smaller than page_size")
  ok (record {
    program_id = checkpoint.program_id;
    context = context;
    page_size = page_size;
    max_records = max_records;
    checkpoint = some checkpoint;
    before = none;
    records_newest_first = [];
    pages_fetched = 0;
    is_complete = false;
  })

unfoldable pub next_request : RecoveryPager → Result RpcError SignaturePageRequest
unfolding new_request
next_request self = do
  reject_if self.is_complete (recovery_protocol "pager is already complete")
  new_request self.program_id self.before self.page_size self.context

abbrev pub usize_max : ℕ
usize_max = 18446744073709551615

-- usize::saturating_add
abbrev pub saturating_add : ℕ → ℕ → ℕ
saturating_add a b = if leb (a + b) usize_max then a + b else usize_max

unfoldable pub ensure_capacity : RecoveryPager → ℕ → Result RpcError (Unit {0})
ensure_capacity self additional =
    reject_if (ltb self.max_records (saturating_add (length self.records_newest_first) additional))
      (recovery_limit_exceeded self.max_records)

-- The checkpoint that a record stands for.
abbrev pub checkpoint_of : String → SignatureRecord → RecoveryCheckpoint
checkpoint_of program_id r = record {
  program_id = program_id;
  last_slot = r.slot;
  last_transaction_index = r.transaction_index;
  last_signature = r.signature;
}

-- Option::or_else of the checkpoint of the first record
abbrev pub head_or :
    String → List SignatureRecord → Option RecoveryCheckpoint → Option RecoveryCheckpoint
head_or program_id [] other = other
head_or program_id (r ∷ rest) other = some (checkpoint_of program_id r)

unfoldable pub head_checkpoint : RecoveryPager → Option RecoveryCheckpoint
head_checkpoint self = head_or self.program_id self.records_newest_first self.checkpoint

abbrev pub or_first :
    Option RecoveryCheckpoint → String → List SignatureRecord → Option RecoveryCheckpoint
or_first (some head) program_id records = some head
or_first none program_id records = head_or program_id records none

unfoldable pub finish_batch :
    RecoveryPager → Option RecoveryCheckpoint → RecoveryPager × RecoveryBatch
finish_batch self head = (
  record self { is_complete = true; records_newest_first = [] },
  record {
    program_id = self.program_id;
    records_oldest_first = reverse self.records_newest_first;
    head_checkpoint = or_first head self.program_id self.records_newest_first;
    pages_fetched = self.pages_fetched;
  },
)

abbrev pub last_signature_of : Option SignatureRecord → Option String
last_signature_of none = none
last_signature_of (some r) = some r.signature

abbrev pub has_cursor : Option String → Bool
has_cursor none = false
has_cursor (some before) = true

unfoldable pub validate_page_shape : SignaturePage → Result RpcError (Unit {0})
validate_page_shape page = do
  reject_if (ltb page.request.limit (length page.records_newest_first))
      (recovery_protocol "page exceeded requested limit")
  reject_if (page.exhausted && has_cursor page.next_before)
      (recovery_protocol "exhausted page included next_before")
  reject_if
      (not page.exhausted
        && not
            (option_text_eq page.next_before (last_signature_of (last page.records_newest_first))))
      (recovery_protocol "next_before did not identify the oldest page record")

-- The position of the first record with the signature, and that record.
unfoldable pub find_boundary : String → List SignatureRecord → Option (ℕ × SignatureRecord)
find_boundary signature [] = none
find_boundary signature (r ∷ rest) =
    let later = find_boundary signature rest in
    if str_eq r.signature signature
    then some (0, r)
    else elim later [ none ↦ none | some (index, boundary) ↦ some (suc index, boundary) ]

abbrev pub take : ℕ → List SignatureRecord → List SignatureRecord
take zero l = []
take (suc n) [] = []
take (suc n) (r ∷ rest) = r ∷ take n rest

abbrev pub Outcome : Type 0
Outcome = RecoveryPager × Result RpcError RecoveryProgress

-- Fails with the pager as it is, or goes on.
abbrev pub or_fail : RecoveryPager → Result RpcError (Unit {0}) → Outcome → Outcome
or_fail self (ok done) next = next
or_fail self (err e) next = (self, err e)

abbrev pub extend : RecoveryPager → List SignatureRecord → RecoveryPager
extend self records = record self { records_newest_first = self.records_newest_first ++ records }

abbrev pub completed : RecoveryPager × RecoveryBatch → Outcome
completed (self, batch) = (self, ok (complete batch))

unfoldable pub slot_mismatch : ℕ → ℕ → RpcError
unfolding show_ℕ
slot_mismatch slot durable = recovery_protocol (
    concat_text "checkpoint signature slot "
      (concat_text (show_ℕ slot) (concat_text " did not match durable slot " (show_ℕ durable))))

-- The page reaches the checkpoint.
unfoldable pub accept_boundary :
    RecoveryPager → SignaturePage → RecoveryCheckpoint → ℕ → SignatureRecord → Outcome
accept_boundary self page checkpoint index boundary =
    let extended = extend self (take index page.records_newest_first) in
    if boundary.slot == checkpoint.last_slot
    then or_fail self (ensure_capacity self index)
        (completed (finish_batch extended (head_checkpoint extended)))
    else (self, err (slot_mismatch boundary.slot checkpoint.last_slot))

abbrev pub advance : RecoveryPager → Option String → Outcome
advance self none = (self, err (recovery_protocol "non-exhausted page omitted next_before"))
advance self (some next_before) =
    if option_text_eq self.before (some next_before)
    then (self, err (recovery_protocol "signature cursor did not advance"))
    else (record self { before = some next_before }, ok more)

-- A page without the checkpoint, once its records are added.
unfoldable pub continue_after : RecoveryPager → SignaturePage → RecoveryCheckpoint → Outcome
continue_after self page checkpoint =
    if page.exhausted
    then (
      self,
      err (
          recovery_checkpoint_not_found checkpoint.program_id checkpoint.last_slot
            checkpoint.last_signature),
    )
    else advance self page.next_before

-- The page does not reach the checkpoint.
unfoldable pub accept_full : RecoveryPager → SignaturePage → RecoveryCheckpoint → Outcome
accept_full self page checkpoint =
    or_fail self (ensure_capacity self (length page.records_newest_first))
      (continue_after (extend self page.records_newest_first) page checkpoint)

abbrev pub accept_found :
    RecoveryPager → SignaturePage → RecoveryCheckpoint → Option (ℕ × SignatureRecord) → Outcome
accept_found self page checkpoint none = accept_full self page checkpoint
accept_found self page checkpoint (some (index, boundary)) =
    accept_boundary self page checkpoint index boundary

-- The branch on the checkpoint, with the page counted.
unfoldable pub accept_records : RecoveryPager → SignaturePage → Option RecoveryCheckpoint → Outcome
accept_records self page none =
    completed (finish_batch (extend self page.records_newest_first) none)
accept_records self page (some checkpoint) =
    accept_found self page checkpoint
      (find_boundary checkpoint.last_signature page.records_newest_first)

abbrev pub check_request : RecoveryPager → SignaturePage → Result RpcError (Unit {0})
check_request self page = do
  expected ← next_request self
  reject_if (not (request_eq page.request expected))
      (recovery_protocol "page does not match the outstanding request")
  validate_page_shape page

unfoldable pub accept_page : RecoveryPager → SignaturePage → Outcome
accept_page self page =
    or_fail self (check_request self page)
      (accept_records (record self { pages_fetched = self.pages_fetched + 1 }) page self.checkpoint)
