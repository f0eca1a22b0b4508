-- ===== src/Recovery.antt =====
-- crates/solana-rpc/src/model.rs: checkpoints, signature pages and the errors of the RPC client.
-- A message of an error is kept as its text.
pub mod Pager
use text.Mathlib.Text.{◌==◌ as str_eq}
use soldisco.Prelude.{
  ℕ, String, Option, none, some, List, Bool, true, false, not, ◌&&◌, ◌||◌, ◌==◌, leb, ltb, Result,
  ok, ◌>>◌, reject_if,
}
use soldisco.Prelude.Int.{ℤ}
use soldisco.Prelude.Text.{is_empty_text}
use soldisco.Domain.{Commitment, processed, confirmed, finalized}

abbrev pub max_signature_page_size : ℕ
max_signature_page_size = 1000

pub record RecoveryCheckpoint : Type 0 where
  pub program_id : String
  pub last_slot : ℕ  -- u64
  pub last_transaction_index : Option ℕ  -- u64
  pub last_signature : String

pub record ReadContext : Type 0 where
  pub commitment : Commitment
  pub minimum_slot : Option ℕ  -- u64

pub record SignaturePageRequest : Type 0 where
  pub program_id : String
  pub before : Option String
  pub limit : ℕ  -- usize
  pub context : ReadContext

pub record SignatureRecord : Type 0 where
  pub slot : ℕ  -- u64
  pub transaction_index : Option ℕ  -- u64
  pub signature : String
  pub block_time_unix_seconds : Option ℤ
  pub confirmation_status : Option String
  pub transaction_error : Option String

-- SignatureRecord::succeeded
abbrev pub succeeded : SignatureRecord → Bool
succeeded self = elim self.transaction_error [ none ↦ true | some e ↦ false ]

pub record SignaturePage : Type 0 where
  pub request : SignaturePageRequest
  pub records_newest_first : List SignatureRecord
  pub next_before : Option String
  pub exhausted : Bool

pub data RpcError : Type 0 where
  timeout rate_limited : RpcError
  transport invalid_request unavailable invalid_response : String → RpcError
  recovery_protocol subscription_closed : String → RpcError
  http_status : ℕ → String → RpcError
  rpc : ℤ → String → RpcError
  recovery_checkpoint_not_found : String → ℕ → String → RpcError
  recovery_limit_exceeded : ℕ → RpcError

abbrev is_empty_cursor : Option String → Bool
is_empty_cursor none = false
is_empty_cursor (some before) = is_empty_text before

-- SignaturePageRequest::new
unfoldable pub new_request :
    String → Option String → ℕ → ReadContext → Result RpcError SignaturePageRequest
new_request program_id before limit context = do
  reject_if (is_empty_text program_id) (invalid_request "program id cannot be empty")
  reject_if (not (leb 1 limit && leb limit max_signature_page_size))
      (invalid_request "signature page limit must be between 1 and 1000")
  reject_if (is_empty_cursor before) (invalid_request "before signature cannot be empty")
  ok (record { program_id = program_id; before = before; limit = limit; context = context })

abbrev commitment_eq : Commitment → Commitment → Bool
commitment_eq processed processed = true
commitment_eq confirmed confirmed = true
commitment_eq finalized finalized = true
commitment_eq _ _ = false

abbrev option_eq : Option ℕ → Option ℕ → Bool
option_eq none none = true
option_eq (some a) (some b) = a == b
option_eq _ _ = false

abbrev pub option_text_eq : Option String → Option String → Bool
option_text_eq none none = true
option_text_eq (some a) (some b) = str_eq a b
option_text_eq _ _ = false

-- The derived equality of requests.
unfoldable pub request_eq : SignaturePageRequest → SignaturePageRequest → Bool
request_eq a b =
    str_eq a.program_id b.program_id
    && option_text_eq a.before b.before
    && a.limit == b.limit
    && commitment_eq a.context.commitment b.context.commitment
    && option_eq a.context.minimum_slot b.context.minimum_slot
