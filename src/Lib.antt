-- ===== src/Lib.antt =====
-- A model of the discovery core of Soldisco and the theorems that make it correct.
--
-- Parts. A pager recovers the transactions that a source missed. The decoders of a source turn the
-- events of a transaction into records, and the server normalizes these into observations of the markets
-- that it has registered. A registry opens one observation window for each newly discovered market, hands
-- out tokens that admit and settle the events received inside it, and closes, cancels and finalizes
-- windows. A finalized window's stored observations are summarised in a snapshot, and a policy qualifies
-- the snapshot. The modules and what they model:
--   Domain         crates/domain/src/{market,observation,assessment,score}.rs
--   Snapshot       crates/discovery-engine/src/snapshot.rs: Checked (checked_add), ScaledRatio
--                  (checked_scaled_ratio, scaled_proper_fraction), BasisPoints
--                  (fraction_to_basis_points), Price (PriceRatio, price_change_basis_points), Metrics
--                  (WalletMetrics, MetricsAccumulator), Finish (finish), Samples (the records),
--                  Summaries (summarize_reserves, summarize_prices), Observe (the loop over the
--                  observations), Build (build_market_window_snapshot)
--   Qualification  crates/discovery-engine/src/qualification.rs: Policy (the policy and validate),
--                  Rules (minimum_rule, aggregate), and evaluate_qualification in the parent
--   Window         crates/discovery-engine/src/lib.rs: Target (ObservationTarget,
--                  WindowIncompleteReason), Cells (the atomics of a token and its methods), Cells/Steps
--                  (the steps of a shared token), Registry
--                  (the state under the lock), Registry/Provision (provision_target, open_market), Registry/Events
--                  (admit_matching_token, source progress and coverage gaps), Registry/Finalize
--                  (candidates, claims, commit, cleanup), Registry/Cancel (cancel_confirmed_matching)
--   Recovery       crates/solana-rpc/src/{model,recovery}.rs: requests, pages and errors in the parent,
--                  Pager (RecoveryPager and its methods), Pager/Runs (a pager over a sequence of pages)
--   Pump           crates/source-pump/src: the programs and discriminators of lib.rs and idl.rs in the
--                  parent, Model (model.rs), and of decoder.rs Reader (BorshReader), Base58
--                  (encode_base58), Events/{Curve,Swap} (a decoder for each event), Events/Dispatch (the
--                  match of decode_anchor_event), Decode (the entry points)
--   Normalization  apps/server/src/jobs: Pair (pump_swap_pair.rs), and of normalization.rs Registry
--                  (MarketRegistry) and Event (normalize_pump_event)
--   Intake         apps/server/src/jobs/intake.rs: Lines (the parsers of a log line), Scope
--                  (scope_program_data_logs), SelfCpi (successful_self_cpi_coverage and
--                  event_cpi_coverage_is_incomplete), Targets (discoveries and tracking targets), Classify
--                  (classify_notification), Active (event_is_in_active_window and
--                  event_matches_confirmed_window), Pending (jobs/pending_activity.rs and the batch of
--                  jobs/collector.rs)
--   Raydium        crates/source-raydium/src/lib.rs
--   Risk           crates/risk-engine/src/lib.rs
--   TreeMap        Rust's BTreeMap with text keys, as an ascending association list
--   Prelude        lists, results, integers, orders, texts and sorting that the parts share
--   Tests          runs at concrete inputs
-- The modules below a part prove its theorems: Decision and Audit, Exact, Share, Order, Change, Tally,
-- Totality, Largest, Deterministic, Keys, Traces, Capacity, Inherit, Coverage, Claims, Frozen, Gap,
-- Ends, Released, Framed, Integers, Value, Text, Strict, Attributed, Batches, Logs, Mirror, Keyed,
-- Lookup, Trades, Venues, Oriented, Pools, Nested, Numbered, Followed, Malformed, Drained, Dropped,
-- Accounted, Ascending and Listed.
--
-- State. A snapshot is computed by functions into a result with the source's errors. The registry is a
-- record; a token shares its atomics with its clones, so that a token holds the address of a record of
-- cells in the registry's heap. A method of the registry runs under its lock and is one step; a method
-- of a token is one atomic step, but for `mark_admitted`, whose load and update are two; any
-- interleaving of the callers of a token is a list of such steps. A pager and a reader of bytes are
-- records, and a method that changes one returns it after the change. The market registry is an
-- association list. The queue of pending activity meets at each call a heap that other tasks may have
-- changed.
--
-- Bounds. A Duration is its number of milliseconds. A u64 or u128 is a native number and each checked
-- operation tests its width; the generation wraps at 2^64. The loops of scaled_proper_fraction and
-- greatest_common_divisor are recursions on accessibility, of the search interval and of the remainder,
-- so that no fuel is needed. The carry loop of encode_base58 has its carry as fuel, which falls in each
-- turn. The walks over a transaction's logs are recursions on the lines; a u16 index is tested before
-- it is counted up. All other loops are recursions on lists or on a count that was read.
--
-- Parameters. The base64 decoder and encoder, the hash and the JSON encoder are other crates'; the version
-- in decoder_version is the build's.
--
-- Not modelled. The steps of a token's callers that fall inside a method of the registry;
-- serialization, the field source_details, the poisoning of a lock, and memory orderings weaker than
-- one order of all atomic steps; the iteration order of a hash map beyond that of the list that stands
-- for it. The database, the network transport, the web interface and the deployment are input and
-- output. The server's other jobs and the read models are other parts of the repository.
pub mod Prelude
pub mod TreeMap
pub mod Domain
pub mod Snapshot
pub mod Qualification
pub mod Window
pub mod Recovery
pub mod Risk
pub mod Pump
pub mod Raydium
pub mod Normalization
pub mod Intake
pub mod Tests
