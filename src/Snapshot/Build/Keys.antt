-- ===== src/Snapshot/Build/Keys.antt =====
-- The observation keys that a snapshot of crates/discovery-engine/src/snapshot.rs lists.
use soldisco.Prelude.{
  ℕ, String, subst, ◌>>◌, reject_if, length, first, last, ◌≡◌, ◌≢◌, All, refl, ◌∙◌, ap, sym, List,
  [], ◌∷◌, ◌++◌, map, retain, ok, err, >>=-eq-ok, false, arith, Option, some, none, any,
}
use soldisco.Prelude.Int.{ℤ, leb_ℤ}
use soldisco.Prelude.Sort.{sort_by}
use soldisco.Domain.{
  key_eq, key_eq_iff, ObservationKey, NormalizedObservation, ObservationPayload, trade, TradeSide,
  MarketIdentity,
}
use soldisco.Snapshot.Samples.{SnapshotCompleteness, MarketWindowSnapshot}
use soldisco.Snapshot.Build.{
  find_duplicate, observation_order, matches_window, creators_of, lacks_reason, start,
  reject_duplicate, build_from_sorted, build_market_window_snapshot,
}
use soldisco.Snapshot.Checked.{Checked, invalid_window_bounds, missing_incomplete_reason}
use soldisco.Snapshot.Finish.{to_u64, finish}
use soldisco.Snapshot.Summaries.{summarize_prices}
use soldisco.Snapshot.Observe.{Collected, observe_trade, observe_payload, observe, observe_all}

keys-observe_trade :
    (state next : Collected) (o : NormalizedObservation) (side : TradeSide) (wallet : String)
    (base quote : ℕ) (base_reserve quote_reserve : Option ℕ)
    → observe_trade state o side wallet base quote base_reserve quote_reserve ≡ ok next
    → next.observation_keys ≡ state.observation_keys
unfolding observe_trade
keys-observe_trade state next o side wallet base quote base_reserve quote_reserve h = ground arith

keys-observe_payload :
    (state next : Collected) (o : NormalizedObservation) (p : ObservationPayload)
    → observe_payload state o p ≡ ok next
    → next.observation_keys ≡ state.observation_keys
unfolding observe_payload
keys-observe_payload state next o (trade side wallet base quote base_reserve quote_reserve) h =
    ground
      (arith, keys-observe_trade state next o side wallet base quote base_reserve quote_reserve)
keys-observe_payload state next o p h = ground arith

keys-observe :
    (state next : Collected) (o : NormalizedObservation)
    → observe state o ≡ ok next
    → next.observation_keys ≡ state.observation_keys ++ (o.key ∷ [])
unfolding observe
keys-observe state next o h = keys-observe_payload _ next o o.payload h

append_assoc {ℓ} : {A : Type ℓ} (xs ys zs : List A) → (xs ++ ys) ++ zs ≡ xs ++ (ys ++ zs)
append_assoc [] ys zs = refl
append_assoc (x ∷ xs) ys zs = ap (λ l. x ∷ l) (append_assoc xs ys zs)

append_nil {ℓ} : {A : Type ℓ} (xs : List A) → xs ++ [] ≡ xs
append_nil [] = refl
append_nil (x ∷ xs) = ap (λ l. x ∷ l) (append_nil xs)

keys-observe_all :
    (os : List NormalizedObservation) (state end : Collected)
    → observe_all state os ≡ ok end
    → end.observation_keys ≡ state.observation_keys ++ map (λ o. o.key) os
unfolding observe_all
keys-observe_all [] state end h =
    let same : state ≡ end = ground arith in
    ap (λ c. c.observation_keys) (sym same) ∙ sym (append_nil state.observation_keys)
keys-observe_all (o ∷ os) state end h =
    let (next, first, rest) = >>=-eq-ok (observe state o) (λ n. observe_all n os) h in
    keys-observe_all os next end rest
    ∙ ap (λ l. l ++ map (λ o. o.key) os) (keys-observe state next o first)
    ∙ append_assoc state.observation_keys (o.key ∷ []) (map (λ o. o.key) os)

-- No key stands in the list twice.
abbrev pub IsDistinct : List ObservationKey → Type 0
IsDistinct [] = Unit
IsDistinct (k ∷ ks) = All (λ j. k ≢ j) ks × IsDistinct ks

-- The keys that follow avoid the seen ones and one another.
record AreNew (seen : List ObservationKey) (ks : List ObservationKey) : Type 0 where
  pub distinct : IsDistinct ks
  pub unseen : All (λ s. All (λ k. s ≢ k) ks) seen

any-false :
    (k : ObservationKey) (seen : List ObservationKey)
    → any (key_eq k) seen ≡ false
    → All (λ s. s ≢ k) seen
any-false k [] h = tt
any-false k (s ∷ seen) h =
    (λ e. ground (arith, (key_eq_iff k s).1 (sym e)), any-false k seen (ground arith))

All-cons :
    (k : ObservationKey) (ks seen : List ObservationKey)
    → All (λ s. s ≢ k) seen
    → All (λ s. All (λ j. s ≢ j) ks) seen
    → All (λ s. All (λ j. s ≢ j) (k ∷ ks)) seen
All-cons k ks [] p q = tt
All-cons k ks (s ∷ seen) p q = ((p.0, q.0), All-cons k ks seen p.1 q.1)

find_duplicate-AreNew :
    (os : List NormalizedObservation) (seen : List ObservationKey)
    → find_duplicate seen os ≡ none
    → AreNew seen (map (λ o. o.key) os)
unfolding find_duplicate
find_duplicate-AreNew [] seen h = record { distinct = tt; unseen = nothing seen }
  where
    nothing : (seen : List ObservationKey) → All (λ s. All (λ k. s ≢ k) []) seen
    nothing [] = tt
    nothing (s ∷ rest) = (tt, nothing rest)
find_duplicate-AreNew (o ∷ os) seen h =
    let fresh : any (key_eq o.key) seen ≡ false = ground arith in
    let later = find_duplicate-AreNew os (o.key ∷ seen) (rw fresh at h) in
    record {
      distinct = (later.unseen.0, later.distinct);
      unseen = All-cons o.key _ seen (any-false o.key seen fresh) later.unseen.1;
    }

>>-eq-ok :
    {B : Type 0} (m : Checked (Unit {0})) (n : Checked B) {b : B}
    → (m >> n) ≡ ok b
    → (m ≡ ok tt) × (n ≡ ok b)
>>-eq-ok (ok tt) n h = (refl, h)
>>-eq-ok (err e) n h = cc

-- What a snapshot says of the observations it was built from.
pub record ListsKeys (snapshot : MarketWindowSnapshot) (os : List NormalizedObservation)
    : Type 0 where
  pub listed : snapshot.observation_keys ≡ map (λ o. o.key) os
  pub distinct_keys : IsDistinct snapshot.observation_keys

abbrev keys_in : Checked MarketWindowSnapshot → List ObservationKey
keys_in (ok s) = s.observation_keys
keys_in (err e) = []

build_from_sorted-ListsKeys :
    (market : MarketIdentity) (opened_at closes_at : ℤ) (completeness : SnapshotCompleteness)
    (os : List NormalizedObservation) (s : MarketWindowSnapshot)
    → build_from_sorted market opened_at closes_at completeness os ≡ ok s
    → ListsKeys s os
unfolding build_from_sorted
build_from_sorted-ListsKeys market opened_at closes_at completeness os s h =
    let (no_duplicate, built) = >>-eq-ok (reject_duplicate (find_duplicate [] os)) _ h in
    let (end, observed, rest) = >>=-eq-ok (observe_all (start completeness) os) _ built in
    let (observations, counted, rest) = >>=-eq-ok (to_u64 (length end.observation_keys)) _ rest in
    let (metrics, finished, rest) =
      >>=-eq-ok
        (finish end.accumulator observations (map (λ e. e.0) (creators_of os).entries)
          (first end.trade_samples) (last end.trade_samples))
        _ rest in
    let (prices, summarised, rest) = >>=-eq-ok (summarize_prices end.price_points) _ rest in
    let listed : s.observation_keys ≡ map (λ o. o.key) os =
      sym (ap keys_in rest) ∙ keys-observe_all os (start completeness) end observed in
    record {
      listed = listed;
      distinct_keys =
          subst IsDistinct (sym listed)
            (find_duplicate-AreNew os [] (no_key (find_duplicate [] os) no_duplicate)).distinct;
    }
  where
    no_key : (d : Option ObservationKey) → reject_duplicate d ≡ ok tt → d ≡ none
    no_key none q = refl
    no_key (some k) q = cc

-- A snapshot that is built lists the keys of the observations that the code selects and sorts, each once.
pub build_market_window_snapshot-ListsKeys :
    (market : MarketIdentity) (opened_at closes_at : ℤ) (completeness : SnapshotCompleteness)
    (observations : List NormalizedObservation) (s : MarketWindowSnapshot)
    → build_market_window_snapshot market opened_at closes_at completeness observations ≡ ok s
    → ListsKeys s (
        sort_by observation_order (retain (matches_window market opened_at closes_at) observations))
unfolding build_market_window_snapshot
build_market_window_snapshot-ListsKeys market opened_at closes_at completeness observations s h =
    let (bounds, rest) =
      >>-eq-ok (reject_if (leb_ℤ closes_at opened_at) invalid_window_bounds) _ h in
    let (reason, rest) =
      >>-eq-ok (reject_if (lacks_reason completeness) missing_incomplete_reason) _ rest in
    build_from_sorted-ListsKeys market opened_at closes_at completeness _ s rest
