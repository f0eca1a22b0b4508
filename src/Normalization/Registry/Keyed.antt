-- ===== src/Normalization/Registry/Keyed.antt =====
-- Every registered market stands under its own key (apps/server/src/jobs/normalization.rs).
use soldisco.Prelude.{
  String, Option, none, some, List, [], ◌∷◌, Bool, true, false, Bool-cases, Result-cases, at_ok,
  inl, inr, ok, err, All, not, if◌then◌else◌, ◌≡◌, refl, ap, subst, eq_iff, eq_refl,
}
use soldisco.Domain.{
  Network, MarketIdentity, Venue, pump_bonding_curve, pump_swap, raydium_cpmm, raydium_clmm,
  raydium_amm_v4,
}
use soldisco.Normalization.Pair.{PumpSwapPair, PumpSwapSourceOrientation, normalize_pump_swap_pair}
use soldisco.Normalization.Registry.{
  MarketLookupKey, pump_mint, pump_swap_pool, RegisteredMarket, MarketRegistry, key_eq, get, remove,
  insert, register, register_as, register_pair, register_pump_swap_pool, register_all,
  retire_pump_market, pump_swap_market_identity,
}

pub key_eq-eq : (a b : MarketLookupKey) → key_eq a b ≡ true → a ≡ b
key_eq-eq (pump_mint a) (pump_mint b) h = ap pump_mint ((eq_iff a b).0 h)
key_eq-eq (pump_swap_pool a) (pump_swap_pool b) h = ap pump_swap_pool ((eq_iff a b).0 h)
key_eq-eq (pump_mint a) (pump_swap_pool b) h = cc
key_eq-eq (pump_swap_pool a) (pump_mint b) h = cc

pub key_eq_refl : (a : MarketLookupKey) → key_eq a a ≡ true
key_eq_refl (pump_mint a) = eq_refl a
key_eq_refl (pump_swap_pool a) = eq_refl a

-- What a key says of the market under it.
abbrev pub FitsKey : MarketLookupKey → RegisteredMarket → Type 0
FitsKey (pump_mint mint) market =
    (market.identity.venue ≡ pump_bonding_curve) × (market.identity.mint ≡ mint)
FitsKey (pump_swap_pool pool) market =
    (market.identity.venue ≡ pump_swap)
    × (market.identity.market_address ≡ pool)
    × ((o : PumpSwapSourceOrientation) × (market.pump_swap_source_orientation ≡ some o))

abbrev pub IsKeyed : MarketRegistry → Type 0
IsKeyed = All (λ entry. FitsKey entry.0 entry.1)

IsKeyed-remove :
    (key : MarketLookupKey) (self : MarketRegistry) → IsKeyed self → IsKeyed (remove key self)
unfolding remove
IsKeyed-remove key [] h = tt
IsKeyed-remove key (entry ∷ self) h =
    at_test (not (key_eq entry.0 key)) _ (IsKeyed-remove key self h.1)
  where
    at_test :
        (kept : Bool) (rest : MarketRegistry)
        → IsKeyed rest
        → IsKeyed (if kept then entry ∷ rest else rest)
    at_test true rest k = (h.0, k)
    at_test false rest k = k

IsKeyed-insert :
    (key : MarketLookupKey) (market : RegisteredMarket) (self : MarketRegistry)
    → FitsKey key market
    → IsKeyed self
    → IsKeyed (insert key market self)
unfolding insert
IsKeyed-insert key market self fits h = (fits, IsKeyed-remove key self h)

pub get-FitsKey :
    (key : MarketLookupKey) (market : RegisteredMarket) (self : MarketRegistry)
    → IsKeyed self
    → get key self ≡ some market
    → FitsKey key market
unfolding get
get-FitsKey key market [] keyed h = cc
get-FitsKey key market ((k, m) ∷ self) keyed h = elim (Bool-cases (key_eq k key)) [
  | inl here ↦
      let found : m ≡ market = cc (rw here at h) in
      subst (λ c. FitsKey c market) (key_eq-eq k key here) (subst (FitsKey k) found keyed.0)
  | inr there ↦ get-FitsKey key market self keyed.1 (rw there at h)
]

-- One call of a method that changes the registry.
pub data RegistryCall : Type 0 where
  registers : MarketIdentity → RegistryCall
  -- network, pool, source_base_mint, source_quote_mint
  registers_pool : Network → String → String → String → RegistryCall
  registers_all : List MarketIdentity → RegistryCall
  retires : String → RegistryCall

unfoldable pub call : MarketRegistry → RegistryCall → MarketRegistry
call self (registers market) = elim (register self market) [ err error ↦ self | ok after ↦ after ]
call self (registers_pool network pool base quote) =
    (register_pump_swap_pool self network pool base quote).0
call self (registers_all markets) = (register_all self markets).0
call self (retires mint) = retire_pump_market self mint

unfoldable pub call_all : MarketRegistry → List RegistryCall → MarketRegistry
call_all self [] = self
call_all self (c ∷ calls) = call_all (call self c) calls

register_as-IsKeyed :
    (self after : MarketRegistry) (market : MarketIdentity) (venue : Venue)
    → market.venue ≡ venue
    → IsKeyed self
    → register_as self market venue ≡ ok after
    → IsKeyed after
register_as-IsKeyed self after market pump_bonding_curve e keyed h = at_ok IsKeyed h (
    IsKeyed-insert (pump_mint market.mint)
      (record { identity = market; pump_swap_source_orientation = none }) self (e, refl) keyed)
register_as-IsKeyed self after market pump_swap e keyed h = cc
register_as-IsKeyed self after market raydium_cpmm e keyed h = at_ok IsKeyed h keyed
register_as-IsKeyed self after market raydium_clmm e keyed h = at_ok IsKeyed h keyed
register_as-IsKeyed self after market raydium_amm_v4 e keyed h = at_ok IsKeyed h keyed

register_pair-IsKeyed :
    (self : MarketRegistry) (network : Network) (pool : String) (pair : Option PumpSwapPair)
    → IsKeyed self
    → IsKeyed (register_pair self network pool pair).0
register_pair-IsKeyed self network pool none keyed = keyed
register_pair-IsKeyed self network pool (some pair) keyed =
    IsKeyed-insert (pump_swap_pool pool)
      (record {
        identity = pump_swap_market_identity network pool pair;
        pump_swap_source_orientation = some pair.source_orientation;
      })
      self (refl, refl, (pair.source_orientation, refl)) keyed

register_all-IsKeyed :
    (markets : List MarketIdentity) (self : MarketRegistry)
    → IsKeyed self
    → IsKeyed (register_all self markets).0
unfolding register_all register
register_all-IsKeyed [] self keyed = keyed
register_all-IsKeyed (market ∷ markets) self keyed = elim (Result-cases (register self market)) [
  | inl (after, e) ↦
      rw (register_all, register, e)
        (register_all-IsKeyed markets after
          (register_as-IsKeyed self after market market.venue refl keyed e))
  | inr (error, e) ↦ rw (register_all, register, e) keyed
]

call-IsKeyed : (self : MarketRegistry) (c : RegistryCall) → IsKeyed self → IsKeyed (call self c)
unfolding call register register_pump_swap_pool retire_pump_market
call-IsKeyed self (registers market) keyed = elim (Result-cases (register self market)) [
  | inl (after, e) ↦
      rw (call, register, e) (register_as-IsKeyed self after market market.venue refl keyed e)
  | inr (error, e) ↦ rw (call, register, e) keyed
]
call-IsKeyed self (registers_pool network pool base quote) keyed =
    register_pair-IsKeyed self network pool (normalize_pump_swap_pair network base quote) keyed
call-IsKeyed self (registers_all markets) keyed = register_all-IsKeyed markets self keyed
call-IsKeyed self (retires mint) keyed = IsKeyed-remove (pump_mint mint) self keyed

-- Whatever is registered and retired, a market stands under its own key: a mint under it is a bonding
-- curve's, a pool under it is a PumpSwap market's whose source orientation is known.
pub call_all-IsKeyed :
    (self : MarketRegistry) (calls : List RegistryCall)
    → IsKeyed self
    → IsKeyed (call_all self calls)
unfolding call_all
call_all-IsKeyed self [] keyed = keyed
call_all-IsKeyed self (c ∷ calls) keyed =
    call_all-IsKeyed (call self c) calls (call-IsKeyed self c keyed)
