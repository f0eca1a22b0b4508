-- ===== src/Normalization/Registry/Lookup.antt =====
-- What a lookup finds after a registration or a retirement (apps/server/src/jobs/normalization.rs).
use text.Mathlib.Text.{◌==◌}
use soldisco.Prelude.{
  String, none, some, [], ◌∷◌, true, false, Bool-cases, inl, inr, ok, err, if◌then◌else◌, ◌≡◌, refl,
  sym, ap, subst,
}
use soldisco.Domain.{Network}
use soldisco.Normalization.Pair.{PumpSwapPair, normalize_pump_swap_pair}
use soldisco.Normalization.Registry.{
  MarketLookupKey, pump_mint, pump_swap_pool, RegisteredMarket, MarketRegistry,
  pump_market_unresolved, key_eq, get, remove, insert, register_pump_swap_pool, retire_pump_market,
  pump_market, pump_swap_market, pump_swap_market_identity,
}
use soldisco.Normalization.Registry.Keyed.{key_eq-eq, key_eq_refl}

keeps_other :
    (k key other : MarketLookupKey)
    → key_eq k key ≡ true
    → key_eq key other ≡ false
    → key_eq k other ≡ false
keeps_other k key other e h = subst (λ c. key_eq c other ≡ false) (sym (key_eq-eq k key e)) h

get-remove :
    (key other : MarketLookupKey) (self : MarketRegistry)
    → key_eq key other ≡ false
    → get other (remove key self) ≡ get other self
unfolding get remove
get-remove key other [] h = refl
get-remove key other ((k, m) ∷ self) h = elim (Bool-cases (key_eq k key)) [
  | inl gone ↦ rw (gone, keeps_other k key other gone h) (get-remove key other self h)
  | inr kept ↦
      rw kept (ap (λ o. if key_eq k other then some m else o) (get-remove key other self h))
]

get-removed : (key : MarketLookupKey) (self : MarketRegistry) → get key (remove key self) ≡ none
unfolding get remove
get-removed key [] = refl
get-removed key ((k, m) ∷ self) = elim (Bool-cases (key_eq k key)) [
  | inl gone ↦ rw gone (get-removed key self)
  | inr kept ↦ rw kept (rw kept (get-removed key self))
]

get-insert :
    (key : MarketLookupKey) (market : RegisteredMarket) (self : MarketRegistry)
    → get key (insert key market self) ≡ some market
unfolding get insert
get-insert key market self = rw (key_eq_refl key) refl

get-insert-other :
    (key other : MarketLookupKey) (market : RegisteredMarket) (self : MarketRegistry)
    → key_eq key other ≡ false
    → get other (insert key market self) ≡ get other self
unfolding get insert
get-insert-other key other market self h = rw h (get-remove key other self h)

-- After a pool whose mints make a pair is registered, a lookup of the pool finds the market in token and
-- quote order with the orientation of its source, and the lookup of any mint is as before.
pub register_pump_swap_pool-lookup :
    (self : MarketRegistry) (network : Network) (pool base quote mint : String)
    (pair : PumpSwapPair)
    → normalize_pump_swap_pair network base quote ≡ some pair
    → (pump_swap_market (register_pump_swap_pool self network pool base quote).0 pool
        ≡ ok (record {
          identity = pump_swap_market_identity network pool pair;
          pump_swap_source_orientation = some pair.source_orientation;
        }))
      × (pump_market (register_pump_swap_pool self network pool base quote).0 mint
          ≡ pump_market self mint)
unfolding register_pump_swap_pool pump_swap_market pump_market
register_pump_swap_pool-lookup self network pool base quote mint pair h =
    let registered : RegisteredMarket = record {
      identity = pump_swap_market_identity network pool pair;
      pump_swap_source_orientation = some pair.source_orientation;
    } in
    (
      rw (h, get-insert (pump_swap_pool pool) registered self) refl,
      rw (h, get-insert-other (pump_swap_pool pool) (pump_mint mint) registered self refl) refl,
    )

-- After a mint's bonding curve market is retired, its lookup fails, and the lookups of the other mints and
-- of every pool are as before.
pub retire_pump_market-lookup :
    (self : MarketRegistry) (mint other pool : String)
    → (mint == other) ≡ false
    → (pump_market (retire_pump_market self mint) mint ≡ err (pump_market_unresolved mint))
      × (pump_market (retire_pump_market self mint) other ≡ pump_market self other)
      × (pump_swap_market (retire_pump_market self mint) pool ≡ pump_swap_market self pool)
unfolding retire_pump_market pump_swap_market pump_market
retire_pump_market-lookup self mint other pool h = (
  rw (get-removed (pump_mint mint) self) refl,
  rw (get-remove (pump_mint mint) (pump_mint other) self h) refl,
  rw (get-remove (pump_mint mint) (pump_swap_pool pool) self refl) refl,
)
