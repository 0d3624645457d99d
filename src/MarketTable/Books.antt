-- ===== src/MarketTable/Books.antt =====
-- The book updates of `GlobalState` of rust_core/src/atomic_orderbook.rs.
use arbees.Prelude.{
  ℕ, zero, suc, List, [], ◌∷◌, ltb→lt, ◌<◌, ◌≡◌, refl, Option, none, some, arith, length, ltb,
  if◌then◌else◌, ◌==◌, get_elem?, get_elem?-set_self, get_elem?-set_ne, Bool-cases, inl, inr,
}
use arbees.Orderbook.{Quote, load, store}
use arbees.Orderbook.Packing.{IsU16, unpack_orderbook-pack_orderbook}
use arbees.MarketTable.{GlobalState, AtomicMarketState, update_kalshi, update_poly, get_both}
use arbees.MarketTable.Adding.{IsTable}

load-store : (q : Quote) (word : ℕ) → IsU16 q → load (store q word) ≡ q
unfolding load store
load-store q word h = (unpack_orderbook-pack_orderbook q h).1

abbrev pub with_first : Quote → Option (Quote × Quote) → Option (Quote × Quote)
with_first q none = none
with_first q (some books) = some (q, books.1)

abbrev pub with_second : Quote → Option (Quote × Quote) → Option (Quote × Quote)
with_second q none = none
with_second q (some books) = some (books.0, q)

get_elem?_exists {ℓ} :
    {A : Type ℓ} (xs : List A) (i : ℕ) → i < length xs → (x : A) × (get_elem? xs i ≡ some x)
get_elem?_exists [] i h = elim h [ ]
get_elem?_exists (x ∷ xs) zero h = (x, refl)
get_elem?_exists (x ∷ xs) (suc i) h = get_elem?_exists xs i (omega arith)

-- After an update with 16-bit values of
-- one platform's book of a market, that market's book of that platform reads as written, its
-- other book and the books of all other markets read as before, and an id from 1024 on changes
-- nothing.
get_both-update :
    (s : GlobalState) (m id : ℕ) (q : Quote)
    → IsTable s
    → IsU16 q
    → (get_both (update_kalshi s m q) id
        ≡ (if m == id then with_first q (get_both s id) else get_both s id))
      × (get_both (update_poly s m q) id
          ≡ (if m == id then with_second q (get_both s id) else get_both s id))
unfolding get_both update_kalshi update_poly
get_both-update s m id q v h = elim (Bool-cases (ltb m 1024)) [
  | inl inside ↦
      let (market, at_m) =
        get_elem?_exists s.markets m (omega (arith, v.markets_full, ltb→lt m 1024 inside)) in
      let in_bounds : m < length s.markets = omega (arith, v.markets_full, ltb→lt m 1024 inside) in
      let k : AtomicMarketState = record market { kalshi = store q market.kalshi } in
      let p : AtomicMarketState = record market { poly = store q market.poly } in
      (
        ground (
          arith,
          get_elem?-set_self s.markets m k in_bounds,
          get_elem?-set_ne s.markets m id k,
          load-store q market.kalshi h,
        ),
        ground (
          arith,
          get_elem?-set_self s.markets m p in_bounds,
          get_elem?-set_ne s.markets m id p,
          load-store q market.poly h,
        ),
      )
  | inr outside ↦ (ground arith, ground arith)
]
