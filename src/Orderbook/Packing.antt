-- ===== src/Orderbook/Packing.antt =====
-- The fee table and the packing of rust_core/src/atomic_orderbook.rs against their meaning.
use Prim.Native.Nat.{bit_or}
use arbees.Prelude.{
  ℕ, zero, suc, ◌+◌, ◌-◌, ◌*◌, ◌≤◌, ◌<◌, ◌^◌, ◌≡◌, refl, ◌⊎◌, inl, inr, ◌∙◌, Bool, true, ◌&&◌,
  arith, leb, ltb, ◌==◌,
}
use arbees.Prelude.Bits.{bit_or-shifted}
use arbees.Orderbook.{
  Quote, kalshi_fee_cents, pack_orderbook, unpack_orderbook, yes_updated, no_updated, shl,
}

-- A test holds of the numbers from 0 to `n`.
holds_to : (ℕ → Bool) → ℕ → Bool
holds_to p zero = p zero
holds_to p (suc n) = holds_to p n && p (suc n)

last_or_below : (x n : ℕ) → x ≤ suc n → (x ≤ n) ⊎ (x ≡ suc n)
last_or_below x n h = ground arith

holds_to-at : (p : ℕ → Bool) (x n : ℕ) → x ≤ n → holds_to p n ≡ true → p x ≡ true
unfolding holds_to
holds_to-at p x zero h all = let last : x ≡ 0 = omega arith in rw last all
holds_to-at p x (suc n) h all = elim (last_or_below x n h) [
  | inl below ↦ ground (arith, holds_to-at p x n below)
  | inr last ↦ let here : p (suc n) ≡ true = ground arith in rw last here
]

-- What the fee must be: enough for 7 p (100 - p) hundredths of a hundredth, and no cent more.
is_ceiling : ℕ → Bool
is_ceiling p =
    leb (7 * p * (100 - p)) (kalshi_fee_cents p * 10000)
    && ltb (kalshi_fee_cents p * 10000) (7 * p * (100 - p) + 10000)
    && kalshi_fee_cents p == kalshi_fee_cents (100 - p)
    && leb (kalshi_fee_cents p) 2

fees_checked : holds_to is_ceiling 100 ≡ true
unfolding holds_to is_ceiling kalshi_fee_cents
fees_checked = refl

-- For a price up to 100 cents the fee is 7 p (100 - p) / 10000 rounded up to a whole cent, the
-- same for the opposite side, and at most 2 cents; above 100 it is 0.
pub kalshi_fee_cents_ceiling :
    (p : ℕ)
    → (p ≤ 100
        → (7 * p * (100 - p) ≤ kalshi_fee_cents p * 10000)
          × (kalshi_fee_cents p * 10000 < 7 * p * (100 - p) + 10000)
          × (kalshi_fee_cents p ≡ kalshi_fee_cents (100 - p))
          × (kalshi_fee_cents p ≤ 2))
      × (100 < p → kalshi_fee_cents p ≡ 0)
kalshi_fee_cents_ceiling p = (
  λ h.
      let checked = holds_to-at is_ceiling p 100 h fees_checked in
      unfold is_ceiling in ground (arith, checked),
  λ h. unfold kalshi_fee_cents in ground arith,
)

-- The values of a quote fit in 16 bits each.
pub record IsU16 (q : Quote) : Type 0 where
  pub yes_ask_fits : q.yes_ask < 2 ^ 16
  pub no_ask_fits : q.no_ask < 2 ^ 16
  pub yes_size_fits : q.yes_size < 2 ^ 16
  pub no_size_fits : q.no_size < 2 ^ 16

abbrev packed_sum : Quote → ℕ
packed_sum q = ((q.yes_ask * 2 ^ 16 + q.no_ask) * 2 ^ 16 + q.yes_size) * 2 ^ 16 + q.no_size

or_sum : (k x a b : ℕ) → a ≡ x * 2 ^ k → b < 2 ^ k → bit_or a b ≡ a + b
or_sum k x a b e h = rw e (bit_or-shifted k x b h)

pack_orderbook_lem : (q : Quote) → IsU16 q → pack_orderbook q ≡ packed_sum q
unfolding pack_orderbook
pack_orderbook_lem q h =
    let first =
      or_sum 48 q.yes_ask (shl q.yes_ask 48) (shl q.no_ask 32) (omega arith) (omega arith) in
    let second =
      or_sum 32 (q.yes_ask * 2 ^ 16 + q.no_ask) (shl q.yes_ask 48 + shl q.no_ask 32)
        (shl q.yes_size 16) (omega arith) (omega arith) in
    let third =
      or_sum 16 ((q.yes_ask * 2 ^ 16 + q.no_ask) * 2 ^ 16 + q.yes_size)
        (shl q.yes_ask 48 + shl q.no_ask 32 + shl q.yes_size 16) q.no_size (omega arith)
        (omega arith) in
    rw (first, second, third) (omega arith)

-- Packing four 16-bit values makes a 64-bit word, and unpacking it gives them back.
pub unpack_orderbook-pack_orderbook :
    (q : Quote) → IsU16 q → (pack_orderbook q < 2 ^ 64) × (unpack_orderbook (pack_orderbook q) ≡ q)
unfolding unpack_orderbook
unpack_orderbook-pack_orderbook q h = rw (pack_orderbook_lem q h) (omega arith, ground arith)

-- Every 64-bit word is a packed quote: unpacking it gives four 16-bit values, and packing these
-- gives the word back.
pack_orderbook-unpack_orderbook :
    (word : ℕ)
    → word < 2 ^ 64
    → IsU16 (unpack_orderbook word) × (pack_orderbook (unpack_orderbook word) ≡ word)
unfolding unpack_orderbook
pack_orderbook-unpack_orderbook word h =
    let fits : IsU16 (unpack_orderbook word) = omega arith in
    (fits, pack_orderbook_lem (unpack_orderbook word) fits ∙ omega arith)

-- A write to one side of a packed word makes a packed word, and leaves the other side of the
-- quote as it was.
pub updated_sides :
    (ask size word : ℕ)
    → ask < 2 ^ 16
    → size < 2 ^ 16
    → word < 2 ^ 64
    → let q = unpack_orderbook word in
      ((yes_updated ask size word < 2 ^ 64)
        × (unpack_orderbook (yes_updated ask size word)
            ≡ record q { yes_ask = ask; yes_size = size }))
      × ((no_updated ask size word < 2 ^ 64)
          × (unpack_orderbook (no_updated ask size word)
              ≡ record q { no_ask = ask; no_size = size }))
unfolding yes_updated no_updated
updated_sides ask size word a s h =
    let fits = (pack_orderbook-unpack_orderbook word h).0 in
    let q = unpack_orderbook word in
    (
      unpack_orderbook-pack_orderbook (record q { yes_ask = ask; yes_size = size }) (omega arith),
      unpack_orderbook-pack_orderbook (record q { no_ask = ask; no_size = size }) (omega arith),
    )
