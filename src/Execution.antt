-- ===== src/Execution.antt =====
-- rust_core/src/execution.rs: the `ExecutionTracker`, a set of up to 512 markets in flight, kept
-- in eight 64-bit words, and the `FastExecutionRequest` with its profit in cents. Each method of
-- the tracker is one atomic action on one word. Its clock is left out.
pub mod Tracking
pub mod Exclusion
pub mod Profit
mod Tests
use Prim.Native.Nat.{bit_and, bit_or}
use arbees.Prelude.{
  ℕ, zero, suc, ◌+◌, ◌-◌, ◌*◌, ◌/◌, ◌%◌, ◌^◌, min, Bool, true, false, not, Option, none, some, List,
  [], ◌∷◌, ltb, leb, ◌==◌, if◌then◌else◌, get_elem?, set, replicate,
}
use arbees.Prelude.Int.{ℤ, pos, negsuc, ◌*ℤ◌}
use arbees.Prelude.Word.{u16}
use arbees.Prelude.BitPlaces.{ones}
use arbees.Orderbook.{kalshi_fee_cents, shl}

-- `in_flight: [AtomicU64; 8]`.
abbrev pub ExecutionTracker : Type 0
ExecutionTracker = List ℕ

abbrev pub new : ExecutionTracker
new = replicate 8 0

-- The word at an index. Out of bounds does not happen below; it would panic.
abbrev pub word_at : ExecutionTracker → ℕ → ℕ
word_at t i = elim (get_elem? t i) [ none ↦ 0 | some word ↦ word ]

abbrev pub mask_of : ℕ → ℕ
mask_of market_id = 2 ^ (market_id % 64)

pub try_acquire : ExecutionTracker → ℕ → ExecutionTracker × Bool
try_acquire t market_id =
    let word_idx = market_id / 64 in
    let prev = word_at t word_idx in
    if leb 512 market_id
    then (t, false)
    else (set t word_idx (bit_or prev (mask_of market_id)), bit_and prev (mask_of market_id) == 0)

pub release : ExecutionTracker → ℕ → ExecutionTracker
release t market_id =
    let word_idx = market_id / 64 in
    let prev = word_at t word_idx in
    if leb 512 market_id then t else set t word_idx (bit_and prev (2 ^ 64 - 1 - mask_of market_id))

pub is_in_flight : ExecutionTracker → ℕ → Bool
is_in_flight t market_id =
    if leb 512 market_id
    then false
    else not (bit_and (word_at t (market_id / 64)) (mask_of market_id) == 0)

-- The sum of `count_ones` over the words.
pub in_flight_count : ExecutionTracker → ℕ
in_flight_count [] = 0
in_flight_count (word ∷ words) = ones 64 word + in_flight_count words

-- A store of 0 to each word.
pub reset : ExecutionTracker → ExecutionTracker
reset [] = []
reset (word ∷ words) = 0 ∷ reset words

pub data ArbType : Type 0 where
  poly_yes_kalshi_no kalshi_yes_poly_no poly_only kalshi_only : ArbType

pub from_u8 : ℕ → Option ArbType
from_u8 value =
    if value == 0
    then some poly_yes_kalshi_no
    else if value == 1
    then some kalshi_yes_poly_no
    else if value == 2
    then some poly_only
    else if value == 3
    then some kalshi_only
    else none

-- The discriminant.
pub to_u8 : ArbType → ℕ
to_u8 poly_yes_kalshi_no = 0
to_u8 kalshi_yes_poly_no = 1
to_u8 poly_only = 2
to_u8 kalshi_only = 3

pub record FastExecutionRequest : Type 0 where
  pub market_id : ℕ
  pub yes_price : ℕ
  pub no_price : ℕ
  pub yes_size : ℕ
  pub no_size : ℕ
  pub arb_type : ArbType
  pub detected_ns : ℕ

-- `u16` addition, and `100i16 - cost as i16` on the bit patterns, read as a signed number.
abbrev pub add_u16 : ℕ → ℕ → ℕ
add_u16 a b = u16 (a + b)

abbrev pub of_bits_i16 : ℕ → ℤ
of_bits_i16 r = if ltb r (2 ^ 15) then pos r else negsuc (2 ^ 16 - 1 - r)

abbrev pub hundred_minus : ℕ → ℤ
hundred_minus cost = of_bits_i16 (u16 (100 + 2 ^ 16 - cost))

cost_of : ArbType → FastExecutionRequest → ℕ
cost_of poly_yes_kalshi_no r =
    add_u16 (add_u16 r.yes_price r.no_price) (kalshi_fee_cents r.no_price)
cost_of kalshi_yes_poly_no r =
    add_u16 (add_u16 r.yes_price (kalshi_fee_cents r.yes_price)) r.no_price
cost_of poly_only r = add_u16 r.yes_price r.no_price
cost_of kalshi_only r =
    add_u16 (add_u16 (add_u16 r.yes_price (kalshi_fee_cents r.yes_price)) r.no_price)
      (kalshi_fee_cents r.no_price)

pub profit_cents : FastExecutionRequest → ℤ
unfolding cost_of
profit_cents r = hundred_minus (cost_of r.arb_type r)

fee_of : ArbType → FastExecutionRequest → ℕ
fee_of poly_yes_kalshi_no r = kalshi_fee_cents r.no_price
fee_of kalshi_yes_poly_no r = kalshi_fee_cents r.yes_price
fee_of poly_only r = 0
fee_of kalshi_only r = add_u16 (kalshi_fee_cents r.yes_price) (kalshi_fee_cents r.no_price)

pub estimated_fee_cents : FastExecutionRequest → ℕ
unfolding fee_of
estimated_fee_cents r = fee_of r.arb_type r

pub max_contracts : FastExecutionRequest → ℕ
max_contracts r = min r.yes_size r.no_size / 100

-- A product of numbers of 16 bits, which fits an `i64`.
pub expected_profit_cents : FastExecutionRequest → ℤ
expected_profit_cents r = profit_cents r *ℤ pos (max_contracts r)

-- The calls on a tracker, and what a run of them answers.
pub data Op : Type 0 where
  acquire free : (market_id : ℕ) → Op
  clear : Op

pub apply : Op → ExecutionTracker → ExecutionTracker × Bool
apply (acquire m) t = try_acquire t m
apply (free m) t = (release t m, false)
apply clear t = (reset t, false)

pub run : List Op → ExecutionTracker → ExecutionTracker × List Bool
run [] t = (t, [])
run (op ∷ ops) t =
    let (t', answer) = apply op t in let (end, answers) = run ops t' in (end, answer ∷ answers)
