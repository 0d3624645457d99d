-- ===== src/Orderbook.antt =====
-- rust_core/src/atomic_orderbook.rs: the Kalshi fee table, and the order book of four 16-bit
-- values packed into one atomic 64-bit word. A word is a number below 2 ^ 64 and a `u16` a number
-- below 2 ^ 16; shifts and casts are written as products, quotients and remainders, and `|` of
-- words whose bits do not overlap as their sum.
pub mod Packing
pub mod Interleaving
mod Tests
use Prim.Native.Nat.{bit_or}
use arbees.Prelude.{
  ℕ, zero, suc, ◌+◌, ◌-◌, ◌*◌, ◌/◌, ◌^◌, Bool, true, false, List, [], ◌∷◌, Option, none, some,
  get_elem?, set, ltb, ◌==◌, if◌then◌else◌, ◌%◌, replicate,
}
use arbees.Prelude.Word.{u16, u64}

-- One entry of the table: `ceil(7 * p * (100 - p) / 10000)`, cut to a byte.
abbrev pub table_entry : ℕ → ℕ
table_entry i = ((7 * i * (100 - i) + 9999) / 10000) % 2 ^ 8

-- The loop that fills `table[i..=100]`, with `left` entries to go.
pub fill_table : ℕ → ℕ → List ℕ → List ℕ
fill_table zero i table = table
fill_table (suc left) i table = fill_table left (i + 1) (set table i (table_entry i))

unfoldable pub kalshi_fee_table : List ℕ
unfolding fill_table
kalshi_fee_table = fill_table 101 0 (replicate 101 0)

-- Out of bounds does not happen below; it would panic.
abbrev entry_or_zero : Option ℕ → ℕ
entry_or_zero none = 0
entry_or_zero (some fee) = fee

unfoldable pub kalshi_fee_cents : ℕ → ℕ
unfolding kalshi_fee_table
kalshi_fee_cents price =
    if ltb 100 price then 0 else entry_or_zero (get_elem? kalshi_fee_table price)

-- `(yes_ask, no_ask, yes_size, no_size)`.
pub record Quote : Type 0 where
  pub yes_ask : ℕ
  pub no_ask : ℕ
  pub yes_size : ℕ
  pub no_size : ℕ

abbrev pub shl : ℕ → ℕ → ℕ
shl x k = u64 (x * 2 ^ k)

abbrev pub shr : ℕ → ℕ → ℕ
shr x k = x / 2 ^ k

unfoldable pub pack_orderbook : Quote → ℕ
pack_orderbook q =
    bit_or (bit_or (bit_or (shl q.yes_ask 48) (shl q.no_ask 32)) (shl q.yes_size 16)) q.no_size

unfoldable pub unpack_orderbook : ℕ → Quote
unpack_orderbook packed = record {
  yes_ask = u16 (shr packed 48);
  no_ask = u16 (shr packed 32);
  yes_size = u16 (shr packed 16);
  no_size = u16 packed;
}

-- `AtomicOrderbook`: one packed word.
abbrev pub empty : ℕ
empty = 0

unfoldable pub load : ℕ → Quote
unfolding unpack_orderbook
load packed = unpack_orderbook packed

-- `store` forgets the old word.
unfoldable pub store : Quote → ℕ → ℕ
unfolding pack_orderbook
store q packed = pack_orderbook q

-- The word that `update_yes` and `update_no` compute from the word `current` that they loaded.
pub yes_updated : ℕ → ℕ → ℕ → ℕ
unfolding pack_orderbook unpack_orderbook
yes_updated ask size current =
    let q = unpack_orderbook current in
    pack_orderbook
      (record { yes_ask = ask; no_ask = q.no_ask; yes_size = size; no_size = q.no_size })

pub no_updated : ℕ → ℕ → ℕ → ℕ
unfolding pack_orderbook unpack_orderbook
no_updated ask size current =
    let q = unpack_orderbook current in
    pack_orderbook
      (record { yes_ask = q.yes_ask; no_ask = ask; yes_size = q.yes_size; no_size = size })

-- A call that writes the book.
pub data Update : Type 0 where
  yes_side : (ask size : ℕ) → Update
  no_side : (ask size : ℕ) → Update
  both_sides : Quote → Update

-- What a call writes over the word that it sees.
pub updated : Update → ℕ → ℕ
unfolding store yes_updated no_updated
updated (yes_side ask size) current = yes_updated ask size current
updated (no_side ask size) current = no_updated ask size current
updated (both_sides q) current = store q current

-- A thread with the calls that it has yet to make. `snapshot` is the word that the loop of
-- `update_yes` or `update_no` has loaded and not yet compared.
pub record Thread : Type 0 where
  pub pending : List Update
  pub snapshot : Option ℕ

pub record Shared : Type 0 where
  pub word : ℕ
  pub threads : List Thread

-- One atomic action of a thread, by its calls and the word that it has loaded: the load of a
-- loop, its `compare_exchange`, which ends the call if the word is still the one loaded and else
-- starts the loop again, or a plain store. The call that took effect, if any, comes last.
act_on : List Update → Option ℕ → ℕ → ℕ × Thread × Option Update
act_on [] seen word = (word, record { pending = []; snapshot = seen }, none)
act_on (both_sides q ∷ us) seen word =
    (updated (both_sides q) word, record { pending = us; snapshot = none }, some (both_sides q))
act_on (u ∷ us) none word = (word, record { pending = u ∷ us; snapshot = some word }, none)
act_on (u ∷ us) (some current) word =
    if word == current
    then (updated u current, record { pending = us; snapshot = none }, some u)
    else (word, record { pending = u ∷ us; snapshot = none }, none)

abbrev by_thread : ℕ → Option Update → Option (ℕ × Update)
by_thread i none = none
by_thread i (some u) = some (i, u)

-- The next action of thread `i`, with the call that took effect.
pub tick : ℕ → Shared → Shared × Option (ℕ × Update)
tick i s = elim (get_elem? s.threads i) [
  | none ↦ (s, none)
  | some t ↦
      let (word', t', call) = act_on t.pending t.snapshot s.word in
      (record { word = word'; threads = set s.threads i t' }, by_thread i call)
]

abbrev pub add_call : Option (ℕ × Update) → List (ℕ × Update) → List (ℕ × Update)
add_call none calls = calls
add_call (some c) calls = c ∷ calls

-- The actions of a schedule, one thread's at a time, with the calls in the order of their effects.
pub run : List ℕ → Shared → Shared × List (ℕ × Update)
run [] s = (s, [])
run (i ∷ schedule) s =
    let (s', call) = tick i s in let (end, calls) = run schedule s' in (end, add_call call calls)
