-- ===== src/Orderbook/Interleaving.antt =====
-- The compare-and-swap loops of rust_core/src/atomic_orderbook.rs under every interleaving of
-- any number of threads.
use arbees.Prelude.{
  ℕ, zero, suc, ◌<◌, ◌^◌, ◌≡◌, refl, sym, ap, ◌∙◌, ◌⊎◌, inl, inr, true, Option, none, some, List,
  [], ◌∷◌, ◌++◌, arith, ◌==◌, if◌then◌else◌, All, get_elem?, set, get_elem?-set_self,
  get_elem?-set_ne, length, Option-cases, Bool-cases,
}
use arbees.Orderbook.{
  Quote, Update, yes_side, no_side, both_sides, updated, store, load, Thread, Shared, act_on,
  by_thread, tick, add_call, run,
}
use mathlib.Core.List.{append_assoc}
use arbees.Orderbook.Packing.{IsU16, updated_sides, unpack_orderbook-pack_orderbook}

-- The calls one after the other on the word.
pub updated_all : List (ℕ × Update) → ℕ → ℕ
updated_all [] word = word
updated_all ((i, u) ∷ calls) word = updated_all calls (updated u word)

-- The calls that thread `i` made, in order, and those that it has yet to make.
pub calls_of : ℕ → List (ℕ × Update) → List Update
calls_of i [] = []
calls_of i ((j, u) ∷ calls) = if i == j then u ∷ calls_of i calls else calls_of i calls

unfoldable pub pending_of : ℕ → Shared → List Update
pending_of i s = elim (get_elem? s.threads i) [ none ↦ [] | some t ↦ t.pending ]

abbrev one_call : Option Update → List Update
one_call none = []
one_call (some u) = u ∷ []

abbrev one_updated : Option Update → ℕ → ℕ
one_updated none word = word
one_updated (some u) word = updated u word

act_on_lem :
    (us : List Update) (seen : Option ℕ) (word : ℕ)
    → let (word', t, call) = act_on us seen word in
      (word' ≡ one_updated call word) × (us ≡ one_call call ++ t.pending)
unfolding act_on
act_on_lem [] seen word = (refl, refl)
act_on_lem (both_sides q ∷ us) seen word = (refl, refl)
act_on_lem (yes_side a z ∷ us) none word = (refl, refl)
act_on_lem (no_side a z ∷ us) none word = (refl, refl)
act_on_lem (yes_side a z ∷ us) (some current) word = ground arith
act_on_lem (no_side a z ∷ us) (some current) word = ground arith

abbrev log_of : Option (ℕ × Update) → List (ℕ × Update)
log_of c = add_call c []

-- The state and the call after an action of thread `i`, which is `t`.
abbrev after_act : ℕ → Shared → Thread → Shared × Option (ℕ × Update)
after_act i s t =
    let (word', t', call) = act_on t.pending t.snapshot s.word in
    (record { word = word'; threads = set s.threads i t' }, by_thread i call)

tick-cases :
    (i : ℕ) (s : Shared)
    → (tick i s ≡ (s, none))
      ⊎ ((t : Thread) × (get_elem? s.threads i ≡ some t) × (tick i s ≡ after_act i s t))
unfolding tick
tick-cases i s = elim (Option-cases (get_elem? s.threads i)) [
  | inl e ↦ inl (rw (e, tick))
  | inr (t, e) ↦ inr (t, e, rw (e, tick))
]

after_act-word :
    (i : ℕ) (s : Shared) (t : Thread)
    → let (s', call) = after_act i s t in s'.word ≡ updated_all (log_of call) s.word
unfolding updated_all
after_act-word i s t = ground (arith, act_on_lem t.pending t.snapshot s.word)

tick-word :
    (i : ℕ) (s : Shared) → let (s', call) = tick i s in s'.word ≡ updated_all (log_of call) s.word
tick-word i s = elim (tick-cases i s) [
  | inl e ↦ rw e (unfold updated_all in refl)
  | inr (t, e, q) ↦ rw q (after_act-word i s t)
]

get_elem?-some_lt {ℓ} :
    {A : Type ℓ} (xs : List A) (i : ℕ) (x : A) → get_elem? xs i ≡ some x → i < length xs
get_elem?-some_lt [] i x h = cc
get_elem?-some_lt (y ∷ xs) zero x h = omega arith
get_elem?-some_lt (y ∷ xs) (suc i) x h = omega (arith, get_elem?-some_lt xs i x h)

after_act-pending :
    (i j : ℕ) (s : Shared) (t : Thread)
    → get_elem? s.threads i ≡ some t
    → let (s', call) = after_act i s t in
      pending_of j s ≡ calls_of j (log_of call) ++ pending_of j s'
unfolding calls_of pending_of
after_act-pending i j s t e =
    let t' = (act_on t.pending t.snapshot s.word).1 in
    let own = get_elem?-set_self s.threads i t' (get_elem?-some_lt s.threads i t e) in
    ground (arith, act_on_lem t.pending t.snapshot s.word, own, get_elem?-set_ne s.threads i j t')

tick-pending :
    (i j : ℕ) (s : Shared)
    → let (s', call) = tick i s in pending_of j s ≡ calls_of j (log_of call) ++ pending_of j s'
tick-pending i j s = elim (tick-cases i s) [
  | inl e ↦ rw e (unfold calls_of in refl)
  | inr (t, e, q) ↦ rw q (after_act-pending i j s t e)
]

calls_of-add_call :
    (j : ℕ) (c : Option (ℕ × Update)) (calls : List (ℕ × Update))
    → calls_of j (add_call c calls) ≡ calls_of j (log_of c) ++ calls_of j calls
unfolding calls_of
calls_of-add_call j none calls = refl
calls_of-add_call j (some (i, u)) calls = ground arith

updated_all-add_call :
    (c : Option (ℕ × Update)) (calls : List (ℕ × Update)) (word : ℕ)
    → updated_all (add_call c calls) word ≡ updated_all calls (updated_all (log_of c) word)
unfolding updated_all
updated_all-add_call none calls word = refl
updated_all-add_call (some (i, u)) calls word = refl

-- Under every schedule of the threads' loads, compare-and-swaps and stores, whatever the loops
-- had loaded before, the word ends as if the calls that took effect had been made one after the
-- other, and each thread's calls took effect in its own order, none twice and none left out:
-- what it had to do is what took effect followed by what it still has to do.
pub run_serial :
    (schedule : List ℕ) (s : Shared)
    → let (end, calls) = run schedule s in
      (end.word ≡ updated_all calls s.word)
      × ((i : ℕ) → pending_of i s ≡ calls_of i calls ++ pending_of i end)
unfolding run
run_serial [] s = (unfold updated_all in refl, λ i. unfold calls_of in refl)
run_serial (i ∷ schedule) s =
    let (s', call) = tick i s in
    let (word, pending) = run_serial schedule s' in
    let calls = (run schedule s').1 in
    (
      word ∙ ap (updated_all calls) (tick-word i s) ∙ sym (updated_all-add_call call calls s.word),
      λ j.
          rw (tick-pending i j s, pending j, calls_of-add_call j call calls)
            (sym (append_assoc (calls_of j (log_of call)) (calls_of j calls) _)),
    )

-- A call on the four values of the book, with no packing.
pub on_quote : Update → Quote → Quote
on_quote (yes_side ask size) q = record q { yes_ask = ask; yes_size = size }
on_quote (no_side ask size) q = record q { no_ask = ask; no_size = size }
on_quote (both_sides q') q = q'

pub on_quote_all : List (ℕ × Update) → Quote → Quote
on_quote_all [] q = q
on_quote_all ((i, u) ∷ calls) q = on_quote_all calls (on_quote u q)

-- The values that a call writes fit in 16 bits.
abbrev pub Fits : Update → Type 0
Fits (yes_side ask size) = (ask < 2 ^ 16) × (size < 2 ^ 16)
Fits (no_side ask size) = (ask < 2 ^ 16) × (size < 2 ^ 16)
Fits (both_sides q) = IsU16 q

abbrev pub AllFit : List (ℕ × Update) → Type 0
AllFit [] = Unit
AllFit ((i, u) ∷ calls) = Fits u × AllFit calls

updated-on_quote :
    (u : Update) (word : ℕ)
    → Fits u
    → word < 2 ^ 64
    → (updated u word < 2 ^ 64) × (load (updated u word) ≡ on_quote u (load word))
unfolding updated on_quote load store
updated-on_quote (yes_side a z) word f h = (updated_sides a z word f.0 f.1 h).0
updated-on_quote (no_side a z) word f h = (updated_sides a z word f.0 f.1 h).1
updated-on_quote (both_sides q) word f h = unpack_orderbook-pack_orderbook q f

updated_all-on_quote :
    (calls : List (ℕ × Update)) (word : ℕ)
    → AllFit calls
    → word < 2 ^ 64
    → load (updated_all calls word) ≡ on_quote_all calls (load word)
unfolding updated_all on_quote_all
updated_all-on_quote [] word f h = refl
updated_all-on_quote ((i, u) ∷ calls) word f h =
    let (fits, same) = updated-on_quote u word f.0 h in
    updated_all-on_quote calls (updated u word) f.1 fits ∙ ap (on_quote_all calls) same

AllFit-tail :
    (i j : ℕ) (u : Update) (calls : List (ℕ × Update))
    → All Fits (calls_of i ((j, u) ∷ calls))
    → All Fits (calls_of i calls)
unfolding calls_of
AllFit-tail i j u calls h = elim (Bool-cases (i == j)) [ inl e ↦ (rw e at h).1 | inr e ↦ rw e at h ]

AllFit-head :
    (j : ℕ) (u : Update) (calls : List (ℕ × Update))
    → All Fits (calls_of j ((j, u) ∷ calls))
    → Fits u
unfolding calls_of
AllFit-head j u calls h = let same : (j == j) ≡ true = ground arith in let h' = rw same at h in h'.0

AllFit-of_calls_of :
    (calls : List (ℕ × Update)) → ((i : ℕ) → All Fits (calls_of i calls)) → AllFit calls
AllFit-of_calls_of [] h = tt
AllFit-of_calls_of ((j, u) ∷ calls) h =
    (AllFit-head j u calls (h j), AllFit-of_calls_of calls (λ i. AllFit-tail i j u calls (h i)))

All-prefix {ℓ κ} : {A : Type ℓ} (P : A → Type κ) (xs ys : List A) → All P (xs ++ ys) → All P xs
All-prefix P [] ys h = tt
All-prefix P (x ∷ xs) ys h = (h.0, All-prefix P xs ys h.1)

-- If the book holds a 64-bit word and all values to be written fit in 16 bits, then under every
-- schedule the four values that a reader loads at the end are those that the calls which took
-- effect give, one after the other, on the four values at the start: no write to one side is
-- lost to a write to the other.
pub run_on_quote :
    (schedule : List ℕ) (s : Shared)
    → s.word < 2 ^ 64
    → ((i : ℕ) → All Fits (pending_of i s))
    → let (end, calls) = run schedule s in load end.word ≡ on_quote_all calls (load s.word)
run_on_quote schedule s h fits =
    let (word, pending) = run_serial schedule s in
    let calls = (run schedule s).1 in
    let each : (i : ℕ) → All Fits (calls_of i calls) =
      λ i. All-prefix Fits (calls_of i calls) _ (rw (pending i) at (fits i)) in
    rw word (updated_all-on_quote calls s.word (AllFit-of_calls_of calls each) h)
