-- ===== src/Execution/Exclusion.antt =====
-- What the `ExecutionTracker` of rust_core/src/execution.rs promises over runs of calls.
use arbees.Prelude.{
  ℕ, zero, suc, ◌+◌, ◌/◌, ◌%◌, ◌≤◌, ◌<◌, ◌≡◌, refl, ◌∙◌, ap, Bool, true, false, not, ◌&&◌, ◌||◌,
  List, [], ◌∷◌, arith, ltb, ◌==◌, if◌then◌else◌, set, length, ◌≢◌, ◌*◌,
}
use mathlib.Core.Path.{fun_ext}
use Prim.Native.Nat.{bit_or}
use arbees.Prelude.Bits.{bit_and-bit, two_pow_pos}
use arbees.Prelude.BitPlaces.{ones, ones-bit_or, ones-le}
use arbees.Execution.{
  ExecutionTracker, word_at, mask_of, try_acquire, release, is_in_flight, in_flight_count, Op,
  acquire, free, clear, apply, run,
}
use arbees.Execution.Tracking.{
  IsTracker, try_acquire-IsTracker, release-IsTracker, reset-IsTracker, try_acquire-flight,
  try_acquire-answer, release-flight, reset-flight,
}

-- The abstract tracker: which markets are in flight.
abbrev pub MarketSet : Type 0
MarketSet = ℕ → Bool

pub on_set : Op → MarketSet → MarketSet × Bool
on_set (acquire m) s = (λ j. ltb m 512 && m == j || s j, ltb m 512 && not (s m))
on_set (free m) s = (λ j. not (m == j) && s j, false)
on_set clear s = (λ j. false, false)

pub run_set : List Op → MarketSet → MarketSet × List Bool
run_set [] s = (s, [])
run_set (op ∷ ops) s =
    let (s', answer) = on_set op s in let (end, answers) = run_set ops s' in (end, answer ∷ answers)

apply-IsTracker : (op : Op) (t : ExecutionTracker) → IsTracker t → IsTracker (apply op t).0
unfolding apply
apply-IsTracker (acquire m) t v = try_acquire-IsTracker t m v
apply-IsTracker (free m) t v = release-IsTracker t m v
apply-IsTracker clear t v = reset-IsTracker t v

apply-on_set :
    (op : Op) (t : ExecutionTracker)
    → IsTracker t
    → let (s, answer) = on_set op (is_in_flight t) in
      (is_in_flight (apply op t).0 ≡ s) × ((apply op t).1 ≡ answer)
unfolding apply on_set
apply-on_set (acquire m) t v = (fun_ext (λ j. try_acquire-flight t m j v), try_acquire-answer t m)
apply-on_set (free m) t v = (fun_ext (λ j. release-flight t m j v), refl)
apply-on_set clear t v = (fun_ext (reset-flight t), refl)

-- A tracker of eight 64-bit words answers every sequence of acquisitions, releases and resets as
-- the set of the markets in flight does, and holds that set at the end: a market below 512 is
-- granted exactly while it is not in the set, and one from 512 on never is.
pub run-refines_set :
    (ops : List Op) (t : ExecutionTracker)
    → IsTracker t
    → let (end, answers) = run ops t in
      let (s, expected) = run_set ops (is_in_flight t) in
      IsTracker end × (is_in_flight end ≡ s) × (answers ≡ expected)
unfolding run run_set
run-refines_set [] t v = (v, refl, refl)
run-refines_set (op ∷ ops) t v =
    let (sets, answer) = apply-on_set op t v in
    let (valid, flight, answers) = run-refines_set ops (apply op t).0 (apply-IsTracker op t v) in
    (valid, flight ∙ ap (λ s. (run_set ops s).0) sets, rw (answer, answers, sets))

-- The grants of market `m` in a run.
pub grants : ℕ → List Op → List Bool → ℕ
grants m (acquire j ∷ ops) (true ∷ answers) = (if j == m then 1 else 0) + grants m ops answers
grants m (op ∷ ops) (answer ∷ answers) = grants m ops answers
grants m ops answers = 0

-- Nothing in the run frees market `m`.
abbrev pub Keeps : ℕ → List Op → Type 0
Keeps m [] = Unit
Keeps m (acquire j ∷ ops) = Keeps m ops
Keeps m (free j ∷ ops) = (j ≢ m) × Keeps m ops
Keeps m (clear ∷ ops) = ⊥

abbrev held : Bool → ℕ
held b = if b then 1 else 0

grants-le :
    (m : ℕ) (ops : List Op) (t : ExecutionTracker)
    → IsTracker t
    → Keeps m ops
    → grants m ops (run ops t).1 + held (is_in_flight t m) ≤ 1
unfolding run apply grants
grants-le m [] t v k = ground arith
grants-le m (acquire j ∷ ops) t v k = ground (
  arith,
  try_acquire-answer t j,
  try_acquire-flight t j m v,
  grants-le m ops (try_acquire t j).0 (try_acquire-IsTracker t j v) k,
)
grants-le m (free j ∷ ops) t v k =
    ground
      (arith, release-flight t j m v, grants-le m ops (release t j) (release-IsTracker t j v) k.1)
grants-le m (clear ∷ ops) t v k = absurd k

-- In a run that never frees market `m`, at most one acquisition of it is granted, and none if it
-- was in flight at the start.
pub try_acquire_exclusive :
    (m : ℕ) (ops : List Op) (t : ExecutionTracker)
    → IsTracker t
    → Keeps m ops
    → (grants m ops (run ops t).1 ≤ 1) × (is_in_flight t m ≡ true → grants m ops (run ops t).1 ≡ 0)
try_acquire_exclusive m ops t v k = ground (arith, grants-le m ops t v k)

in_flight_count-set :
    (t : ExecutionTracker) (i w : ℕ)
    → i < length t
    → in_flight_count (set t i w) + ones 64 (word_at t i) ≡ in_flight_count t + ones 64 w
unfolding in_flight_count
in_flight_count-set [] i w h = elim h [ ]
in_flight_count-set (v ∷ t) zero w h = omega arith
in_flight_count-set (v ∷ t) (suc i) w h = omega (arith, in_flight_count-set t i w (omega arith))

in_flight_count-le : (t : ExecutionTracker) → in_flight_count t ≤ 64 * length t
unfolding in_flight_count
in_flight_count-le [] = omega arith
in_flight_count-le (w ∷ t) = omega (arith, ones-le 64 w, in_flight_count-le t)

-- A granted acquisition adds one to the count of executions in flight, a refused one leaves it,
-- and the count is never above 512.
in_flight_count-try_acquire :
    (t : ExecutionTracker) (m : ℕ)
    → IsTracker t
    → let (after, granted) = try_acquire t m in
      (in_flight_count after ≡ in_flight_count t + (if granted then 1 else 0))
      × (in_flight_count t ≤ 512)
unfolding try_acquire
in_flight_count-try_acquire t m v =
    let w = word_at t (m / 64) in
    (
      ground (
        arith,
        in_flight_count-set t (m / 64) (bit_or w (mask_of m)),
        ones-bit_or (m % 64) 64 w,
        bit_and-bit (m % 64) w,
        two_pow_pos (m % 64),
      ),
      omega (arith, in_flight_count-le t, v.0),
    )
