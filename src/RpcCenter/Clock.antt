-- ===== src/RpcCenter/Clock.antt =====
-- The logical clock under its lock, logical_clock_rwlock_ of src/rpc_center/rpc_center.cpp, in small
-- steps.
mod Tests
use mathlib.Core.Path.{subst}
use libevrpc.Base.{
  ℕ, ◌+◌, ◌%◌, ◌^◌, ◌≡◌, refl, sym, ap, ◌∙◌, ◌⊎◌, inl, inr, Bool, true, false, some, List, [], ◌∷◌,
  ◌++◌, if◌then◌else◌, get_elem?, All,
}
use libevrpc.Util.Locks.{Kind, mutex, read, write}
use libevrpc.Util.Locks.Guarded.{PthreadLock, Work, Method, Thread, Entry, System, Reach, fresh}
use libevrpc.Util.Locks.Guarded.Serial.{run, Serial, methods_of, pending}
use libevrpc.Util.Locks.Guarded.Invariant.{Honest, Writes, Each}
use libevrpc.Util.Locks.Guarded.Refines.{Reach-fresh-Serial}
use libevrpc.RpcCenter.{RpcCenter, increase_logical_clock}

-- `++logical_clock_` reads the field and then writes it; `return` reads it. The value of a method is
-- what it has read.
abbrev load_clock : Work RpcCenter ℕ
load_clock l c = (c.logical_clock, c)

abbrev store_clock : Work RpcCenter ℕ
store_clock l c = (l, record c { logical_clock = (l + 1) % 2 ^ 64 })

abbrev pub clock_increased : Method RpcCenter ℕ
clock_increased = record { kind = write; try = false; block = load_clock ∷ store_clock ∷ [] }

abbrev pub get_logical_clock : Method RpcCenter ℕ
get_logical_clock = record { kind = read; try = false; block = load_clock ∷ [] }

abbrev pub IsClockMethod : Method RpcCenter ℕ → Type 0
IsClockMethod m = (m ≡ clock_increased) ⊎ (m ≡ get_logical_clock)

IsClockMethod-Honest : (m : Method RpcCenter ℕ) → IsClockMethod m → Honest m
IsClockMethod-Honest m (inl e) =
    λ r. absurd (let k = ap (λ (x : Method RpcCenter ℕ). x.kind) e in cc)
IsClockMethod-Honest m (inr e) = subst (λ x. Honest x) (sym e) (λ r. (λ l c. refl, tt))

abbrev writes : Kind → Bool
writes mutex = true
writes read = false
writes write = true

-- The center after one call of IncreaseLogicalClock or GetLogicalClock.
abbrev pub called : Method RpcCenter ℕ → RpcCenter → RpcCenter
called m c = if writes m.kind then increase_logical_clock c else c

-- The center after calls one after the other.
abbrev pub clock_after : List (Entry RpcCenter ℕ) → RpcCenter → RpcCenter
clock_after [] c = c
clock_after ((i, m, l) ∷ es) c = clock_after es (called m c)

-- Each call has read the clock that the calls before it have left.
abbrev pub ReadInTurn : List (Entry RpcCenter ℕ) → RpcCenter → Type 0
ReadInTurn [] c = Unit
ReadInTurn ((i, m, l) ∷ es) c = (l ≡ c.logical_clock) × ReadInTurn es (called m c)

-- The small steps are together what the method does.
run-called :
    (m : Method RpcCenter ℕ) (c : RpcCenter)
    → IsClockMethod m
    → run m.block 0 c ≡ (c.logical_clock, called m c)
unfolding increase_logical_clock
run-called m c (inl e) = subst (λ x. run x.block 0 c ≡ (c.logical_clock, called x c)) (sym e) refl
run-called m c (inr e) = subst (λ x. run x.block 0 c ≡ (c.logical_clock, called x c)) (sym e) refl

Serial-clock :
    (es : List (Entry RpcCenter ℕ)) (c c' : RpcCenter)
    → All (λ (e : Entry RpcCenter ℕ). IsClockMethod e.1) es
    → Serial 0 c es c'
    → (clock_after es c ≡ c') × ReadInTurn es c
Serial-clock [] c c' a s = (s, tt)
Serial-clock ((i, m, l) ∷ es) c c' (is, a) (v, s) =
    let whole = run-called m c is in
    let rest : Serial 0 (called m c) es c' =
      subst (λ (x : ℕ × RpcCenter). Serial 0 x.1 es c') whole s in
    let (end, reads) = Serial-clock es (called m c) c' a rest in
    (end, (sym v ∙ ap (λ (x : ℕ × RpcCenter). x.0) whole, reads))

-- Threads that call IncreaseLogicalClock and GetLogicalClock, in any order and interleaved in any
-- way within the methods: each call has read the clock that the calls that ended before it have
-- left, each in a single step, and the center is as those calls have left it, so that no increase is
-- lost, while nobody is under the guard of an increase. Each thread ends its calls in its order. The
-- lock is one of `PthreadLock`.
pub clock-ReadInTurn :
    {P : Type 0} (pt : PthreadLock P) (p : P) (start : RpcCenter)
    (programs : List (List (Method RpcCenter ℕ))) (c : System P RpcCenter ℕ)
    → All (All IsClockMethod) programs
    → Reach pt 0 (fresh p start programs) c
    → ReadInTurn c.ended start
      × ((c.shared ≡ clock_after c.ended start) ⊎ Writes c.threads)
      × Each (λ i t. get_elem? programs i ≡ some (methods_of i c.ended ++ pending t)) c.threads
clock-ReadInTurn pt p start programs c h r =
    let (s₁, serial, settled, in_order, _, a) =
      Reach-fresh-Serial IsClockMethod pt 0 p start programs c IsClockMethod-Honest h r in
    let (end, reads) = Serial-clock c.ended start s₁ a serial in
    (reads, elim settled [ inl same ↦ inl (same ∙ sym end) | inr writing ↦ inr writing ], in_order)
