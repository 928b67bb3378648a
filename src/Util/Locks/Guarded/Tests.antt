-- ===== src/Util/Locks/Guarded/Tests.antt =====
-- A writer and a reader under the guards of src/util/pthread_rwlock.h.
use libevrpc.Base.{
  ℕ, ◌+◌, ◌≡◌, refl, ◌⊎◌, inl, inr, true, false, none, some, List, [], ◌∷◌, ◌++◌, get_elem?, All,
  arith,
}
use libevrpc.Util.Locks.{read, write, ebusy, lock_guard, try_loop}
use libevrpc.Util.Locks.Guarded.{
  Work, Method, idle, inside, System, Reach, here, next, begins, waits, enters, works, leaves,
  fresh,
}
use libevrpc.Util.Locks.Guarded.Serial.{Serial, methods_of, pending}
use libevrpc.Util.Locks.Guarded.Invariant.{Honest, Writes, Each, Apart}
use libevrpc.Util.Locks.Guarded.Refines.{Reach-fresh-Serial}
use libevrpc.Util.Locks.Guarded.Owners.{Owners, nobody, put_owner, owners}

abbrev load : Work ℕ ℕ
load l s = (s, s)

abbrev store : Work ℕ ℕ
store l s = (l, l + 1)

abbrev bump : Method ℕ ℕ
bump = record { kind = write; try = true; block = load ∷ store ∷ [] }

abbrev look : Method ℕ ℕ
look = record { kind = read; try = false; block = load ∷ [] }

abbrev programs : List (List (Method ℕ ℕ))
programs = (bump ∷ []) ∷ (look ∷ []) ∷ []

programs-Honest : All (All Honest) programs
programs-Honest = ((λ r. cc, tt), ((λ r. (λ l s. refl, tt), tt), tt))

-- The writer waits while the reader is in, and has done half of its work when the reader is out.
abbrev halfway : System Owners ℕ ℕ
halfway = record {
  rwlock = put_owner 0 (some write) (put_owner 1 none (put_owner 1 (some read) nobody));
  shared = 5;
  threads =
      record { todo = []; phase = inside bump (store ∷ []) 5 }
      ∷ record { todo = []; phase = idle }
      ∷ [];
  ended = (1, look, 5) ∷ [];
}

abbrev read_in : Owners
read_in = put_owner 1 (some read) nobody

abbrev read_out : Owners
read_out = put_owner 1 none read_in

free : (u : ℕ) → read_out u ≡ none
free u = ground arith

halfway-Reach : Reach owners 0 (fresh nobody 5 programs) halfway
unfolding lock_guard try_loop
halfway-Reach =
    next
      (next
        (next
          (next
            (next
              (next (next (next here (begins 0 bump [] refl)) (begins 1 look [] refl))
                (enters 1 look [] [] 0 read_in _ refl (refl, (refl, λ u j h. cc)) refl))
              (waits 0 bump [] [] ebusy read_in refl (inr (refl, refl)) refl))
            (works 1 look [] load [] 0 refl))
          (leaves 1 look [] 5 0 read_out refl refl))
        (enters 0 bump [] (ebusy ∷ []) 0 (put_owner 0 (some write) read_out) _ refl
          (inl (refl, (refl, λ u j h. absurd (let f = free u in cc)))) refl))
      (works 0 bump [] load (store ∷ []) 0 refl)

Reach-fresh-Serial_example :
    (s₁ : ℕ) × Serial 0 5 ((1, look, 5) ∷ []) s₁
    × ((5 ≡ s₁) ⊎ Writes halfway.threads)
    × Each
        (λ i t. get_elem? programs i ≡ some (methods_of i halfway.ended ++ pending t))
        halfway.threads
    × Apart halfway.threads
    × All (λ (e : ℕ × Method ℕ ℕ × ℕ). Honest e.1) halfway.ended
Reach-fresh-Serial_example =
    Reach-fresh-Serial Honest owners 0 nobody 5 programs halfway (λ m h. h) programs-Honest
      halfway-Reach
