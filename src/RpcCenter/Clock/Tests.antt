-- ===== src/RpcCenter/Clock/Tests.antt =====
-- Two threads at the logical clock of a center, src/rpc_center/rpc_center.cpp.
use libevrpc.Base.{
  ℕ, ◌≡◌, refl, ◌⊎◌, inl, inr, true, none, some, List, [], ◌∷◌, ◌++◌, get_elem?, All, arith,
}
use libevrpc.Base.Int.{pos}
use libevrpc.Util.Locks.{read, write, lock_guard}
use libevrpc.Util.Locks.Guarded.{
  Method, idle, inside, System, Reach, here, next, begins, enters, works, leaves, fresh,
}
use libevrpc.Util.Locks.Guarded.Serial.{methods_of, pending}
use libevrpc.Util.Locks.Guarded.Invariant.{Writes, Each}
use libevrpc.Util.Locks.Guarded.Owners.{Owners, nobody, put_owner, owners}
use libevrpc.RpcCenter.{RpcCenter, Env}
use libevrpc.RpcCenter.Boot.{construct_center}
use libevrpc.RpcCenter.Clock.{
  load_clock, store_clock, clock_increased, get_logical_clock, IsClockMethod, clock_after,
  ReadInTurn, clock-ReadInTurn,
}

abbrev env : Env
env = record {
  local_address = [];
  connect = λ addr. pos 5;
  send_ok = λ fd. true;
  recv = λ fd. (pos 100, []);
  serialize_ok = true;
  parse_centers = λ text. none;
  parse_client = λ text. none;
  parse_cluster = λ text. none;
  created = true;
  cancelled = true;
}

abbrev center : RpcCenter
center = construct_center env 9

abbrev later : RpcCenter
later = record center { logical_clock = 1 }

abbrev programs : List (List (Method RpcCenter ℕ))
programs = (clock_increased ∷ []) ∷ (get_logical_clock ∷ []) ∷ []

programs-Clock : All (All IsClockMethod) programs
programs-Clock = ((inl refl, tt), ((inr refl, tt), tt))

abbrev writing : Owners
writing = put_owner 0 (some write) nobody

abbrev written : Owners
written = put_owner 0 none writing

free : (u : ℕ) → written u ≡ none
free u = ground arith

abbrev reading : System Owners RpcCenter ℕ
reading = record {
  rwlock = put_owner 1 (some read) written;
  shared = later;
  threads =
      record { todo = []; phase = idle }
      ∷ record { todo = []; phase = inside get_logical_clock [] 1 }
      ∷ [];
  ended = (0, clock_increased, 0) ∷ [];
}

reading-Reach : Reach owners 0 (fresh nobody center programs) reading
unfolding lock_guard construct_center
reading-Reach =
    next
      (next
        (next
          (next
            (next
              (next
                (next (next here (begins 0 clock_increased [] refl))
                  (begins 1 get_logical_clock [] refl))
                (enters 0 clock_increased [] [] 0 writing _ refl (refl, (refl, λ u j h. cc)) refl))
              (works 0 clock_increased [] load_clock (store_clock ∷ []) 0 refl))
            (works 0 clock_increased [] store_clock [] 0 refl))
          (leaves 0 clock_increased [] 0 0 written refl refl))
        (enters 1 get_logical_clock [] [] 0 (put_owner 1 (some read) written) _ refl
          (refl, (refl, λ u j h. absurd (let f = free u in cc))) refl))
      (works 1 get_logical_clock [] load_clock [] 0 refl)

clock-ReadInTurn_example :
    ReadInTurn reading.ended center
    × ((later ≡ clock_after reading.ended center) ⊎ Writes reading.threads)
    × Each
        (λ i t. get_elem? programs i ≡ some (methods_of i reading.ended ++ pending t))
        reading.threads
clock-ReadInTurn_example =
    clock-ReadInTurn owners nobody center programs reading programs-Clock reading-Reach
