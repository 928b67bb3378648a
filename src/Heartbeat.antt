-- ===== src/Heartbeat.antt =====
-- What the heartbeats of src/rpc_client/center_client_heartbeat.cpp and
-- src/rpc_server/center_cluster_heartbeat.cpp share: the file of centers, the choice of an address,
-- and one exchange with a center. Sleeping is left out.
pub mod Client
pub mod Cluster
pub mod Ping
mod Tests
use libevrpc.Base.{
  ℕ, zero, suc, ◌%◌, ◌<◌, ◌≡◌, ◌≢◌, refl, arith, Bool, true, false, Option, none, some, List, [],
  ◌∷◌, ◌++◌, ◌==◌, if◌then◌else◌, length, get_elem?,
}
use libevrpc.Base.Int.{ℤ, pos, negsuc, is_neg}
use libevrpc.Base.Bytes.{Bytes, bytes_eq, until_nul}
use libevrpc.Base.Fault.{Run, ok, fault, ◌>>=◌, deref}
use libevrpc.Communication.{
  Sent, rpc_send, RecvResult, RecvRun, returned, waiting, overrun, rpc_recv,
}

-- The surroundings of one exchange, with the messages M that are sent and R that come back: rand(),
-- TcpConnect by address, the generated code, send() and recv().
pub record Env (M R : Type 0) : Type 0 where
  pub random : ℕ
  pub connect : Bytes → ℤ
  pub serialize : M → Option Bytes
  pub send : ℕ → Bool
  pub recv : List RecvResult
  pub parse : Bytes → Option R

-- fd <= 0
abbrev pub not_positive : ℤ → Bool
not_positive (pos n) = n == 0
not_positive (negsuc n) = true

-- The lines of the file of centers without the own address.
unfoldable pub other_lines : Bytes → List Bytes → List Bytes
other_lines local_addr [] = []
other_lines local_addr (line ∷ lines) =
    let rest = other_lines local_addr lines in
    if bytes_eq (until_nul line) local_addr then rest else line ∷ rest

-- `random(size)`, a remainder by 0 on an empty list, and `at(index)`, which throws out of range.
abbrev pub random_index : ℕ → ℕ → Run ℕ
random_index random size = if size == 0 then fault else ok (random % size)

unfoldable pub random_addr : ℕ → List Bytes → Run Bytes
random_addr random addrs = do
  index ← random_index random (length addrs)
  deref (get_elem? addrs index)

-- What RpcRecv gives: nothing while it waits.
abbrev pub received : RecvRun → Run (Option (ℤ × Bytes))
received (returned id text c) = ok (some (id, text))
received (waiting text) = ok none
received overrun = fault

-- close() calls: one after a failed RpcSend, which has closed the descriptor too.
abbrev pub close_if : Bool → ℤ → List ℤ
close_if c fd = if c then fd ∷ [] else []

get_elem?-some : (xs : List Bytes) (i : ℕ) → i < length xs → (a : Bytes) × (get_elem? xs i ≡ some a)
get_elem?-some [] i h = absurd (omega arith)
get_elem?-some (x ∷ xs) zero h = (x, refl)
get_elem?-some (x ∷ xs) (suc i) h = get_elem?-some xs i (omega arith)

-- at() finds an address for every index in range.
pub at-ok :
    (xs : List Bytes) (i : ℕ) → i < length xs → (a : Bytes) × (deref (get_elem? xs i) ≡ ok a)
at-ok xs i h = let (a, e) = get_elem?-some xs i h in (a, rw e)

pub random_addr-ok :
    (random : ℕ) (addrs : List Bytes)
    → length addrs ≢ 0
    → (a : Bytes) × (random_addr random addrs ≡ ok a)
unfolding random_addr
random_addr-ok random addrs ne =
    let (a, e) = at-ok addrs (random % length addrs) (omega arith) in (a, ground (arith, e))
