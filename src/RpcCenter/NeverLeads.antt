-- ===== src/RpcCenter/NeverLeads.antt =====
-- Runs of a center of src/rpc_center/rpc_center.cpp, from InitRpcCenter on.
use mathlib.Core.Path.{subst}
use libevrpc.Base.{ℕ, ◌≡◌, sym, ◌∙◌, ◌≢◌, Bool, some, List}
use libevrpc.Base.Int.{ℤ}
use libevrpc.Base.Bytes.{Bytes, until_nul}
use libevrpc.Base.Fault.{ok}
use libevrpc.Proto.{leading, CentersProto}
use libevrpc.RpcCenter.{RpcCenter, Env}
use libevrpc.RpcCenter.Election.Rounds.{start_fast_leader_election}
use libevrpc.RpcCenter.Election.Votes.{NotLocal, Follower}
use libevrpc.RpcCenter.Election.Elect.{start_fast_leader_election-Follower}
use libevrpc.RpcCenter.Process.{process_center_data}
use libevrpc.RpcCenter.Process.Status.{process_center_data-Follower}
use libevrpc.RpcCenter.Requests.{center_processor, reporter_processor}
use libevrpc.RpcCenter.Requests.Leader.{
  SameElection, center_processor-SameElection, reporter_processor-SameElection,
}
use libevrpc.RpcCenter.Boot.{construct_center, init_rpc_center}
use libevrpc.RpcCenter.Boot.Peers.{init_rpc_center-Follower}

SameElection-Follower :
    (local : Bytes) (c c' : RpcCenter) → SameElection c c' → Follower local c → Follower local c'
SameElection-Follower local c c' (s, o, _, _) (h, l) =
    (subst (NotLocal local) (sym o) h, λ e. l (sym s ∙ e))

-- What can happen to a center at the address `local`: a message of another center is processed, an
-- election is started, a request is served, or a report is sent, each in surroundings of its own.
pub data Step (local : Bytes) : RpcCenter → RpcCenter → Type 0 where
  processes :
      (env : Env) (fd : ℤ) (p : CentersProto) (c : RpcCenter) (r : RpcCenter × Bool)
      → env.local_address ≡ local
      → until_nul p.from_center_addr ≢ local
      → process_center_data env fd p c ≡ ok r
      → Step local c r.0
  elects :
      (env : Env) (c : RpcCenter) (r : RpcCenter × Bool)
      → start_fast_leader_election env c ≡ ok r
      → Step local c r.0
  serves :
      (env : Env) (fd : ℤ) (c : RpcCenter) (r : RpcCenter × Bool)
      → center_processor env fd c ≡ ok r
      → Step local c r.0
  reports :
      (env : Env) (fd : ℤ) (c : RpcCenter) (r : RpcCenter × Bool)
      → reporter_processor env fd c ≡ ok r
      → Step local c r.0

pub data Reach (local : Bytes) (s : RpcCenter) : RpcCenter → Type 0 where
  here : Reach local s s
  next : {c d : RpcCenter} → Reach local s c → Step local c d → Reach local s d

Step-Follower :
    {local : Bytes} {c d : RpcCenter} → Step local c d → Follower local c → Follower local d
Step-Follower {local} (processes env fd p c r l ne e) f =
    let ne' : until_nul p.from_center_addr ≢ env.local_address = λ q. ne (q ∙ l) in
    subst (λ a. Follower a r.0) l
      (process_center_data-Follower env fd p c r (subst (λ a. Follower a c) (sym l) f) ne' e)
Step-Follower {local} (elects env c r e) f = start_fast_leader_election-Follower env local c r f e
Step-Follower {local} (serves env fd c r e) f =
    SameElection-Follower local c r.0 (center_processor-SameElection env fd c r e) f
Step-Follower {local} (reports env fd c r e) f =
    SameElection-Follower local c r.0 (reporter_processor-SameElection env fd c r e) f

Reach-Follower :
    {local : Bytes} {s c : RpcCenter} → Follower local s → Reach local s c → Follower local c
Reach-Follower f here = f
Reach-Follower f (next r s) = Step-Follower s (Reach-Follower f r)

-- A center that is initialised from its file of centers and then answers messages of other
-- centers, elects, serves and reports, in any order, never has the status LEADING.
pub never_leads :
    (env : Env) (now : ℕ) (ini_get_int : Bytes → ℤ → ℤ) (file : Bytes) (lines : List Bytes)
    (c : RpcCenter)
    → Reach env.local_address
        (init_rpc_center env ini_get_int file (some lines) (construct_center env now)).0
        c
    → c.center_status ≢ leading
never_leads env now ini_get_int file lines c reached =
    (Reach-Follower (init_rpc_center-Follower env now ini_get_int file lines) reached).1
