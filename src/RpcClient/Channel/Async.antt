-- ===== src/RpcClient/Channel/Async.antt =====
-- Calls in threads of their own: AsyncRpcCall and RpcProcessor of src/rpc_client/rpc_channel.cpp.
use libevrpc.Base.{
  ℕ, suc, ◌≡◌, refl, ap, ◌∙◌, true, false, Option, none, some, List, [], ◌∷◌, ◌++◌, length,
  if◌then◌else◌, ◌==◌, arith, append_assoc, append-nil,
}
use libevrpc.Base.Int.{ℤ, pos, negsuc}
use libevrpc.Base.Bytes.{Bytes, nat_key}
use libevrpc.Base.HashMap.{find, put, insert, find-put}
use libevrpc.Util.Hash.{bkdr_hash}
use libevrpc.RpcClient.Channel.{Channel, Exchange, replied, failed_with, no_reply}
use libevrpc.RpcClient.Channel.Pending.{
  limit_reached, push_tid, async_rpc_call, leave, Communicates, rpc_processor, finish_all,
}

module _ {V : Type 0} where
  length-put_found :
      (k : ℕ) (v w : V) (m : List (ℕ × V)) → find k m ≡ some w → length (put k v m) ≡ length m
  unfolding find put
  length-put_found k v w [] e = absurd (ground arith)
  length-put_found k v w ((j, u) ∷ m) e = ground (arith, length-put_found k v w m)

  length-put_new :
      (k : ℕ) (v : V) (m : List (ℕ × V)) → find k m ≡ none → length (put k v m) ≡ suc (length m)
  unfolding find put
  length-put_new k v [] e = refl
  length-put_new k v ((j, u) ∷ m) e = ground (arith, length-put_new k v m)

push_tid_found :
    (h tid : ℕ) (q : List ℕ) (m : List (ℕ × List ℕ))
    → find h m ≡ some q
    → push_tid h tid m ≡ put h (q ++ tid ∷ []) m
push_tid_found h tid q m f = ground (arith, f)

push_tid_new :
    (h tid : ℕ) (m : List (ℕ × List ℕ)) → find h m ≡ none → push_tid h tid m ≡ put h (tid ∷ []) m
unfolding insert
push_tid_new h tid m f = ground (arith, f)

limit_reached_less :
    (n : ℕ) (limit : ℤ) → limit_reached (suc n) limit ≡ false → limit_reached n limit ≡ false
limit_reached_less n (pos l) e = ground arith
limit_reached_less n (negsuc l) e = ground arith

-- The threads that wait under a hash, with room for more calls of the same method.
abbrev pub Waits : ℕ → List ℕ → Channel → Type 0
Waits h q c =
    (find h c.call_tids ≡ some q) × (limit_reached (length c.call_tids) c.call_limit ≡ false)

async_rpc_call-Waits :
    (tid : ℕ) (name : Bytes) (q : List ℕ) (c : Channel)
    → Waits (bkdr_hash name) q c
    → let (c', accepted) = async_rpc_call tid name c in
      (accepted ≡ true)
      × Waits (bkdr_hash name) (q ++ tid ∷ []) c'
      × (c'.call_results ≡ c.call_results)
      × (c'.connect_fd ≡ c.connect_fd)
unfolding async_rpc_call
async_rpc_call-Waits tid name q c (f, room) =
    let h = bkdr_hash name in
    let kept = length-put_found h (q ++ tid ∷ []) q c.call_tids f in
    let there : find h (put h (q ++ tid ∷ []) c.call_tids) ≡ some (q ++ tid ∷ []) =
      ground (arith, find-put h h (q ++ tid ∷ []) c.call_tids) in
    rw (room, push_tid_found h tid q c.call_tids f) (refl, (there, rw kept room), refl, refl)

-- The first call of a method.
pub async_rpc_call_first :
    (tid : ℕ) (name : Bytes) (c : Channel)
    → find (bkdr_hash name) c.call_tids ≡ none
    → limit_reached (suc (length c.call_tids)) c.call_limit ≡ false
    → let (c', accepted) = async_rpc_call tid name c in
      (accepted ≡ true)
      × Waits (bkdr_hash name) (tid ∷ []) c'
      × (c'.call_results ≡ c.call_results)
      × (c'.connect_fd ≡ c.connect_fd)
unfolding async_rpc_call
async_rpc_call_first tid name c f room =
    let h = bkdr_hash name in
    let grown = length-put_new h (tid ∷ []) c.call_tids f in
    let there : find h (put h (tid ∷ []) c.call_tids) ≡ some (tid ∷ []) =
      ground (arith, find-put h h (tid ∷ []) c.call_tids) in
    let before = limit_reached_less (length c.call_tids) c.call_limit room in
    rw (before, push_tid_new h tid c.call_tids f) (refl, (there, rw grown room), refl, refl)

-- AsyncRpcCall of one method on a list of threads.
unfoldable pub call_all : Bytes → List ℕ → Channel → Channel
call_all name [] c = c
call_all name (tid ∷ tids) c = call_all name tids (async_rpc_call tid name c).0

pub call_all-Waits :
    (name : Bytes) (tids q : List ℕ) (c : Channel)
    → Waits (bkdr_hash name) q c
    → Waits (bkdr_hash name) (q ++ tids) (call_all name tids c)
unfolding call_all
call_all-Waits name [] q c w = rw append-nil w
call_all-Waits name (tid ∷ tids) q c w =
    let (accepted, w', _, _) = async_rpc_call-Waits tid name q c w in
    rw⁻¹ (append_assoc q (tid ∷ []) tids)
      (call_all-Waits name tids (q ++ tid ∷ []) (async_rpc_call tid name c).0 w')

-- What a thread that ends leaves under its id.
abbrev pub result_of : Exchange → Option Bytes → Option Bytes
result_of (replied text) old = some text
result_of (failed_with e) old = old
result_of no_reply old = old

leave-find :
    (tid k : ℕ) (x : Exchange) (c : Channel)
    → find k (leave tid x c).call_results
      ≡ (if tid == k then result_of x (find k c.call_results) else find k c.call_results)
unfolding leave insert
leave-find tid k (replied text) c = ground (arith, find-put tid k text c.call_results)
leave-find tid k (failed_with e) c = ground arith
leave-find tid k no_reply c = ground arith

leave_tids : (tid : ℕ) (x : Exchange) (c : Channel) → (leave tid x c).call_tids ≡ c.call_tids
unfolding leave
leave_tids tid (replied text) c = refl
leave_tids tid (failed_with e) c = refl
leave_tids tid no_reply c = refl

leave_fd : (tid : ℕ) (x : Exchange) (c : Channel) → (leave tid x c).connect_fd ≡ c.connect_fd
unfolding leave
leave_fd tid (replied text) c = refl
leave_fd tid (failed_with e) c = refl
leave_fd tid no_reply c = refl

-- The last text that a thread leaves that communicates on a descriptor, if it leaves one.
unfoldable pub left_by : ℤ → ℕ → List (ℕ × Communicates) → Option Bytes → Option Bytes
left_by fd k [] old = old
left_by fd k ((tid, comm) ∷ done) old =
    left_by fd k done (if tid == k then result_of (comm fd) old else old)

pub finish_all-find :
    (k : ℕ) (done : List (ℕ × Communicates)) (c : Channel)
    → find k (finish_all done c).call_results ≡ left_by c.connect_fd k done (find k c.call_results)
unfolding finish_all left_by rpc_processor
finish_all-find k [] c = refl
finish_all-find k ((tid, comm) ∷ done) c =
    let x = comm c.connect_fd in
    finish_all-find k done (leave tid x c)
    ∙ ap (λ fd. left_by fd k done (find k (leave tid x c).call_results)) (leave_fd tid x c)
    ∙ ap (left_by c.connect_fd k done) (leave-find tid k x c)

pub finish_all_tids :
    (done : List (ℕ × Communicates)) (c : Channel) → (finish_all done c).call_tids ≡ c.call_tids
unfolding finish_all rpc_processor
finish_all_tids [] c = refl
finish_all_tids ((tid, comm) ∷ done) c =
    finish_all_tids done (leave tid (comm c.connect_fd) c) ∙ leave_tids tid (comm c.connect_fd) c

pub finish_all_fd :
    (done : List (ℕ × Communicates)) (c : Channel) → (finish_all done c).connect_fd ≡ c.connect_fd
unfolding finish_all rpc_processor
finish_all_fd [] c = refl
finish_all_fd ((tid, comm) ∷ done) c =
    finish_all_fd done (leave tid (comm c.connect_fd) c) ∙ leave_fd tid (comm c.connect_fd) c

async_rpc_call_results :
    (tid : ℕ) (name : Bytes) (c : Channel)
    → ((async_rpc_call tid name c).0.call_results ≡ c.call_results)
      × ((async_rpc_call tid name c).0.connect_fd ≡ c.connect_fd)
unfolding async_rpc_call
async_rpc_call_results tid name c = ground arith

pub call_all_results :
    (name : Bytes) (tids : List ℕ) (c : Channel)
    → ((call_all name tids c).call_results ≡ c.call_results)
      × ((call_all name tids c).connect_fd ≡ c.connect_fd)
unfolding call_all
call_all_results name [] c = (refl, refl)
call_all_results name (tid ∷ tids) c =
    let (r, fd) = call_all_results name tids (async_rpc_call tid name c).0 in
    let (r', fd') = async_rpc_call_results tid name c in (r ∙ r', fd ∙ fd')
