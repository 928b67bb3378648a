-- ===== src/RpcClient/Channel/Order.antt =====
-- The order of the answers to asynchronous calls: GetAsyncResponse of
-- src/rpc_client/rpc_channel.cpp.
use mathlib.Core.Path.{ap₂}
use libevrpc.Base.{
  ℕ, suc, ◌≡◌, refl, ap, ◌∙◌, ◌≢◌, false, Option, none, some, List, [], ◌∷◌, map, length, All,
  if◌then◌else◌, ◌==◌, arith,
}
use libevrpc.Base.Int.{ℤ}
use libevrpc.Base.Bytes.{Bytes, nat_key}
use libevrpc.Base.HashMap.{find, put, find-put, find-erase}
use libevrpc.Util.Hash.{bkdr_hash}
use libevrpc.RpcClient.Channel.{Channel}
use libevrpc.RpcClient.Channel.Pending.{
  limit_reached, Communicates, async_rpc_call, finish_all, take_result, join_first,
  get_async_response,
}
use libevrpc.RpcClient.Channel.Async.{
  call_all, async_rpc_call_first, call_all-Waits, left_by, finish_all-find, finish_all_tids,
  finish_all_fd, call_all_results,
}

-- GetAsyncResponse takes the text of the first thread that waits, which goes with it.
get_async_response_first :
    (done : List (ℕ × Communicates)) (name text : Bytes) (tid : ℕ) (q : List ℕ) (c : Channel)
    → find (bkdr_hash name) c.call_tids ≡ some (tid ∷ q)
    → left_by c.connect_fd tid done (find tid c.call_results) ≡ some text
    → let (c', r) = get_async_response done name c in
      (r ≡ some text)
      × (find (bkdr_hash name) c'.call_tids ≡ some q)
      × ((k : ℕ)
          → find k c'.call_results
            ≡ (if tid == k then none else left_by c.connect_fd k done (find k c.call_results)))
      × (c'.connect_fd ≡ c.connect_fd)
unfolding get_async_response join_first take_result
get_async_response_first done name text tid q c f left =
    let h = bkdr_hash name in
    let c1 : Channel = record c { call_tids = put h q c.call_tids } in
    let found : find tid (finish_all done c1).call_results ≡ some text =
      finish_all-find tid done c1 ∙ left in
    let queue : find h (finish_all done c1).call_tids ≡ some q =
      ap (find h) (finish_all_tids done c1) ∙ ground (arith, find-put h h q c.call_tids) in
    rw (get_async_response, f, join_first, take_result, found)
      (
        refl,
        queue,
        λ k.
            ground (
              arith,
              find-erase tid k (finish_all done c1).call_results,
              finish_all-find k done c1,
            ),
        finish_all_fd done c1,
      )

-- GetAsyncResponse of one method, each with the threads that end while it joins.
pub get_all : Bytes → List (List (ℕ × Communicates)) → Channel → List (Option Bytes)
get_all name [] c = []
get_all name (done ∷ rounds) c =
    let (c', r) = get_async_response done name c in r ∷ get_all name rounds c'

-- By the time of its own GetAsyncResponse each thread has left its text, from the descriptor; `old` gives what the
-- threads had left before.
abbrev pub Delivered :
    ℤ → List (ℕ × Bytes) → List (List (ℕ × Communicates)) → (ℕ → Option Bytes) → Type 0
Delivered fd [] rounds old = rounds ≡ []
Delivered fd (call ∷ calls) [] old = ⊥
Delivered fd (call ∷ calls) (done ∷ rounds) old =
    (left_by fd call.0 done (old call.0) ≡ some call.1)
    × Delivered fd calls rounds (λ k. left_by fd k done (old k))

abbrev pub DistinctThreads : List (ℕ × Bytes) → Type 0
DistinctThreads [] = Unit
DistinctThreads (call ∷ calls) =
    All (λ (other : ℕ × Bytes). call.0 ≢ other.0) calls × DistinctThreads calls

abbrev Knows : (ℕ → Option Bytes) → Channel → List (ℕ × Bytes) → Type 0
Knows old c = All (λ (call : ℕ × Bytes). find call.0 c.call_results ≡ old call.0)

abbrev threads_of : List (ℕ × Bytes) → List ℕ
threads_of = map (λ call. call.0)

abbrev texts_of : List (ℕ × Bytes) → List (Option Bytes)
texts_of = map (λ call. some (call.1))

Knows-next :
    (old : ℕ → Option Bytes) (fd : ℤ) (done : List (ℕ × Communicates)) (tid : ℕ) (c c' : Channel)
    (calls : List (ℕ × Bytes))
    → ((k : ℕ)
        → find k c'.call_results
          ≡ (if tid == k then none else left_by fd k done (find k c.call_results)))
    → All (λ (other : ℕ × Bytes). tid ≢ other.0) calls
    → Knows old c calls
    → Knows (λ k. left_by fd k done (old k)) c' calls
Knows-next old fd done tid c c' [] step d known = tt
Knows-next old fd done tid c c' (call ∷ calls) step d known =
    let other : (tid == call.0) ≡ false = ground (arith, d.0) in
    (step (call.0) ∙ rw (other, known.0), Knows-next old fd done tid c c' calls step d.1 known.1)

get_all-texts :
    (name : Bytes) (fd : ℤ) (calls : List (ℕ × Bytes)) (rounds : List (List (ℕ × Communicates)))
    (old : ℕ → Option Bytes) (c : Channel)
    → find (bkdr_hash name) c.call_tids ≡ some (threads_of calls)
    → DistinctThreads calls
    → c.connect_fd ≡ fd
    → Knows old c calls
    → Delivered fd calls rounds old
    → get_all name rounds c ≡ texts_of calls
unfolding get_all
get_all-texts name fd [] rounds old c f d same known del = rw del refl
get_all-texts name fd (call ∷ calls) [] old c f d same known del = absurd del
get_all-texts name fd (call ∷ calls) (done ∷ rounds) old c f d same known del =
    let left = ap₂ (λ x o. left_by x call.0 done o) same known.0 ∙ del.0 in
    let (r, f', step, same') =
      get_async_response_first done name (call.1) (call.0) (threads_of calls) c f left in
    let c' = (get_async_response done name c).0 in
    ap₂ ◌∷◌ r (
      get_all-texts name fd calls rounds (λ k. left_by fd k done (old k)) c' f' d.1 (same' ∙ same)
        (Knows-next old fd done (call.0) c c' calls
          (λ k.
            step k
            ∙ ap (λ x. if call.0 == k then none else left_by x k done (find k c.call_results)) same)
          d.0 known.1)
        del.1)

Knows-results :
    (c c' : Channel) (calls : List (ℕ × Bytes))
    → c'.call_results ≡ c.call_results
    → Knows (λ k. find k c.call_results) c' calls
Knows-results c c' [] same = tt
Knows-results c c' (call ∷ calls) same = (ap (find call.0) same, Knows-results c c' calls same)

-- AsyncRpcCall of one method on different threads, for a method that has no call pending and with
-- room for one more method, then GetAsyncResponse as often. When each thread has left a text, from
-- the descriptor that the channel has throughout, by the time its GetAsyncResponse has joined it,
-- the i-th GetAsyncResponse gives the text of the thread of the i-th call, in whatever order the
-- threads end. That a text answers the request of its thread is not said.
pub async_in_order :
    (name : Bytes) (call : ℕ × Bytes) (calls : List (ℕ × Bytes))
    (rounds : List (List (ℕ × Communicates))) (c : Channel)
    → find (bkdr_hash name) c.call_tids ≡ none
    → limit_reached (suc (length c.call_tids)) c.call_limit ≡ false
    → DistinctThreads (call ∷ calls)
    → Delivered c.connect_fd (call ∷ calls) rounds (λ k. find k c.call_results)
    → get_all name rounds (call_all name (threads_of (call ∷ calls)) c) ≡ texts_of (call ∷ calls)
unfolding call_all
async_in_order name call calls rounds c f room d del =
    let (accepted, w, same, same_fd) = async_rpc_call_first (call.0) name c f room in
    let c1 = (async_rpc_call (call.0) name c).0 in
    let c2 = call_all name (threads_of calls) c1 in
    let waits = call_all-Waits name (threads_of calls) (call.0 ∷ []) c1 w in
    let (results, end_fd) = call_all_results name (threads_of calls) c1 in
    get_all-texts name c.connect_fd (call ∷ calls) rounds (λ k. find k c.call_results) c2 waits.0 d
      (end_fd ∙ same_fd) (Knows-results c c2 (call ∷ calls) (results ∙ same)) del
