-- ===== src/RpcClient/Channel/Pending.antt =====
-- The calls in threads of their own, src/rpc_client/rpc_channel.cpp: AsyncRpcCall, RpcProcessor and
-- GetAsyncResponse.
use libevrpc.Base.{
  ℕ, ◌-◌, ◌^◌, Bool, true, false, Option, none, some, List, [], ◌∷◌, ◌++◌, if◌then◌else◌, leb,
  length,
}
use libevrpc.Base.Int.{ℤ, pos, negsuc}
use libevrpc.Base.Bytes.{Bytes, nat_key}
use libevrpc.Base.HashMap.{find, put, insert, erase}
use libevrpc.Util.Hash.{bkdr_hash}
use libevrpc.RpcClient.Channel.{
  Channel, Exchange, response_list_failed, replied, failed_with, no_reply,
}

-- `call_tids_map_.size() >= call_limit_`, where the limit becomes a size_t.
abbrev pub limit_reached : ℕ → ℤ → Bool
limit_reached size (pos limit) = leb limit size
limit_reached size (negsuc n) = leb (2 ^ 64 - 1 - n) size

abbrev pub push_tid : ℕ → ℕ → List (ℕ × List ℕ) → List (ℕ × List ℕ)
push_tid hash_code tid tids = elim (find hash_code tids) [
  | none ↦ insert hash_code (tid ∷ []) tids
  | some queue ↦ put hash_code (queue ++ tid ∷ []) tids
]

unfoldable pub async_rpc_call : ℕ → Bytes → Channel → Channel × Bool
async_rpc_call tid method_client_name c =
    if limit_reached (length c.call_tids) c.call_limit then (c, false) else (
      record c {
        call_tids = push_tid (bkdr_hash method_client_name) tid c.call_tids;
        thread_ids = c.thread_ids ++ tid ∷ [];
      },
      true,
    )

-- What RpcCommunication of the thread `tid` has come to.
unfoldable pub leave : ℕ → Exchange → Channel → Channel
leave tid (replied text) c = record c {
  call_results = elim (find tid c.call_results) [
    | none ↦ insert tid text c.call_results
    | some old ↦ put tid text c.call_results
  ];
}
leave tid (failed_with e) c = record c { error_info = some e }
leave tid no_reply c = c

-- What RpcCommunication comes to on a descriptor. RpcSend and RpcRecv read `connect_fd_` of the
-- channel, which all threads share and each CallMethod sets, when the thread runs.
abbrev pub Communicates : Type 0
Communicates = ℤ → Exchange

-- RpcProcessor on the thread `tid`, whose RpcCommunication runs in one go.
unfoldable pub rpc_processor : ℕ → Communicates → Channel → Channel
unfolding leave
rpc_processor tid comm c = leave tid (comm c.connect_fd) c

-- Threads that end, in order.
unfoldable pub finish_all : List (ℕ × Communicates) → Channel → Channel
unfolding rpc_processor
finish_all [] c = c
finish_all ((tid, comm) ∷ done) c = finish_all done (rpc_processor tid comm c)

-- What the joined thread has left: the text that goes to the parser.
unfoldable pub take_result : ℕ → Channel → Channel × Option Bytes
take_result tid c = elim (find tid c.call_results) [
  | none ↦ (c, none)
  | some text ↦ (record c { call_results = erase tid c.call_results }, some text)
]

-- `done`: the threads that end while pthread_join waits.
unfoldable pub join_first : List (ℕ × Communicates) → ℕ → List ℕ → Channel → Channel × Option Bytes
unfolding finish_all take_result
join_first done method_code [] c = (record c { error_info = some response_list_failed }, none)
join_first done method_code (tid ∷ tids) c =
    take_result tid (finish_all done (record c { call_tids = put method_code tids c.call_tids }))

unfoldable pub get_async_response :
    List (ℕ × Communicates) → Bytes → Channel → Channel × Option Bytes
unfolding join_first
get_async_response done method_name c =
    let method_code = bkdr_hash method_name in
    elim (find method_code c.call_tids) [
      | none ↦ (record c { error_info = some response_list_failed }, none)
      | some tids ↦ join_first done method_code tids c
    ]
