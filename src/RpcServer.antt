-- ===== src/RpcServer.antt =====
-- src/rpc_server/rpc_server.{h,cpp}: the table of methods, and what a call goes through, from
-- RpcCall over RpcProcessor to RpcWriter. A message of the generated code is a number. What the
-- sockets, the generated code and the services do is an argument. Guarded blocks are single steps.
pub mod Methods
pub mod Processor
pub mod Workers
pub mod Calls
pub mod Turns
pub mod Threads
mod Tests
use libevrpc.Base.{
  ℕ, Bool, true, false, Option, none, some, List, [], ◌∷◌, ◌++◌, ◌==◌, if◌then◌else◌,
}
use libevrpc.Base.Int.{ℤ, pos, negsuc, eq_ℤ, word32}
use libevrpc.Base.Bytes.{Bytes, nat_key}
use libevrpc.Base.HashMap.{find, put, insert, erase}
use libevrpc.Base.Fault.{Run, ok, fault, ◌>>=◌, deref}
use libevrpc.Util.Hash.{bkdr_hash}
use libevrpc.Communication.{
  Sent, rpc_send, RecvResult, RecvRun, returned, waiting, overrun, rpc_recv, error_recv,
}
use libevrpc.LibevThreadPool.{
  LibevThreadPool, RequestQueueItem, dispatch_rpc_call, libev_processor, restart_thread,
}

-- What the descriptor of a method tells.
pub record MethodDescriptor : Type 0 where
  pub full_name : Bytes
  pub name : Bytes

-- The prototypes of the request and of the response come with the method.
pub record RpcMethod : Type 0 where
  pub service : ℕ
  pub method : MethodDescriptor

pub record Service : Type 0 where
  pub id : ℕ
  pub methods : List MethodDescriptor

-- `call_id` is none until it is set, `response_ptr` is none for NULL.
pub record CallBackParams : Type 0 where
  pub event_fd : ℤ
  pub call_id : Option ℤ
  pub has_server : Bool
  pub recv_info : Bytes
  pub response_ptr : Option ℕ

pub data Effect : Type 0 where
  closed : ℤ → Effect
  sent : ℤ → List Bytes → Effect

-- The CallBackParams that are allocated stand under their addresses.
pub record RpcServer : Type 0 where
  pub method_hashmap : List (ℕ × RpcMethod)
  pub worker_threads : Option LibevThreadPool
  pub reader_threads : Option LibevThreadPool
  pub writer_threads : Option LibevThreadPool
  pub params : List (ℕ × CallBackParams)
  pub effects : List Effect

-- recv() and send() by descriptor, the generated code, the services, and the allocation of a
-- worker item with the write to the pipe of a worker. A request of NULL is none.
pub record Env : Type 0 where
  pub recv : ℤ → List RecvResult
  pub send : ℤ → ℕ → Bool
  pub parse_request : RpcMethod → Bytes → Option ℕ
  pub call_method : RpcMethod → Option ℕ → ℕ
  pub serialize : ℕ → Option Bytes
  pub malloc : Option ℕ
  pub write_ok : Bool

-- One round of the loop of RegisteService.
registe_method : ℕ → MethodDescriptor → List (ℕ × RpcMethod) → List (ℕ × RpcMethod)
registe_method service method_desc methods =
    let rpc_method : RpcMethod = record { service = service; method = method_desc } in
    let hash_code = bkdr_hash method_desc.full_name in
    elim (find hash_code methods) [
      | none ↦ insert hash_code rpc_method methods
      | some old ↦ put hash_code rpc_method methods
    ]

pub registe_methods : ℕ → List MethodDescriptor → List (ℕ × RpcMethod) → List (ℕ × RpcMethod)
unfolding registe_method
registe_methods service [] methods = methods
registe_methods service (m ∷ ms) methods =
    registe_methods service ms (registe_method service m methods)

unfoldable pub registe_service : Service → RpcServer → RpcServer × Bool
unfolding registe_methods
registe_service reg_service s = (
  record s { method_hashmap = registe_methods reg_service.id reg_service.methods s.method_hashmap },
  true,
)

-- The addresses of the callbacks.
abbrev pub processor_address : ℕ
processor_address = 1

abbrev pub writer_address : ℕ
writer_address = 2

abbrev pub add_effects : List Effect → RpcServer → RpcServer
add_effects es s = record s { effects = s.effects ++ es }

abbrev pub delete_params : ℕ → RpcServer → RpcServer
delete_params arg s = record s { params = erase arg s.params }

-- `delete cb_params_ptr` and `close(event_fd)`.
abbrev pub reject : ℕ → ℤ → RpcServer → RpcServer
reject arg event_fd s = add_effects (closed event_fd ∷ []) (delete_params arg s)

abbrev pub new_params : ℤ → CallBackParams
new_params event_fd = record {
  event_fd = event_fd;
  call_id = none;
  has_server = true;
  recv_info = [];
  response_ptr = none;
}

-- What RpcCall does with the answer of the worker pool.
call_dispatched : ℕ → ℤ → RpcServer → LibevThreadPool × Bool → RpcServer
call_dispatched arg event_fd s (pool, ret) =
    let s' = record s { worker_threads = some pool } in if ret then s' else reject arg event_fd s'

-- `arg` is the address that `new` gives.
unfoldable pub rpc_call : Env → ℕ → ℤ → RpcServer → Run RpcServer
unfolding call_dispatched
rpc_call env arg event_fd s = elim s.worker_threads [
  | none ↦ ok s
  | some pool ↦ (do
    dispatched ← dispatch_rpc_call env.malloc env.write_ok processor_address arg pool
    ok (
        call_dispatched arg event_fd (record s { params = put arg (new_params event_fd) s.params })
          dispatched))
]

-- What RpcRecv gives the processor: nothing while it waits.
abbrev pub received : RecvRun → Run (Option (ℤ × Bytes))
received (returned id text c) = ok (some (id, text))
received (waiting text) = ok none
received overrun = fault

-- With a pool of readers the id stays -1, and the text empty.
unfoldable pub receive_call : Env → ℤ → RpcServer → Run (Option (ℤ × Bytes))
receive_call env event_fd s = elim s.reader_threads [
  | some readers ↦ ok (some (negsuc 0, []))
  | none ↦ received (rpc_recv (env.recv event_fd) [] false)
]

-- The method and the request that a call names, as the inner block of RpcProcessor finds them;
-- none on its error paths, that of a failed RpcRecv included.
unfoldable pub find_call : Env → RpcServer → ℤ × Bytes → Option (RpcMethod × ℕ)
find_call env s call =
    let looked_up : Option (RpcMethod × ℕ) = elim (find (word32 call.0) s.method_hashmap) [
      | none ↦ none
      | some m ↦ elim (env.parse_request m call.1) [ none ↦ none | some r ↦ some (m, r) ]
    ] in
    let read_here : Bool = elim s.reader_threads [ none ↦ true | some readers ↦ false ] in
    if read_here then (if eq_ℤ call.0 error_recv then none else looked_up) else looked_up

-- RpcSend, and the close() in it.
abbrev pub sent_effects : ℤ → Sent → List Effect
sent_effects event_fd s =
    let ends : List Effect = if s.closed then closed event_fd ∷ [] else [] in
    sent event_fd s.frames ∷ ends

abbrev pub set_response : ℕ → CallBackParams → ℕ → RpcServer → RpcServer
set_response arg cb response s = record s {
  params = put arg (record cb { response_ptr = some response }) s.params;
}

-- RpcProcessor from the call of the method on, with the pointers as they stand there.
unfoldable pub answer_call :
    Env → ℕ → CallBackParams → Option RpcMethod → Option ℕ → RpcServer → Run RpcServer
answer_call env arg cb rpc_method request s = do
  m ← deref rpc_method
  let response = env.call_method m request
  elim (env.serialize response) [
    | none ↦ ok (reject arg cb.event_fd s)
    | some response_str ↦ elim s.writer_threads [
      | none ↦ ok (
          add_effects
            (sent_effects cb.event_fd (rpc_send (env.send cb.event_fd) (pos 0) response_str true))
            s)
      | some writers ↦ (do
        dispatched ← dispatch_rpc_call env.malloc env.write_ok writer_address arg writers
        ok (record (set_response arg cb response s) { writer_threads = some (dispatched.0) }))
    ]
  ]

-- The pointers that the inner block sets are its own, and hide those outside, which stay NULL.
abbrev pub outer_method : Option RpcMethod
outer_method = none

abbrev pub outer_request : Option ℕ
outer_request = none

process_call : Env → ℕ → CallBackParams → RpcServer → Option (ℤ × Bytes) → Run (RpcServer × Bool)
process_call env arg cb s none = ok (s, false)
process_call env arg cb s (some call) = elim (find_call env s call) [
  | none ↦ ok (reject arg cb.event_fd s, true)
  | some found ↦ (do s' ← answer_call env arg cb outer_method outer_request s; ok (s', true))
]

-- The second result is false while RpcRecv waits.
unfoldable pub rpc_processor : Env → ℕ → RpcServer → Run (RpcServer × Bool)
unfolding process_call
rpc_processor env arg s = do
  cb ← deref (find arg s.params)
  call ← (if cb.has_server then receive_call env cb.event_fd s else ok none)
  (if cb.has_server then process_call env arg cb s call else ok (delete_params arg s, true))
