-- ===== src/RpcServer/Tests.antt =====
-- The server at a service with one method, and calls of it.
use libevrpc.Base.{◌≡◌, ◌≢◌, refl, true, none, some, List, [], ◌∷◌, map, arith, ◌==◌, if◌then◌else◌}
use libevrpc.Base.Int.{pos, negsuc}
use libevrpc.Base.Bytes.{Bytes, nat_key}
use libevrpc.Base.HashMap.{find}
use libevrpc.Base.Fault.{ok, fault}
use libevrpc.Util.Hash.{bkdr_hash}
use libevrpc.Communication.{chunk}
use libevrpc.Communication.RoundTrip.{Delivers, done, deliver}
use libevrpc.LibevThreadPool.{Heap, LibevThreadPool, LibevThread}
use libevrpc.RpcClient.Channel.{call_sent}
use libevrpc.RpcServer.{
  MethodDescriptor, RpcMethod, Service, CallBackParams, RpcServer, Env, new_params, registe_service,
  receive_call, find_call, rpc_processor,
}
use libevrpc.RpcServer.Methods.{last_with, or_else, find-registe_service, IsTable}
use libevrpc.RpcServer.Processor.{rpc_processor_cases, Ends}
use libevrpc.RpcServer.Calls.{rpc_processor-call_sent}

abbrev echo : MethodDescriptor
echo = record { full_name = b'S' ∷ b'.' ∷ b'e' ∷ []; name = b'e' ∷ [] }

abbrev service : Service
service = record { id = 4; methods = echo ∷ [] }

abbrev echo_method : RpcMethod
echo_method = record { service = 4; method = echo }

abbrev memory : Heap
memory a = record { processor = 0; param = 0; next = if a == 100 then some 101 else none }

abbrev idle : LibevThread
idle = record {
  thread_id = 7;
  running_version = 0;
  new_request_queue = record { head = none; tail = none };
  notified = [];
}

abbrev pool : LibevThreadPool
pool = record {
  current_thread = negsuc 0;
  num_threads = 1;
  libev_threads = some (idle ∷ []);
  rqi_freelist = some 100;
  heap = memory;
}

abbrev call : CallBackParams
call = new_params (pos 5)

abbrev empty_server : RpcServer
empty_server = record {
  method_hashmap = [];
  worker_threads = some pool;
  reader_threads = none;
  writer_threads = none;
  params = (9, call) ∷ [];
  effects = [];
}

abbrev server : RpcServer
server = record empty_server { method_hashmap = (bkdr_hash echo.full_name, echo_method) ∷ [] }

abbrev readers_server : RpcServer
readers_server = record server { reader_threads = some pool }

abbrev request : Bytes
request = 8 ∷ 1 ∷ []

abbrev call_frames : List Bytes
call_frames = (call_sent (λ k. true) echo.full_name request).frames

abbrev env : Env
env = record {
  recv = λ fd. map chunk call_frames;
  send = λ fd k. true;
  parse_request = λ m text. some 1;
  call_method = λ m r. 2;
  serialize = λ m. some (b'h' ∷ b'i' ∷ []);
  malloc = none;
  write_ok = true;
}

deliver_all : (frames : List Bytes) → Delivers [] frames (map chunk frames)
deliver_all [] = done
deliver_all (frame ∷ frames) = deliver frame (deliver_all frames)

server-IsTable : IsTable server
unfolding find
server-IsTable k m e = ground (arith, e)

find-registe_service_example :
    ((registe_service service empty_server).1 ≡ true)
    × (find (bkdr_hash echo.full_name) (registe_service service empty_server).0.method_hashmap
        ≡ or_else (last_with 4 (bkdr_hash echo.full_name) (echo ∷ [])) none)
unfolding find
find-registe_service_example = find-registe_service service empty_server (bkdr_hash echo.full_name)

there : find 9 server.params ≡ some call
unfolding find
there = refl

rpc_processor_cases_example : Ends env 9 call server
rpc_processor_cases_example = rpc_processor_cases env 9 call server there refl

hashed : bkdr_hash echo.full_name ≢ 0
unfolding bkdr_hash
hashed = λ e. ground arith

found : find (bkdr_hash echo.full_name) server.method_hashmap ≡ some echo_method
unfolding find bkdr_hash
found = refl

rpc_processor-call_sent_example :
    (receive_call env (pos 5) server ≡ ok (some (pos (bkdr_hash echo.full_name), request)))
    × (find_call env server (pos (bkdr_hash echo.full_name), request) ≡ some (echo_method, 1))
    × (rpc_processor env 9 server ≡ fault)
rpc_processor-call_sent_example =
    rpc_processor-call_sent env 9 call server (λ k. true) echo.full_name request echo_method 1 there
      refl refl (λ k. refl) (omega arith) (omega arith) (omega arith, (omega arith, tt)) hashed
      (deliver_all call_frames) found refl
