-- ===== src/RpcClient/Distributed.antt =====
-- A client of src/rpc_client/rpc_client.cpp that is configured for the distributed mode.
use libevrpc.Base.{ℕ, ◌≡◌, refl, true, Option, some, List, [], inl, inr, arith}
use libevrpc.Base.Int.{ℤ, pos}
use libevrpc.Base.Bytes.{Bytes}
use libevrpc.Base.Fault.{fault, Run-cases}
use libevrpc.RpcClient.{Config, init_client, set_rpc_connection_info, or_null}
use libevrpc.RpcClient.Controller.{RpcController}
use libevrpc.RpcClient.Channel.{
  Channel as ClientChannel, distributed_channel, set_connection_info, Env, RpcCallParams,
  channel_to,
}
use libevrpc.RpcClient.Channel.Call.{call_method, call_address}
use libevrpc.Heartbeat.{random_addr}

gone :
    (env : Env) (fuel : ℕ) (call : RpcCallParams) (controller : Option RpcController)
    (c : ClientChannel) (servers : List Bytes)
    → c.center_client_heartbeat ≡ some servers
    → call_method env fuel call controller c ≡ fault
unfolding call_method call_address
gone env fuel call controller c servers h = elim (Run-cases (random_addr env.random servers)) [
  | inl (a, e) ↦ ground (arith, e)
  | inr e ↦ ground (arith, e)
]

-- In the distributed mode the channel of a client takes its addresses from the heartbeat, and every
-- call on it faults, whatever the heartbeat knows: the text of the address is gone before it is read.
pub call_method_distributed :
    (garbage : Option (List Bytes)) (garbage_fd : ℤ) (config : Config) (env : Env) (fuel : ℕ)
    (call : RpcCallParams) (controller : Option RpcController) (servers : List Bytes)
    → config.distributed_mode ≡ true
    → (c : ClientChannel) × ((init_client garbage garbage_fd config).rpc_channel ≡ some c)
      × (c.center_client_heartbeat ≡ some [])
      × (call_method env fuel call controller (record c { center_client_heartbeat = some servers })
          ≡ fault)
unfolding init_client set_rpc_connection_info call_method set_connection_info distributed_channel
    channel_to
call_method_distributed garbage garbage_fd config env fuel call controller servers d = rw d (
  set_connection_info (pos 1000) (pos 1) (distributed_channel [] (or_null config.rpc_server_port)),
  refl,
  refl,
  gone env fuel call controller
      (record (set_connection_info (pos 1000) (pos 1)
        (distributed_channel [] (or_null config.rpc_server_port))) {
          center_client_heartbeat = some servers;
        })
      servers refl,
)
