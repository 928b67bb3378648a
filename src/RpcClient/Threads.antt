-- ===== src/RpcClient/Threads.antt =====
-- The threads of the heartbeats that RpcClient in src/rpc_client/rpc_client.cpp owns: their start by
-- InitClient and their end in the destructor.
use libevrpc.Base.{Bool, Option, none, some, if◌then◌else◌}
use libevrpc.Util.Thread.{Thread, fresh, start, stop, wait}
use libevrpc.RpcClient.{Config}

pub record ClientThreads : Type 0 where
  pub rpc_heartbeat : Option Thread
  pub center_client_heartbeat : Option Thread

-- `created`: what pthread_create does for the one and for the other.
unfoldable pub init_threads : Bool → Bool → Config → ClientThreads
init_threads heartbeat_created center_created config = record {
  rpc_heartbeat = if config.hb_open then some ((start heartbeat_created fresh).0) else none;
  center_client_heartbeat =
      if config.distributed_mode then some ((start center_created fresh).0) else none;
}

abbrev end_thread : Bool → Bool → Option Thread → Option Thread
end_thread cancelled joined none = none
end_thread cancelled joined (some t) = some ((wait joined (stop cancelled t).0).0)

-- The threads are stopped and waited for before they are deleted: their last states.
unfoldable pub end_client : Bool → Bool → ClientThreads → ClientThreads
end_client cancelled joined t = record {
  rpc_heartbeat = end_thread cancelled joined t.rpc_heartbeat;
  center_client_heartbeat = end_thread cancelled joined t.center_client_heartbeat;
}
