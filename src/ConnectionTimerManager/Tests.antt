-- ===== src/ConnectionTimerManager/Tests.antt =====
-- One connection in the wheel, src/rpc_server/connection_timer_manager.cpp.
use libevrpc.Base.{List, ◌≡◌, refl, true, none, some, [], ◌∷◌, arith}
use libevrpc.Base.Int.{pos}
use libevrpc.Base.Bytes.{Bytes, bytes_eq, bytes_key}
use libevrpc.Base.HashMap.{find}
use libevrpc.Base.Fault.{ok, fault}
use libevrpc.ConnectionTimerManager.{
  ConnectionTimer, Buckets, ConnectionTimerManager, generate_bucket_num, crawl_one, crawl,
  connection_buf_crawler, wheel_round, construct_manager,
}
use libevrpc.ConnectionTimerManager.Buffers.{
  Op, add_buf, crawls, insert_timer, delete_timer, refresh_addr, Runs, run_ops-Runs,
}
use libevrpc.ConnectionTimerManager.Crawl.{lookup, lookup-crawl_one}
use libevrpc.ConnectionTimerManager.Wheel.{wheel_round-live}

abbrev key : Bytes
key = b'a' ∷ b'_' ∷ b'5' ∷ []

abbrev timer : ConnectionTimer
timer = record {
  expire_time = 40;
  fd = pos 5;
  running_version = 0;
  thread_id = 11;
  client_addr = b'a' ∷ [];
}

abbrev no_buckets : Buckets
no_buckets n = none

lookup-crawl_one_example :
    lookup key (crawl_one (some []) (some ((key, timer) ∷ [])) no_buckets) ≡ some timer
unfolding find bytes_eq
lookup-crawl_one_example = lookup-crawl_one (some []) (some ((key, timer) ∷ [])) no_buckets key

abbrev manager : ConnectionTimerManager
manager = record {
  connection_buf = some ((key, timer) ∷ []) ∷ [];
  connection_del_list = none ∷ [];
  connection_buf_mutex = 1;
  connection_bucket_mutex = 60;
  connection_dellist_mutex = 1;
  refresh_client_list = none;
  connection_pool_buckets = no_buckets;
  buf_index = 1;
  bucket_index = generate_bucket_num key;
  refresh_interval = 30;
  running = true;
}

abbrev crawled : ConnectionTimerManager
crawled = record manager {
  connection_buf = none ∷ [];
  connection_del_list = none ∷ [];
  connection_pool_buckets = crawl_one none (some ((key, timer) ∷ [])) no_buckets;
}

manager_crawls : connection_buf_crawler manager ≡ ok crawled
unfolding connection_buf_crawler crawl
manager_crawls = refl

crawled_has : lookup key crawled.connection_pool_buckets ≡ some timer
unfolding find bytes_eq
crawled_has = lookup-crawl_one none (some ((key, timer) ∷ [])) no_buckets key

wheel_round-live_example : wheel_round 20 manager ≡ fault
wheel_round-live_example =
    wheel_round-live 20 manager crawled key timer manager_crawls crawled_has refl (omega arith)
      (omega arith)

-- Two buffers, a timer in each, a crawl, and a timer more.
abbrev ops : List Op
ops =
    add_buf
    ∷ insert_timer 10 (b'a' ∷ []) (pos 5) 0 0 11
    ∷ add_buf
    ∷ insert_timer 11 (b'b' ∷ []) (pos 6) 1 0 12
    ∷ crawls
    ∷ delete_timer (b'a' ∷ []) (pos 5) 0
    ∷ refresh_addr (b'b' ∷ [])
    ∷ insert_timer 12 (b'c' ∷ []) (pos 7) 1 1 12
    ∷ []

run_ops-Runs_example : Runs ops (construct_manager 30)
run_ops-Runs_example =
    run_ops-Runs 30 ops (omega arith, (omega arith, (omega arith, (omega arith, tt))))
