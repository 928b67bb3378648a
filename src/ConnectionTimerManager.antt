-- ===== src/ConnectionTimerManager.antt =====
-- src/rpc_server/connection_timer_manager.{h,cpp}: the buffers of the worker threads, the wheel of
-- 60 buckets, and a round of the thread that turns it. Guarded blocks are single steps. The time is
-- an argument, client_timeout a number without a sign.
pub mod Crawl
pub mod Wheel
pub mod Buffers
mod Tests
use libevrpc.Base.{
  ℕ, zero, suc, ◌+◌, ◌/◌, ◌%◌, Bool, true, false, Option, none, some, List, [], ◌∷◌, ◌++◌, ◌==◌,
  if◌then◌else◌, ltb, length, get_elem?, set,
}
use libevrpc.Base.Int.{ℤ, pos, negsuc}
use libevrpc.Base.Bytes.{Bytes, bytes_key, bytes_eq}
use libevrpc.Base.HashMap.{find, insert, erase}
use libevrpc.Base.Fault.{Run, ok, fault, ◌>>=◌, deref}
use libevrpc.Util.Hash.{bkdr_hash}

-- `start_time`, which nothing sets or reads, is left out.
pub record ConnectionTimer : Type 0 where
  pub expire_time : ℕ
  pub fd : ℤ
  pub running_version : ℕ
  pub thread_id : ℕ
  pub client_addr : Bytes

-- CT_HASH_MAP and CT_MAP
abbrev pub TimerMap : Type 0
TimerMap = List (Bytes × ConnectionTimer)

-- connection_pool_buckets_
abbrev pub Buckets : Type 0
Buckets = ℕ → Option TimerMap

abbrev pub buckets_size : ℕ
buckets_size = 60

-- The vectors of mutexes stand by their sizes.
pub record ConnectionTimerManager : Type 0 where
  pub connection_buf : List (Option TimerMap)
  pub connection_del_list : List (Option (List Bytes))
  pub connection_buf_mutex : ℕ
  pub connection_bucket_mutex : ℕ
  pub connection_dellist_mutex : ℕ
  pub refresh_client_list : Option (List Bytes)
  pub connection_pool_buckets : Buckets
  pub buf_index : ℕ
  pub bucket_index : ℕ
  pub refresh_interval : ℕ
  pub running : Bool

-- std::to_string; ten digits hold every int32_t.
digits : ℕ → ℕ → Bytes
digits zero n = []
digits (suc fuel) n =
    let front = digits fuel (n / 10) in
    if ltb n 10 then (b'0' + n) ∷ [] else front ++ (b'0' + n % 10) ∷ []

to_string : ℤ → Bytes
unfolding digits
to_string (pos n) = digits 10 n
to_string (negsuc n) = b'-' ∷ digits 10 (n + 1)

unfoldable pub generate_timer_key : Bytes → ℤ → Bytes
unfolding to_string
generate_timer_key ip_addr fd = ip_addr ++ b'_' ∷ to_string fd

unfoldable pub generate_bucket_num : Bytes → ℕ
generate_bucket_num ori_key = bkdr_hash ori_key % buckets_size

-- A manager as it is constructed, with the client_timeout of the configuration.
unfoldable pub construct_manager : ℕ → ConnectionTimerManager
construct_manager client_timeout = record {
  connection_buf = [];
  connection_del_list = [];
  connection_buf_mutex = 0;
  connection_bucket_mutex = buckets_size;
  connection_dellist_mutex = 0;
  refresh_client_list = some [];
  connection_pool_buckets = λ n. none;
  buf_index = 0;
  bucket_index = 0;
  refresh_interval = client_timeout;
  running = false;
}

-- The index of the new buffer.
unfoldable pub init_timer_buf : ConnectionTimerManager → ConnectionTimerManager × ℕ
init_timer_buf c = (
  record c {
    connection_buf = c.connection_buf ++ some [] ∷ [];
    connection_del_list = c.connection_del_list ++ some [] ∷ [];
    connection_buf_mutex = c.connection_buf_mutex + 1;
    connection_dellist_mutex = c.connection_dellist_mutex + 1;
    buf_index = c.buf_index + 1;
    running = true;
  },
  c.buf_index,
)

abbrev pub or_empty {ℓ} : {A : Type ℓ} → Option (List A) → List A
or_empty none = []
or_empty (some xs) = xs

-- vector::at throws out of range, which ends the program; here for a vector of n mutexes.
abbrev pub mutex_at : ℕ → ℕ → Run ℕ
mutex_at n index = if ltb index n then ok index else fault

unfoldable pub insert_connection_timer :
    ℕ → Bytes → ℤ → ℕ → ℕ → ℕ → ConnectionTimerManager → Run ConnectionTimerManager
insert_connection_timer now ip_addr fd buf_index version thread_id c = do
  mutex ← mutex_at c.connection_buf_mutex buf_index
  ctm ← deref (get_elem? c.connection_buf buf_index)
  let timer : ConnectionTimer = record {
    expire_time = now + c.refresh_interval;
    fd = fd;
    running_version = version;
    thread_id = thread_id;
    client_addr = ip_addr;
  }
  let filled = insert (generate_timer_key ip_addr fd) timer (or_empty ctm)
  ok (record c { connection_buf = set c.connection_buf buf_index (some filled) })

unfoldable pub delete_connection_timer :
    Bytes → ℤ → ℕ → ConnectionTimerManager → Run ConnectionTimerManager
delete_connection_timer ip_addr fd buf_index c = do
  mutex ← mutex_at c.connection_dellist_mutex buf_index
  ilp ← deref (get_elem? c.connection_del_list buf_index)
  let longer = or_empty ilp ++ generate_timer_key ip_addr fd ∷ []
  ok (record c { connection_del_list = set c.connection_del_list buf_index (some longer) })

abbrev pub has : Bytes → List Bytes → Bool
has k [] = false
has k (j ∷ ks) = let later = has k ks in if bytes_eq j k then true else later

unfoldable pub insert_refresh_connection_info :
    Bytes → ConnectionTimerManager → ConnectionTimerManager
insert_refresh_connection_info ip_addr c =
    let set = or_empty c.refresh_client_list in
    record c { refresh_client_list = some (if has ip_addr set then set else ip_addr ∷ set) }

abbrev pub set_bucket : ℕ → Option TimerMap → Buckets → Buckets
set_bucket n m b i = if n == i then m else b i

abbrev pub erase_in : Bytes → Option TimerMap → Option TimerMap
erase_in k none = none
erase_in k (some m) = some (erase k m)

-- A key that is to be deleted goes from the buffer and from its bucket.
delete_all : List Bytes → Option TimerMap → Buckets → Option TimerMap × Buckets
delete_all [] local b = (local, b)
delete_all (k ∷ ks) local b =
    let n = generate_bucket_num k in
    delete_all ks (erase_in k local) (set_bucket n (erase_in k (b n)) b)

insert_all : TimerMap → Buckets → Buckets
insert_all [] b = b
insert_all ((k, t) ∷ m) b =
    let n = generate_bucket_num k in
    insert_all m (set_bucket n (some (insert k t (or_empty (b n)))) b)

-- The body of the loop of ConnectionBufCrawler for one buffer.
unfoldable pub crawl_one : Option (List Bytes) → Option TimerMap → Buckets → Buckets
unfolding delete_all insert_all
crawl_one ilp local b =
    let after = delete_all (or_empty ilp) local b in
    elim after.0 [ none ↦ after.1 | some m ↦ insert_all m after.1 ]

-- The buffers that are left, with the mutexes of their deletion lists, the lists, and their own
-- mutexes, each read with at(); each buffer and list is taken and left NULL.
crawl : List (Option TimerMap) → ℕ → List (Option (List Bytes)) → ℕ → Buckets → Run Buckets
crawl [] del_mutexes dels buf_mutexes b = ok b
crawl (local ∷ bufs) zero dels buf_mutexes b = fault
crawl (local ∷ bufs) (suc dm) [] buf_mutexes b = fault
crawl (local ∷ bufs) (suc dm) (ilp ∷ dels) zero b = fault
crawl (local ∷ bufs) (suc dm) (ilp ∷ dels) (suc bm) b =
    crawl bufs dm dels bm (crawl_one ilp local b)

abbrev pub taken {ℓ} : {A : Type ℓ} → ℕ → List (Option A) → List (Option A)
taken n [] = []
taken zero (x ∷ xs) = x ∷ xs
taken (suc n) (x ∷ xs) = none ∷ taken n xs

unfoldable pub connection_buf_crawler : ConnectionTimerManager → Run ConnectionTimerManager
unfolding crawl
connection_buf_crawler c = do
  buckets ←
      crawl c.connection_buf c.connection_dellist_mutex c.connection_del_list c.connection_buf_mutex
        c.connection_pool_buckets
  let n = length c.connection_buf
  ok (record c {
    connection_buf = taken n c.connection_buf;
    connection_del_list = taken n c.connection_del_list;
    connection_pool_buckets = buckets;
  })

-- The text in front of the first `_`.
abbrev pub before_underscore : Bytes → Option Bytes
before_underscore [] = none
before_underscore (b ∷ s) =
    let rest = before_underscore s in
    if b == b'_' then some [] else elim rest [ none ↦ none | some t ↦ some (b ∷ t) ]

abbrev pub refreshed : Option (List Bytes) → ℕ → Bytes → ConnectionTimer → ConnectionTimer
refreshed none later addr t = t
refreshed (some addrs) later addr t = if has addr addrs then record t { expire_time = later } else t

-- The loop over the bucket. A timer is erased and then read through a reference into the map, both
-- where its key has no `_` and where its time has not come.
sweep : Option (List Bytes) → ℕ → ℕ → TimerMap → Run TimerMap
sweep refresh now interval [] = ok []
sweep refresh now interval ((k, t) ∷ m) =
    let addr : Option Bytes = elim refresh [ none ↦ some [] | some addrs ↦ before_underscore k ] in
    let rest = sweep refresh now interval m in
    elim addr [
      | none ↦ fault
      | some a ↦
          let t' = refreshed refresh (now + interval) a t in
          if ltb now t'.expire_time then fault else (do m' ← rest; ok ((k, t') ∷ m'))
    ]

abbrev pub turn : ConnectionTimerManager → ConnectionTimerManager
turn c = record c { bucket_index = (c.bucket_index + 1) % buckets_size }

-- The rest of a round, for the contents of the bucket that it comes to.
turn_bucket : ℕ → ConnectionTimerManager → TimerMap → Run ConnectionTimerManager
unfolding sweep
turn_bucket now c [] = ok (turn c)
turn_bucket now c (e ∷ m) = do
  swept ← sweep c.refresh_client_list now c.refresh_interval (e ∷ m)
  ok (
      turn (record c {
        refresh_client_list = none;
        connection_pool_buckets = set_bucket c.bucket_index (some swept) c.connection_pool_buckets;
      }))

-- One round of `while (running_)`.
unfoldable pub wheel_round : ℕ → ConnectionTimerManager → Run ConnectionTimerManager
unfolding turn_bucket
wheel_round now c = do
  c1 ← connection_buf_crawler c
  turn_bucket now c1 (or_empty (c1.connection_pool_buckets c1.bucket_index))
