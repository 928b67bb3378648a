-- ===== src/ConnectionTimerManager/Buffers.antt =====
-- The indices of the buffers of src/rpc_server/connection_timer_manager.cpp.
use libevrpc.Base.{
  ℕ, zero, suc, ◌+◌, ◌<◌, ◌≡◌, refl, ap, sym, ◌∙◌, Option, some, List, [], ◌∷◌, ◌++◌, length,
  length-append, length-set, get_elem?-in, set, arith,
}
use libevrpc.Base.Int.{ℤ}
use libevrpc.Base.Bytes.{Bytes, bytes_key}
use libevrpc.Base.HashMap.{insert}
use libevrpc.Base.Fault.{Run, ok, ◌>>=◌}
use libevrpc.ConnectionTimerManager.{
  TimerMap, Buckets, ConnectionTimerManager, construct_manager, init_timer_buf,
  insert_connection_timer, delete_connection_timer, insert_refresh_connection_info, crawl_one,
  crawl, taken, connection_buf_crawler, ConnectionTimer, generate_timer_key, or_empty,
  generate_bucket_num,
}

-- What the workers, the heartbeat and the wheel do with the buffers.
pub data Op : Type 0 where
  add_buf crawls : Op
  insert_timer : ℕ → Bytes → ℤ → ℕ → ℕ → ℕ → Op
  delete_timer : Bytes → ℤ → ℕ → Op
  refresh_addr : Bytes → Op

unfoldable pub step : Op → ConnectionTimerManager → Run ConnectionTimerManager
step add_buf c = ok (init_timer_buf c).0
step crawls c = connection_buf_crawler c
step (insert_timer now ip fd buf version tid) c =
    insert_connection_timer now ip fd buf version tid c
step (delete_timer ip fd buf) c = delete_connection_timer ip fd buf c
step (refresh_addr ip) c = ok (insert_refresh_connection_info ip c)

pub run_ops : List Op → ConnectionTimerManager → Run ConnectionTimerManager
run_ops [] c = ok c
run_ops (op ∷ ops) c = do c' ← step op c; run_ops ops c'

-- Every index is one that InitTimerBuf has given before; n have been given so far.
abbrev pub GivenBefore : ℕ → List Op → Type 0
GivenBefore n [] = Unit
GivenBefore n (add_buf ∷ ops) = GivenBefore (n + 1) ops
GivenBefore n (crawls ∷ ops) = GivenBefore n ops
GivenBefore n (insert_timer now ip fd buf version tid ∷ ops) = (buf < n) × GivenBefore n ops
GivenBefore n (delete_timer ip fd buf ∷ ops) = (buf < n) × GivenBefore n ops
GivenBefore n (refresh_addr ip ∷ ops) = GivenBefore n ops

-- There is a buffer, a deletion list and a mutex for each of them for every index that was given,
-- and a mutex for every bucket.
abbrev pub IsBuffered : ℕ → ConnectionTimerManager → Type 0
IsBuffered n c =
    (c.buf_index ≡ n)
    × (length c.connection_buf ≡ n)
    × (length c.connection_del_list ≡ n)
    × (c.connection_buf_mutex ≡ n)
    × (c.connection_dellist_mutex ≡ n)
    × ((key : Bytes) → generate_bucket_num key < c.connection_bucket_mutex)

length-taken : {A : Type 0} (n : ℕ) (xs : List (Option A)) → length (taken n xs) ≡ length xs
length-taken n [] = refl
length-taken zero (x ∷ xs) = refl
length-taken (suc n) (x ∷ xs) = ap suc (length-taken n xs)

crawl-ok :
    (bufs : List (Option TimerMap)) (dm : ℕ) (dels : List (Option (List Bytes))) (bm : ℕ)
    (b : Buckets)
    → length bufs ≡ dm
    → length bufs ≡ length dels
    → length bufs ≡ bm
    → (b' : Buckets) × (crawl bufs dm dels bm b ≡ ok b')
unfolding crawl
crawl-ok [] dm dels bm b e f g = (b, refl)
crawl-ok (local ∷ bufs) zero dels bm b e f g = absurd (omega arith)
crawl-ok (local ∷ bufs) (suc dm) [] bm b e f g = absurd (omega arith)
crawl-ok (local ∷ bufs) (suc dm) (ilp ∷ dels) zero b e f g = absurd (omega arith)
crawl-ok (local ∷ bufs) (suc dm) (ilp ∷ dels) (suc bm) b e f g =
    crawl-ok bufs dm dels bm (crawl_one ilp local b) (omega arith) (omega arith) (omega arith)

abbrev Keeps : ℕ → Run ConnectionTimerManager → Type 0
Keeps n r = (c' : ConnectionTimerManager) × (r ≡ ok c') × IsBuffered n c'

add_buf-Keeps :
    (n : ℕ) (c : ConnectionTimerManager) → IsBuffered n c → Keeps (n + 1) (step add_buf c)
unfolding step init_timer_buf
add_buf-Keeps n c (i, b, d, bm, dm, k) = (
  (init_timer_buf c).0,
  refl,
  (
    omega arith,
    omega (arith, length-append c.connection_buf (some [] ∷ [])),
    omega (arith, length-append c.connection_del_list (some [] ∷ [])),
    omega arith,
    omega arith,
    k,
  ),
)

crawls-Keeps : (n : ℕ) (c : ConnectionTimerManager) → IsBuffered n c → Keeps n (step crawls c)
unfolding step connection_buf_crawler
crawls-Keeps n c (i, b, d, bm, dm, in_range) =
    let (buckets, e) =
      crawl-ok c.connection_buf c.connection_dellist_mutex c.connection_del_list
        c.connection_buf_mutex c.connection_pool_buckets (b ∙ sym dm) (b ∙ sym d) (b ∙ sym bm) in
    let k = length c.connection_buf in
    (
      record c {
        connection_buf = taken k c.connection_buf;
        connection_del_list = taken k c.connection_del_list;
        connection_pool_buckets = buckets;
      },
      ground (arith, e),
      (
        i,
        length-taken k c.connection_buf ∙ b,
        length-taken k c.connection_del_list ∙ d,
        bm,
        dm,
        in_range,
      ),
    )

insert_timer-Keeps :
    (n now : ℕ) (ip : Bytes) (fd : ℤ) (buf version tid : ℕ) (c : ConnectionTimerManager)
    → IsBuffered n c
    → buf < n
    → Keeps n (step (insert_timer now ip fd buf version tid) c)
unfolding step insert_connection_timer
insert_timer-Keeps n now ip fd buf version tid c (i, b, d, bm, dm, in_range) lt =
    let (ctm, e) = get_elem?-in c.connection_buf buf (omega arith) in
    let timer : ConnectionTimer = record {
      expire_time = now + c.refresh_interval;
      fd = fd;
      running_version = version;
      thread_id = tid;
      client_addr = ip;
    } in
    let filled = some (insert (generate_timer_key ip fd) timer (or_empty ctm)) in
    (
      record c { connection_buf = set c.connection_buf buf filled },
      ground (arith, e),
      (i, length-set c.connection_buf buf filled ∙ b, d, bm, dm, in_range),
    )

delete_timer-Keeps :
    (n : ℕ) (ip : Bytes) (fd : ℤ) (buf : ℕ) (c : ConnectionTimerManager)
    → IsBuffered n c
    → buf < n
    → Keeps n (step (delete_timer ip fd buf) c)
unfolding step delete_connection_timer
delete_timer-Keeps n ip fd buf c (i, b, d, bm, dm, in_range) lt =
    let (ilp, e) = get_elem?-in c.connection_del_list buf (omega arith) in
    let longer = some (or_empty ilp ++ generate_timer_key ip fd ∷ []) in
    (
      record c { connection_del_list = set c.connection_del_list buf longer },
      ground (arith, e),
      (i, b, length-set c.connection_del_list buf longer ∙ d, bm, dm, in_range),
    )

refresh_addr-Keeps :
    (n : ℕ) (ip : Bytes) (c : ConnectionTimerManager)
    → IsBuffered n c
    → Keeps n (step (refresh_addr ip) c)
unfolding step insert_refresh_connection_info
refresh_addr-Keeps n ip c kept = (insert_refresh_connection_info ip c, refl, kept)

run_ops-cons :
    (op : Op) (ops : List Op) (c c1 : ConnectionTimerManager)
    → step op c ≡ ok c1
    → run_ops (op ∷ ops) c ≡ run_ops ops c1
unfolding run_ops
run_ops-cons op ops c c1 e = rw e refl

abbrev pub Runs : List Op → ConnectionTimerManager → Type 0
Runs ops c = (n : ℕ) × (c' : ConnectionTimerManager) × (run_ops ops c ≡ ok c') × IsBuffered n c'

Runs-cons :
    (op : Op) (ops : List Op) (c c1 : ConnectionTimerManager)
    → step op c ≡ ok c1
    → Runs ops c1
    → Runs (op ∷ ops) c
Runs-cons op ops c c1 e (n, c', run, kept) = (n, c', run_ops-cons op ops c c1 e ∙ run, kept)

run_ops_from :
    (ops : List Op) (n : ℕ) (c : ConnectionTimerManager)
    → IsBuffered n c
    → GivenBefore n ops
    → Runs ops c
unfolding run_ops
run_ops_from [] n c kept g = (n, c, refl, kept)
run_ops_from (add_buf ∷ ops) n c kept g =
    let (c1, e, kept1) = add_buf-Keeps n c kept in
    Runs-cons add_buf ops c c1 e (run_ops_from ops (n + 1) c1 kept1 g)
run_ops_from (crawls ∷ ops) n c kept g =
    let (c1, e, kept1) = crawls-Keeps n c kept in
    Runs-cons crawls ops c c1 e (run_ops_from ops n c1 kept1 g)
run_ops_from (insert_timer now ip fd buf version tid ∷ ops) n c kept g =
    let (c1, e, kept1) = insert_timer-Keeps n now ip fd buf version tid c kept g.0 in
    Runs-cons (insert_timer now ip fd buf version tid) ops c c1 e (run_ops_from ops n c1 kept1 g.1)
run_ops_from (delete_timer ip fd buf ∷ ops) n c kept g =
    let (c1, e, kept1) = delete_timer-Keeps n ip fd buf c kept g.0 in
    Runs-cons (delete_timer ip fd buf) ops c c1 e (run_ops_from ops n c1 kept1 g.1)
run_ops_from (refresh_addr ip ∷ ops) n c kept g =
    let (c1, e, kept1) = refresh_addr-Keeps n ip c kept in
    Runs-cons (refresh_addr ip) ops c c1 e (run_ops_from ops n c1 kept1 g)

-- From a new manager on, new buffers, insertions, deletions, refreshes and crawls, in any order and
-- each at an index that InitTimerBuf has given before, never read a vector out of range, those of the
-- mutexes of the buffers and of the deletion lists included; there is a buffer, a deletion list and a
-- mutex of each for every index that was given, and a mutex for the bucket of every key.
pub run_ops-Runs :
    (client_timeout : ℕ) (ops : List Op)
    → GivenBefore 0 ops
    → Runs ops (construct_manager client_timeout)
unfolding construct_manager generate_bucket_num
run_ops-Runs client_timeout ops g =
    run_ops_from ops 0 (construct_manager client_timeout)
      (refl, refl, refl, refl, refl, λ key. omega arith) g
