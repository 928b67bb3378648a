-- ===== src/LibevThreadPool/Free.antt =====
-- The free list of src/rpc_server/libev_thread_pool.cpp: RQItemNew and RQItemFree.
use libevrpc.Base.{ℕ, ◌≡◌, refl, Option, none, some, List, arith}
use libevrpc.Base.Fault.{ok, fault}
use libevrpc.LibevThreadPool.{
  LibevThreadPool, set_next, link_items, link_block, rq_item_new, rq_item_free,
}
use libevrpc.LibevThreadPool.Queue.{Chain, Fresh, Chain-write}

-- RQItemNew on an empty free list gives no item when malloc() fails, and writes in front of the new
-- block when it does not.
pub rq_item_new_empty :
    (base : ℕ) (p : LibevThreadPool)
    → p.rqi_freelist ≡ none
    → (rq_item_new none p ≡ ok (p, none)) × (rq_item_new (some base) p ≡ fault)
unfolding rq_item_new link_block link_items
rq_item_new_empty base p e = rw e (refl, refl)

-- RQItemFree puts an item in front of the free list, and RQItemNew gives it out again, whatever
-- malloc() would do; the list is then as before.
pub rq_item_new-free :
    (item : ℕ) (xs : List ℕ) (malloc : Option ℕ) (p : LibevThreadPool)
    → Chain p.heap p.rqi_freelist xs
    → Fresh item xs
    → (p' : LibevThreadPool) × (rq_item_new malloc (rq_item_free item p) ≡ ok (p', some item))
      × (p'.rqi_freelist ≡ p.rqi_freelist)
      × Chain p'.heap p'.rqi_freelist xs
unfolding rq_item_new rq_item_free
rq_item_new-free item xs malloc p c f =
    let h' = set_next item p.rqi_freelist p.heap in
    let back : (h' item).next ≡ p.rqi_freelist = ground arith in
    (
      _,
      refl,
      back,
      rw back (
          Chain-write p.heap p.rqi_freelist item (record (p.heap item) { next = p.rqi_freelist }) xs
            f c),
    )
