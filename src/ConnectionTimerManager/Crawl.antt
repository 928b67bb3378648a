-- ===== src/ConnectionTimerManager/Crawl.antt =====
-- What ConnectionBufCrawler brings into the wheel, src/rpc_server/connection_timer_manager.cpp.
use libevrpc.Base.{
  ◌≡◌, refl, ◌∙◌, ap, false, Option, none, some, List, [], ◌∷◌, ◌==◌, arith, if◌then◌else◌,
  Bool-cases, Option-cases, inl, inr,
}
use libevrpc.Base.Bytes.{Bytes, bytes_key, bytes_eq, bytes_eq_iff}
use libevrpc.Base.HashMap.{find, insert, find-insert, find-erase}
use libevrpc.ConnectionTimerManager.{
  ConnectionTimer, TimerMap, Buckets, generate_bucket_num, or_empty, has, set_bucket, erase_in,
  delete_all, insert_all, crawl_one,
}

-- The timer of a key in a map that may be NULL, and in the bucket of the key.
abbrev pub find_in : Bytes → Option TimerMap → Option ConnectionTimer
find_in k none = none
find_in k (some m) = find k m

abbrev pub lookup : Bytes → Buckets → Option ConnectionTimer
lookup k b = find_in k (b (generate_bucket_num k))

find_in-erase_in :
    (k j : Bytes) (m : Option TimerMap)
    → find_in j (erase_in k m) ≡ (if bytes_eq k j then none else find_in j m)
find_in-erase_in k j none = ground arith
find_in-erase_in k j (some m) = find-erase k j m

keys_apart :
    (k j : Bytes) → (generate_bucket_num k == generate_bucket_num j) ≡ false → bytes_eq k j ≡ false
keys_apart k j other = elim (Bool-cases (bytes_eq k j)) [
  | inr apart ↦ apart
  | inl same ↦ absurd (ground (arith, other, ap generate_bucket_num ((bytes_eq_iff k j).0 same)))
]

find-or_empty :
    (k j : Bytes) (t : ConnectionTimer) (m : Option TimerMap)
    → find j (insert k t (or_empty m))
      ≡ elim (find_in j m) [ some u ↦ some u | none ↦ (if bytes_eq k j then some t else none) ]
unfolding find
find-or_empty k j t none = find-insert k j t []
find-or_empty k j t (some m) = find-insert k j t m

lookup-erase :
    (k j : Bytes) (b : Buckets)
    → let n = generate_bucket_num k in
      lookup j (set_bucket n (erase_in k (b n)) b) ≡ (if bytes_eq k j then none else lookup j b)
lookup-erase k j b = elim (Bool-cases (generate_bucket_num k == generate_bucket_num j)) [
  | inl same ↦
      let number : generate_bucket_num k ≡ generate_bucket_num j = ground arith in
      rw (same, number) (find_in-erase_in k j (b (generate_bucket_num j)))
  | inr other ↦ let apart : bytes_eq k j ≡ false = keys_apart k j other in rw (other, apart)
]

lookup-insert :
    (k j : Bytes) (t : ConnectionTimer) (b : Buckets)
    → let n = generate_bucket_num k in
      lookup j (set_bucket n (some (insert k t (or_empty (b n)))) b)
      ≡ elim (lookup j b) [ some u ↦ some u | none ↦ (if bytes_eq k j then some t else none) ]
lookup-insert k j t b = elim (Bool-cases (generate_bucket_num k == generate_bucket_num j)) [
  | inl same ↦
      let number : generate_bucket_num k ≡ generate_bucket_num j = ground arith in
      rw (same, number) (find-or_empty k j t (b (generate_bucket_num j)))
  | inr other ↦
      let apart : bytes_eq k j ≡ false = keys_apart k j other in ground (arith, other, apart)
]

delete_all_lem :
    (ks : List Bytes) (j : Bytes) (m : Option TimerMap) (b : Buckets)
    → let (m', b') = delete_all ks m b in
      (find_in j m' ≡ (if has j ks then none else find_in j m))
      × (lookup j b' ≡ (if has j ks then none else lookup j b))
unfolding delete_all
delete_all_lem [] j m b = (refl, refl)
delete_all_lem (k ∷ ks) j m b =
    let n = generate_bucket_num k in
    ground (
      arith,
      delete_all_lem ks j (erase_in k m) (set_bucket n (erase_in k (b n)) b),
      find_in-erase_in k j m,
      lookup-erase k j b,
    )

lookup-insert_all :
    (m : TimerMap) (j : Bytes) (b : Buckets)
    → lookup j (insert_all m b) ≡ elim (lookup j b) [ some u ↦ some u | none ↦ find j m ]
unfolding insert_all find
lookup-insert_all [] j b = ground arith
lookup-insert_all ((k, t) ∷ m) j b =
    let n = generate_bucket_num k in
    let b' = set_bucket n (some (insert k t (or_empty (b n)))) b in
    let either : Option ConnectionTimer → Option ConnectionTimer =
      λ o. elim o as (λ x. Option ConnectionTimer) [ some u ↦ some u | none ↦ find j m ] in
    lookup-insert_all m j b' ∙ ap either (lookup-insert k j t b) ∙ ground (arith)

-- After ConnectionBufCrawler has taken a buffer, a key that was to be deleted has no timer in its
-- bucket; any other key has the timer that was in its bucket, or else the one of the buffer.
pub lookup-crawl_one :
    (ilp : Option (List Bytes)) (local : Option TimerMap) (b : Buckets) (j : Bytes)
    → lookup j (crawl_one ilp local b) ≡ (
        if has j (or_empty ilp)
        then none
        else elim (lookup j b) [ some t ↦ some t | none ↦ find_in j local ])
unfolding crawl_one
lookup-crawl_one ilp local b j =
    let ks = or_empty ilp in
    let (left, right) = delete_all_lem ks j local b in
    elim (Option-cases (delete_all ks local b).0) [
      | inl gone ↦ ground (arith, left, right, gone)
      | inr (m, kept) ↦
          ground (arith, left, right, kept, lookup-insert_all m j (delete_all ks local b).1)
    ]
