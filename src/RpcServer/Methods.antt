-- ===== src/RpcServer/Methods.antt =====
-- The table of methods of src/rpc_server/rpc_server.cpp: RegisteService and the lookups in it.
use libevrpc.Base.{
  ℕ, ◌^◌, ◌<◌, ◌≡◌, refl, ◌∙◌, inl, inr, Bool, true, Option, none, some, List, [], ◌∷◌,
  if◌then◌else◌, ◌==◌, arith, Option-cases,
}
use libevrpc.Base.Int.{negsuc, word32}
use libevrpc.Base.Bytes.{nat_key}
use libevrpc.Base.HashMap.{find, insert, find-put}
use libevrpc.Util.Hash.{bkdr_hash}
use libevrpc.Util.Hash.Laws.{bkdr_hash-lt}
use libevrpc.RpcServer.{
  MethodDescriptor, RpcMethod, Service, RpcServer, registe_method, registe_methods, registe_service,
}

-- The last method of a service whose name has a hash.
pub last_with : ℕ → ℕ → List MethodDescriptor → Option RpcMethod
last_with service k [] = none
last_with service k (m ∷ ms) = elim (last_with service k ms) [
  | some later ↦ some later
  | none ↦
      let here : Bool = bkdr_hash m.full_name == k in
      if here then some (record { service = service; method = m }) else none
]

abbrev pub or_else : Option RpcMethod → Option RpcMethod → Option RpcMethod
or_else (some m) o = some m
or_else none o = o

find-registe_method :
    (service k : ℕ) (m : MethodDescriptor) (methods : List (ℕ × RpcMethod))
    → find k (registe_method service m methods) ≡ (
        if bkdr_hash m.full_name == k
        then some (record { service = service; method = m })
        else find k methods)
unfolding registe_method insert
find-registe_method service k m methods =
    let new : RpcMethod = record { service = service; method = m } in
    ground (arith, find-put (bkdr_hash m.full_name) k new methods)

find-registe_methods :
    (service k : ℕ) (ms : List MethodDescriptor) (methods : List (ℕ × RpcMethod))
    → find k (registe_methods service ms methods)
      ≡ or_else (last_with service k ms) (find k methods)
unfolding registe_methods last_with
find-registe_methods service k [] methods = refl
find-registe_methods service k (m ∷ ms) methods =
    find-registe_methods service k ms (registe_method service m methods)
    ∙ ground (arith, find-registe_method service k m methods)

-- After RegisteService an id finds the last method of the service whose name has that hash, and
-- where the service has none what it found before.
pub find-registe_service :
    (svc : Service) (s : RpcServer) (k : ℕ)
    → ((registe_service svc s).1 ≡ true)
      × (find k (registe_service svc s).0.method_hashmap
          ≡ or_else (last_with svc.id k svc.methods) (find k s.method_hashmap))
unfolding registe_service
find-registe_service svc s k = (refl, find-registe_methods svc.id k svc.methods s.method_hashmap)

-- Every method is found under the hash of its name, and under no other.
abbrev pub IsTable : RpcServer → Type 0
IsTable s =
    (k : ℕ) (m : RpcMethod) → find k s.method_hashmap ≡ some m → bkdr_hash m.method.full_name ≡ k

last_with-hash :
    (service k : ℕ) (ms : List MethodDescriptor) (m : RpcMethod)
    → last_with service k ms ≡ some m
    → bkdr_hash m.method.full_name ≡ k
unfolding last_with
last_with-hash service k [] m e = absurd (ground arith)
last_with-hash service k (d ∷ ms) m e = elim (Option-cases (last_with service k ms)) [
  | inl e' ↦ ground arith
  | inr (m', e') ↦ last_with-hash service k ms m (e' ∙ rw e' at e)
]

-- RegisteService keeps every method under the hash of its own name.
pub registe_service-IsTable :
    (svc : Service) (s : RpcServer) → IsTable s → IsTable (registe_service svc s).0
registe_service-IsTable svc s t k m e =
    let found = (find-registe_service svc s k).1 in
    elim (Option-cases (last_with svc.id k svc.methods)) [
      | inl e' ↦ t k m (ground arith)
      | inr (m', e') ↦ last_with-hash svc.id k svc.methods m (ground arith)
    ]

-- No id that RpcRecv gives for an error, none that is negative, finds a method.
pub negative_unknown :
    (s : RpcServer) (n : ℕ)
    → IsTable s
    → n < 2 ^ 31
    → find (word32 (negsuc n)) s.method_hashmap ≡ none
negative_unknown s n t h = elim (Option-cases (find (word32 (negsuc n)) s.method_hashmap)) [
  | inl e ↦ e
  | inr (m, e) ↦ absurd (omega (arith, t (word32 (negsuc n)) m e, bkdr_hash-lt m.method.full_name))
]
