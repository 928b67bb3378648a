-- ===== src/RpcClient/Controller.antt =====
-- src/rpc_client/client_rpc_controller.cpp, src/rpc_server/server_rpc_controller.cpp and
-- src/util/rpc_controller.cpp. A member function that ends without a return statement faults.
use libevrpc.Base.{
  ℕ, ◌≢◌, ◌≡◌, refl, ◌∙◌, Bool, true, false, List, [], ◌∷◌, ◌++◌, ◌⊎◌, inl, inr, arith,
  append_assoc, append-nil,
}
use libevrpc.Base.Bytes.{Bytes}
use libevrpc.Base.Fault.{Run, fault}

-- The client's and the server's controller have the same state.
pub record RpcController : Type 0 where
  pub error_info : Bytes

abbrev pub new_controller : RpcController
new_controller = record { error_info = [] }

unfoldable pub reset : RpcController → RpcController
reset c = record { error_info = [] }

unfoldable pub is_failed : RpcController → Bool
is_failed c = elim c.error_info [ [] ↦ false | b ∷ bs ↦ true ]

unfoldable pub error_text : RpcController → Bytes
error_text c = c.error_info

abbrev pub newline : Bytes
newline = 10 ∷ []

-- ClientRpcController::SetFailed appends a line, ServerRpcController::SetFailed replaces the text.
unfoldable pub set_failed : Bytes → RpcController → RpcController
set_failed reason c = record { error_info = c.error_info ++ (reason ++ newline) }

unfoldable pub server_set_failed : Bytes → RpcController → RpcController
server_set_failed reason c = record { error_info = reason }

-- RpcController of util: it has always failed, and has no text.
unfoldable pub base_failed : Bool
base_failed = true

pub base_error_text : Run Bytes
base_error_text = fault

ne-nil : (xs ys : Bytes) (b : ℕ) → (xs ++ (ys ++ b ∷ [])) ≢ []
ne-nil [] [] b = λ e. ground arith
ne-nil [] (y ∷ ys) b = λ e. ground arith
ne-nil (x ∷ xs) ys b = λ e. ground arith

pub set_failed-is_failed :
    (reason : Bytes) (c : RpcController) → is_failed (set_failed reason c) ≡ true
unfolding is_failed set_failed
set_failed-is_failed reason c = ground (arith, ne-nil c.error_info reason 10)

pub set_all : List Bytes → RpcController → RpcController
unfolding set_failed
set_all [] c = c
set_all (reason ∷ reasons) c = set_all reasons (set_failed reason c)

pub lines : List Bytes → Bytes
lines [] = []
lines (r ∷ rs) = (r ++ newline) ++ lines rs

set_all-lines :
    (reasons : List Bytes) (c : RpcController)
    → (set_all reasons c).error_info ≡ c.error_info ++ lines reasons
unfolding set_all set_failed lines
set_all-lines [] c = rw append-nil
set_all-lines (r ∷ rs) c =
    set_all-lines rs (set_failed r c) ∙ append_assoc c.error_info (r ++ newline) (lines rs)

lines-cons :
    (r : Bytes) (rs : List Bytes) → is_failed (record { error_info = lines (r ∷ rs) }) ≡ true
unfolding is_failed lines
lines-cons [] rs = refl
lines-cons (b ∷ r) rs = refl

-- From a reset on, the text of the client's controller is the lines of all reasons in order, and it
-- has failed just when there was one, an empty one included.
pub set_all-reset :
    (c : RpcController) (reasons : List Bytes)
    → (error_text (set_all reasons (reset c)) ≡ lines reasons)
      × ((reasons ≡ []) × (is_failed (set_all reasons (reset c)) ≡ false)
          ⊎ ((r : Bytes) × (rs : List Bytes) × (reasons ≡ r ∷ rs)
              × (is_failed (set_all reasons (reset c)) ≡ true)))
unfolding reset error_text is_failed lines
set_all-reset c [] = (set_all-lines [] (reset c), inl (refl, rw set_all-lines))
set_all-reset c (r ∷ rs) =
    (set_all-lines (r ∷ rs) (reset c), inr (r, rs, refl, rw set_all-lines (lines-cons r rs)))
