-- ===== src/Communication/Connect.antt =====
-- The sockets of src/util/rpc_communication.cpp: NonBlockMode, TcpListen, TcpConnect,
-- UdpServerInit, UdpClientInit and Accept. What the system calls do is given per address or call;
-- the descriptors that are closed are a result.
pub mod Laws
use libevrpc.Base.{
  ℕ, zero, suc, ◌+◌, ◌/◌, ◌%◌, Bool, true, false, Option, none, some, List, [], ◌∷◌, ◌++◌,
  if◌then◌else◌, not, ◌&&◌, ◌||◌,
}
use libevrpc.Base.Int.{ℤ, pos, negsuc, is_neg}

-- TCP_CONN_TIMEOUT
abbrev pub tcp_conn_timeout : ℤ
tcp_conn_timeout = negsuc 998

-- The flags of a descriptor: O_NONBLOCK, and the 31 others as a number.
pub record Flags : Type 0 where
  pub nonblock : Bool
  pub others : ℕ

abbrev pub all_others : ℕ
all_others = 2147483647

-- fcntl(F_GETFL) (`none` when it fails), whether fcntl(F_SETFL) works, and whether ioctl does.
-- ioctl sets the mode that it is told.
unfoldable pub non_block_mode : Option Flags → Bool → Bool → Bool → Option Flags × Bool
non_block_mode none set_ok ioctl_ok mode = (none, false)
non_block_mode (some opts) set_ok ioctl_ok mode =
    let next : Flags =
      if mode then record opts { nonblock = true } else record opts { others = all_others } in
    if set_ok
    then (some next, true)
    else if ioctl_ok
    then (some (record opts { nonblock = mode }), true)
    else (some opts, false)

-- What the calls for one address of getaddrinfo give: socket(), setsockopt() and bind().
pub record Binding : Type 0 where
  pub socket : ℤ
  pub setsockopt_ok : Bool
  pub bind_ok : Bool

-- The last descriptor, whether the loop ended by `break`, and what was closed.
pub record Walked : Type 0 where
  pub fd : ℤ
  pub found : Bool
  pub closed : List ℤ

abbrev pub cons_closed : ℤ → Walked → Walked
cons_closed fd w = record w { closed = fd ∷ w.closed }

-- The loop over the addresses that are left, with the descriptor of the last round.
listen_loop : ℤ → List Binding → Walked
listen_loop last [] = record { fd = last; found = false; closed = [] }
listen_loop last (b ∷ bs) =
    let later = listen_loop b.socket bs in
    if is_neg b.socket
    then later
    else if not b.setsockopt_ok
    then later
    else if b.bind_ok
    then record { fd = b.socket; found = true; closed = [] }
    else cons_closed b.socket later

-- `none`: getaddrinfo fails.
unfoldable pub tcp_listen : Option (List Binding) → Bool → ℤ × List ℤ
unfolding listen_loop
tcp_listen none listen_ok = (negsuc 0, [])
tcp_listen (some addresses) listen_ok =
    let w = listen_loop (negsuc 0) addresses in
    if not w.found
    then (negsuc 0, w.closed)
    else if listen_ok
    then (w.fd, w.closed)
    else (negsuc 0, w.closed)

-- connect() returns 0, fails with EINPROGRESS, or fails; then select() runs into the time limit,
-- fails, or finds the descriptor ready.
pub data Connecting : Type 0 where
  connected in_progress refused : Connecting

pub data Selecting : Type 0 where
  timed_out select_failed ready : Selecting

pub record Attempt : Type 0 where
  pub socket : ℤ
  pub nodelay_ok : Bool
  pub connect : Connecting
  pub select : Selecting

-- conn_overtime > 0
abbrev pub limited : ℤ → Bool
limited (pos zero) = false
limited (pos (suc n)) = true
limited (negsuc n) = false

-- A connect() that is in progress is waited for only under a time limit.
connect_loop : Bool → ℤ → List Attempt → Walked
connect_loop limit last [] = record { fd = last; found = false; closed = [] }
connect_loop limit last (a ∷ rest) =
    let later = connect_loop limit a.socket rest in
    let stop : ℤ → Walked = λ fd. record { fd = fd; found = true; closed = [] } in
    if is_neg a.socket then later else if not a.nodelay_ok then later else elim a.connect [
      | connected ↦ stop a.socket
      | refused ↦ cons_closed a.socket later
      | in_progress ↦ if not limit then cons_closed a.socket later else elim a.select [
        | timed_out ↦ stop tcp_conn_timeout
        | ready ↦ stop a.socket
        | select_failed ↦ cons_closed a.socket later
      ]
    ]

-- `block_ok`: NonBlockMode(fd, false) works on a descriptor.
unfoldable pub tcp_connect : (ℤ → Bool) → ℤ → Option (List Attempt) → ℤ × List ℤ
unfolding connect_loop
tcp_connect block_ok conn_overtime none = (negsuc 0, [])
tcp_connect block_ok conn_overtime (some attempts) =
    let w = connect_loop (limited conn_overtime) (negsuc 0) attempts in
    if limited conn_overtime && not (block_ok w.fd)
    then (negsuc 0, w.closed)
    else if w.found
    then (w.fd, w.closed)
    else (negsuc 0, w.closed)

-- The address that bind() gets; the port is 8899 whatever the caller asks for.
pub record UdpAddress : Type 0 where
  pub host : ℕ
  pub port : ℕ

abbrev pub udp_address : ℕ → UdpAddress
udp_address host = record { host = host; port = 8899 }

-- A failed bind() leaves the descriptor open.
unfoldable pub udp_server_init : ℤ → (UdpAddress → Bool) → ℕ → ℤ
udp_server_init socket bind_ok host =
    if is_neg socket then negsuc 0 else if bind_ok (udp_address host) then socket else negsuc 0

unfoldable pub udp_client_init : ℤ → ℕ → ℤ × Option UdpAddress
udp_client_init socket host =
    if is_neg socket then (negsuc 0, none) else (socket, some (udp_address host))

-- The loop of Accept runs once, since `continue` goes on to `while (false)`. The options are
-- SO_KEEPALIVE, TCP_KEEPINTVL, TCP_KEEPCNT and TCP_NODELAY, each with whether setsockopt() works.
accept_options : ℤ → List Bool → ℤ × List ℤ
accept_options fd [] = (fd, [])
accept_options fd (works ∷ options) =
    let rest = accept_options fd options in if works then rest else (negsuc 0, fd ∷ [])

unfoldable pub accept : ℤ → (ℤ → Bool × Bool × Bool × Bool) → ℤ × List ℤ
unfolding accept_options
accept new_fd setsockopt_ok =
    let (keepalive, interval, count, nodelay) = setsockopt_ok new_fd in
    accept_options new_fd (keepalive ∷ interval ∷ count ∷ nodelay ∷ [])

-- GetPeerAddr on the text that inet_ntoa gives for the peer; none when getpeername fails, and the
-- text NULL counts as empty.
unfoldable pub get_peer_addr : Option (List ℕ) → ℤ × Option (List ℕ)
get_peer_addr none = (negsuc 0, none)
get_peer_addr (some []) = (negsuc 0, none)
get_peer_addr (some (b ∷ addr)) = (pos 0, some (b ∷ addr))
