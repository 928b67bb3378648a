-- ===== src/Communication/Connect/Laws.antt =====
-- What the callers of TcpConnect, TcpListen and Accept get, src/util/rpc_communication.cpp.
use libevrpc.Base.{
  ◌≡◌, refl, ap, ◌∙◌, ◌≢◌, ◌⊎◌, Bool, true, false, Option, none, some, not, ◌&&◌, if◌then◌else◌,
  List, [], ◌∷◌, ◌++◌, arith, All, inl, inr,
}
use libevrpc.Base.Int.{ℤ, negsuc, is_neg}
use libevrpc.Communication.Connect.{
  tcp_conn_timeout, connected, in_progress, ready, timed_out, Attempt, Walked, limited,
  connect_loop, tcp_connect, accept, accept_options,
}

-- An address at which the loop of TcpConnect ends with its descriptor: connect() returns 0, or is in
-- progress and select() finds the descriptor ready, whether or not the connection was refused.
abbrev pub Connects : ℤ → Attempt → Type 0
Connects overtime a =
    (is_neg a.socket ≡ false)
    × (a.nodelay_ok ≡ true)
    × ((a.connect ≡ connected)
        ⊎ ((a.connect ≡ in_progress) × (a.select ≡ ready) × (limited overtime ≡ true)))

-- An address at which the loop runs into the time limit.
abbrev pub TimesOut : ℤ → Attempt → Type 0
TimesOut overtime a =
    (is_neg a.socket ≡ false)
    × (a.nodelay_ok ≡ true)
    × (a.connect ≡ in_progress)
    × (a.select ≡ timed_out)
    × (limited overtime ≡ true)

abbrev pub Passed : ℤ → Attempt → Type 0
Passed overtime a = ¬ Connects overtime a × ¬ TimesOut overtime a

-- The address at which the loop ends, all before it having been passed.
abbrev pub StopsAt : ℤ → List Attempt → Attempt → Type 0
StopsAt overtime attempts a =
    (before : List Attempt) × (after : List Attempt) × (attempts ≡ before ++ a ∷ after)
    × All (Passed overtime) before

-- One round: it ends the loop with its descriptor or the time limit, or goes on to the rest.
connect_loop_cases :
    (overtime last : ℤ) (a : Attempt) (rest : List Attempt)
    → let w = connect_loop (limited overtime) last (a ∷ rest) in
      let later = connect_loop (limited overtime) a.socket rest in
      (Connects overtime a × (w.fd ≡ a.socket) × (w.found ≡ true))
      ⊎ (TimesOut overtime a × (w.fd ≡ tcp_conn_timeout) × (w.found ≡ true))
      ⊎ (Passed overtime a × (w.fd ≡ later.fd) × (w.found ≡ later.found))
unfolding connect_loop
connect_loop_cases overtime last a rest = ground arith

-- How the loop ends.
abbrev Walks : ℤ → List Attempt → Walked → Type 0
Walks overtime attempts w =
    ((a : Attempt) × StopsAt overtime attempts a
      × Connects overtime a
      × (w.fd ≡ a.socket)
      × (w.found ≡ true))
    ⊎ ((a : Attempt) × StopsAt overtime attempts a
        × TimesOut overtime a
        × (w.fd ≡ tcp_conn_timeout)
        × (w.found ≡ true))
    ⊎ (All (Passed overtime) attempts × (w.found ≡ false))

StopsAt-cons :
    (overtime : ℤ) (b a : Attempt) (rest : List Attempt)
    → Passed overtime b
    → StopsAt overtime rest a
    → StopsAt overtime (b ∷ rest) a
StopsAt-cons overtime b a rest p (before, after, split, all) =
    (b ∷ before, after, ap (◌∷◌ b) split, (p, all))

connect_loop-Walks :
    (overtime last : ℤ) (attempts : List Attempt)
    → Walks overtime attempts (connect_loop (limited overtime) last attempts)
unfolding connect_loop
connect_loop-Walks overtime last [] = inr (inr (tt, refl))
connect_loop-Walks overtime last (b ∷ rest) = elim (connect_loop_cases overtime last b rest) [
  | inl (c, fd, found) ↦ inl (b, ([], rest, refl, tt), c, fd, found)
  | inr (inl (t, fd, found)) ↦ inr (inl (b, ([], rest, refl, tt), t, fd, found))
  | inr (inr (p, fd, found)) ↦ elim (connect_loop-Walks overtime b.socket rest) [
    | inl (a, s, c, fd', found') ↦
        inl (a, StopsAt-cons overtime b a rest p s, c, fd ∙ fd', found ∙ found')
    | inr (inl (a, s, t, fd', found')) ↦
        inr (inl (a, StopsAt-cons overtime b a rest p s, t, fd ∙ fd', found ∙ found'))
    | inr (inr (all, found')) ↦ inr (inr ((p, all), found ∙ found'))
  ]
]

-- What TcpConnect returns, case by case.
abbrev pub Connected : (ℤ → Bool) → ℤ → List Attempt → ℤ → Type 0
Connected block_ok overtime attempts fd =
    ((a : Attempt) × StopsAt overtime attempts a
      × Connects overtime a
      × (fd ≡ (if limited overtime && not (block_ok a.socket) then negsuc 0 else a.socket)))
    ⊎ ((a : Attempt) × StopsAt overtime attempts a × TimesOut overtime a × (fd ≡ negsuc 0))
    ⊎ (All (Passed overtime) attempts × (fd ≡ negsuc 0))

-- NonBlockMode fails on the number -999, as it does on every descriptor that is not open. Then
-- TcpConnect returns the descriptor of the first address whose connect() returns 0 or, under a time
-- limit, is in progress until select() finds the descriptor ready, if no address before it runs into
-- the limit and, under a limit, NonBlockMode works on the descriptor; else it returns -1, also when
-- an address runs into the limit. A refused connection that select() reports counts as ready.
pub tcp_connect-Connected :
    (block_ok : ℤ → Bool) (overtime : ℤ) (attempts : List Attempt)
    → block_ok tcp_conn_timeout ≡ false
    → Connected block_ok overtime attempts (tcp_connect block_ok overtime (some attempts)).0
unfolding tcp_connect
tcp_connect-Connected block_ok overtime attempts bad =
    let w = connect_loop (limited overtime) (negsuc 0) attempts in
    elim (connect_loop-Walks overtime (negsuc 0) attempts) [
      | inl (a, s, c, fd, found) ↦ inl (a, s, c, rw (fd, found) (ground arith))
      | inr (inl (a, s, t, fd, found)) ↦ inr (inl (a, s, t, rw (fd, t.4, bad) refl))
      | inr (inr (all, lost)) ↦ inr (inr (all, ground (arith, lost)))
    ]

-- TcpConnect never reports the time limit.
pub tcp_connect-timeout :
    (block_ok : ℤ → Bool) (overtime : ℤ) (attempts : Option (List Attempt))
    → block_ok tcp_conn_timeout ≡ false
    → (tcp_connect block_ok overtime attempts).0 ≢ tcp_conn_timeout
unfolding tcp_connect
tcp_connect-timeout block_ok overtime none bad = λ e. ground arith
tcp_connect-timeout block_ok overtime (some attempts) bad =
    elim (tcp_connect-Connected block_ok overtime attempts bad) [
      | inl (a, s, c, fd) ↦ λ e. ground (arith, fd, c.0)
      | inr (inl (a, s, t, fd)) ↦ λ e. ground (arith, fd)
      | inr (inr (all, fd)) ↦ λ e. ground (arith, fd)
    ]

-- Accept returns the descriptor and leaves it open when all four options can be set, and else
-- returns -1 and closes it; a failed accept() is told by the options alone.
pub accept_cases :
    (fd : ℤ) (works : ℤ → Bool × Bool × Bool × Bool)
    → ((works fd ≡ (true, true, true, true)) × (accept fd works ≡ (fd, [])))
      ⊎ ((works fd ≢ (true, true, true, true)) × (accept fd works ≡ (negsuc 0, fd ∷ [])))
unfolding accept accept_options
accept_cases fd works = ground arith
