-- ===== src/Sockets/Inet/Descriptors.antt =====
-- What the functions of sockets/inet_sockets.c leave open.
use the_linux_programming_in.Prelude.{
  ℕ, ◌≡◌, refl, ◌⊎◌, inl, inr, Bool, true, false, Option, none, some, List, [], ◌∷◌, arith, ◌==◌,
  if◌then◌else◌,
}
use the_linux_programming_in.Sockets.Inet.{
  AddrInfo, Network, IsNetwork, Passive, Bound, no_address, given_up, bound, after_connect,
  connect_socket, connect_loop, inet_connect, after_bind, after_reuse, bind_socket, bind_loop,
  after_listen, finish_passive, inet_passive_socket,
}

module _ (k : Network) where
  open k use {State, is_open}

  -- The same descriptors are open as before, but for the one that is returned and was not open.
  abbrev pub Opens : State → Option ℕ → State → Type 0
  Opens s none t = (n : ℕ) → is_open t n ≡ is_open s n
  Opens s (some fd) t =
      (is_open s fd ≡ false) × ((n : ℕ) → is_open t n ≡ (if n == fd then true else is_open s n))

  abbrev pub sfd_of : Option Passive → Option ℕ
  sfd_of none = none
  sfd_of (some p) = some p.sfd

  abbrev fd_of : Bound → Option ℕ
  fd_of no_address = none
  fd_of given_up = none
  fd_of (bound sfd a) = some sfd

  same :
      (r : Option ℕ) (s s' t : State)
      → ((n : ℕ) → is_open s' n ≡ is_open s n)
      → Opens s' r t
      → Opens s r t
  same none s s' t e h = λ n. ground (arith, e n, h n)
  same (some fd) s s' t e h = (ground (arith, e fd, h.0), λ n. ground (arith, e n, h.1 n))

  module _ (h : IsNetwork k) where
    closed :
        (s t u : State) (fd : ℕ)
        → is_open s fd ≡ false
        → ((n : ℕ) → is_open t n ≡ (if n == fd then true else is_open s n))
        → ((n : ℕ) → is_open u n ≡ is_open t n)
        → (n : ℕ) → is_open (k.close fd u) n ≡ is_open s n
    closed s t u fd f o e n = ground (arith, f, o n, e n, h.closes fd n u)

    after_connect-Opens :
        (s t : State) (fd : ℕ) (rest : State → Option ℕ × State) (r : Bool × State)
        → is_open s fd ≡ false
        → ((n : ℕ) → is_open t n ≡ (if n == fd then true else is_open s n))
        → ((n : ℕ) → is_open r.1 n ≡ is_open t n)
        → ((u : State) → Opens u (rest u).0 (rest u).1)
        → Opens s (after_connect k fd rest r).0 (after_connect k fd rest r).1
    unfolding after_connect
    after_connect-Opens s t fd rest (true, u) f o e ih = (f, λ n. ground (arith, o n, e n))
    after_connect-Opens s t fd rest (false, u) f o e ih =
        same _ s (k.close fd u) _ (closed s t u fd f o e) (ih (k.close fd u))

    connect_socket-Opens :
        (s : State) (a : AddrInfo) (rest : State → Option ℕ × State) (r : Option ℕ × State)
        → k.socket a s ≡ r
        → ((u : State) → Opens u (rest u).0 (rest u).1)
        → Opens s (connect_socket k a rest r).0 (connect_socket k a rest r).1
    unfolding connect_socket
    connect_socket-Opens s a rest (none, t) e ih = same _ s t _ (λ n. h.opens_none a s t n e) (ih t)
    connect_socket-Opens s a rest (some fd, t) e ih =
        after_connect-Opens s t fd rest (k.connect fd a t) (h.fresh a s t fd e)
          (λ n. h.opens a s t fd n e) (λ n. h.connect_keeps fd n a t) ih

    connect_loop-Opens :
        (l : List AddrInfo) (s : State) → Opens s (connect_loop k l s).0 (connect_loop k l s).1
    unfolding connect_loop
    connect_loop-Opens [] s = λ n. refl
    connect_loop-Opens (a ∷ l) s =
        connect_socket-Opens s a (connect_loop k l) (k.socket a s) refl (connect_loop-Opens l)

    -- With system calls that open and close the descriptors that socket(2) and close(2) say, whatever
    -- getaddrinfo() gave: if `inetConnect` returns a socket, that descriptor was not open and is
    -- the only one that it leaves open; if it returns -1, it leaves none open.
    pub inet_connect-Opens :
        (result : Option (List AddrInfo)) (s : State)
        → Opens s (inet_connect k result s).0 (inet_connect k result s).1
    unfolding inet_connect
    inet_connect-Opens none s = λ n. refl
    inet_connect-Opens (some result) s = connect_loop-Opens result s

    after_bind-Opens :
        (s t : State) (fd : ℕ) (a : AddrInfo) (rest : State → Bound × State) (r : Bool × State)
        → is_open s fd ≡ false
        → ((n : ℕ) → is_open t n ≡ (if n == fd then true else is_open s n))
        → ((n : ℕ) → is_open r.1 n ≡ is_open t n)
        → ((u : State) → Opens u (fd_of (rest u).0) (rest u).1)
        → Opens s (fd_of (after_bind k fd a rest r).0) (after_bind k fd a rest r).1
    unfolding after_bind
    after_bind-Opens s t fd a rest (true, u) f o e ih = (f, λ n. ground (arith, o n, e n))
    after_bind-Opens s t fd a rest (false, u) f o e ih =
        same _ s (k.close fd u) _ (closed s t u fd f o e) (ih (k.close fd u))

    after_reuse-Opens :
        (s t : State) (fd : ℕ) (a : AddrInfo) (rest : State → Bound × State) (r : Bool × State)
        → is_open s fd ≡ false
        → ((n : ℕ) → is_open t n ≡ (if n == fd then true else is_open s n))
        → ((n : ℕ) → is_open r.1 n ≡ is_open t n)
        → ((u : State) → Opens u (fd_of (rest u).0) (rest u).1)
        → Opens s (fd_of (after_reuse k fd a rest r).0) (after_reuse k fd a rest r).1
    unfolding after_reuse
    after_reuse-Opens s t fd a rest (true, u) f o e ih =
        after_bind-Opens s u fd a rest (k.bind fd a u) f (λ n. ground (arith, o n, e n))
          (λ n. h.bind_keeps fd n a u) ih
    after_reuse-Opens s t fd a rest (false, u) f o e ih = closed s t u fd f o e

    bind_socket-Opens :
        (do_listen : Bool) (s : State) (a : AddrInfo) (rest : State → Bound × State)
        (r : Option ℕ × State)
        → k.socket a s ≡ r
        → ((u : State) → Opens u (fd_of (rest u).0) (rest u).1)
        → Opens s (fd_of (bind_socket k do_listen a rest r).0) (bind_socket k do_listen a rest r).1
    unfolding bind_socket
    bind_socket-Opens true s a rest (none, t) e ih =
        same _ s t _ (λ n. h.opens_none a s t n e) (ih t)
    bind_socket-Opens false s a rest (none, t) e ih =
        same _ s t _ (λ n. h.opens_none a s t n e) (ih t)
    bind_socket-Opens true s a rest (some fd, t) e ih =
        after_reuse-Opens s t fd a rest (k.reuse_addr fd t) (h.fresh a s t fd e)
          (λ n. h.opens a s t fd n e) (λ n. h.reuse_keeps fd n t) ih
    bind_socket-Opens false s a rest (some fd, t) e ih =
        after_bind-Opens s t fd a rest (k.bind fd a t) (h.fresh a s t fd e)
          (λ n. h.opens a s t fd n e) (λ n. h.bind_keeps fd n a t) ih

    bind_loop-Opens :
        (do_listen : Bool) (l : List AddrInfo) (s : State)
        → Opens s (fd_of (bind_loop k do_listen l s).0) (bind_loop k do_listen l s).1
    unfolding bind_loop
    bind_loop-Opens d [] s = λ n. refl
    bind_loop-Opens d (a ∷ l) s =
        bind_socket-Opens d s a (bind_loop k d l) (k.socket a s) refl (bind_loop-Opens d l)

    after_listen-Opens :
        (s t : State) (fd : ℕ) (a : AddrInfo) (r : Bool × State)
        → r.0 ≡ true
        → Opens s (some fd) t
        → ((n : ℕ) → is_open r.1 n ≡ is_open t n)
        → Opens s (sfd_of (after_listen k fd a r).0) (after_listen k fd a r).1
    unfolding after_listen
    after_listen-Opens s t fd a (true, u) l o e = (o.0, λ n. ground (arith, o.1 n, e n))
    after_listen-Opens s t fd a (false, u) l o e = absurd (ground arith)

    finish_passive-Opens :
        (do_listen : Bool) (backlog : ℕ) (s : State) (r : Bound × State)
        → (do_listen ≡ false) ⊎ ((fd : ℕ) (t : State) → (k.listen fd backlog t).0 ≡ true)
        → Opens s (fd_of r.0) r.1
        → Opens s
            (sfd_of (finish_passive k do_listen backlog r).0)
            (finish_passive k do_listen backlog r).1
    unfolding finish_passive
    finish_passive-Opens true b s (no_address, t) l o = o
    finish_passive-Opens true b s (given_up, t) l o = o
    finish_passive-Opens true b s (bound fd a, t) (inl l) o = absurd (ground arith)
    finish_passive-Opens true b s (bound fd a, t) (inr l) o =
        after_listen-Opens s t fd a (k.listen fd b t) (l fd t) o (λ n. h.listen_keeps fd b n t)
    finish_passive-Opens false b s (no_address, t) l o = o
    finish_passive-Opens false b s (given_up, t) l o = o
    finish_passive-Opens false b s (bound fd a, t) l o = o

    -- With system calls that open and close the descriptors that socket(2) and close(2) say, whatever
    -- getaddrinfo() gave, where no listen() is asked for or it does not fail: if
    -- `inetPassiveSocket` returns a socket, that descriptor was not open and is the only one that it
    -- leaves open; if it returns -1, it leaves none open.
    pub inet_passive_socket-Opens :
        (result : Option (List AddrInfo)) (do_listen : Bool) (backlog : ℕ) (s : State)
        → (do_listen ≡ false) ⊎ ((fd : ℕ) (t : State) → (k.listen fd backlog t).0 ≡ true)
        → Opens s
            (sfd_of (inet_passive_socket k result do_listen backlog s).0)
            (inet_passive_socket k result do_listen backlog s).1
    unfolding inet_passive_socket
    inet_passive_socket-Opens none d b s l = λ n. refl
    inet_passive_socket-Opens (some result) d b s l =
        finish_passive-Opens d b s (bind_loop k d result s) l (bind_loop-Opens d result s)
