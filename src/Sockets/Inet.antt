-- ===== src/Sockets/Inet.antt =====
-- sockets/inet_sockets.c: sockets for the addresses that getaddrinfo() gives, tried one after the other.
-- The network is a parameter.
pub mod Descriptors
mod Tests
use the_linux_programming_in.Prelude.{
  ◌≡◌, ℕ, Bool, true, false, Option, none, some, List, [], ◌∷◌, ◌++◌, ◌==◌, if◌then◌else◌,
}
use the_linux_programming_in.CString.{snprintf}

-- `struct addrinfo`
pub record AddrInfo : Type 0 where
  pub ai_family : ℕ
  pub ai_socktype : ℕ
  pub ai_protocol : ℕ
  pub ai_addr : List ℕ
  pub ai_addrlen : ℕ

-- The system calls, on a state of their own, with the entry whose fields they are given: socket() gives a descriptor or fails (`none`), the others
-- succeed (`true`) or fail. Whether a descriptor is open, which no program asks.
pub record Network : Type 1 where
  pub State : Type 0
  pub is_open : State → ℕ → Bool
  pub socket : AddrInfo → State → Option ℕ × State
  pub connect : ℕ → AddrInfo → State → Bool × State
  pub reuse_addr : ℕ → State → Bool × State
  pub bind : ℕ → AddrInfo → State → Bool × State
  pub listen : ℕ → ℕ → State → Bool × State
  pub close : ℕ → State → State

-- A descriptor, and the length of the address of its socket
pub record Passive : Type 0 where
  pub sfd : ℕ
  pub addr_len : ℕ

-- Where the loop of `inetPassiveSocket` is left: behind the list, with a socket, or by its return
pub data Bound : Type 0 where
  no_address given_up : Bound
  bound : ℕ → AddrInfo → Bound

module _ (k : Network) where
  open k use {State, socket, connect, reuse_addr, bind, listen, close}

  -- One address of `inetConnect`, by what the calls returned, with the rest of the loop
  unfoldable pub after_connect : ℕ → (State → Option ℕ × State) → Bool × State → Option ℕ × State
  after_connect sfd rest (true, s) = (some sfd, s)
  after_connect sfd rest (false, s) = rest (close sfd s)

  unfoldable pub connect_socket :
      AddrInfo → (State → Option ℕ × State) → Option ℕ × State → Option ℕ × State
  unfolding after_connect
  connect_socket a rest (none, s) = rest s
  connect_socket a rest (some sfd, s) = after_connect sfd rest (connect sfd a s)

  unfoldable pub connect_loop : List AddrInfo → State → Option ℕ × State
  unfolding connect_socket
  connect_loop [] s = (none, s)
  connect_loop (a ∷ as_left) s = connect_socket a (connect_loop as_left) (socket a s)

  -- By what getaddrinfo() gave; -1 is `none`.
  unfoldable pub inet_connect : Option (List AddrInfo) → State → Option ℕ × State
  unfolding connect_loop
  inet_connect none s = (none, s)
  inet_connect (some result) s = connect_loop result s

  unfoldable pub after_bind : ℕ → AddrInfo → (State → Bound × State) → Bool × State → Bound × State
  after_bind sfd a rest (true, s) = (bound sfd a, s)
  after_bind sfd a rest (false, s) = rest (close sfd s)

  unfoldable pub after_reuse : ℕ → AddrInfo → (State → Bound × State) → Bool × State → Bound × State
  unfolding after_bind
  after_reuse sfd a rest (true, s) = after_bind sfd a rest (bind sfd a s)
  after_reuse sfd a rest (false, s) = (given_up, close sfd s)

  unfoldable pub bind_socket :
      Bool → AddrInfo → (State → Bound × State) → Option ℕ × State → Bound × State
  unfolding after_reuse after_bind
  bind_socket do_listen a rest (none, s) = rest s
  bind_socket true a rest (some sfd, s) = after_reuse sfd a rest (reuse_addr sfd s)
  bind_socket false a rest (some sfd, s) = after_bind sfd a rest (bind sfd a s)

  unfoldable pub bind_loop : Bool → List AddrInfo → State → Bound × State
  unfolding bind_socket
  bind_loop do_listen [] s = (no_address, s)
  bind_loop do_listen (a ∷ as_left) s =
      bind_socket do_listen a (bind_loop do_listen as_left) (socket a s)

  -- A failure of listen() returns -1 and leaves the socket open.
  unfoldable pub after_listen : ℕ → AddrInfo → Bool × State → Option Passive × State
  after_listen sfd a (true, s) = (some (record { sfd = sfd; addr_len = a.ai_addrlen }), s)
  after_listen sfd a (false, s) = (none, s)

  -- Behind the loop
  unfoldable pub finish_passive : Bool → ℕ → Bound × State → Option Passive × State
  unfolding after_listen
  finish_passive do_listen backlog (no_address, s) = (none, s)
  finish_passive do_listen backlog (given_up, s) = (none, s)
  finish_passive true backlog (bound sfd a, s) = after_listen sfd a (listen sfd backlog s)
  finish_passive false backlog (bound sfd a, s) =
      (some (record { sfd = sfd; addr_len = a.ai_addrlen }), s)

  unfoldable pub inet_passive_socket :
      Option (List AddrInfo) → Bool → ℕ → State → Option Passive × State
  unfolding bind_loop finish_passive
  inet_passive_socket none do_listen backlog s = (none, s)
  inet_passive_socket (some result) do_listen backlog s =
      finish_passive do_listen backlog (bind_loop do_listen result s)

  unfoldable pub inet_listen : Option (List AddrInfo) → ℕ → State → Option Passive × State
  unfolding inet_passive_socket
  inet_listen result backlog s = inet_passive_socket result true backlog s

  unfoldable pub inet_bind : Option (List AddrInfo) → State → Option Passive × State
  unfolding inet_passive_socket
  inet_bind result s = inet_passive_socket result false 0 s

-- By what getnameinfo() gave: the names of the host and the service
unfoldable pub inet_address_str : Option (List ℕ × List ℕ) → ℕ → List ℕ
unfolding snprintf
inet_address_str none addr_str_len =
    snprintf addr_str_len
      (b'(' ∷ b'?' ∷ b'U' ∷ b'N' ∷ b'K' ∷ b'N' ∷ b'O' ∷ b'W' ∷ b'N' ∷ b'?' ∷ b')' ∷ [])
inet_address_str (some (host, service)) addr_str_len =
    snprintf addr_str_len (b'(' ∷ (host ++ b',' ∷ b' ' ∷ (service ++ b')' ∷ [])))

-- socket(2) and close(2): a socket has a descriptor that was not open, and opens no other; a failure
-- opens none; close() closes its descriptor; no other call opens or closes one.
pub record IsNetwork (k : Network) : Type 0 where
  pub fresh :
      (a : AddrInfo) (s t : k.State) (fd : ℕ) → k.socket a s ≡ (some fd, t) → k.is_open s fd ≡ false
  pub opens :
      (a : AddrInfo) (s t : k.State) (fd n : ℕ)
      → k.socket a s ≡ (some fd, t)
      → k.is_open t n ≡ (if n == fd then true else k.is_open s n)
  pub opens_none :
      (a : AddrInfo) (s t : k.State) (n : ℕ)
      → k.socket a s ≡ (none, t)
      → k.is_open t n ≡ k.is_open s n
  pub closes :
      (fd n : ℕ) (s : k.State)
      → k.is_open (k.close fd s) n ≡ (if n == fd then false else k.is_open s n)
  pub connect_keeps :
      (fd n : ℕ) (a : AddrInfo) (s : k.State) → k.is_open (k.connect fd a s).1 n ≡ k.is_open s n
  pub reuse_keeps : (fd n : ℕ) (s : k.State) → k.is_open (k.reuse_addr fd s).1 n ≡ k.is_open s n
  pub bind_keeps :
      (fd n : ℕ) (a : AddrInfo) (s : k.State) → k.is_open (k.bind fd a s).1 n ≡ k.is_open s n
  pub listen_keeps : (fd b n : ℕ) (s : k.State) → k.is_open (k.listen fd b s).1 n ≡ k.is_open s n
