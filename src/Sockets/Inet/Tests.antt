-- ===== src/Sockets/Inet/Tests.antt =====
-- The theorems on sockets/inet_sockets.c at a concrete network.
use the_linux_programming_in.Prelude.{
  ℕ, suc, refl, sym, ap, ◌∙◌, inr, Bool, true, false, not, ◌&&◌, ◌||◌, Option, none, some, [], ◌∷◌,
  arith, ltb, ◌==◌,
}
use the_linux_programming_in.Sockets.Inet.{AddrInfo, Network, IsNetwork, inet_passive_socket}
use the_linux_programming_in.Sockets.Inet.Descriptors.{Opens, sfd_of, inet_passive_socket-Opens}

-- The descriptors below `count` that are open; each socket() takes a new one.
record Table : Type 0 where
  count : ℕ
  used : ℕ → Bool

-- A network in which only descriptor 1 can be connected or bound
abbrev network : Network
network = record {
  State = Table;
  is_open = λ s n. ltb n s.count && s.used n;
  socket =
      λ a s. (some s.count, record { count = suc s.count; used = λ n. n == s.count || s.used n });
  connect = λ fd a s. (fd == 1, s);
  reuse_addr = λ fd s. (true, s);
  bind = λ fd a s. (fd == 1, s);
  listen = λ fd b s. (true, s);
  close = λ fd s. record s { used = λ n. not (n == fd) && s.used n };
}

abbrev fd_of : Option ℕ → ℕ
fd_of none = 0
fd_of (some fd) = fd

network-IsNetwork : IsNetwork network
network-IsNetwork = record {
  fresh = λ a s t fd e. ground (arith, ap (λ p. fd_of p.0) e);
  opens = λ a s t fd n e.
      sym (ap (λ (p : Option ℕ × Table). network.is_open p.1 n) e)
      ∙ ground (arith, ap (λ p. fd_of p.0) e);
  opens_none = λ a s t n e. absurd (ground (arith, ap (λ p. p.0) e));
  closes = λ fd n s. ground arith;
  connect_keeps = λ fd n a s. refl;
  reuse_keeps = λ fd n s. refl;
  bind_keeps = λ fd n a s. refl;
  listen_keeps = λ fd b n s. refl;
}

abbrev an_address : AddrInfo
an_address = record {
  ai_family = 2;
  ai_socktype = 1;
  ai_protocol = 0;
  ai_addr = 2 ∷ [];
  ai_addrlen = 1;
}

abbrev no_sockets : Table
no_sockets = record { count = 0; used = λ n. false }

inet_passive_socket-Opens_example :
    Opens network no_sockets
      (sfd_of network
        (inet_passive_socket network (some (an_address ∷ an_address ∷ [])) true 5 no_sockets).0)
      (inet_passive_socket network (some (an_address ∷ an_address ∷ [])) true 5 no_sockets).1
inet_passive_socket-Opens_example =
    inet_passive_socket-Opens network network-IsNetwork (some (an_address ∷ an_address ∷ [])) true 5
      no_sockets (inr (λ fd t. refl))
