-- ===== src/Sockets/Unix.antt =====
-- sockets/unix_sockets.c: sockets of the UNIX domain, over the system calls of Sockets.Inet, which are
-- given the address in place of an entry of getaddrinfo().
use the_linux_programming_in.Prelude.{
  suc, ◌==◌, ℕ, zero, suc, ◌-◌, ◌≡◌, refl, Bool, true, false, Option, none, some, List, [], ◌∷◌,
  ◌++◌, length, arith, ltb, if◌then◌else◌,
}
use the_linux_programming_in.Sockets.Inet.{AddrInfo, Network, IsNetwork}
use the_linux_programming_in.Sockets.Inet.Descriptors.{Opens}

-- `sizeof(addr->sun_path)`, and the number of AF_UNIX
abbrev pub sun_path_len : ℕ
sun_path_len = 108

abbrev pub af_unix : ℕ
af_unix = 1

abbrev pub zeros : ℕ → List ℕ
zeros zero = []
zeros (suc n) = 0 ∷ zeros n

-- `struct sockaddr_un` with its path, null bytes up to its end; a null pointer and -1 are `none`.
unfoldable pub unix_build_address : Option (List ℕ) → Option (List ℕ)
unix_build_address none = none
unix_build_address (some path) =
    if ltb (length path) sun_path_len
    then some (path ++ zeros (sun_path_len - length path))
    else none

-- What the calls get: the domain and type of the socket, and the address with its size
abbrev pub unix_info : ℕ → List ℕ → AddrInfo
unix_info type sun_path = record {
  ai_family = af_unix;
  ai_socktype = type;
  ai_protocol = 0;
  ai_addr = sun_path;
  ai_addrlen = 110;
}

module _ (k : Network) where
  open k use {State, socket, connect, bind, close}

  -- By what connect() or bind() returned
  unfoldable pub keep_or_close : ℕ → Bool × State → Option ℕ × State
  keep_or_close sd (true, s) = (some sd, s)
  keep_or_close sd (false, s) = (none, close sd s)

  unfoldable pub connect_unix : AddrInfo → Option ℕ × State → Option ℕ × State
  unfolding keep_or_close
  connect_unix a (none, s) = (none, s)
  connect_unix a (some sd, s) = keep_or_close sd (connect sd a s)

  unfoldable pub bind_unix : AddrInfo → Option ℕ × State → Option ℕ × State
  unfolding keep_or_close
  bind_unix a (none, s) = (none, s)
  bind_unix a (some sd, s) = keep_or_close sd (bind sd a s)

  abbrev pub at_address :
      (AddrInfo → Option ℕ × State → Option ℕ × State)
      → ℕ
      → Option (List ℕ)
      → State
      → Option ℕ × State
  at_address use_socket type none s = (none, s)
  at_address use_socket type (some sun_path) s =
      use_socket (unix_info type sun_path) (socket (unix_info type sun_path) s)

  unfoldable pub unix_connect : Option (List ℕ) → ℕ → State → Option ℕ × State
  unfolding unix_build_address connect_unix
  unix_connect path type s = at_address connect_unix type (unix_build_address path) s

  unfoldable pub unix_bind : Option (List ℕ) → ℕ → State → Option ℕ × State
  unfolding unix_build_address bind_unix
  unix_bind path type s = at_address bind_unix type (unix_build_address path) s

module _ (k : Network) (h : IsNetwork k) where
  open k use {State, is_open}

  keep_or_close-Opens :
      (s t : State) (fd : ℕ) (r : Bool × State)
      → is_open s fd ≡ false
      → ((n : ℕ) → is_open t n ≡ (if n == fd then true else is_open s n))
      → ((n : ℕ) → is_open r.1 n ≡ is_open t n)
      → Opens k s (keep_or_close k fd r).0 (keep_or_close k fd r).1
  unfolding keep_or_close
  keep_or_close-Opens s t fd (true, u) f o e = (f, λ n. ground (arith, o n, e n))
  keep_or_close-Opens s t fd (false, u) f o e = λ n. ground (arith, f, o n, e n, h.closes fd n u)

  connect_unix-Opens :
      (s : State) (a : AddrInfo) (r : Option ℕ × State)
      → k.socket a s ≡ r
      → Opens k s (connect_unix k a r).0 (connect_unix k a r).1
  unfolding connect_unix
  connect_unix-Opens s a (none, t) e = λ n. h.opens_none a s t n e
  connect_unix-Opens s a (some fd, t) e =
      keep_or_close-Opens s t fd (k.connect fd a t) (h.fresh a s t fd e) (λ n. h.opens a s t fd n e)
        (λ n. h.connect_keeps fd n a t)

  bind_unix-Opens :
      (s : State) (a : AddrInfo) (r : Option ℕ × State)
      → k.socket a s ≡ r
      → Opens k s (bind_unix k a r).0 (bind_unix k a r).1
  unfolding bind_unix
  bind_unix-Opens s a (none, t) e = λ n. h.opens_none a s t n e
  bind_unix-Opens s a (some fd, t) e =
      keep_or_close-Opens s t fd (k.bind fd a t) (h.fresh a s t fd e) (λ n. h.opens a s t fd n e)
        (λ n. h.bind_keeps fd n a t)

  connects :
      (path : Option (List ℕ)) (type : ℕ) (s : State)
      → Opens k s
          (at_address k (connect_unix k) type path s).0
          (at_address k (connect_unix k) type path s).1
  connects none type s = λ n. refl
  connects (some p) type s = connect_unix-Opens s (unix_info type p) _ refl

  binds :
      (path : Option (List ℕ)) (type : ℕ) (s : State)
      → Opens k s
          (at_address k (bind_unix k) type path s).0
          (at_address k (bind_unix k) type path s).1
  binds none type s = λ n. refl
  binds (some p) type s = bind_unix-Opens s (unix_info type p) _ refl

  -- With system calls that open and close the descriptors that socket(2) and close(2) say: if
  -- `unixConnect` or `unixBind` returns a socket, that descriptor was not open and is the only one that it
  -- leaves open; if it returns -1, it leaves none open.
  pub unix_sockets-Opens :
      (path : Option (List ℕ)) (type : ℕ) (s : State)
      → Opens k s (unix_connect k path type s).0 (unix_connect k path type s).1
        × Opens k s (unix_bind k path type s).0 (unix_bind k path type s).1
  unfolding unix_connect unix_bind
  unix_sockets-Opens path type s =
      (connects (unix_build_address path) type s, binds (unix_build_address path) type s)
