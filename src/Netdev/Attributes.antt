-- ===== src/Netdev/Attributes.antt =====
-- src/netdev.c: its functions, by their names. A function that returns `bool` and stores an address
-- returns the address, or `none` for `false`.
use ldal.Base.{
  ℕ, ◌+◌, ◌-◌, ◌%◌, ℤ, pos, negsuc, Bool, true, false, not, ◌||◌, Option, none, some, [], ◌∷◌, ◌++◌,
  leb, ◌==◌, if◌then◌else◌, neg, ldal_eok, ldal_error, is_neg, is_zero, is_minus_one, take, codes,
  map,
}
use ldal.Kernel.{
  Bytes, stream, datagram, socket, ioctl, close_fd, get_uid, get_euid, pipe_open, pipe_line,
  pipe_close, resolver_init, alloc, free_mem, system, Io, pure, call, ◌>>=◌, ◌>>◌,
}
use ldal.Socket.{text_of}
use ldal.Netdev.{
  ifr_blank, ifr_addr, ifr_hwaddr, ifr_flags, siocgifhwaddr, siocsifhwaddr, siocgifaddr,
  siocsifaddr, siocgifnetmask, siocsifnetmask, siocaddrt, siocgifflags, siocsifflags, siocethtool,
  NetSystem, none_ip, ip_size, NetdevAttr, Servers, LinkStatus, link_up, link_down, mac_text,
  ifr_name, request, is_done, command, same_address,
}

-- The end of a line of text is cut off.
abbrev pub without_newline : Bytes → Bytes
without_newline [] = []
without_newline (c ∷ []) = if c == 10 then [] else c ∷ []
without_newline (c ∷ d ∷ s) = c ∷ without_newline (d ∷ s)

unfoldable pub route_command : Bytes → Bytes
route_command ifname =
    codes "route -n | grep "
    ++ (text_of ifname ++ (codes "  | grep 'UG[ " ++ (9 ∷ codes "]' | awk '{print $2}'")))

-- The bit `IFF_UP` of the flags.
unfoldable pub flags_for : LinkStatus → ℕ → ℕ
flags_for link_up flags = flags - flags % 2 + 1
flags_for link_down flags = flags - flags % 2

abbrev pub or_none_ip : Option Bytes → Bytes
or_none_ip none = none_ip
or_none_ip (some s) = s

-- `!(6 > ret)`
abbrev pub has_six : ℤ → Bool
has_six (pos k) = leb 6 k
has_six (negsuc k) = false

-- `dns_addr` becomes the server of the interface in `netdev_attr`.
unfoldable pub set_server : Bytes → Bytes → Servers → Servers
set_server ifname dns_addr a =
    if same_address ifname (codes "eth0")
    then record a { dns_eth0 = text_of dns_addr }
    else if same_address ifname (codes "eth1")
    then record a { dns_eth1 = text_of dns_addr }
    else a

module _ (n : NetSystem) where
  unfoldable pub get_local_mac : Bytes → Io (Option Bytes)
  get_local_mac ifname = do
    sd ← call (socket stream)
    if is_neg sd.ret
        then pure none
        else request sd.ret (n.number siocgifhwaddr) (n.store_ifr (ifr_name ifname) ifr_blank)
            (λ s. mac_text (take 6 (n.load_hwaddr s)))

  -- `set_local_mac` behind the test of the user. The socket is not closed when `mac` is invalid. The
  -- loop stores the six values six times.
  unfoldable pub change_mac : Bytes → Bytes → Io Bool
  change_mac ifname mac = do
    sd ← call (socket datagram)
    let (ret, values) = n.scan_mac (text_of mac)
    if is_neg sd.ret
        then pure false
        else if has_six ret
        then (do
          done ←
              request sd.ret (n.number siocsifhwaddr)
                (n.store_ifr (ifr_name ifname) (ifr_hwaddr (map (λ v. v % 256) (take 6 values))))
                (λ s. tt)
          pure (is_done done))
        else pure false

  unfoldable pub set_local_mac : Bytes → Bytes → Io Bool
  unfolding change_mac
  set_local_mac ifname mac = do
    uid ← call get_uid
    if is_zero uid.ret
        then change_mac ifname mac
        else do euid ← call get_euid; if is_zero euid.ret then change_mac ifname mac else pure false

  unfoldable pub get_local_ip : Bytes → Io (Option Bytes)
  get_local_ip ifname = do
    sd ← call (socket datagram)
    if is_minus_one sd.ret
        then pure none
        else request sd.ret (n.number siocgifaddr) (n.store_ifr (ifr_name ifname) ifr_blank)
            (λ s. take (ip_size - 1) (n.load_addr s))

  unfoldable pub set_local_ip : Bytes → Bytes → Io Bool
  set_local_ip ifname ip = do
    sd ← call (socket datagram)
    if is_minus_one sd.ret then pure false else do
      done ←
          request sd.ret (n.number siocsifaddr)
            (n.store_ifr (ifr_name ifname) (ifr_addr (text_of ip))) (λ s. tt)
      pure (is_done done)

  unfoldable pub get_local_netmask : Bytes → Io (Option Bytes)
  get_local_netmask ifname = do
    sd ← call (socket stream)
    if is_minus_one sd.ret
        then pure none
        else request sd.ret (n.number siocgifnetmask) (n.store_ifr (ifr_name ifname) ifr_blank)
            (λ s. take ip_size (n.load_addr s))

  unfoldable pub set_local_netmask : Bytes → Bytes → Io Bool
  set_local_netmask ifname netmask_addr = do
    sd ← call (socket stream)
    if is_minus_one sd.ret then pure false else do
      done ←
          request sd.ret (n.number siocsifnetmask)
            (n.store_ifr (ifr_name ifname) (ifr_addr (text_of netmask_addr))) (λ s. tt)
      pure (is_done done)

  -- `popen` and `fgets` return NULL where the answers are negative. The pipe is not closed when
  -- there is no line.
  unfoldable pub get_local_gateway : Bytes → Io (Option Bytes)
  get_local_gateway ifname = do
    fp ← call (pipe_open (route_command ifname))
    if is_neg fp.ret then pure none else do
      line ← call (pipe_line 256)
      if is_neg line.ret
          then pure none
          else do call pipe_close; pure (some (without_newline (text_of (take 255 line.payload))))

  -- `inet_aton` returns 0 for a text that is no address, which passes the test.
  unfoldable pub set_local_gateway : Bytes → Bytes → Io Bool
  set_local_gateway ifname gateway = do
    sd ← call (socket stream)
    if is_minus_one sd.ret
        then pure false
        else if is_neg (n.inet_aton (text_of gateway))
        then (do call (close_fd sd.ret); pure false)
        else (do
          done ←
              request sd.ret (n.number siocaddrt) (n.store_route (text_of ifname) (text_of gateway))
                (λ s. tt)
          pure (is_done done))

  -- `res_ninit` answers with the number of servers and the address of the first. What was allocated
  -- stays allocated when there is none.
  unfoldable pub get_local_dns : Io (Option Bytes)
  get_local_dns = do
    call (alloc n.size_of_res_state)
    res ← call resolver_init
    if is_neg res.ret || is_zero res.ret
        then pure none
        else do call free_mem; pure (some (take (ip_size - 1) (n.load_addr res.payload)))

  -- A server that does not fit its array would be written past it, which is left out.
  unfoldable pub set_local_dns : Bytes → Bytes → Servers → Io (Bool × Servers)
  set_local_dns ifname dns_addr a = do
    let a' = set_server ifname dns_addr a
    call (system (command dns_addr (codes ">")))
    if not (same_address a'.dns_eth0 none_ip)
        then (do call (system (command dns_addr (codes ">>"))); pure (true, a'))
        else if not (same_address a'.dns_eth1 none_ip)
        then (do call (system (command dns_addr (codes ">>"))); pure (true, a'))
        else pure (true, a')

  unfoldable pub get_ip_attr : Bytes → Io (ℤ × NetdevAttr)
  unfolding get_local_ip get_local_netmask get_local_gateway get_local_dns
  get_ip_attr ifname = do
    ipaddr ← get_local_ip ifname
    netmask ← get_local_netmask ifname
    gateway ← get_local_gateway ifname
    dns ← get_local_dns
    pure (
      ldal_eok,
      record {
        ipaddr = or_none_ip ipaddr;
        netmask = or_none_ip netmask;
        gateway = or_none_ip gateway;
        dns = or_none_ip dns;
      },
    )

  unfoldable pub set_ip_attr : Bytes → NetdevAttr → Servers → Io (ℤ × Servers)
  unfolding set_local_ip set_local_netmask set_local_gateway set_local_dns
  set_ip_attr ifname attr a = do
    set_local_ip ifname attr.ipaddr
    set_local_netmask ifname attr.netmask
    set_local_gateway ifname attr.gateway
    (_, a') ← set_local_dns ifname attr.dns a
    pure (ldal_eok, a')

  unfoldable pub set_netdev_status : Bytes → LinkStatus → Io ℤ
  set_netdev_status ifname status = do
    sd ← call (socket stream)
    if is_neg sd.ret then pure (neg ldal_error) else do
      got ← call (ioctl sd.ret (n.number siocgifflags) (n.store_ifr (ifr_name ifname) ifr_blank))
      if is_neg got.ret then (do call (close_fd sd.ret); pure (neg ldal_error)) else do
        done ←
            request sd.ret (n.number siocsifflags)
              (n.store_ifr (ifr_name ifname)
                (ifr_flags (flags_for status (n.load_flags got.payload))))
              (λ s. tt)
        pure (if is_done done then ldal_eok else neg ldal_error)

  -- A `link_status_t`, or an error.
  unfoldable pub check_netdev_status : Bytes → Io ℤ
  check_netdev_status ifname = do
    sd ← call (socket datagram)
    if is_neg sd.ret then pure (neg ldal_error) else do
      r ← call (ioctl sd.ret (n.number siocethtool) (n.store_ifr (ifr_name ifname) ifr_blank))
      call (close_fd sd.ret)
      pure (
          if is_minus_one r.ret
          then neg ldal_error
          else if n.load_link r.payload == 0
          then pos 1
          else pos 0)
