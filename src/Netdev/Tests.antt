-- ===== src/Netdev/Tests.antt =====
-- A system in which every call succeeds, and whose hardware addresses are never six values.
use ldal.Base.{ℕ, ◌/◌, ◌%◌, ◌≡◌, refl, pos, [], ◌∷◌, ◌++◌, codes, ldal_eok}
use ldal.Kernel.{get_uid, Bytes, socket, stream, ioctl, close_fd, Env}
use ldal.Netdev.{
  Ifr, ifr_blank, ifr_addr, ifr_hwaddr, ifr_flags, Request, siocgifflags, siocsifflags, NetSystem,
  Servers, link_up, ifr_name, none_ip,
}
use ldal.Netdev.Attributes.{set_netdev_status}
use ldal.Netdev.Descriptors.{Operation, set_mac, SocketAnswers, open_sockets, run, run-open_sockets}
use ldal.Netdev.Status.{up_bit, read_flags, set_netdev_status-flags}

abbrev number : Request → ℕ
number siocgifflags = 1
number siocsifflags = 2
number _ = 0

abbrev store_ifr : Bytes → Ifr → Bytes
store_ifr ifname ifr_blank = ifname
store_ifr ifname (ifr_addr s) = ifname ++ (0 ∷ s)
store_ifr ifname (ifr_hwaddr s) = ifname ++ (0 ∷ s)
store_ifr ifname (ifr_flags f) = ifname ++ (0 ∷ f ∷ [])

abbrev first : Bytes → ℕ
first [] = 0
first (c ∷ s) = c

abbrev small : NetSystem
small = record {
  number = number;
  store_ifr = store_ifr;
  store_route = λ ifname gateway. ifname ++ (0 ∷ gateway);
  load_addr = λ s. s;
  load_hwaddr = λ s. s;
  load_flags = first;
  load_link = first;
  inet_aton = λ s. pos 1;
  size_of_res_state = 500;
  scan_mac = λ s. (pos 5, s);
}

abbrev answering : Env
answering h c = record { ret = pos 3; payload = 6 ∷ []; errno = 0 }

answers : SocketAnswers answering
answers h k = refl

abbrev no_servers : Servers
no_servers = record { dns_eth0 = none_ip; dns_eth1 = none_ip }

abbrev setting : Operation
setting = set_mac (codes "eth0") (codes "11:22:33:44:55")

-- Root, who gets the socket 3.
abbrev as_root : Env
as_root h get_uid = record { ret = pos 0; payload = []; errno = 0 }
as_root h _ = record { ret = pos 3; payload = []; errno = 0 }

made_for_root : SocketAnswers as_root
made_for_root h k = refl

run-open_sockets_example :
    open_sockets as_root (run small setting no_servers as_root []).1 ≡ pos 3 ∷ []
unfolding open_sockets
run-open_sockets_example = run-open_sockets small as_root made_for_root setting no_servers []

was_set : (set_netdev_status small (codes "eth0") link_up answering []).0 ≡ ldal_eok
unfolding set_netdev_status
was_set = refl

set_netdev_status-flags_example :
    (flags : ℕ) × (flags % 2 ≡ up_bit link_up)
    × (flags / 2 ≡ read_flags small (codes "eth0") link_up answering [] / 2)
    × ((set_netdev_status small (codes "eth0") link_up answering []).1
        ≡ close_fd (pos 3)
          ∷ ioctl (pos 3) 2 (store_ifr (ifr_name (codes "eth0")) (ifr_flags flags))
          ∷ ioctl (pos 3) 1 (store_ifr (ifr_name (codes "eth0")) ifr_blank)
          ∷ socket stream
          ∷ [])
set_netdev_status-flags_example =
    set_netdev_status-flags small (codes "eth0") link_up answering [] was_set
