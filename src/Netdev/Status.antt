-- ===== src/Netdev/Status.antt =====
-- Setting the status of an interface.
use ldal.Base.{ℕ, ◌/◌, ◌%◌, ◌≡◌, ℤ, ◌∷◌, arith, ldal_eok}
use ldal.Kernel.{Bytes, socket, stream, ioctl, close_fd, Env, History}
use ldal.Netdev.{
  ifr_blank, ifr_flags, siocgifflags, siocsifflags, NetSystem, LinkStatus, link_up, link_down,
  ifr_name,
}
use ldal.Netdev.Attributes.{flags_for, set_netdev_status}

-- The lowest bit of the flags.
abbrev pub up_bit : LinkStatus → ℕ
up_bit link_up = 1
up_bit link_down = 0

flags_for_lem :
    (status : LinkStatus) (flags : ℕ)
    → (flags_for status flags % 2 ≡ up_bit status) × (flags_for status flags / 2 ≡ flags / 2)
unfolding flags_for
flags_for_lem link_up flags = omega arith
flags_for_lem link_down flags = omega arith

module _ (n : NetSystem) (ifname : Bytes) (status : LinkStatus) (e : Env) (h : History) where
  -- The socket that was made, and the flags that were read through it.
  abbrev pub status_fd : ℤ
  status_fd = (e h (socket stream)).ret

  abbrev pub read_flags : ℕ
  read_flags =
      n.load_flags
        (e (socket stream ∷ h) (
          ioctl status_fd (n.number siocgifflags)
            (n.store_ifr (ifr_name ifname) ifr_blank))).payload

  set_netdev_status-ok :
      (set_netdev_status n ifname status e h).0 ≡ ldal_eok
      → (set_netdev_status n ifname status e h).1
        ≡ close_fd status_fd
          ∷ ioctl status_fd
              (n.number siocsifflags)
              (n.store_ifr (ifr_name ifname) (ifr_flags (flags_for status read_flags)))
          ∷ ioctl status_fd (n.number siocgifflags) (n.store_ifr (ifr_name ifname) ifr_blank)
          ∷ socket stream
          ∷ h
  unfolding set_netdev_status
  set_netdev_status-ok ok = ground arith

  -- A status that was set is set by one request, whose flags have the bit of the status, and every
  -- other bit as it was read before, through a socket that is closed after it.
  pub set_netdev_status-flags :
      (set_netdev_status n ifname status e h).0 ≡ ldal_eok
      → (flags : ℕ) × (flags % 2 ≡ up_bit status)
        × (flags / 2 ≡ read_flags / 2)
        × ((set_netdev_status n ifname status e h).1
            ≡ close_fd status_fd
              ∷ ioctl status_fd
                  (n.number siocsifflags)
                  (n.store_ifr (ifr_name ifname) (ifr_flags flags))
              ∷ ioctl status_fd (n.number siocgifflags) (n.store_ifr (ifr_name ifname) ifr_blank)
              ∷ socket stream
              ∷ h)
  set_netdev_status-flags ok =
      let (bit, others) = flags_for_lem status read_flags in
      (flags_for status read_flags, bit, others, set_netdev_status-ok ok)
