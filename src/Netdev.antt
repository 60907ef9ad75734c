-- ===== src/Netdev.antt =====
-- src/netdev.c: the attributes of a network interface. The numbers of the requests, the structures
-- of the system's headers and the text of an address are parameters, in `NetSystem`.
pub mod Attributes
pub mod Descriptors
pub mod Status
mod Tests
use ldal.Base.{
  ℕ, ◌+◌, ◌/◌, ◌%◌, ℤ, Bool, true, false, Option, none, some, List, [], ◌∷◌, ◌++◌, ltb,
  if◌then◌else◌, is_neg, take, codes, same_text,
}
use ldal.Kernel.{Bytes, ioctl, close_fd, Io, pure, call, ◌>>=◌, ◌>>◌}
use ldal.Socket.{text_of}

-- What a `struct ifreq` holds beside the name of the interface.
pub data Ifr : Type 0 where
  ifr_blank : Ifr
  ifr_addr : Bytes → Ifr
  ifr_hwaddr : List ℕ → Ifr
  ifr_flags : ℕ → Ifr

pub data Request : Type 0 where
  siocgifhwaddr siocsifhwaddr siocgifaddr siocsifaddr siocgifnetmask siocsifnetmask : Request
  siocaddrt siocgifflags siocsifflags siocethtool : Request

-- `store_ifr` and `store_route` lay the structures out; the address in one is given by its text.
-- `load_addr` is the text that `inet_ntoa` gives of the address in a structure. `scan_mac` is the
-- number of values that `sscanf` reads of a hardware address, and the six values.
pub record NetSystem : Type 0 where
  pub number : Request → ℕ
  pub store_ifr : Bytes → Ifr → Bytes
  pub store_route : (ifname gateway : Bytes) → Bytes
  pub load_addr : Bytes → Bytes
  pub load_hwaddr : Bytes → List ℕ
  pub load_flags : Bytes → ℕ
  pub load_link : Bytes → ℕ
  pub inet_aton : Bytes → ℤ
  pub size_of_res_state : ℕ
  pub scan_mac : Bytes → ℤ × List ℕ

abbrev pub none_ip : Bytes
none_ip = codes "0.0.0.0"

abbrev pub ip_size : ℕ
ip_size = 16

-- `netdev_attr_t`.
pub record NetdevAttr : Type 0 where
  pub ipaddr : Bytes
  pub netmask : Bytes
  pub gateway : Bytes
  pub dns : Bytes

-- The servers in the static `netdev_attr`, of eth0 and eth1; no function sets its other members.
pub record Servers : Type 0 where
  pub dns_eth0 : Bytes
  pub dns_eth1 : Bytes

-- `link_status_t`.
pub data LinkStatus : Type 0 where
  link_up link_down : LinkStatus

abbrev pub hex_digit : ℕ → ℕ
hex_digit d = if ltb d 10 then 48 + d else 87 + d

-- "%02x" of a byte.
abbrev pub hex_byte : ℕ → Bytes
hex_byte b = hex_digit (b / 16 % 16) ∷ hex_digit (b % 16) ∷ []

abbrev pub mac_text : List ℕ → Bytes
mac_text [] = []
mac_text (b ∷ []) = hex_byte b
mac_text (b ∷ c ∷ bs) = hex_byte b ++ (b':' ∷ mac_text (c ∷ bs))

-- Names of 16 bytes or more are cut; where `strcpy` copies them they would be written past the
-- structure, which is left out.
abbrev pub ifr_name : Bytes → Bytes
ifr_name ifname = take 15 (text_of ifname)

-- The request that ends most functions: the descriptor is closed whether it fails or not.
abbrev pub request : {A : Type 0} → ℤ → ℕ → Bytes → (Bytes → A) → Io (Option A)
request fd n arg read = do
  r ← call (ioctl fd n arg)
  call (close_fd fd)
  pure (if is_neg r.ret then none else some (read r.payload))

abbrev pub is_done : Option (Unit {0}) → Bool
is_done none = false
is_done (some _) = true

unfoldable pub command : Bytes → Bytes → Bytes
command dns_addr into = take 99 (
    codes "echo 'nameserver "
    ++ (text_of dns_addr ++ (codes "' " ++ (into ++ codes " /etc/resolv.conf"))))

-- `strncmp(s, t, IP_SIZE) == 0`
unfoldable pub same_address : Bytes → Bytes → Bool
same_address s t = same_text (take ip_size (text_of s)) (take ip_size (text_of t))
