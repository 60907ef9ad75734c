-- ===== src/Netdev/Descriptors.antt =====
-- The sockets and pipes that the functions of src/netdev.c leave open.
use ldal.Base.{
  is_zero, ℕ, suc, ◌-◌, ◌≡◌, ◌⊎◌, inl, inr, ◌∙◌, refl, ℤ, true, false, List, [], ◌∷◌, Bool, not,
  ◌&&◌, ◌||◌, if◌then◌else◌, is_neg, is_minus_one, arith, Bool-cases, none,
}
use ldal.Kernel.{
  Bytes, SocketKind, socket, close_fd, pipe_open, pipe_close, get_uid, get_euid, datagram, Env,
  History, Io, pure, ◌>>=◌,
}
use ldal.Base.Int.{same_int, same_int-same}
use ldal.Socket.{text_of}
use ldal.Netdev.{NetSystem, NetdevAttr, Servers, LinkStatus}
use ldal.Netdev.Attributes.{
  has_six, get_local_mac, change_mac, set_local_mac, get_local_ip, set_local_ip, get_local_netmask,
  set_local_netmask, get_local_gateway, set_local_gateway, get_local_dns, set_local_dns,
  get_ip_attr, set_ip_attr, set_netdev_status, check_netdev_status,
}

abbrev closed : ℤ → List ℤ → List ℤ
closed fd [] = []
closed fd (x ∷ xs) = if same_int x fd then xs else x ∷ closed fd xs

-- The sockets that are open after some calls, the latest first.
unfoldable pub open_sockets : Env → History → List ℤ
open_sockets e [] = []
open_sockets e (socket k ∷ h) =
    let fd = (e h (socket k)).ret in if is_neg fd then open_sockets e h else fd ∷ open_sockets e h
open_sockets e (close_fd fd ∷ h) = closed fd (open_sockets e h)
open_sockets e (_ ∷ h) = open_sockets e h

-- A socket that cannot be made is -1.
abbrev pub SocketAnswers : Env → Type 0
SocketAnswers e =
    (h : History) (k : SocketKind) → is_minus_one (e h (socket k)).ret ≡ is_neg (e h (socket k)).ret

closed-same : (fd : ℤ) (xs : List ℤ) → closed fd (fd ∷ xs) ≡ xs
closed-same fd xs = rw (same_int-same fd) refl

-- The pipes that are open after some calls.
unfoldable pub open_pipes : Env → History → ℕ
open_pipes e [] = 0
open_pipes e (pipe_open s ∷ h) =
    if is_neg (e h (pipe_open s)).ret then open_pipes e h else suc (open_pipes e h)
open_pipes e (pipe_close ∷ h) = open_pipes e h - 1
open_pipes e (_ ∷ h) = open_pipes e h

-- A call of a function of the file, its results dropped.
pub data Operation : Type 0 where
  get_mac get_ip get_netmask get_gateway get_attr check_status : Bytes → Operation
  set_mac set_ip set_netmask set_gateway set_dns : Bytes → Bytes → Operation
  get_dns : Operation
  set_attr : Bytes → NetdevAttr → Operation
  set_status : Bytes → LinkStatus → Operation

module _ (n : NetSystem) where
  abbrev pub drop : {A : Type 0} → Io A → Io (Unit {0})
  drop m = do _ ← m; pure tt

  unfoldable pub run : Operation → Servers → Io (Unit {0})
  run (get_mac ifname) a = drop (get_local_mac n ifname)
  run (get_ip ifname) a = drop (get_local_ip n ifname)
  run (get_netmask ifname) a = drop (get_local_netmask n ifname)
  run (get_gateway ifname) a = drop (get_local_gateway n ifname)
  run (get_attr ifname) a = drop (get_ip_attr n ifname)
  run (check_status ifname) a = drop (check_netdev_status n ifname)
  run (set_mac ifname mac) a = drop (set_local_mac n ifname mac)
  run (set_ip ifname ip) a = drop (set_local_ip n ifname ip)
  run (set_netmask ifname netmask) a = drop (set_local_netmask n ifname netmask)
  run (set_gateway ifname gateway) a = drop (set_local_gateway n ifname gateway)
  run (set_dns ifname dns) a = drop (set_local_dns n ifname dns a)
  run get_dns a = drop (get_local_dns n)
  run (set_attr ifname attr) a = drop (set_ip_attr n ifname attr a)
  run (set_status ifname status) a = drop (set_netdev_status n ifname status)

module _ (n : NetSystem) (e : Env) (s : SocketAnswers e) where
  -- What leaves the same sockets open.
  abbrev Keeps : {A : Type 0} → Io A → Type 0
  Keeps m = (h : History) → open_sockets e (m e h).1 ≡ open_sockets e h

  get_local_mac-Keeps : (ifname : Bytes) → Keeps (get_local_mac n ifname)
  unfolding get_local_mac open_sockets
  get_local_mac-Keeps ifname h = grind (arith, closed-same, s)

  get_local_ip-Keeps : (ifname : Bytes) → Keeps (get_local_ip n ifname)
  unfolding get_local_ip open_sockets
  get_local_ip-Keeps ifname h = grind (arith, closed-same, s)

  set_local_ip-Keeps : (ifname ip : Bytes) → Keeps (set_local_ip n ifname ip)
  unfolding set_local_ip open_sockets
  set_local_ip-Keeps ifname ip h = grind (arith, closed-same, s)

  get_local_netmask-Keeps : (ifname : Bytes) → Keeps (get_local_netmask n ifname)
  unfolding get_local_netmask open_sockets
  get_local_netmask-Keeps ifname h = grind (arith, closed-same, s)

  set_local_netmask-Keeps : (ifname netmask : Bytes) → Keeps (set_local_netmask n ifname netmask)
  unfolding set_local_netmask open_sockets
  set_local_netmask-Keeps ifname netmask h = grind (arith, closed-same, s)

  set_local_gateway-Keeps : (ifname gateway : Bytes) → Keeps (set_local_gateway n ifname gateway)
  unfolding set_local_gateway open_sockets
  set_local_gateway-Keeps ifname gateway h = grind (arith, closed-same, s)

  get_local_gateway-Keeps : (ifname : Bytes) → Keeps (get_local_gateway n ifname)
  unfolding get_local_gateway open_sockets
  get_local_gateway-Keeps ifname h = grind (arith, closed-same, s)

  get_local_dns-Keeps : Keeps (get_local_dns n)
  unfolding get_local_dns open_sockets
  get_local_dns-Keeps h = grind (arith)

  set_local_dns-Keeps : (ifname dns : Bytes) (a : Servers) → Keeps (set_local_dns n ifname dns a)
  unfolding set_local_dns open_sockets
  set_local_dns-Keeps ifname dns a h = grind (arith)

  check_netdev_status-Keeps : (ifname : Bytes) → Keeps (check_netdev_status n ifname)
  unfolding check_netdev_status open_sockets
  check_netdev_status-Keeps ifname h = grind (arith, closed-same, s)

  set_netdev_status-Keeps :
      (ifname : Bytes) (status : LinkStatus) → Keeps (set_netdev_status n ifname status)
  unfolding set_netdev_status open_sockets
  set_netdev_status-Keeps ifname status h = grind (arith, closed-same, s)

  get_ip_attr-Keeps : (ifname : Bytes) → Keeps (get_ip_attr n ifname)
  unfolding get_ip_attr
  get_ip_attr-Keeps ifname h =
      let h1 = (get_local_ip n ifname e h).1 in
      let h2 = (get_local_netmask n ifname e h1).1 in
      get_local_dns-Keeps (get_local_gateway n ifname e h2).1
      ∙ get_local_gateway-Keeps ifname h2
      ∙ get_local_netmask-Keeps ifname h1
      ∙ get_local_ip-Keeps ifname h

  set_ip_attr-Keeps :
      (ifname : Bytes) (attr : NetdevAttr) (a : Servers) → Keeps (set_ip_attr n ifname attr a)
  unfolding set_ip_attr
  set_ip_attr-Keeps ifname attr a h =
      let h1 = (set_local_ip n ifname attr.ipaddr e h).1 in
      let h2 = (set_local_netmask n ifname attr.netmask e h1).1 in
      set_local_dns-Keeps ifname attr.dns a (set_local_gateway n ifname attr.gateway e h2).1
      ∙ set_local_gateway-Keeps ifname attr.gateway h2
      ∙ set_local_netmask-Keeps ifname attr.netmask h1
      ∙ set_local_ip-Keeps ifname attr.ipaddr h

  change_mac-Keeps :
      (ifname mac : Bytes)
      → has_six (n.scan_mac (text_of mac)).0 ≡ true
      → Keeps (change_mac n ifname mac)
  unfolding change_mac open_sockets
  change_mac-Keeps ifname mac right h = grind (arith, closed-same)

  -- The sockets with a new one, if it could be made.
  abbrev with_socket : History → List ℤ
  with_socket h =
      let fd = (e h (socket datagram)).ret in
      if is_neg fd then open_sockets e h else fd ∷ open_sockets e h

  change_mac-open_sockets :
      (ifname mac : Bytes) (h : History)
      → open_sockets e (change_mac n ifname mac e h).1
        ≡ (if has_six (n.scan_mac (text_of mac)).0 then open_sockets e h else with_socket h)
  unfolding change_mac open_sockets
  change_mac-open_sockets ifname mac h = grind (arith, closed-same)

  -- Root sets the address.
  abbrev is_root : History → Bool
  is_root h = is_zero (e h get_uid).ret || is_zero (e (get_uid ∷ h) get_euid).ret

  -- The calls before the address is set.
  abbrev asked_root : History → History
  asked_root h = if is_zero (e h get_uid).ret then get_uid ∷ h else get_euid ∷ get_uid ∷ h

  -- The sockets that a call leaves open: the setting of a hardware address that is not one, by root,
  -- leaves its own.
  abbrev pub left_open : Operation → History → List ℤ
  left_open (set_mac ifname mac) h =
      if is_root h && not (has_six (n.scan_mac (text_of mac)).0)
      then with_socket (asked_root h)
      else open_sockets e h
  left_open _ h = open_sockets e h

  asked : (h : History) → open_sockets e (get_euid ∷ get_uid ∷ h) ≡ open_sockets e h
  unfolding open_sockets
  asked h = refl

  asked_once : (h : History) → open_sockets e (get_uid ∷ h) ≡ open_sockets e h
  unfolding open_sockets
  asked_once h = refl

  set_local_mac-user :
      (ifname mac : Bytes) (h : History)
      → is_zero (e h get_uid).ret ≡ false
      → let h1 = get_uid ∷ h in
        set_local_mac n ifname mac e h
        ≡ (if is_zero (e h1 get_euid).ret then change_mac n ifname mac else pure false) e
            (get_euid ∷ h1)
  unfolding set_local_mac
  set_local_mac-user ifname mac h user = rw user refl

  set_local_mac-open_sockets :
      (ifname mac : Bytes) (h : History)
      → open_sockets e (set_local_mac n ifname mac e h).1 ≡ left_open (set_mac ifname mac) h
  unfolding set_local_mac
  set_local_mac-open_sockets ifname mac h =
      let h1 = get_uid ∷ h in
      let h2 = get_euid ∷ h1 in
      elim (Bool-cases (is_zero (e h get_uid).ret)) [
        | inl root ↦ ground (arith, root, change_mac-open_sockets ifname mac h1, asked_once h)
        | inr user ↦ elim (Bool-cases (is_zero (e h1 get_euid).ret)) [
          | inl root ↦
              rw (set_local_mac-user ifname mac h user, root)
                (ground (arith, user, root, change_mac-open_sockets ifname mac h2, asked h))
          | inr neither ↦
              rw (set_local_mac-user ifname mac h user, neither)
                (ground (arith, user, neither, asked h))
        ]
      ]

  -- Every function leaves the sockets open that were open before, and no others, whatever fails; but
  -- for the setting of a hardware address that is not one, by root, which leaves its socket open if
  -- it could make one. A socket that cannot be made is taken to be -1.
  pub run-open_sockets :
      (op : Operation) (a : Servers) (h : History)
      → open_sockets e (run n op a e h).1 ≡ left_open op h
  unfolding run
  run-open_sockets (get_mac ifname) a h = get_local_mac-Keeps ifname h
  run-open_sockets (get_ip ifname) a h = get_local_ip-Keeps ifname h
  run-open_sockets (get_netmask ifname) a h = get_local_netmask-Keeps ifname h
  run-open_sockets (get_gateway ifname) a h = get_local_gateway-Keeps ifname h
  run-open_sockets (get_attr ifname) a h = get_ip_attr-Keeps ifname h
  run-open_sockets (check_status ifname) a h = check_netdev_status-Keeps ifname h
  run-open_sockets (set_mac ifname mac) a h = set_local_mac-open_sockets ifname mac h
  run-open_sockets (set_ip ifname ip) a h = set_local_ip-Keeps ifname ip h
  run-open_sockets (set_netmask ifname netmask) a h = set_local_netmask-Keeps ifname netmask h
  run-open_sockets (set_gateway ifname gateway) a h = set_local_gateway-Keeps ifname gateway h
  run-open_sockets (set_dns ifname dns) a h = set_local_dns-Keeps ifname dns a h
  run-open_sockets get_dns a h = get_local_dns-Keeps h
  run-open_sockets (set_attr ifname attr) a h = set_ip_attr-Keeps ifname attr a h
  run-open_sockets (set_status ifname status) a h = set_netdev_status-Keeps ifname status h

module _ (n : NetSystem) (e : Env) where
  -- The pipe to the routing table is closed if a line could be read from it, and left open, with no
  -- gateway returned, if it was opened and there was no line.
  get_local_gateway-open_pipes :
      (ifname : Bytes) (h : History)
      → let (gateway, h') = get_local_gateway n ifname e h in
        (open_pipes e h' ≡ open_pipes e h)
        ⊎ ((gateway ≡ none) × (open_pipes e h' ≡ suc (open_pipes e h)))
  unfolding get_local_gateway open_pipes
  get_local_gateway-open_pipes ifname h = ground arith
