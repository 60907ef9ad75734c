-- ===== src/Tools/UdpEcho/Replies.antt =====
-- What the server of tools/udp_echo_server.c sends for what it receives.
use ldal.Base.{◌≡◌, zero, suc, ℤ, pos, negsuc, true, false, List, [], ◌∷◌, ◌++◌, map, take}
use ldal.Kernel.{Bytes, Answer, Address, Env, History, recv_from, send_to}
use ldal.Socket.{text_of}
use ldal.Tools.{Stop, exited, crashed, lost}
use ldal.Tools.Ensures.{Ensures}
use ldal.Tools.UdpEcho.{has_no_end}

module _ (e : Env) (sender : Answer → Address) where
  abbrev came : ℤ → Bytes → Address → List (Bytes × Address) → List (Bytes × Address)
  came (pos zero) s a ds = ds
  came (pos (suc n)) s a ds = (take (suc n) s, a) ∷ ds
  came (negsuc n) s a ds = ds

  -- The datagrams that were received, and those that were sent, the latest first.
  unfoldable pub arrived : History → List (Bytes × Address)
  arrived [] = []
  arrived (recv_from fd n ∷ h) =
      let r = e h (recv_from fd n) in came r.ret r.payload (sender r) (arrived h)
  arrived (_ ∷ h) = arrived h

  unfoldable pub replied : History → List (Bytes × Address)
  replied [] = []
  replied (send_to fd s a ∷ h) = (s, a) ∷ replied h
  replied (_ ∷ h) = replied h

  -- The text of a datagram with a NUL, to its sender.
  abbrev pub reply_to : Bytes × Address → Bytes × Address
  reply_to (s, a) = (text_of s ++ (0 ∷ []), a)

  -- Each datagram has a NUL, or leaves room for one in the buffer.
  abbrev pub Ended : List (Bytes × Address) → Type 0
  Ended [] = Unit {0}
  Ended ((s, a) ∷ ds) = (has_no_end s ≡ false) × Ended ds

  abbrev pub IsReplied : History → Type 0
  IsReplied h = (replied h ≡ map reply_to (arrived h)) × Ended (arrived h)

  -- How it stands where the server stops.
  abbrev pub Stands : Stop → History → Type 0
  Stands exited h = IsReplied h
  Stands crashed h =
      (s : Bytes) × (a : Address) × (ds : List (Bytes × Address)) × (arrived h ≡ (s, a) ∷ ds)
      × (has_no_end s ≡ true)
      × (replied h ≡ map reply_to ds)
      × Ended ds
  Stands lost h = IsReplied h

  -- A datagram is waiting for its reply.
  abbrev Waits : Bytes → Address → History → Type 0
  Waits s a h =
      (ds : List (Bytes × Address)) × (arrived h ≡ (s, a) ∷ ds)
      × (replied h ≡ map reply_to ds)
      × Ended ds
