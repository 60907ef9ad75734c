-- ===== src/Tools/TcpEcho/Echoed.antt =====
-- What the server of tools/tcp_echo_server.c sends, and what it receives.
use ldal.Base.{
  ◌≡◌, refl, sym, ℕ, zero, suc, ◌∙◌, ap, ℤ, pos, negsuc, true, List, [], ◌∷◌, ◌++◌, ◌==◌,
  if◌then◌else◌, take, arith, same_int, is_neg,
}
use mathlib.Core.List.{append-nil}
use ldal.Kernel.{Bytes, Env, History, recv_fd, Call, accept_fd, close_fd, send_fd, socket, stream}
use ldal.Socket.{atoi16}
use ldal.Tools.{Stop, crashed, exited, lost, Program, give, sys}
use ldal.Tools.Ensures.{Ensures, bind-Ensures, if-Ensures, give-Ensures, exit-Ensures, sys-Ensures}
use ldal.Tools.TcpEcho.{
  accept_into, close_all, create_sockets, is_count, echo, rcvbufsize, handle_tcp_client,
  create_tcp_server_socket, accept_tcp_connection,
}

-- The bytes that a call moved, if it moved `n` of them.
abbrev moved : ℤ → Bytes → Bytes
moved (pos n) s = take n s
moved (negsuc n) s = []

abbrev on : ℤ → ℤ → Bytes → Bytes
on c fd s = if same_int c fd then s else []

-- All that was received from a descriptor, and all that was sent to it.
unfoldable pub all_received : Env → ℤ → History → Bytes
all_received e fd [] = []
all_received e fd (recv_fd c n ∷ h) =
    let r = e h (recv_fd c n) in all_received e fd h ++ on c fd (moved r.ret r.payload)
all_received e fd (_ ∷ h) = all_received e fd h

unfoldable pub all_sent : Env → ℤ → History → Bytes
all_sent e fd [] = []
all_sent e fd (send_fd c s ∷ h) = all_sent e fd h ++ on c fd (moved (e h (send_fd c s)).ret s)
all_sent e fd (_ ∷ h) = all_sent e fd h

take-take : {A : Type 0} (n : ℕ) (s : List A) → take n (take n s) ≡ take n s
take-take zero s = refl
take-take (suc n) [] = refl
take-take (suc n) (x ∷ s) = ap (λ r. x ∷ r) (take-take n s)

moved-count : (r : ℤ) (n : ℕ) (s : Bytes) → is_count r n ≡ true → moved r (take n s) ≡ take n s
moved-count (pos k) n s same = ground (arith, take-take n s)
moved-count (negsuc k) n s same = absurd (ground (arith, same))

module _ (e : Env) where
  -- All that was received was sent back.
  abbrev pub IsEchoed : History → Type 0
  IsEchoed h = (fd : ℤ) → all_sent e fd h ≡ all_received e fd h

  -- It was, but for the bytes `s` of the client `c`.
  abbrev Owes : ℤ → Bytes → History → Type 0
  Owes c s h = (fd : ℤ) → all_sent e fd h ++ on c fd s ≡ all_received e fd h

  -- What holds where the program stops.
  abbrev pub Stopped : Stop → History → Type 0
  Stopped exited h = Unit {0}
  Stopped crashed h = ⊥
  Stopped lost h = IsEchoed h

  abbrev pub Keeps : {A : Type 0} → Program A → Type 0
  Keeps m = Ensures Stopped e IsEchoed m (λ _. IsEchoed)

  Owes-nil : (c : ℤ) (h : History) → Owes c [] h → IsEchoed h
  Owes-nil c h owes fd = ground (arith, owes fd, append-nil (all_sent e fd h))

  send-Ensures :
      (c : ℤ) (s : Bytes) (n : ℕ)
      → Ensures Stopped e
          (Owes c (take n s))
          (sys (send_fd c (take n s)))
          (λ r h. is_count r.ret n ≡ true → IsEchoed h)
  unfolding all_sent all_received
  send-Ensures c s n = sys-Ensures _ (λ h owes full fd. rw (moved-count _ n s full) (owes fd))

  echo-Ensures :
      (c : ℤ) (s : Bytes) (n : ℤ)
      → Ensures Stopped e (Owes c (moved n s)) (echo c s n) (λ _. IsEchoed)
  unfolding echo
  echo-Ensures c s (negsuc k) = exit-Ensures (λ _ _. tt)
  echo-Ensures c s (pos n) =
      if-Ensures (n == 0) (λ empty. give-Ensures _ (λ h owes. Owes-nil c h (ground (arith, owes))))
        (λ bytes. bind-Ensures (send-Ensures c s n) (λ r.
          if-Ensures (is_count r.ret n) (λ full. give-Ensures _ (λ h q. q full))
            (λ short. exit-Ensures (λ _ _. tt))))

  recv-Ensures :
      (c : ℤ)
      → Ensures Stopped e IsEchoed
          (sys (recv_fd c rcvbufsize))
          (λ r. Owes c (moved r.ret r.payload))
  unfolding all_sent all_received
  recv-Ensures c = sys-Ensures _ (λ h p fd. rw (p fd) refl)

  pub handle_tcp_client-Keeps : (c : ℤ) → Keeps (handle_tcp_client c)
  unfolding handle_tcp_client
  handle_tcp_client-Keeps c = bind-Ensures (recv-Ensures c) (λ r. echo-Ensures c r.payload r.ret)

  -- A call that neither sends nor receives.
  abbrev pub IsQuiet : Call → Type 0
  IsQuiet c =
      (fd : ℤ) (h : History)
      → (all_sent e fd (c ∷ h) ≡ all_sent e fd h)
        × (all_received e fd (c ∷ h) ≡ all_received e fd h)

  pub sys-Keeps : (c : Call) → IsQuiet c → Keeps (sys c)
  sys-Keeps c quiet = sys-Ensures _ (λ h p fd. (quiet fd h).0 ∙ p fd ∙ sym (quiet fd h).1)

  pub same-Keeps : {A : Type 0} (a : A) → Keeps (give a)
  same-Keeps a = give-Ensures _ (λ h p. p)

  create_tcp_server_socket-Keeps : (port : ℕ) → Keeps (create_tcp_server_socket port)
  unfolding create_tcp_server_socket all_sent all_received
  create_tcp_server_socket-Keeps port =
      bind-Ensures (sys-Keeps (socket stream) (λ fd h. (refl, refl))) (λ s.
        if-Ensures (is_neg s.ret) (λ _. exit-Ensures (λ _ _. tt))
          (λ _. bind-Ensures (sys-Keeps _ (λ fd h. (refl, refl))) (λ b.
            if-Ensures (is_neg b.ret) (λ _. exit-Ensures (λ _ _. tt))
              (λ _. bind-Ensures (sys-Keeps _ (λ fd h. (refl, refl))) (λ l.
                if-Ensures (is_neg l.ret) (λ _. exit-Ensures (λ _ _. tt))
                  (λ _. same-Keeps s.ret))))))

  pub create_sockets-Keeps : (args : List Bytes) → Keeps (create_sockets args)
  unfolding create_sockets
  create_sockets-Keeps [] = same-Keeps []
  create_sockets-Keeps (arg ∷ args) =
      bind-Ensures (create_tcp_server_socket-Keeps (atoi16 arg))
        (λ s. bind-Ensures (create_sockets-Keeps args) (λ ss. same-Keeps (s ∷ ss)))

  pub accept_into-Keeps : (s : ℤ) (pool : List ℤ) → Keeps (accept_into s pool)
  unfolding accept_into accept_tcp_connection all_sent all_received
  accept_into-Keeps s [] = same-Keeps []
  accept_into-Keeps s (c ∷ cs) =
      if-Ensures (is_neg c)
        (λ _.
          bind-Ensures
            (bind-Ensures (sys-Keeps (accept_fd s) (λ fd h. (refl, refl))) (λ n.
              if-Ensures (is_neg n.ret) (λ _. exit-Ensures (λ _ _. tt)) (λ _. same-Keeps n.ret)))
            (λ n. same-Keeps (n ∷ cs)))
        (λ _. bind-Ensures (accept_into-Keeps s cs) (λ cs'. same-Keeps (c ∷ cs')))

  pub close_all-Keeps : (fds : List ℤ) → Keeps (close_all fds)
  unfolding close_all all_sent all_received
  close_all-Keeps [] = same-Keeps tt
  close_all-Keeps (fd ∷ fds) =
      bind-Ensures (sys-Keeps (close_fd fd) (λ _ h. (refl, refl))) (λ _. close_all-Keeps fds)
