-- ===== src/Tools/TcpEcho/Willing.antt =====
-- The server of tools/tcp_echo_server.c where no call fails.
use ldal.Base.{
  ◌≡◌, refl, ℕ, suc, ◌≤◌, ℤ, pos, negsuc, Bool, true, false, List, [], ◌∷◌, ◌==◌, ==_iff,
  if◌then◌else◌, is_neg, is_zero, length, take, length-take, arith,
}
use ldal.Kernel.{
  Bytes, Call, Answer, Env, History, Address, socket, SocketKind, stream, bind_addr, listen_fd,
  accept_fd, close_fd, recv_fd, send_fd, select_set,
}
use ldal.Socket.{atoi16}
use ldal.Tools.{Stop, Program, exit, sys, ◌>>=◌}
use ldal.Tools.Ensures.{
  Ensures, bind-Ensures, if-Ensures, give-Ensures, sys-Ensures, assume-Ensures,
}
use ldal.Tools.TcpEcho.{
  accept_into, close_all, rcvbufsize, is_count, create_sockets, echo, handle_tcp_client,
  create_tcp_server_socket, accept_tcp_connection,
}

-- How often `select` was called.
unfoldable pub selects : History → ℕ
selects [] = 0
selects (select_set n fds t ∷ h) = suc (selects h)
selects (_ ∷ h) = selects h

-- An environment in which no call on an open descriptor fails, and in which the keyboard is ready,
-- at the latest, after `rounds` answers of `select`.
pub record IsWilling (e : Env) (is_set : Answer → ℤ → Bool) (rounds : ℕ) : Type 0 where
  pub sockets : (h : History) (k : SocketKind) → is_neg (e h (socket k)).ret ≡ false
  pub binds : (h : History) (fd : ℤ) (a : Address) → is_neg (e h (bind_addr fd a)).ret ≡ false
  pub listens : (h : History) (fd : ℤ) (n : ℕ) → is_neg (e h (listen_fd fd n)).ret ≡ false
  pub accepts : (h : History) (fd : ℤ) → is_neg (e h (accept_fd fd)).ret ≡ false
  pub keeps : (h : History) (fd : ℤ) → is_zero (e h (accept_fd fd)).ret ≡ false
  pub length_received : History → ℕ → ℕ → ℕ
  pub receives :
      (h : History) (k n : ℕ)
      → let r = e h (recv_fd (pos k) n) in
        (r.ret ≡ pos (length_received h k n)) × (length_received h k n ≤ length r.payload)
  pub sends : (h : History) (k : ℕ) (s : Bytes) → (e h (send_fd (pos k) s)).ret ≡ pos (length s)
  -- A free slot is not in the set.
  pub free : (r : Answer) (k : ℕ) → is_set r (negsuc k) ≡ false
  pub keyboard :
      (h : History) (n t : ℤ) (fds : List ℤ)
      → rounds ≤ selects h
      → let r = e h (select_set n fds t) in (is_zero r.ret ≡ false) × (is_set r (pos 0) ≡ true)

abbrev pub Never : Stop → History → Type 0
Never s h = ⊥

module _ {e : Env} {is_set : Answer → ℤ → Bool} {rounds : ℕ} (w : IsWilling e is_set rounds) where
  -- After `n` calls of `select` at least.
  abbrev pub Past : ℕ → History → Type 0
  Past n h = n ≤ selects h

  -- A program that does not leave early.
  abbrev pub Returns :
      {A : Type 0} → (History → Type 0) → Program A → (A → History → Type 0) → Type 0
  Returns P m Q = Ensures Never e P m Q

  -- A call whose failure ends the program, and that does not fail.
  checked-Returns :
      {A : Type 0} {P P' : History → Type 0} {Q : A → History → Type 0} (c : Call)
      {k : Answer → Program A}
      → ((h : History) → P h → P' (c ∷ h) × (is_neg (e h c).ret ≡ false))
      → ((r : Answer) → Returns P' (k r) Q)
      → Returns P (sys c >>= λ r. if is_neg r.ret then exit else k r) Q
  checked-Returns {P' = P'} c well next =
      bind-Ensures {Q = λ r h. P' h × (is_neg r.ret ≡ false)} (sys-Ensures c well) (λ r.
        assume-Ensures (λ fine.
          if-Ensures (is_neg r.ret) (λ failed. absurd (ground (arith, fine, failed)))
            (λ _. next r)))

  create_tcp_server_socket-Returns :
      (n port : ℕ) → Returns (Past n) (create_tcp_server_socket port) (λ _. Past n)
  unfolding create_tcp_server_socket selects
  create_tcp_server_socket-Returns n port =
      checked-Returns (socket stream) (λ h p. (p, w.sockets h stream))
        (λ s.
          checked-Returns _ (λ h p. (p, w.binds h _ _))
            (λ b.
              checked-Returns _ (λ h p. (p, w.listens h _ _)) (λ l. give-Ensures s.ret (λ h p. p))))

  pub create_sockets-Returns :
      (n : ℕ) (args : List Bytes) → Returns (Past n) (create_sockets args) (λ _. Past n)
  unfolding create_sockets
  create_sockets-Returns n [] = give-Ensures [] (λ h p. p)
  create_sockets-Returns n (arg ∷ args) =
      bind-Ensures (create_tcp_server_socket-Returns n (atoi16 arg))
        (λ s. bind-Ensures (create_sockets-Returns n args) (λ ss. give-Ensures (s ∷ ss) (λ h p. p)))

  pub accept_into-Returns :
      (n : ℕ) (s : ℤ) (pool : List ℤ) → Returns (Past n) (accept_into s pool) (λ _. Past n)
  unfolding accept_into accept_tcp_connection selects
  accept_into-Returns n s [] = give-Ensures [] (λ h p. p)
  accept_into-Returns n s (c ∷ cs) =
      if-Ensures (is_neg c)
        (λ _.
          bind-Ensures {Q = λ _. Past n}
            (checked-Returns (accept_fd s) (λ h p. (p, w.accepts h s))
              (λ r. give-Ensures r.ret (λ h p. p)))
            (λ x. give-Ensures (x ∷ cs) (λ h p. p)))
        (λ _. bind-Ensures (accept_into-Returns n s cs) (λ cs'. give-Ensures (c ∷ cs') (λ h p. p)))

  pub close_all-Returns : (n : ℕ) (fds : List ℤ) → Returns (Past n) (close_all fds) (λ _. Past n)
  unfolding close_all selects
  close_all-Returns n [] = give-Ensures tt (λ h p. p)
  close_all-Returns n (fd ∷ fds) =
      bind-Ensures {Q = λ _. Past n} (sys-Ensures (close_fd fd) (λ h p. p))
        (λ _. close_all-Returns n fds)

  is_count-same : (n : ℕ) → is_count (pos n) n ≡ true
  is_count-same n = (==_iff n n).1 refl

  full_length : (k : ℕ) (s : Bytes) → k ≤ length s → length (take k s) ≡ k
  full_length k s long = omega (arith, length-take k s)

  echo-Returns :
      (n c k : ℕ) (s : Bytes)
      → k ≤ length s
      → Returns (Past n) (echo (pos c) s (pos k)) (λ _. Past n)
  unfolding echo selects
  echo-Returns n c k s long =
      if-Ensures (k == 0) (λ empty. give-Ensures 0 (λ h p. p))
        (λ bytes.
          bind-Ensures {Q = λ r h. Past n h × (is_count r.ret k ≡ true)}
            (sys-Ensures (send_fd (pos c) (take k s))
              (λ h p. (p, rw (w.sends h c (take k s), full_length k s long) (is_count-same k))))
            (λ r. assume-Ensures (λ full.
              if-Ensures (is_count r.ret k) (λ _. give-Ensures k (λ h p. p))
                (λ short. absurd (ground (arith, full, short))))))

  -- A number of bytes was length_received, no more than were stored.
  abbrev Came : Answer → Type 0
  Came r = (k : ℕ) × (r.ret ≡ pos k) × (k ≤ length r.payload)

  pub handle_tcp_client-Returns :
      (n c : ℕ) → Returns (Past n) (handle_tcp_client (pos c)) (λ _. Past n)
  unfolding handle_tcp_client selects
  handle_tcp_client-Returns n c =
      bind-Ensures {Q = λ r h. Past n h × Came r}
        (sys-Ensures _ (λ h p. (
          p,
          (
            w.length_received h c rcvbufsize,
            (w.receives h c rcvbufsize).0,
            (w.receives h c rcvbufsize).1,
          ),
        )))
        (λ r. assume-Ensures (λ f. rw (f.1) (echo-Returns n c f.0 r.payload f.2)))
