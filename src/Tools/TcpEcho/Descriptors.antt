-- ===== src/Tools/TcpEcho/Descriptors.antt =====
-- The descriptors that the server of tools/tcp_echo_server.c opens and closes.
use ldal.Base.{
  ◌≡◌, refl, ℕ, zero, suc, ◌+◌, ◌≤◌, ℤ, pos, negsuc, ap, ◌++◌, true, false, List, [], ◌∷◌, ◌==◌,
  if◌then◌else◌, is_neg, is_zero, length, replicate, arith, same_int,
}
use ldal.Kernel.{Bytes, Call, Env, History, socket, stream, accept_fd, close_fd}
use ldal.Socket.{atoi16}
use ldal.Tools.{Stop, crashed, exited, lost, sys}
use ldal.Tools.Ensures.{
  Ensures, bind-Ensures, if-Ensures, give-Ensures, exit-Ensures, sys-Ensures, weaken-Ensures,
}
use ldal.Tools.TcpEcho.{
  accept_into, close_all, watched, is_count, create_sockets, echo, handle_tcp_client,
  create_tcp_server_socket, accept_tcp_connection,
}

abbrev pub one : ℤ → ℤ → ℕ
one c fd = if same_int c fd then 1 else 0

-- How often a descriptor was opened, by `socket` or `accept`, and how often it was closed.
unfoldable pub openings : Env → ℤ → History → ℕ
openings e fd [] = 0
openings e fd (socket k ∷ h) = openings e fd h + one (e h (socket k)).ret fd
openings e fd (accept_fd s ∷ h) = openings e fd h + one (e h (accept_fd s)).ret fd
openings e fd (_ ∷ h) = openings e fd h

unfoldable pub closings : ℤ → History → ℕ
closings fd [] = 0
closings fd (close_fd c ∷ h) = closings fd h + one c fd
closings fd (_ ∷ h) = closings fd h

abbrev pub count : ℤ → List ℤ → ℕ
count fd [] = 0
count fd (c ∷ cs) = one c fd + count fd cs

pub count-append : (fd : ℤ) (xs ys : List ℤ) → count fd (xs ++ ys) ≡ count fd xs + count fd ys
count-append fd [] ys = omega arith
count-append fd (x ∷ xs) ys = omega (arith, count-append fd xs ys)

-- No slot holds 0, the descriptor of the keyboard.
abbrev pub IsClean : List ℤ → Type 0
IsClean [] = Unit {0}
IsClean (c ∷ cs) = (is_zero c ≡ false) × IsClean cs

pub count-watched :
    (k : ℕ) (pool : List ℤ) → IsClean pool → count (pos k) (watched pool) ≡ count (pos k) pool
unfolding watched
count-watched k [] clean = refl
count-watched k (pos zero ∷ cs) clean = absurd (ground (arith, clean.0))
count-watched k (pos (suc n) ∷ cs) clean = ground (arith, count-watched k cs clean.1)
count-watched k (negsuc n ∷ cs) clean = ground (arith, count-watched k cs clean.1)

pub count-free : (k n : ℕ) → count (pos k) (replicate n (negsuc 0)) ≡ 0
count-free k zero = refl
count-free k (suc n) = ground (arith, count-free k n)

pub free-IsClean : (n : ℕ) → IsClean (replicate n (negsuc 0))
free-IsClean zero = tt
free-IsClean (suc n) = (refl, free-IsClean n)

length-free : (n : ℕ) → length (replicate n (negsuc 0)) ≡ n
length-free zero = refl
length-free (suc n) = ap suc (length-free n)

one-neg : (c : ℤ) (k : ℕ) → is_neg c ≡ true → one c (pos k) ≡ 0
one-neg (pos n) k negative = absurd (ground (arith, negative))
one-neg (negsuc n) k negative = refl

module _ (e : Env) where
  -- The descriptors that are open: `fds`, and `b` of others.
  abbrev pub Owns : List ℤ → (ℕ → ℕ) → History → Type 0
  Owns fds b h = (k : ℕ) → openings e (pos k) h ≡ closings (pos k) h + (count (pos k) fds + b k)

  -- The clients, in `n` slots.
  abbrev pub Pool : (ℕ → ℕ) → ℕ → List ℤ → History → Type 0
  Pool b n pool h = Owns pool b h × (IsClean pool × (length pool ≡ n))

  -- At most `m` descriptors are open.
  abbrev pub AtMost : ℕ → History → Type 0
  AtMost m h =
      (fds : List ℤ) × (length fds ≤ m)
      × ((k : ℕ) → openings e (pos k) h ≡ closings (pos k) h + count (pos k) fds)

  -- What holds where the program stops.
  abbrev pub Stopped : ℕ → Stop → History → Type 0
  Stopped m exited h = Unit {0}
  Stopped m crashed h = ⊥
  Stopped m lost h = AtMost m h

  module _ (m : ℕ) where
    -- A call that neither opens nor closes a descriptor.
    abbrev pub IsQuiet : Call → Type 0
    IsQuiet c =
        (k : ℕ) (h : History)
        → (openings e (pos k) (c ∷ h) ≡ openings e (pos k) h)
          × (closings (pos k) (c ∷ h) ≡ closings (pos k) h)

    pub sys-Owns :
        (c : Call) (fds : List ℤ) (b : ℕ → ℕ)
        → IsQuiet c
        → Ensures (Stopped m) e (Owns fds b) (sys c) (λ _. Owns fds b)
    sys-Owns c fds b quiet = sys-Ensures c (λ h p k. omega (arith, quiet k h, p k))

    create_tcp_server_socket-Owns :
        (port : ℕ) (b : ℕ → ℕ)
        → Ensures (Stopped m) e (Owns [] b) (create_tcp_server_socket port) (λ s. Owns (s ∷ []) b)
    unfolding create_tcp_server_socket openings closings
    create_tcp_server_socket-Owns port b =
        bind-Ensures (sys-Ensures (socket stream) (λ h p k. omega (arith, p k))) (λ s.
          if-Ensures (is_neg s.ret) (λ _. exit-Ensures (λ _ _. tt))
            (λ _. bind-Ensures (sys-Owns _ (s.ret ∷ []) b (λ k h. (refl, refl))) (λ r.
              if-Ensures (is_neg r.ret) (λ _. exit-Ensures (λ _ _. tt))
                (λ _. bind-Ensures (sys-Owns _ (s.ret ∷ []) b (λ k h. (refl, refl))) (λ l.
                  if-Ensures (is_neg l.ret) (λ _. exit-Ensures (λ _ _. tt))
                    (λ _. give-Ensures s.ret (λ h p. p)))))))

    pub create_sockets-Owns :
        (args : List Bytes) (b : ℕ → ℕ)
        → Ensures
            (Stopped m)
            e
            (Owns [] b)
            (create_sockets args)
            (λ ss h. Owns ss b h × (length ss ≡ length args))
    unfolding create_sockets
    create_sockets-Owns [] b = give-Ensures [] (λ h p. (p, refl))
    create_sockets-Owns (arg ∷ args) b =
        bind-Ensures (create_tcp_server_socket-Owns (atoi16 arg) b) (λ s.
          bind-Ensures
            (weaken-Ensures (λ h p k. omega (arith, p k)) (λ ss h q. q)
              (create_sockets-Owns args (λ k. one s (pos k) + b k)))
            (λ ss. give-Ensures (s ∷ ss) (λ h p. (λ k. omega (arith, p.0 k), ap suc p.1))))

    pub close_all-Owns :
        (fds : List ℤ) (b : ℕ → ℕ)
        → Ensures (Stopped m) e (Owns fds b) (close_all fds) (λ _. Owns [] b)
    unfolding close_all openings closings
    close_all-Owns [] b = give-Ensures tt (λ h p. p)
    close_all-Owns (fd ∷ fds) b =
        bind-Ensures {Q = λ _. Owns fds b} (sys-Ensures (close_fd fd) (λ h p k. omega (arith, p k)))
          (λ _. close_all-Owns fds b)

    module _ (keyboard : (h : History) (s : ℤ) → is_zero (e h (accept_fd s)).ret ≡ false) where
      accept_tcp_connection-Owns :
          (s : ℤ) (fds : List ℤ) (b : ℕ → ℕ)
          → Ensures
              (Stopped m)
              e
              (Owns fds b)
              (accept_tcp_connection s)
              (λ c h. Owns (c ∷ fds) b h × (is_zero c ≡ false))
      unfolding accept_tcp_connection openings closings
      accept_tcp_connection-Owns s fds b =
          bind-Ensures {Q = λ c h. Owns (c.ret ∷ fds) b h × (is_zero c.ret ≡ false)}
            (sys-Ensures (accept_fd s) (λ h p. (λ k. omega (arith, p k), keyboard h s)))
            (λ c.
              if-Ensures (is_neg c.ret) (λ _. exit-Ensures (λ _ _. tt))
                (λ _. give-Ensures c.ret (λ h p. p)))

      pub accept_into-Pool :
          (s : ℤ) (pool : List ℤ) (b : ℕ → ℕ)
          → IsClean pool
          → Ensures (Stopped m) e (Owns pool b) (accept_into s pool) (Pool b (length pool))
      unfolding accept_into
      accept_into-Pool s [] b clean = give-Ensures [] (λ h p. (p, (tt, refl)))
      accept_into-Pool s (c ∷ cs) b clean =
          if-Ensures (is_neg c)
            (λ free. bind-Ensures (accept_tcp_connection-Owns s (c ∷ cs) b) (λ n.
              give-Ensures (n ∷ cs)
                (λ h p. (λ k. omega (arith, p.0 k, one-neg c k free), ((p.1, clean.1), refl)))))
            (λ taken.
              bind-Ensures
                (weaken-Ensures (λ h p k. omega (arith, p k)) (λ cs' h q. q)
                  (accept_into-Pool s cs (λ k. one c (pos k) + b k) clean.1))
                (λ cs'.
                  give-Ensures (c ∷ cs')
                    (λ h p. (λ k. omega (arith, p.0 k), ((clean.0, p.1.0), ap suc p.1.1)))))

      echo-Owns :
          (c : ℤ) (s : Bytes) (n : ℤ) (fds : List ℤ) (b : ℕ → ℕ)
          → Ensures (Stopped m) e (Owns fds b) (echo c s n) (λ _. Owns fds b)
      unfolding echo openings closings
      echo-Owns c s (negsuc k) fds b = exit-Ensures (λ _ _. tt)
      echo-Owns c s (pos n) fds b =
          if-Ensures (n == 0) (λ empty. give-Ensures 0 (λ h p. p))
            (λ bytes. bind-Ensures (sys-Owns _ fds b (λ k h. (refl, refl))) (λ r.
              if-Ensures (is_count r.ret n) (λ full. give-Ensures n (λ h p. p))
                (λ short. exit-Ensures (λ _ _. tt))))

      pub handle_tcp_client-Owns :
          (c : ℤ) (fds : List ℤ) (b : ℕ → ℕ)
          → Ensures (Stopped m) e (Owns fds b) (handle_tcp_client c) (λ _. Owns fds b)
      unfolding handle_tcp_client openings closings
      handle_tcp_client-Owns c fds b =
          bind-Ensures (sys-Owns _ fds b (λ k h. (refl, refl)))
            (λ r. echo-Owns c r.payload r.ret fds b)
