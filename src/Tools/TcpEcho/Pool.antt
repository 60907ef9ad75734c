-- ===== src/Tools/TcpEcho/Pool.antt =====
-- The clients of the server of tools/tcp_echo_server.c, and the descriptors at its end.
use ldal.Base.{
  ◌≡◌, refl, ℕ, zero, suc, ◌+◌, ◌≤◌, ℤ, pos, negsuc, ap, ◌∙◌, ◌⊎◌, inl, inr, Bool, true, false,
  List, [], ◌∷◌, ◌==◌, is_zero, length, length-append, ◌++◌, replicate, arith,
}
use ldal.Kernel.{Bytes, Answer, Env, History, accept_fd, close_fd, get_char}
use ldal.Tools.{crashed, stopped, Result, value, exited, lost}
use ldal.Tools.Ensures.{
  After, Ensures, bind-Ensures, if-Ensures, give-Ensures, lost-Ensures, sys-Ensures, weaken-Ensures,
  assume-Ensures,
}
use ldal.Tools.TcpEcho.Descriptors.{
  openings, closings, one, count, count-append, IsClean, Owns, Pool, AtMost, Stopped, count-watched,
  count-free, free-IsClean, sys-Owns, create_sockets-Owns, close_all-Owns, accept_into-Pool,
  handle_tcp_client-Owns,
}
use ldal.Tools.TcpEcho.{
  check_listening, check_slot, check_clients, handle, round, serve, main, watched, maxclient,
}

module _ (e : Env) (m : ℕ)
    (keyboard : (h : History) (s : ℤ) → is_zero (e h (accept_fd s)).ret ≡ false)
    (is_set : Answer → ℤ → Bool) where
  check_listening-Pool :
      (r : Answer) (ss pool : List ℤ) (b : ℕ → ℕ)
      → IsClean pool
      → Ensures
          (Stopped e m)
          e
          (Owns e pool b)
          (check_listening is_set r ss pool)
          (Pool e b (length pool))
  unfolding check_listening
  check_listening-Pool r [] pool b clean = give-Ensures pool (λ h p. (p, (clean, refl)))
  check_listening-Pool r (s ∷ ss) pool b clean =
      bind-Ensures
        (if-Ensures (is_set r s) (λ _. accept_into-Pool e m keyboard s pool b clean)
          (λ _. give-Ensures pool (λ h p. (p, (clean, refl)))))
        (λ pool'. assume-Ensures (λ f.
          weaken-Ensures (λ h p. p) (λ pool'' h q. (q.0, (q.1.0, q.1.1 ∙ f.1)))
            (check_listening-Pool r ss pool' b f.0)))

  check_slot-Pool :
      (r : Answer) (c : ℤ) (b : ℕ → ℕ)
      → is_zero c ≡ false
      → Ensures
          (Stopped e m)
          e
          (Owns e (c ∷ []) b)
          (check_slot is_set r c)
          (λ c' h. Owns e (c' ∷ []) b h × (is_zero c' ≡ false))
  unfolding check_slot openings closings
  check_slot-Pool r c b clean =
      if-Ensures (is_set r c)
        (λ _. bind-Ensures (handle_tcp_client-Owns e m keyboard c (c ∷ []) b) (λ n.
          if-Ensures (n == 0)
            (λ _.
              bind-Ensures {Q = λ _. Owns e [] b}
                (sys-Ensures (close_fd c) (λ h p k. omega (arith, p k)))
                (λ _. give-Ensures (negsuc 0) (λ h p. (λ k. omega (arith, p k), refl))))
            (λ _. give-Ensures c (λ h p. (p, clean)))))
        (λ _. give-Ensures c (λ h p. (p, clean)))

  check_clients-Pool :
      (r : Answer) (pool : List ℤ) (b : ℕ → ℕ)
      → IsClean pool
      → Ensures
          (Stopped e m)
          e
          (Owns e pool b)
          (check_clients is_set r pool)
          (Pool e b (length pool))
  unfolding check_clients
  check_clients-Pool r [] b clean = give-Ensures [] (λ h p. (p, (tt, refl)))
  check_clients-Pool r (c ∷ cs) b clean =
      bind-Ensures
        (weaken-Ensures (λ h p k. omega (arith, p k)) (λ c' h q. q)
          (check_slot-Pool r c (λ k. count (pos k) cs + b k) clean.0))
        (λ c'. assume-Ensures (λ clean'.
          bind-Ensures
            (weaken-Ensures (λ h p k. omega (arith, p k)) (λ cs' h q. q)
              (check_clients-Pool r cs (λ k. one c' (pos k) + b k) clean.1))
            (λ cs'.
              give-Ensures (c' ∷ cs')
                (λ h p. (λ k. omega (arith, p.0 k), ((clean', p.1.0), ap suc p.1.1))))))

  handle-Pool :
      (r : Answer) (ss pool : List ℤ) (b : ℕ → ℕ)
      → IsClean pool
      → Ensures
          (Stopped e m)
          e
          (Owns e pool b)
          (handle is_set r ss pool)
          (λ v. Pool e b (length pool) v.1)
  unfolding handle openings closings
  handle-Pool r ss pool b clean =
      if-Ensures (is_zero r.ret) (λ _. give-Ensures (true, pool) (λ h p. (p, (clean, refl))))
        (λ _.
          if-Ensures (is_set r (pos 0))
            (λ _.
              bind-Ensures (sys-Owns e m get_char pool b (λ k h. (refl, refl)))
                (λ _. give-Ensures (false, pool) (λ h p. (p, (clean, refl)))))
            (λ _. bind-Ensures (check_listening-Pool r ss pool b clean) (λ pool'.
              assume-Ensures (λ f.
                bind-Ensures (check_clients-Pool r pool' b f.0)
                  (λ pool''. give-Ensures (true, pool'') (λ h p. (p.0, (p.1.0, p.1.1 ∙ f.1))))))))

  round-Pool :
      (timeout : ℤ) (ss pool : List ℤ) (b : ℕ → ℕ)
      → IsClean pool
      → Ensures
          (Stopped e m)
          e
          (Owns e pool b)
          (round is_set timeout ss pool)
          (λ v. Pool e b (length pool) v.1)
  unfolding round openings closings
  round-Pool timeout ss pool b clean =
      bind-Ensures (sys-Owns e m _ pool b (λ k h. (refl, refl)))
        (λ r. handle-Pool r ss pool b clean)

  serve-Pool :
      (fuel : ℕ) (timeout : ℤ) (ss pool : List ℤ)
      → IsClean pool
      → length ss + length pool ≤ m
      → Ensures
          (Stopped e m)
          e
          (Owns e pool (λ k. count (pos k) ss))
          (serve is_set fuel timeout ss pool)
          (λ pool'. Pool e (λ k. count (pos k) ss) (length pool) pool')
  unfolding serve
  serve-Pool zero timeout ss pool clean few = lost-Ensures (λ h p. (
    ss ++ pool,
    omega (arith, length-append ss pool),
    λ k. omega (arith, p k, count-append (pos k) ss pool),
  ))
  serve-Pool (suc fuel) timeout ss pool clean few =
      bind-Ensures (round-Pool timeout ss pool (λ k. count (pos k) ss) clean) (λ r.
        if-Ensures r.0
          (λ _. assume-Ensures (λ f.
            weaken-Ensures (λ h p. p) (λ pool' h q. (q.0, (q.1.0, q.1.1 ∙ f.1)))
              (serve-Pool fuel timeout ss r.1 f.0 (omega (arith, f.1)))))
          (λ _. give-Ensures r.1 (λ h p. p)))

  main-Pool :
      (atol : Bytes → ℤ) (fuel : ℕ) (name timeout port : Bytes) (ports : List Bytes)
      → suc (length ports) + maxclient ≤ m
      → Ensures
          (Stopped e m)
          e
          (Owns e [] (λ _. 0))
          (main is_set atol fuel (name ∷ timeout ∷ port ∷ ports))
          (λ v h. (v ≡ 0) × Owns e [] (λ _. 0) h)
  unfolding main
  main-Pool atol fuel name timeout port ports few =
      let free = replicate maxclient (negsuc 0) in
      bind-Ensures (create_sockets-Owns e m (port ∷ ports) (λ _. 0)) (λ ss. assume-Ensures (λ same.
        bind-Ensures
          (weaken-Ensures (λ h p k. omega (arith, p k, count-free k maxclient)) (λ pool h q. q)
            (serve-Pool fuel (atol timeout) ss free (free-IsClean maxclient) (omega (arith, same))))
          (λ pool. assume-Ensures (λ f.
            bind-Ensures
              (weaken-Ensures (λ h p k. omega (arith, p k)) (λ _ h q. q)
                (close_all-Owns e m ss (λ k. count (pos k) pool)))
              (λ _.
                bind-Ensures
                  (weaken-Ensures (λ h p k. omega (arith, p k, count-watched k pool f.0))
                    (λ _ h q. q) (close_all-Owns e m (watched pool) (λ _. 0)))
                  (λ _. give-Ensures 0 (λ h p. (refl, p))))))))

-- How a run of the program ends: by `exit`; out of fuel, with at most `m` descriptors open; or with
-- a value, and every descriptor closed as often as it was opened.
abbrev pub Ends : Env → ℕ → Result ℕ × History → Type 0
Ends e m (r, h) =
    (r ≡ stopped exited)
    ⊎ (((r ≡ stopped lost) × AtMost e m h)
        ⊎ ((r ≡ value 0) × ((k : ℕ) → openings e (pos k) h ≡ closings (pos k) h)))

After-Ends :
    (e : Env) (m : ℕ) (r : Result ℕ × History)
    → After (Stopped e m) (λ v h. (v ≡ 0) × Owns e [] (λ _. 0) h) r
    → Ends e m r
After-Ends e m (value n, h) q = inr (inr (ap value q.0, λ k. omega (arith, q.1 k)))
After-Ends e m (stopped exited, h) q = inl refl
After-Ends e m (stopped crashed, h) q = absurd q
After-Ends e m (stopped lost, h) q = inr (inl (refl, q))

-- In any environment, the program leaves by `exit`; or after any number of rounds there are at most
-- as many open descriptors as ports and client slots together; or it returns 0, and has closed every
-- descriptor as often as `socket` and `accept` opened it. The keyboard keeps descriptor 0, which
-- `accept` does not give.
pub main-Ends :
    (e : Env) (is_set : Answer → ℤ → Bool) (atol : Bytes → ℤ) (fuel : ℕ) (name timeout port : Bytes)
    (ports : List Bytes)
    → ((h : History) (s : ℤ) → is_zero (e h (accept_fd s)).ret ≡ false)
    → Ends e
        (suc (length ports) + maxclient)
        (main is_set atol fuel (name ∷ timeout ∷ port ∷ ports) e [])
unfolding openings closings
main-Ends e is_set atol fuel name timeout port ports keyboard =
    let m = suc (length ports) + maxclient in
    After-Ends e m (main is_set atol fuel (name ∷ timeout ∷ port ∷ ports) e []) (
      (main-Pool e m keyboard is_set atol fuel name timeout port ports (omega arith)).ensured []
        (λ k. refl))
