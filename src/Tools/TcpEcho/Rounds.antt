-- ===== src/Tools/TcpEcho/Rounds.antt =====
-- The rounds of the server of tools/tcp_echo_server.c, and what they send back.
use ldal.Base.{
  ◌≡◌, refl, ℕ, zero, suc, ℤ, pos, negsuc, Bool, true, false, List, [], ◌∷◌, ◌==◌, is_zero,
  replicate, ◌⊎◌, inl, inr,
}
use ldal.Kernel.{Bytes, Answer, Env, History, close_fd, get_char}
use ldal.Tools.{crashed, stopped, Result, value, exited, lost}
use ldal.Tools.Ensures.{After, bind-Ensures, if-Ensures, exit-Ensures, lost-Ensures}
use ldal.Tools.TcpEcho.{
  check_listening, check_slot, check_clients, handle, round, serve, main, watched, maxclient,
}
use ldal.Tools.TcpEcho.Echoed.{
  all_sent, all_received, IsEchoed, Keeps, Stopped, sys-Keeps, same-Keeps, create_sockets-Keeps,
  accept_into-Keeps, close_all-Keeps, handle_tcp_client-Keeps,
}

module _ (e : Env) (is_set : Answer → ℤ → Bool) where
  check_listening-Keeps :
      (r : Answer) (ss pool : List ℤ) → Keeps e (check_listening is_set r ss pool)
  unfolding check_listening
  check_listening-Keeps r [] pool = same-Keeps e pool
  check_listening-Keeps r (s ∷ ss) pool =
      bind-Ensures
        (if-Ensures (is_set r s) (λ _. accept_into-Keeps e s pool) (λ _. same-Keeps e pool))
        (λ pool'. check_listening-Keeps r ss pool')

  check_slot-Keeps : (r : Answer) (c : ℤ) → Keeps e (check_slot is_set r c)
  unfolding check_slot all_sent all_received
  check_slot-Keeps r c =
      if-Ensures (is_set r c)
        (λ _. bind-Ensures (handle_tcp_client-Keeps e c) (λ n.
          if-Ensures (n == 0)
            (λ _.
              bind-Ensures (sys-Keeps e (close_fd c) (λ fd h. (refl, refl)))
                (λ _. same-Keeps e (negsuc 0)))
            (λ _. same-Keeps e c)))
        (λ _. same-Keeps e c)

  check_clients-Keeps : (r : Answer) (pool : List ℤ) → Keeps e (check_clients is_set r pool)
  unfolding check_clients
  check_clients-Keeps r [] = same-Keeps e []
  check_clients-Keeps r (c ∷ cs) =
      bind-Ensures (check_slot-Keeps r c)
        (λ c'. bind-Ensures (check_clients-Keeps r cs) (λ cs'. same-Keeps e (c' ∷ cs')))

  handle-Keeps : (r : Answer) (ss pool : List ℤ) → Keeps e (handle is_set r ss pool)
  unfolding handle all_sent all_received
  handle-Keeps r ss pool =
      if-Ensures (is_zero r.ret) (λ _. same-Keeps e (true, pool))
        (λ _.
          if-Ensures (is_set r (pos 0))
            (λ _.
              bind-Ensures (sys-Keeps e get_char (λ fd h. (refl, refl)))
                (λ _. same-Keeps e (false, pool)))
            (λ _. bind-Ensures (check_listening-Keeps r ss pool) (λ pool'.
              bind-Ensures (check_clients-Keeps r pool') (λ pool''. same-Keeps e (true, pool'')))))

  round-Keeps : (timeout : ℤ) (ss pool : List ℤ) → Keeps e (round is_set timeout ss pool)
  unfolding round all_sent all_received
  round-Keeps timeout ss pool =
      bind-Ensures (sys-Keeps e _ (λ fd h. (refl, refl))) (λ r. handle-Keeps r ss pool)

  serve-Keeps :
      (fuel : ℕ) (timeout : ℤ) (ss pool : List ℤ) → Keeps e (serve is_set fuel timeout ss pool)
  unfolding serve
  serve-Keeps zero timeout ss pool = lost-Ensures (λ h p. p)
  serve-Keeps (suc fuel) timeout ss pool =
      bind-Ensures (round-Keeps timeout ss pool)
        (λ r. if-Ensures r.0 (λ _. serve-Keeps fuel timeout ss r.1) (λ _. same-Keeps e r.1))

  main-Keeps :
      (atol : Bytes → ℤ) (fuel : ℕ) (args : List Bytes) → Keeps e (main is_set atol fuel args)
  unfolding main
  main-Keeps atol fuel [] = exit-Ensures (λ _ _. tt)
  main-Keeps atol fuel (name ∷ []) = exit-Ensures (λ _ _. tt)
  main-Keeps atol fuel (name ∷ timeout ∷ []) = exit-Ensures (λ _ _. tt)
  main-Keeps atol fuel (name ∷ timeout ∷ port ∷ ports) =
      bind-Ensures (create_sockets-Keeps e (port ∷ ports)) (λ ss.
        bind-Ensures (serve-Keeps fuel (atol timeout) ss (replicate maxclient (negsuc 0))) (λ pool.
          bind-Ensures (close_all-Keeps e ss)
            (λ _. bind-Ensures (close_all-Keeps e (watched pool)) (λ _. same-Keeps e 0))))

  After-cases :
      {A : Type 0} (r : Result A × History)
      → After (Stopped e) (λ _. IsEchoed e) r
      → let (v, h) = r in (v ≡ stopped exited) ⊎ IsEchoed e h
  After-cases (value a, h) p = inr p
  After-cases (stopped exited, h) p = inl refl
  After-cases (stopped crashed, h) p = absurd p
  After-cases (stopped lost, h) p = inr p

  -- After any number of rounds, in any environment, all the bytes that were received from a
  -- descriptor were sent back to it, in their order, and no others, unless the program left by
  -- `exit`.
  pub main-IsEchoed :
      (atol : Bytes → ℤ) (fuel : ℕ) (args : List Bytes)
      → let (r, h) = main is_set atol fuel args e [] in (r ≡ stopped exited) ⊎ IsEchoed e h
  unfolding all_received all_sent
  main-IsEchoed atol fuel args =
      After-cases (main is_set atol fuel args e [])
        ((main-Keeps atol fuel args).ensured [] (λ fd. refl))
