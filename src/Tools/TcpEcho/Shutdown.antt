-- ===== src/Tools/TcpEcho/Shutdown.antt =====
-- How the server of tools/tcp_echo_server.c comes to its end.
use ldal.Base.{
  ◌≡◌, refl, ℕ, zero, suc, ◌+◌, ◌≤◌, ◌<◌, ◌⊎◌, inl, inr, ap, ℤ, pos, negsuc, Bool, true, false,
  List, [], ◌∷◌, ◌==◌, is_zero, length, replicate, arith,
}
use native.Mathlib.Decide.{dec_lt}
use ldal.Kernel.{Bytes, Answer, Env, History, close_fd, get_char}
use ldal.Tools.{stopped, Result, value, exited}
use ldal.Tools.Ensures.{
  After, bind-Ensures, if-Ensures, give-Ensures, sys-Ensures, weaken-Ensures, assume-Ensures,
}
use ldal.Tools.TcpEcho.Echoed.{IsEchoed}
use ldal.Tools.TcpEcho.Rounds.{main-IsEchoed}
use ldal.Tools.TcpEcho.Descriptors.{openings, closings}
use ldal.Tools.TcpEcho.Pool.{Ends, main-Ends}
use ldal.Tools.TcpEcho.Willing.{
  IsWilling, selects, Never, Past, Returns, create_sockets-Returns, accept_into-Returns,
  close_all-Returns, handle_tcp_client-Returns,
}
use ldal.Tools.TcpEcho.{
  check_listening, check_slot, check_clients, handle, round, serve, main, watched, maxclient,
}

module _ {e : Env} {is_set : Answer → ℤ → Bool} {rounds : ℕ} (w : IsWilling e is_set rounds) where
  check_listening-Returns :
      (n : ℕ) (r : Answer) (ss pool : List ℤ)
      → Returns w (Past w n) (check_listening is_set r ss pool) (λ _. Past w n)
  unfolding check_listening
  check_listening-Returns n r [] pool = give-Ensures pool (λ h p. p)
  check_listening-Returns n r (s ∷ ss) pool =
      bind-Ensures
        (if-Ensures (is_set r s) (λ _. accept_into-Returns w n s pool)
          (λ _. give-Ensures pool (λ h p. p)))
        (λ pool'. check_listening-Returns n r ss pool')

  check_slot-Returns :
      (n : ℕ) (r : Answer) (c : ℤ) → Returns w (Past w n) (check_slot is_set r c) (λ _. Past w n)
  unfolding check_slot selects
  check_slot-Returns n r (negsuc k) =
      if-Ensures (is_set r (negsuc k)) (λ there. absurd (ground (arith, there, w.free r k)))
        (λ _. give-Ensures (negsuc k) (λ h p. p))
  check_slot-Returns n r (pos c) =
      if-Ensures (is_set r (pos c))
        (λ _. bind-Ensures (handle_tcp_client-Returns w n c) (λ k.
          if-Ensures (k == 0)
            (λ _.
              bind-Ensures {Q = λ _. Past w n} (sys-Ensures (close_fd (pos c)) (λ h p. p))
                (λ _. give-Ensures (negsuc 0) (λ h p. p)))
            (λ _. give-Ensures (pos c) (λ h p. p))))
        (λ _. give-Ensures (pos c) (λ h p. p))

  check_clients-Returns :
      (n : ℕ) (r : Answer) (pool : List ℤ)
      → Returns w (Past w n) (check_clients is_set r pool) (λ _. Past w n)
  unfolding check_clients
  check_clients-Returns n r [] = give-Ensures [] (λ h p. p)
  check_clients-Returns n r (c ∷ cs) = bind-Ensures (check_slot-Returns n r c) (λ c'.
      bind-Ensures (check_clients-Returns n r cs) (λ cs'. give-Ensures (c' ∷ cs') (λ h p. p)))

  -- The keyboard is ready, or `select` was answered fewer than `rounds` times before.
  abbrev Told : ℕ → Answer → Type 0
  Told n r = ((is_zero r.ret ≡ false) × (is_set r (pos 0) ≡ true)) ⊎ (suc n ≤ rounds)

  -- What a round leaves: the loop goes on only before the keyboard is ready.
  abbrev Left : ℕ → Bool × List ℤ → History → Type 0
  Left n v h = Past w (suc n) h × (v.0 ≡ true → suc n ≤ rounds)

  handle-Returns :
      (n : ℕ) (r : Answer) (ss pool : List ℤ)
      → Told n r
      → Returns w (Past w (suc n)) (handle is_set r ss pool) (Left n)
  unfolding handle selects
  handle-Returns n r ss pool told =
      if-Ensures (is_zero r.ret)
        (λ idle. give-Ensures (true, pool) (λ h p. (p, λ _. ground (arith, told, idle))))
        (λ _.
          if-Ensures (is_set r (pos 0))
            (λ _.
              bind-Ensures {Q = λ _. Past w (suc n)} (sys-Ensures get_char (λ h p. p))
                (λ _. give-Ensures (false, pool) (λ h p. (p, λ on. absurd (ground (arith, on))))))
            (λ quiet. bind-Ensures (check_listening-Returns (suc n) r ss pool) (λ pool'.
              bind-Ensures (check_clients-Returns (suc n) r pool') (λ pool''.
                give-Ensures (true, pool'') (λ h p. (p, λ _. ground (arith, told, quiet)))))))

  round-Returns :
      (n : ℕ) (timeout : ℤ) (ss pool : List ℤ)
      → n ≤ rounds
      → Returns w (Past w n) (round is_set timeout ss pool) (Left n)
  unfolding round selects
  round-Returns n timeout ss pool early =
      bind-Ensures {Q = λ r h. Past w (suc n) h × Told n r}
        (sys-Ensures _ (λ h p. (
          omega (arith, p),
          elim (dec_lt n rounds) [
            | yes before ↦ inr (omega (arith, before))
            | no now ↦ inl (w.keyboard h _ _ _ (omega (arith, now, p)))
          ],
        )))
        (λ r. assume-Ensures (λ told. handle-Returns n r ss pool told))

  serve-Returns :
      (fuel n : ℕ) (timeout : ℤ) (ss pool : List ℤ)
      → n ≤ rounds
      → rounds < n + fuel
      → Returns w (Past w n) (serve is_set fuel timeout ss pool) (λ _ _. Unit {0})
  unfolding serve
  serve-Returns zero n timeout ss pool early enough = absurd (omega (arith, early, enough))
  serve-Returns (suc fuel) n timeout ss pool early enough =
      bind-Ensures (round-Returns n timeout ss pool early) (λ r. assume-Ensures (λ f.
        if-Ensures r.0
          (λ on. serve-Returns fuel (suc n) timeout ss r.1 (f on) (omega (arith, enough)))
          (λ _. give-Ensures r.1 (λ h p. tt))))

  main-Returns :
      (atol : Bytes → ℤ) (fuel : ℕ) (name timeout port : Bytes) (ports : List Bytes)
      → rounds < fuel
      → Returns w (Past w 0) (main is_set atol fuel (name ∷ timeout ∷ port ∷ ports)) (λ v _. v ≡ 0)
  unfolding main
  main-Returns atol fuel name timeout port ports enough =
      bind-Ensures (create_sockets-Returns w 0 (port ∷ ports)) (λ ss.
        bind-Ensures
          (serve-Returns fuel 0 (atol timeout) ss (replicate maxclient (negsuc 0)) (omega arith)
            (omega (arith, enough)))
          (λ pool.
            bind-Ensures {Q = λ _. Past w 0}
              (weaken-Ensures (λ h p. omega arith) (λ _ h q. q) (close_all-Returns w 0 ss))
              (λ _.
                bind-Ensures (close_all-Returns w 0 (watched pool))
                  (λ _. give-Ensures 0 (λ h p. refl)))))

  After-value : (r : Result ℕ × History) → After Never (λ v _. v ≡ 0) r → r.0 ≡ value 0
  After-value (value n, h) q = ap value q
  After-value (stopped s, h) q = absurd q

Ends-value :
    (e : Env) (m : ℕ) (r : Result ℕ × History)
    → r.0 ≡ value 0
    → Ends e m r
    → (k : ℕ) → openings e (pos k) r.1 ≡ closings (pos k) r.1
Ends-value e m r is (inl left) k = absurd (ground (arith, is, left))
Ends-value e m r is (inr (inl (early, some))) k = absurd (ground (arith, is, early))
Ends-value e m r is (inr (inr (done, all))) k = all k

IsEchoed-value :
    (e : Env) (r : Result ℕ × History)
    → r.0 ≡ value 0
    → (r.0 ≡ stopped exited) ⊎ IsEchoed e r.1
    → IsEchoed e r.1
IsEchoed-value e r is (inl left) fd = absurd (ground (arith, is, left))
IsEchoed-value e r is (inr echoed) fd = echoed fd

-- Where no call on an open descriptor fails, the program returns 0, with fuel for one round more
-- than the answers of `select` after which the keyboard is ready at the latest. By then it has
-- closed every descriptor as often as it was opened, and has sent back on each descriptor all that it
-- received from it.
pub main-returns :
    (e : Env) (is_set : Answer → ℤ → Bool) (rounds : ℕ) (atol : Bytes → ℤ) (fuel : ℕ)
    (name timeout port : Bytes) (ports : List Bytes)
    → IsWilling e is_set rounds
    → rounds < fuel
    → let (r, h) = main is_set atol fuel (name ∷ timeout ∷ port ∷ ports) e [] in
      (r ≡ value 0) × ((k : ℕ) → openings e (pos k) h ≡ closings (pos k) h) × IsEchoed e h
main-returns e is_set rounds atol fuel name timeout port ports w enough =
    let run = main is_set atol fuel (name ∷ timeout ∷ port ∷ ports) e [] in
    let is : run.0 ≡ value 0 =
      After-value w run
        ((main-Returns w atol fuel name timeout port ports enough).ensured [] (omega arith)) in
    (
      is,
      Ends-value e (suc (length ports) + maxclient) run is
          (main-Ends e is_set atol fuel name timeout port ports w.keeps),
      IsEchoed-value e run is (main-IsEchoed e is_set atol fuel (name ∷ timeout ∷ port ∷ ports)),
    )
