-- ===== src/Tools/ListDevice/Closed.antt =====
-- The socket of tools/list_device.c.
use ldal.Base.{
  ◌≡◌, refl, ℕ, ◌+◌, ℤ, pos, negsuc, true, ◌⊎◌, inl, inr, Option, none, List, [], ◌∷◌, is_minus_one,
  is_neg, take, arith,
}
use ldal.Kernel.{Bytes, Address, Env, History, socket, stream}
use ldal.Tools.{Stop, exited, crashed, lost, Result, value, stopped}
use ldal.Tools.Ensures.{
  After, Ensures, bind-Ensures, if-Ensures, give-Ensures, exit-Ensures, sys-Ensures,
}
use ldal.Tools.UdpEcho.{Argument, ipaddr, port, help, unknown, parse_options, has_no_end}
use ldal.Tools.TcpEcho.Descriptors.{openings, closings, one}
use ldal.Tools.ListDevice.{print_reply, finish_with, main}

minus_one-one : (c : ℤ) (k : ℕ) → is_minus_one c ≡ true → one c (pos k) ≡ 0
minus_one-one (pos n) k failed = absurd (ground (arith, failed))
minus_one-one (negsuc n) k failed = refl

module _ (e : Env) where
  -- Every descriptor was closed as often as it was opened, but for those of `b`.
  abbrev Balanced : (ℕ → ℕ) → History → Type 0
  Balanced b h = (k : ℕ) → openings e (pos k) h ≡ closings (pos k) h + b k

  abbrev pub IsClosed : History → Type 0
  IsClosed h = (k : ℕ) → openings e (pos k) h ≡ closings (pos k) h

  abbrev Stands : Stop → History → Type 0
  Stands exited h = IsClosed h
  Stands crashed h = Unit {0}
  Stands lost h = ⊥

  -- The descriptor is open.
  abbrev Holds : ℤ → History → Type 0
  Holds fd = Balanced (λ k. one fd (pos k))

  abbrev none_open : ℕ → ℕ
  none_open k = 0

  parse_options-Ensures :
      (os : List Argument) (a : Address)
      → Ensures Stands e (Balanced none_open) (parse_options a os) (λ _. Balanced none_open)
  unfolding parse_options
  parse_options-Ensures [] a = give-Ensures a (λ h p. p)
  parse_options-Ensures (ipaddr s ∷ os) a = parse_options-Ensures os _
  parse_options-Ensures (port s ∷ os) a = parse_options-Ensures os _
  parse_options-Ensures (help ∷ os) a = exit-Ensures (λ h p k. omega (arith, p k))
  parse_options-Ensures (unknown ∷ os) a = parse_options-Ensures os a

  finish_with-Ensures :
      (fd : ℤ) (printed : Option Bytes)
      → Ensures Stands e (Holds fd) (finish_with fd printed) (λ _. IsClosed)
  unfolding finish_with openings closings
  finish_with-Ensures fd printed =
      bind-Ensures {Q = λ _. IsClosed} (sys-Ensures _ (λ h p k. omega (arith, p k)))
        (λ _. give-Ensures printed (λ h p. p))

  print_reply-Ensures :
      (n : ℤ) (s : Bytes) (b : ℕ → ℕ)
      → Ensures Stands e (Balanced b) (print_reply n s) (λ _. Balanced b)
  unfolding print_reply
  print_reply-Ensures (negsuc n) s b = give-Ensures none (λ h p. p)
  print_reply-Ensures (pos n) s b =
      if-Ensures (has_no_end (take n s)) (λ _. record { ensured = λ h p. tt })
        (λ _. give-Ensures _ (λ h p. p))

  main-Ensures :
      (os : List Argument) → Ensures Stands e (Balanced none_open) (main os) (λ _. IsClosed)
  unfolding main openings closings
  main-Ensures os = bind-Ensures (parse_options-Ensures os _) (λ a.
      bind-Ensures {Q = λ s. Holds s.ret}
        (sys-Ensures (socket stream) (λ h p k. omega (arith, p k)))
        (λ s.
          let done : (printed : Option Bytes)
              → Ensures Stands e (Holds s.ret) (finish_with s.ret printed) (λ _. IsClosed) =
            finish_with-Ensures s.ret in
          if-Ensures (is_minus_one s.ret)
            (λ failed. exit-Ensures (λ h p k. omega (arith, p k, minus_one-one s.ret k failed)))
            (λ _. bind-Ensures {Q = λ _. Holds s.ret} (sys-Ensures _ (λ h p. p)) (λ _.
              bind-Ensures {Q = λ _. Holds s.ret} (sys-Ensures _ (λ h p. p)) (λ c.
                if-Ensures (is_neg c.ret) (λ _. done none)
                  (λ _. bind-Ensures {Q = λ _. Holds s.ret} (sys-Ensures _ (λ h p. p)) (λ w.
                    if-Ensures (is_neg w.ret) (λ _. done none)
                      (λ _. bind-Ensures {Q = λ _. Holds s.ret} (sys-Ensures _ (λ h p. p)) (λ r.
                        bind-Ensures (print_reply-Ensures r.ret r.payload (λ k. one s.ret (pos k)))
                          done)))))))))

After-IsClosed :
    (e : Env) (r : Result (Option Bytes) × History)
    → After (Stands e) (λ _. IsClosed e) r
    → (r.0 ≡ stopped crashed) ⊎ IsClosed e r.1
After-IsClosed e (value v, h) q = inr q
After-IsClosed e (stopped exited, h) q = inr q
After-IsClosed e (stopped crashed, h) q = inl refl
After-IsClosed e (stopped lost, h) q = absurd q

-- In any environment, whatever fails, the client closes the socket that it opened, once, unless it
-- reads past the end of its buffer, for a reply without a NUL.
pub main-IsClosed :
    (e : Env) (os : List Argument)
    → let (r, h) = main os e [] in (r ≡ stopped crashed) ⊎ IsClosed e h
unfolding openings closings
main-IsClosed e os =
    After-IsClosed e (main os e []) ((main-Ensures e os).ensured [] (λ k. omega arith))
