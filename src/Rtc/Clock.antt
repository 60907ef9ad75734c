-- ===== src/Rtc/Clock.antt =====
-- Setting the clock and reading it.
use ldal.Base.{
  ℕ, ℤ, if◌then◌else◌, ◌∙◌, sym, pos, negsuc, ◌+ℤ◌, ◌-ℤ◌, ◌≡◌, ap, ltb, false, some, ◌∷◌, [], arith,
  length, take, ldal_eok, is_neg, ◌≤◌,
}
use ldal.Kernel.{Bytes, ioctl, Env, History}
use ldal.FileClasses.Gpio.{FileDevice}
use ldal.Rtc.{
  Layout, RtcTime, LdalRtcTime, of_rtc_time, to_rtc_time, rtc_read, rtc_write, size_of_time,
}

add-sub : (a : ℤ) (k : ℕ) → (a -ℤ pos k) +ℤ pos k ≡ a
add-sub (pos a) k = ground arith
add-sub (negsuc a) k = ground arith

of_rtc_time-to_rtc_time : (t : RtcTime) (r : LdalRtcTime) → of_rtc_time (to_rtc_time t r) ≡ r
of_rtc_time-to_rtc_time t r = rw (add-sub r.mon 1, add-sub r.year 1900)

-- The memory layout of the structures loses nothing of them.
pub record IsLayout (l : Layout) : Type 0 where
  pub load-store_rtc : (t : RtcTime) → l.load_rtc (l.store_rtc t) ≡ t
  pub load-store_ldal : (r : LdalRtcTime) → l.load_ldal (l.store_ldal r) ≡ r
  pub length-store_ldal : (r : LdalRtcTime) → length (l.store_ldal r) ≡ size_of_time

wrote :
    (l : Layout) (i : IsLayout l) (rd wr : ℕ) (t : RtcTime) (r : LdalRtcTime) (o : FileDevice)
    (e : Env) (h : History)
    → (rtc_write l rd wr t o (l.store_ldal r) e h).1
      ≡ ioctl o.device.fd wr (l.store_rtc (to_rtc_time t r)) ∷ h
unfolding rtc_write
wrote l i rd wr t r o e h = rw (i.length-store_ldal r, i.load-store_ldal r)

the_same :
    {fd : ℤ} {wr : ℕ} {a b : Bytes} {h : History} → ioctl fd wr a ∷ h ≡ ioctl fd wr b ∷ h → a ≡ b
the_same p = cc

cut_back :
    (n : ℕ) → size_of_time ≤ n → (if ltb n size_of_time then n else size_of_time) ≡ size_of_time
cut_back n large = ground arith

-- A clock is set with one request whose argument is a structure from which a read, given a clock
-- that answers with it and a buffer that is large enough, returns the time it was set to,
-- whatever the two fields were that a write does not set, if the memory layout of the structures
-- loses nothing.
pub rtc_read-rtc_write :
    (l : Layout) (i : IsLayout l) (rd wr : ℕ) (t : RtcTime) (r : LdalRtcTime) (o : FileDevice)
    (n : ℕ) (e e' : Env) (h h' : History) (arg : Bytes)
    → (rtc_write l rd wr t o (l.store_ldal r) e h).1 ≡ ioctl o.device.fd wr arg ∷ h
    → (e' h' (ioctl o.device.fd rd [])).payload ≡ arg
    → is_neg (e' h' (ioctl o.device.fd rd [])).ret ≡ false
    → size_of_time ≤ n
    → (rtc_read l rd wr o n e' h').0 ≡ (ldal_eok, some (take size_of_time (l.store_ldal r)))
unfolding rtc_read
rtc_read-rtc_write l i rd wr t r o n e e' h h' arg set got ok large =
    let kept : l.load_rtc (e' h' (ioctl o.device.fd rd [])).payload ≡ to_rtc_time t r =
      ap l.load_rtc (got ∙ sym (the_same (sym (wrote l i rd wr t r o e h) ∙ set)))
      ∙ i.load-store_rtc (to_rtc_time t r) in
    rw (ok, cut_back n large, kept, of_rtc_time-to_rtc_time t r)
