-- ===== src/Backlight/Brightness.antt =====
-- The limits of the brightness, and the calls of a write.
use ldal.Base.{
  ◌≤◌, ◌≡◌, ◌⊎◌, ℤ, pos, negsuc, ◌≤ℤ◌, true, false, ◌∷◌, Bool, if◌then◌else◌, arith, is_neg,
  is_zero, neg, ldal_eok, ldal_error, ldal_einval, length,
}
use ldal.Kernel.{Bytes, stream_open_write, stream_print, stream_close, Env, History}
use ldal.Backlight.{
  BacklightLink, BacklightDevice, Machine, size_of_int, print_int, path_to, brightness,
  max_brightness, out_of_range, least, get_from_file, set_to_file, backlight_init, sys_value,
  backlight_write, sys_backlight_min, sys_backlight_max,
}

-- Limits between which there is a brightness.
abbrev pub IsRange : BacklightLink → Type 0
IsRange b = (pos 1 ≤ℤ b.min) × (b.min ≤ℤ b.max)

least-IsRange : (max : ℤ) → pos 1 ≤ℤ max → IsRange (record { min = least max; max = max })
unfolding least
least-IsRange (pos n) h = ground arith
least-IsRange (negsuc n) h = absurd (omega arith)

-- The limits for a file that could be read or not.
limits-IsRange :
    (known : Bool) (max : ℤ)
    → let b : BacklightLink =
        if known
        then record { min = least max; max = max }
        else record { min = pos sys_backlight_min; max = pos sys_backlight_max } in
      pos 1 ≤ℤ b.max → IsRange b
limits-IsRange true max positive = least-IsRange max positive
limits-IsRange false max positive = (omega arith, omega arith)

module _ (m : Machine) where
  -- After the initialisation the limits are a range from 1 on, whatever the file of the largest
  -- brightness holds and whether it can be read, if the largest brightness is at least 1.
  pub backlight_init-IsRange :
      (unset : ℤ) (o : BacklightDevice) (e : Env) (h : History)
      → let b = (backlight_init m unset o e h).0.1.own in pos 1 ≤ℤ b.max → IsRange b
  unfolding backlight_init
  backlight_init-IsRange unset o e h positive =
      let (ret, value) = (get_from_file m (path_to o.device max_brightness) unset e h).0 in
      limits-IsRange (is_zero ret) value positive

  -- A write of an integer outside 0 to 100 is refused without a call. One in this range opens the
  -- file of the brightness, and if that succeeds prints the value scaled to the limits to it and
  -- closes it; the result tells whether both succeeded.
  pub backlight_write-calls :
      (o : BacklightDevice) (buf : Bytes) (e : Env) (h : History)
      → size_of_int ≤ length buf
      → let opens = stream_open_write (path_to o.device brightness) in
        let prints = stream_print (print_int (sys_value m o.own (m.load_int buf))) in
        ((out_of_range (m.load_int buf) ≡ true)
          × (backlight_write m o buf e h ≡ ((neg ldal_einval, o), h)))
        ⊎ ((out_of_range (m.load_int buf) ≡ false)
            × (((is_neg (e h opens).ret ≡ true)
                  × (backlight_write m o buf e h ≡ ((neg ldal_error, o), opens ∷ h)))
                ⊎ ((is_neg (e h opens).ret ≡ false)
                    × (backlight_write m o buf e h ≡ (
                      (if is_neg (e (opens ∷ h) prints).ret then neg ldal_error else ldal_eok, o),
                      stream_close ∷ prints ∷ opens ∷ h,
                    )))))
  unfolding backlight_write set_to_file
  backlight_write-calls o buf e h enough = ground arith
