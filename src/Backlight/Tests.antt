-- ===== src/Backlight/Tests.antt =====
-- A backlight of a machine whose floats are integers.
use ldal.Base.{
  ℕ, suc, ◌*◌, ◌/◌, ◌≡◌, ◌⊎◌, ℤ, pos, negsuc, ◌+ℤ◌, ◌≤ℤ◌, true, false, [], ◌∷◌, arith,
  if◌then◌else◌, is_neg, neg, codes, ldal_eok, ldal_error, ldal_einval,
}
use ldal.Kernel.{Bytes, Env, stream_open_write, stream_print, stream_close}
use ldal.Backlight.{
  BacklightDevice, Machine, print_int, path_to, brightness, out_of_range, get_from_file,
  backlight_init, sys_value, backlight_write,
}
use ldal.Backlight.Brightness.{IsRange, backlight_init-IsRange, backlight_write-calls}

abbrev quotient : ℤ → ℤ → ℤ
quotient (pos a) (pos b) = pos (a / b)
quotient (pos a) (negsuc b) = negsuc (a / suc b)
quotient (negsuc a) b = negsuc a

abbrev product : ℤ → ℤ → ℤ
product (pos a) (pos b) = pos (a * b)
product (pos a) (negsuc b) = negsuc (a * b)
product (negsuc a) b = b

abbrev first : Bytes → ℤ
first [] = pos 0
first (c ∷ s) = pos c

abbrev size_of : ℤ → ℕ
size_of (pos n) = n
size_of (negsuc n) = n

abbrev small : Machine
small = record {
  Float = ℤ;
  of_int = λ n. n;
  to_int = λ x. x;
  plus = λ a b. a +ℤ b;
  times = product;
  over = quotient;
  store_int = λ n. size_of n ∷ 0 ∷ 0 ∷ 0 ∷ [];
  load_int = first;
  scan = first;
}

abbrev screen : BacklightDevice
screen = record {
  device = record {
    fd = pos 0;
    name = codes "lcd";
    filename = codes "/sys/class/backlight/lcd";
    is_init = true;
    ref = 1;
  };
  own = record { min = pos 40; max = pos 240 };
}

-- Every file holds the number 200.
abbrev answering : Env
answering h c = record { ret = pos 1; payload = 200 ∷ []; errno = 0 }

at_least_1 : pos 1 ≤ℤ (backlight_init small (pos 0) screen answering []).0.1.own.max
unfolding backlight_init get_from_file
at_least_1 = omega arith

backlight_init-IsRange_example : IsRange (backlight_init small (pos 0) screen answering []).0.1.own
backlight_init-IsRange_example = backlight_init-IsRange small (pos 0) screen answering [] at_least_1

abbrev half : Bytes
half = 50 ∷ 0 ∷ 0 ∷ 0 ∷ []

written_level :
    let opens = stream_open_write (path_to screen.device brightness) in
    let prints = stream_print (print_int (sys_value small screen.own (pos 50))) in
    ((out_of_range (pos 50) ≡ true)
      × (backlight_write small screen half answering [] ≡ ((neg ldal_einval, screen), [])))
    ⊎ ((out_of_range (pos 50) ≡ false)
        × (((is_neg (answering [] opens).ret ≡ true)
              × (backlight_write small screen half answering []
                  ≡ ((neg ldal_error, screen), opens ∷ [])))
            ⊎ ((is_neg (answering [] opens).ret ≡ false)
                × (backlight_write small screen half answering [] ≡ (
                  (
                    if is_neg (answering (opens ∷ []) prints).ret then neg ldal_error else ldal_eok,
                    screen,
                  ),
                  stream_close ∷ prints ∷ opens ∷ [],
                )))))
written_level = backlight_write-calls small screen half answering [] (omega arith)
