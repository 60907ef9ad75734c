-- ===== src/Rtc/Tests.antt =====
-- A clock whose structures lie in memory as words of four numbers.
use ldal.Base.{
  ℕ, ℤ, pos, negsuc, ◌≡◌, refl, some, [], ◌∷◌, arith, ldal_eok, get_or, zero, suc, length, true,
}
use ldal.Kernel.{Bytes, Env}
use ldal.FileClasses.Gpio.{FileDevice}
use ldal.Rtc.{Layout, RtcTime, LdalRtcTime, rtc_read, rtc_write, to_rtc_time}
use ldal.Rtc.Clock.{IsLayout, rtc_read-rtc_write}

abbrev word : ℤ → Bytes → Bytes
word (pos n) s = 0 ∷ n ∷ 0 ∷ 0 ∷ s
word (negsuc n) s = 1 ∷ n ∷ 0 ∷ 0 ∷ s

abbrev int_of : ℕ → ℕ → ℤ
int_of zero n = pos n
int_of (suc _) n = negsuc n

abbrev rest_of : Bytes → Bytes
rest_of (_ ∷ _ ∷ _ ∷ _ ∷ s) = s
rest_of _ = []

abbrev first_of : Bytes → ℤ
first_of s = int_of (get_or s 0 0) (get_or s 1 0)

first_of-word : (a : ℤ) (s : Bytes) → first_of (word a s) ≡ a
first_of-word (pos n) s = refl
first_of-word (negsuc n) s = refl

rest_of-word : (a : ℤ) (s : Bytes) → rest_of (word a s) ≡ s
rest_of-word (pos n) s = refl
rest_of-word (negsuc n) s = refl

length-word : (a : ℤ) (s : Bytes) → length (word a s) ≡ suc (suc (suc (suc (length s))))
length-word (pos n) s = refl
length-word (negsuc n) s = refl

abbrev words : Layout
words = record {
  store_rtc = λ t. word t.tm_sec (
      word t.tm_min (
        word t.tm_hour (
          word t.tm_mday (
            word t.tm_mon
              (word t.tm_year (word t.tm_wday (word t.tm_yday (word t.tm_isdst []))))))));
  load_rtc = λ s.
      let a = rest_of s in
      let b = rest_of a in
      let c = rest_of b in
      let d = rest_of c in
      let e = rest_of d in
      let f = rest_of e in
      let g = rest_of f in
      let h = rest_of g in
      record {
        tm_sec = first_of s;
        tm_min = first_of a;
        tm_hour = first_of b;
        tm_mday = first_of c;
        tm_mon = first_of d;
        tm_year = first_of e;
        tm_wday = first_of f;
        tm_yday = first_of g;
        tm_isdst = first_of h;
      };
  store_ldal = λ r.
      word r.sec
        (word r.min (word r.hour (word r.mday (word r.mon (word r.year (word r.wday []))))));
  load_ldal = λ s.
      let a = rest_of s in
      let b = rest_of a in
      let c = rest_of b in
      let d = rest_of c in
      let e = rest_of d in
      let f = rest_of e in
      record {
        sec = first_of s;
        min = first_of a;
        hour = first_of b;
        mday = first_of c;
        mon = first_of d;
        year = first_of e;
        wday = first_of f;
      };
}

words-IsLayout : IsLayout words
words-IsLayout = record {
  load-store_rtc = λ t. simp (first_of-word, rest_of-word);
  load-store_ldal = λ r. simp (first_of-word, rest_of-word);
  length-store_ldal = λ r. simp (length-word);
}

abbrev clock : FileDevice
clock = record {
  device = record { fd = pos 3; name = []; filename = []; is_init = true; ref = 0 };
  own = tt;
}

-- The 24th of May 2021, 10:30:00.
abbrev moment : LdalRtcTime
moment = record {
  sec = pos 0;
  min = pos 30;
  hour = pos 10;
  mday = pos 24;
  mon = pos 5;
  year = pos 2021;
  wday = pos 1;
}

abbrev unset : RtcTime
unset = record {
  tm_sec = pos 0;
  tm_min = pos 0;
  tm_hour = pos 0;
  tm_mday = pos 0;
  tm_mon = pos 0;
  tm_year = pos 0;
  tm_wday = pos 0;
  tm_yday = pos 77;
  tm_isdst = negsuc 5;
}

-- The clock answers with what it was set to.
abbrev set_clock : Env
set_clock h c = record {
  ret = pos 0;
  payload = words.store_rtc (to_rtc_time unset moment);
  errno = 0;
}

read_after_set :
    (rtc_read words 9 10 clock 28 set_clock []).0 ≡ (ldal_eok, some (words.store_ldal moment))
unfolding rtc_write
read_after_set =
    rtc_read-rtc_write words words-IsLayout 9 10 unset moment clock 28 set_clock set_clock [] []
      (words.store_rtc (to_rtc_time unset moment)) refl refl refl (omega arith)
