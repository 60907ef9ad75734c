-- ===== src/Server/Procedures.antt =====
-- What the procedures of the server give back, and the lock of `read_proc`.
use ldal.Base.{
  ap, inl, inr, ltb, Bool-cases, ℕ, ◌+◌, ◌*◌, ◌/◌, ◌≤◌, ◌<◌, ◌≡◌, ◌⊎◌, refl, some, [], ◌∷◌, ◌++◌, ℤ,
  take, arith, length, codes, is_neg, true, false,
}
use ldal.Kernel.{
  Bytes, proc_lock, open_file, o_rdonly, lock, unlock, read_fd, close_fd, Env, History,
}
use ldal.Device.Mutex.{held}
use ldal.Registry.{ok, crash}
use ldal.Server.{
  null_reply, string, days_hours_mins, read_proc, filled, endstring, proc_buff_size, strcat, reply,
}

-- The days, hours and minutes of an uptime make up its minutes, with less than a day of hours and
-- less than an hour of minutes.
pub days_hours_mins_lem :
    (uptime : ℕ)
    → let (days, hours, mins) = days_hours_mins uptime in
      (days * 1440 + hours * 60 + mins ≡ uptime / 60) × (hours < 24) × (mins < 60)
unfolding days_hours_mins
days_hours_mins_lem uptime = omega arith

-- The history when `read_proc` has opened its file.
abbrev pub asked : Bytes → History → History
asked path h = open_file (take 49 (codes "/proc/" ++ path)) (o_rdonly ∷ []) ∷ lock proc_lock ∷ h

strcat-cases :
    (size : ℕ) (s : Bytes)
    → ((length s + length endstring < size) × (strcat size s endstring ≡ ok (s ++ endstring)))
      ⊎ ((size ≤ length s + length endstring) × (strcat size s endstring ≡ crash))
strcat-cases size s = elim (Bool-cases (ltb (length s + length endstring) size)) [
  | inl fits ↦ inl (ground arith, rw fits refl)
  | inr past ↦ inr (ground arith, rw past refl)
]

-- What the open of `read_proc` returns.
abbrev pub proc_fd : Bytes → Env → History → ℤ
proc_fd path e h =
    (e (lock proc_lock ∷ h) (open_file (take 49 (codes "/proc/" ++ path)) (o_rdonly ∷ []))).ret

-- The text that `read_proc` reads from an open file.
abbrev pub proc_text : Bytes → ℤ → Env → History → Bytes
proc_text path fd e h =
    let r = e (asked path h) (read_fd fd proc_buff_size) in filled r.ret r.payload

read_proc-missing :
    (path : Bytes) (e : Env) (h : History)
    → is_neg (proc_fd path e h) ≡ true
    → read_proc (some path) e h ≡ (ok null_reply, unlock proc_lock ∷ asked path h)
unfolding read_proc
read_proc-missing path e h missing = ground arith

read_proc-there :
    (path : Bytes) (e : Env) (h : History)
    → is_neg (proc_fd path e h) ≡ false
    → read_proc (some path) e h ≡ (
      reply (strcat proc_buff_size (proc_text path (proc_fd path e h) e h) endstring),
      unlock proc_lock
          ∷ close_fd (proc_fd path e h)
          ∷ read_fd (proc_fd path e h) proc_buff_size
          ∷ asked path h,
    )
unfolding read_proc
read_proc-there path e h there = ground arith

-- Reading a file of /proc gives its lock back in every case. There is no reply if the file does not
-- open. If it does, it is read once and closed, and the text that was read is returned with the end
-- mark if both are shorter than the buffer; if not, the mark is written past the end of the buffer.
pub read_proc-held :
    (path : Bytes) (e : Env) (h : History)
    → let (reply, h') = read_proc (some path) e h in
      let fd = proc_fd path e h in
      let s = proc_text path fd e h in
      (held proc_lock h' ≡ held proc_lock h)
      × (((is_neg fd ≡ true) × (reply ≡ ok null_reply))
          ⊎ ((is_neg fd ≡ false)
              × (h' ≡ unlock proc_lock ∷ close_fd fd ∷ read_fd fd proc_buff_size ∷ asked path h)
              × (((length s + length endstring < proc_buff_size)
                    × (reply ≡ ok (string (s ++ endstring))))
                  ⊎ ((proc_buff_size ≤ length s + length endstring) × (reply ≡ crash)))))
unfolding held
read_proc-held path e h = elim (Bool-cases (is_neg (proc_fd path e h))) [
  | inl missing ↦ rw (read_proc-missing path e h missing) (omega arith, inl (missing, refl))
  | inr there ↦ rw (read_proc-there path e h there) (
    omega arith,
    inr (
      there,
      refl,
      elim (strcat-cases proc_buff_size (proc_text path (proc_fd path e h) e h)) [
        | inl (fits, is) ↦ inl (fits, ap reply is)
        | inr (past, is) ↦ inr (past, ap reply is)
      ],
    ),
  )
]
