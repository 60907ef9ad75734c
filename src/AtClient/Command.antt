-- ===== src/AtClient/Command.antt =====
-- What the execution of a command leaves behind.
use ldal.Base.{
  ℕ, suc, ◌+◌, ◌*◌, ◌/◌, ◌%◌, ◌<◌, ◌≡◌, ◌⊎◌, pos, negsuc, Bool, true, false, not, ◌&&◌,
  is_minus_one, ◌∷◌, Option, none, some, arith,
}
use ldal.Kernel.{Bytes, clock_now, lock, client_lock, latest, Env, History}
use ldal.Device.Mutex.{held}
use ldal.At.{Response}
use ldal.AtClient.{MeDevice, at_vprintfln, at_obj_exec_cmd, deadline, is_cli}

module _ (behind : Bytes) (timespec_of : Bytes → ℕ × ℕ) where
  -- Whether the command is run and awaits a response, and the clock then fails.
  abbrev pub clock_fails : MeDevice → Option Response → Bytes → Env → History → Bool
  clock_fails o none cmd e h = false
  clock_fails o (some resp) cmd e h =
      let h' = (at_vprintfln behind o cmd e (lock client_lock ∷ h)).1 in
      not (is_cli behind timespec_of o.own.status) && is_minus_one (e h' clock_now).ret

  -- Where the clock does not fail while a response is awaited, a command gives the client's lock
  -- back, and is then no longer pending if it was run at all. Where it fails, -1 is returned, the
  -- clock is the latest call, the lock stays taken once more and the command pending.
  pub at_obj_exec_cmd-held :
      (o : MeDevice) (resp : Option Response) (cmd : Bytes) (e : Env) (h : History)
      → let ((code, o', resp'), h') = at_obj_exec_cmd behind timespec_of o resp cmd e h in
        ((clock_fails o resp cmd e h ≡ false)
          × (held client_lock h' ≡ held client_lock h)
          × ((o' ≡ o) ⊎ (o'.own.pending ≡ false)))
        ⊎ ((clock_fails o resp cmd e h ≡ true)
            × (code ≡ negsuc 0)
            × (latest h' ≡ some clock_now)
            × (held client_lock h' ≡ suc (held client_lock h))
            × (o'.own.pending ≡ true))
  unfolding at_obj_exec_cmd at_vprintfln held
  at_obj_exec_cmd-held o none cmd e h = ground arith
  at_obj_exec_cmd-held o (some resp) cmd e h = ground arith

  -- A command that was run leaves its response without a line, whatever the modem answered.
  pub at_obj_exec_cmd-no_lines :
      (o : MeDevice) (resp : Response) (cmd : Bytes) (e : Env) (h : History)
      → is_cli behind timespec_of o.own.status ≡ false
      → (at_obj_exec_cmd behind timespec_of o (some resp) cmd e h).0.2
        ≡ some (record resp { buf_len = 0; line_counts = 0 })
  unfolding at_obj_exec_cmd
  at_obj_exec_cmd-no_lines o resp cmd e h run = ground arith

-- For a time with less than a second of nanoseconds and a time limit of `ms` milliseconds, the
-- deadline is that much later, to the nanosecond, and has less than a second of nanoseconds too.
pub deadline-later :
    (sec nsec ms : ℕ)
    → nsec < 1000000000
    → (sec' : ℕ) × (nsec' : ℕ) × (deadline (sec, nsec) (pos ms) ≡ (pos sec', pos nsec'))
      × (nsec' < 1000000000)
      × (sec' * 1000000000 + nsec' ≡ sec * 1000000000 + nsec + ms * 1000000)
unfolding deadline
deadline-later sec nsec ms h =
    let n = nsec + ms % 1000 * 1000000 in
    (sec + ms / 1000 + n / 1000000000, n % 1000000000, ground arith, omega arith, omega arith)
