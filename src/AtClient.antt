-- ===== src/AtClient.antt =====
-- src/at.c and inc/ldal_me.h: the client of a modem, and the execution of a command.
pub mod Command
mod Tests
use ldal.Base.{
  ℕ, suc, ◌+◌, ◌-◌, ◌*◌, ◌/◌, ◌%◌, ℤ, pos, negsuc, ◌+ℤ◌, neg, is_zero, is_minus_one, Bool, true,
  false, ◌&&◌, Option, none, some, [], ◌∷◌, ◌++◌, ltb, if◌then◌else◌, take, length, replicate,
  ldal_eok, ldal_error, ldal_etimeout, ldal_ebusy,
}
use ldal.Kernel.{
  Bytes, write_fd, lock, unlock, client_lock, clock_now, wait_until, Io, pure, call, ◌>>=◌, ◌>>◌,
}
use ldal.Device.{Object}
use ldal.At.{Response}

abbrev pub at_cmd_max_len : ℕ
at_cmd_max_len = 128

abbrev pub at_recv_buff_size : ℕ
at_recv_buff_size = 2048

pub data AtStatus : Type 0 where
  uninitialized initialized cli : AtStatus

pub data RespStatus : Type 0 where
  resp_ok resp_error resp_timeout resp_buff_full : RespStatus

-- `struct ldal_me_device`, less what no function touches. `pending` tells whether `resp` is set.
pub record MeLink : Type 0 where
  pub status : AtStatus
  pub resp_status : RespStatus
  pub recv_line_buf : Bytes
  pub recv_line_len : ℕ
  pub pending : Bool

abbrev pub MeDevice : Type 0
MeDevice = Object MeLink

-- The loop that reads is compiled out.
unfoldable pub at_recv_readline : MeDevice → ℕ × MeDevice
at_recv_readline o = (
  0,
  record o {
    own = record (o.own) { recv_line_buf = replicate at_recv_buff_size 0; recv_line_len = 0 };
  },
)

-- `send_buf` after `vsnprintf` of the text `s`.
abbrev pub sent_buf : Bytes → Bytes
sent_buf s = take (at_cmd_max_len - 1) s ++ (0 ∷ [])

-- `behind` is what stands in memory behind `send_buf`; the length written is that of the whole text.
unfoldable pub at_vprintfln : Bytes → MeDevice → Bytes → Io ℕ
at_vprintfln behind o s = do
  call (write_fd o.device.fd (take (length s) (sent_buf s ++ behind)))
  call (write_fd o.device.fd (13 ∷ 10 ∷ []))
  pure (length s + 2)

-- `a / b` and `a % b` of C, for a positive `b`: towards zero.
abbrev pub quot : ℤ → ℕ → ℤ
quot (pos n) b = pos (n / b)
quot (negsuc n) b = neg (suc n / b)

abbrev pub rem : ℤ → ℕ → ℤ
rem (pos n) b = pos (n % b)
rem (negsuc n) b = neg (suc n % b)

abbrev pub scaled : ℤ → ℕ → ℤ
scaled (pos n) k = pos (n * k)
scaled (negsuc n) k = neg (suc n * k)

-- `n >= b`.
abbrev pub at_least : ℤ → ℕ → Bool
at_least (pos n) b = if ltb n b then false else true
at_least (negsuc n) b = false

-- The seconds and nanoseconds of the time limit.
unfoldable pub deadline : ℕ × ℕ → ℤ → ℤ × ℤ
deadline (tv_sec, tv_nsec) timeout =
    let sec = pos tv_sec +ℤ quot timeout 1000 in
    let nsec = pos tv_nsec +ℤ scaled (rem timeout 1000) 1000000 in
    if at_least nsec 1000000000 then (sec +ℤ pos 1, rem nsec 1000000000) else (sec, nsec)

-- `timespec_of` reads the time that `clock_gettime` stores.
module _ (behind : Bytes) (timespec_of : Bytes → ℕ × ℕ) where
  abbrev pub is_cli : AtStatus → Bool
  is_cli cli = true
  is_cli _ = false

  abbrev pub is_ok : RespStatus → Bool
  is_ok resp_ok = true
  is_ok _ = false

  abbrev pub is_given : Option Response → Bool
  is_given none = false
  is_given (some _) = true

  abbrev pub cleared : Option Response → Option Response
  cleared none = none
  cleared (some r) = some (record r { buf_len = 0; line_counts = 0 })

  -- `__exit:`
  finish : ℤ → MeDevice → Option Response → Io (ℤ × MeDevice × Option Response)
  finish result o resp = do
    call (unlock client_lock)
    pure (result, record o { own = record (o.own) { pending = false } }, resp)

  -- The wait for a response. An error of the clock returns at once.
  await_response : MeDevice → Response → Io (ℤ × MeDevice × Option Response)
  unfolding finish
  await_response o resp = do
    now ← call clock_now
    if is_minus_one now.ret then pure (negsuc 0, o, some resp) else do
      let (tv_sec, tv_nsec) = deadline (timespec_of now.payload) resp.timeout
      woken ← call (wait_until tv_sec tv_nsec)
      if is_zero woken.ret
          then (if is_ok o.own.resp_status
              then finish ldal_eok o (some resp)
              else finish (neg ldal_error) o (some resp))
          else finish (neg ldal_etimeout)
              (record o { own = record (o.own) { resp_status = resp_timeout } }) (some resp)

  -- The command with its arguments printed is the text `cmd`. No other thread touches the client or
  -- the response meanwhile: the parser ends at once.
  unfoldable pub at_obj_exec_cmd :
      MeDevice → Option Response → Bytes → Io (ℤ × MeDevice × Option Response)
  unfolding finish await_response at_vprintfln
  at_obj_exec_cmd o resp cmd =
      if is_cli o.own.status && is_given resp then pure (neg ldal_ebusy, o, resp) else do
        call (lock client_lock)
        let o1 : MeDevice = record o {
          own = record (o.own) { resp_status = resp_ok; pending = is_given resp };
        }
        at_vprintfln behind o1 cmd
        elim (cleared resp) [ none ↦ finish ldal_eok o1 none | some r ↦ await_response o1 r ]

  -- `at_obj_exec_cmd` of a handle that may be NULL.
  unfoldable pub exec_handle :
      Option MeDevice → Option Response → Bytes → Io (ℤ × Option MeDevice × Option Response)
  exec_handle none resp cmd = pure (neg ldal_error, none, resp)
  exec_handle (some o) resp cmd = do
    (result, o', resp') ← at_obj_exec_cmd o resp cmd
    pure (result, some o', resp')
