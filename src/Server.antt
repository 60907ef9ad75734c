-- ===== src/Server.antt =====
-- src/server.c: the procedures of the monitor server. The server loop and the JSON values are those
-- of jsonrpc-c and cJSON; a procedure's parameters are the items of an array, and its result is what
-- the code asks cJSON to create.
pub mod Devices
pub mod Procedures
pub mod Serve
mod Tests
use ldal.Base.{
  ℕ, zero, suc, ◌+◌, ◌-◌, ◌*◌, ◌/◌, ℤ, pos, negsuc, ◌+ℤ◌, is_neg, is_zero, Option, none, some, List,
  [], ◌∷◌, ◌++◌, ltb, ◌==◌, if◌then◌else◌, take, length, codes, same_text,
}
use ldal.Kernel.{
  Bytes, proc_lock, lock, unlock, o_rdonly, open_file, close_fd, read_fd, sys_info, system,
  stop_server, Io, pure, call, ◌>>=◌, ◌>>◌,
}
use ldal.ListHead.{null}
use ldal.Socket.{text_of, print_digits}
use ldal.Registry.{class_label, device_list, Registry, Outcome, ok, crash, lost, name_bytes}

pub data Json : Type 0 where
  null_reply : Json
  string : Bytes → Json
  number : ℤ → Json
  int_array : List ℕ → Json

-- A `cJSON` of the parameters.
pub record Item : Type 0 where
  pub valueint : ℤ
  pub valuestring : Bytes

abbrev pub proc_buff_size : ℕ
proc_buff_size = 8192

abbrev pub cmd_buff_size : ℕ
cmd_buff_size = 16384

abbrev pub endstring : Bytes
endstring = codes "eastendstring"

abbrev pub say_hello : Json
say_hello = string (codes "Hello!")

-- `none` is an access through NULL: an item that is missing. The sum wraps around beyond 32 bits,
-- which is left out.
unfoldable pub add : List Item → Option Json
add (a ∷ b ∷ items) = some (number (a.valueint +ℤ b.valueint))
add _ = none

-- Days, hours and minutes of a number of seconds.
unfoldable pub days_hours_mins : ℕ → ℕ × ℕ × ℕ
days_hours_mins uptime =
    let days = uptime / 86400 in
    let hours = uptime / 3600 - days * 24 in
    let mins = uptime / 60 - days * 1440 - hours * 60 in (days, hours, mins)

-- `uptime_of` reads `uptime` from what `sysinfo` stores.
unfoldable pub get_uptime : (Bytes → ℕ) → Io Json
unfolding days_hours_mins
get_uptime uptime_of = do
  info ← call sys_info
  let (days, hours, mins) = days_hours_mins (uptime_of info.payload)
  pure (if is_zero info.ret then int_array (days ∷ hours ∷ mins ∷ []) else string (codes "null"))

-- The checksum and the path are only printed, where LDAL_DEBUG is set. The command is cut to
-- `strlen(url) + 10` bytes with its NUL, which it fits.
unfoldable pub download : List Item → Io (Option Json)
download (url ∷ items) = do
  call (system (take (length url.valuestring + 9) (codes "wget " ++ url.valuestring)))
  pure (some (string (codes "Ok")))
download [] = pure none

-- An entry of `lookup_table`: its name, or NULL at the end of the table.
abbrev pub Entry : Type 0
Entry = Option Bytes

abbrev pub lookup_table : List Entry
lookup_table = some (codes "proc") ∷ none ∷ []

-- The index of the entry of a name. `crash` is a table without an end.
unfoldable pub lookup_func : List Entry → ℕ → Bytes → Outcome (Option ℕ)
lookup_func [] i name = crash
lookup_func (none ∷ table) i name = ok none
lookup_func (some n ∷ table) i name =
    if same_text name n then ok (some i) else lookup_func table (i + 1) name

-- `strcat(buf, s)` in a buffer of `size` bytes: `crash` writes past its end.
abbrev pub strcat : ℕ → Bytes → Bytes → Outcome Bytes
strcat size buf s = if ltb (length buf + length s) size then ok (buf ++ s) else crash

abbrev pub reply : Outcome Bytes → Outcome Json
reply (ok s) = ok (string s)
reply crash = crash
reply lost = lost

-- The text in a zeroed buffer after a `read` of `n` bytes.
abbrev pub filled : ℤ → Bytes → Bytes
filled (pos n) bytes = text_of (take n bytes)
filled (negsuc n) bytes = []

-- `file` is the path below /proc, registered with the procedure; NULL if there is none.
unfoldable pub read_proc : Option Bytes → Io (Outcome Json)
read_proc none = pure (ok null_reply)
read_proc (some path) = do
  call (lock proc_lock)
  fd ← call (open_file (take 49 (codes "/proc/" ++ path)) (o_rdonly ∷ []))
  if is_neg fd.ret then (do call (unlock proc_lock); pure (ok null_reply)) else do
    r ← call (read_fd fd.ret proc_buff_size)
    call (close_fd fd.ret)
    call (unlock proc_lock)
    pure (reply (strcat proc_buff_size (filled r.ret r.payload) endstring))

-- The names that `serve_thread_entry` registers.
abbrev pub procedures : List Bytes
procedures =
    codes "sayHello"
    ∷ codes "getUptime"
    ∷ codes "listAllMethod"
    ∷ codes "listAllDevice"
    ∷ codes "getProcVersion"
    ∷ codes "add"
    ∷ codes "download"
    ∷ codes "exit"
    ∷ []

abbrev pub bind : {A B : Type 0} → Outcome A → (A → Outcome B) → Outcome B
bind (ok a) k = k a
bind crash k = crash
bind lost k = lost

unfoldable pub list_names : List Bytes → Bytes → Outcome Bytes
list_names [] buf = strcat cmd_buff_size buf endstring
list_names (name ∷ names) buf =
    bind (strcat cmd_buff_size buf name)
      λ b. bind (strcat cmd_buff_size b (32 ∷ [])) λ b'. list_names names b'

unfoldable pub list_all : List Bytes → Outcome Json
unfolding list_names
list_all names = reply (list_names names [])

abbrev pub result_size : ℕ
result_size = 4096

-- `snprintf(buffer, 128, "%s: %s, %s, %d\n", ...)`
unfoldable pub device_line : Registry → ℕ → Bytes → Bytes
device_line r p label = take 127 (
    label
    ++ (codes ": "
        ++ (text_of (name_bytes (r.device p))
            ++ (codes ", "
                ++ (text_of (r.device p).filename
                    ++ (codes ", " ++ (print_digits 5 (r.device p).ref ++ (10 ∷ []))))))))

-- The loop of `list_device` from a node on.
unfoldable pub list_from : ℕ → Registry → ℕ → Bytes → Outcome Bytes
unfolding device_line
list_from zero r node result = lost
list_from (suc fuel) r node result =
    if node == device_list
    then ok result
    else if node == null
    then crash
    else elim (class_label (r.class_id (r.class node))) [
      | none ↦ crash
      | some label ↦
          bind (strcat result_size result (device_line r node label))
            λ result'. list_from fuel r (r.device_links.next node) result'
    ]

unfoldable pub list_device : ℕ → Registry → Outcome Json
unfolding list_from
list_device fuel r = reply (list_from fuel r (r.device_links.next device_list) [])

unfoldable pub exit_server : Io Json
exit_server = do call stop_server; pure (string (codes "Bye!"))
