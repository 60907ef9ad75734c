-- ===== src/Server/Tests.antt =====
-- A board with one device, and a /proc with a version.
use ldal.Base.{
  List, ℕ, pos, ◌+◌, ◌≡◌, ◌<◌, ◌≤◌, ◌⊎◌, ◌++◌, ◌==◌, true, false, refl, arith, [], ◌∷◌,
  if◌then◌else◌, replicate, codes, length, some, is_neg,
}
use ldal.Kernel.{pure, Env, proc_lock, unlock, close_fd, read_fd}
use ldal.Device.{Device}
use ldal.Device.Mutex.{held}
use ldal.ListHead.{null}
use ldal.Registry.{gpio, Registry, zeroed, ok, crash}
use ldal.Registry.Lookup.{IsValid}
use ldal.Server.{
  cmd_buff_size, list_all, string, null_reply, list_device, read_proc, endstring, proc_buff_size,
}
use ldal.Server.Devices.{lines_of, list_device-lines_of}
use ldal.Server.Serve.{
  joined, list_all-joined, JsonServer, ProcedureEntry, KeepsTable, started, entries, started-table,
}
use ldal.Server.Procedures.{asked, proc_fd, proc_text, read_proc-held}

abbrev led : Device
led = record zeroed {
  name = codes "led" ++ replicate 29 0;
  filename = codes "led_gpio";
  is_init = true;
}

abbrev loop_of : (head node : ℕ) → ℕ → ℕ
loop_of head node q = if q == head then node else if q == node then head else null

-- The class GPIO at 5 and its device "led" at 10.
abbrev board : Registry
board = record {
  class_links = record { next = loop_of 1 5; prev = loop_of 1 5 };
  device_links = record { next = loop_of 2 10; prev = loop_of 2 10 };
  class_id = λ q. gpio;
  device = λ q. led;
  class = λ q. 5;
  user_data = λ q. q;
  pos = λ q. pos 0;
  device_num = 1;
  allocated = 0;
}

board-IsValid : IsValid (5 ∷ []) (10 ∷ []) board
board-IsValid = record {
  classes = record { linked = (refl, refl, (refl, refl)); apart = refl; non_null = refl };
  devices = record { linked = (refl, refl, (refl, refl)); apart = refl; non_null = refl };
  counted = refl;
}

list_device-lines_of_example : list_device 4 board ≡ ok (string (lines_of board (10 ∷ [])))
list_device-lines_of_example =
    list_device-lines_of 4 board (5 ∷ []) (10 ∷ []) board-IsValid ((codes "GPIO Device", refl), _)
      (omega arith) (omega arith)

abbrev answering : Env
answering h c = record {
  ret = elim c [ read_fd _ _ ↦ pos 5 | _ ↦ pos 3 ];
  payload = codes "Linux";
  errno = 0;
}

read_proc-held_example :
    let (reply, h') = read_proc (some (codes "version")) answering [] in
    let fd = proc_fd (codes "version") answering [] in
    let s = proc_text (codes "version") fd answering [] in
    (held proc_lock h' ≡ held proc_lock [])
    × (((is_neg fd ≡ true) × (reply ≡ ok null_reply))
        ⊎ ((is_neg fd ≡ false)
            × (h'
                ≡ unlock proc_lock
                  ∷ close_fd fd
                  ∷ read_fd fd proc_buff_size
                  ∷ asked (codes "version") [])
            × (((length s + length endstring < proc_buff_size)
                  × (reply ≡ ok (string (s ++ endstring))))
                ⊎ ((proc_buff_size ≤ length s + length endstring) × (reply ≡ crash)))))
read_proc-held_example = read_proc-held (codes "version") answering []

list_all-joined_example :
    let s = joined (codes "add" ∷ []) ++ endstring in
    ((length s < cmd_buff_size) × (list_all (codes "add" ∷ []) ≡ ok (string s)))
    ⊎ ((cmd_buff_size ≤ length s) × (list_all (codes "add" ∷ []) ≡ crash))
list_all-joined_example = list_all-joined (codes "add" ∷ [])

-- A server that is its table, and that stops at once.
abbrev listed : JsonServer (List ProcedureEntry)
listed = record {
  init = λ port. [];
  register = λ s p. s ++ p ∷ [];
  table = λ s. s;
  serve = pure;
  destroy = λ s. pure tt;
}

listed-KeepsTable : KeepsTable listed
listed-KeepsTable = record { table-init = λ n. refl; table-register = λ s p. refl }

listed_started : listed.table (started listed) ≡ entries
listed_started = started-table listed listed-KeepsTable
