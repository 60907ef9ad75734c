-- ===== src/Server/Serve.antt =====
-- The start of the monitor server in src/server.c, its table of procedures, and what each replies.
-- The table is that of jsonrpc-c.
use ldal.Base.{
  ℕ, ◌≤◌, ◌<◌, ◌≡◌, refl, sym, ◌∙◌, ap, ◌⊎◌, inl, inr, ℤ, pos, Bool-cases, Option, none, some, List,
  [], ◌∷◌, ◌++◌, ltb, if◌then◌else◌, arith, length, length-append, codes,
}
use mathlib.Core.List.{append_assoc, append-nil}
use ldal.Kernel.{Bytes, spawn, Io, pure, call, ◌>>=◌, ◌>>◌}
use ldal.Registry.{Outcome, ok, crash}
use ldal.Server.{string, cmd_buff_size, endstring, bind, reply, strcat, list_names, list_all}

abbrev pub port : ℕ
port = 1601

-- The functions that the server offers.
pub data Procedure : Type 0 where
  hello uptime methods devices proc sum fetch quit : Procedure

-- `struct jrpc_procedure`: a name, a function and its data.
abbrev pub ProcedureEntry : Type 0
ProcedureEntry = Bytes × Procedure × Option Bytes

-- What the code uses of jsonrpc-c.
pub record JsonServer (S : Type 0) : Type 0 where
  pub init : ℕ → S
  pub register : S → ProcedureEntry → S
  pub table : S → List ProcedureEntry
  pub serve : S → Io S
  pub destroy : S → Io (Unit {0})

-- A new server has no procedure, and a registered one stands at the end of its table.
pub record KeepsTable {S : Type 0} (j : JsonServer S) : Type 0 where
  pub table-init : (n : ℕ) → j.table (j.init n) ≡ []
  pub table-register : (s : S) (p : ProcedureEntry) → j.table (j.register s p) ≡ j.table s ++ p ∷ []

abbrev pub entries : List ProcedureEntry
entries =
    (codes "sayHello", hello, none)
    ∷ (codes "getUptime", uptime, none)
    ∷ (codes "listAllMethod", methods, none)
    ∷ (codes "listAllDevice", devices, none)
    ∷ (codes "getProcVersion", proc, some (codes "version"))
    ∷ (codes "add", sum, none)
    ∷ (codes "download", fetch, none)
    ∷ (codes "exit", quit, none)
    ∷ []

module _ {S : Type 0} (j : JsonServer S) where
  unfoldable pub register_all : List ProcedureEntry → S → S
  register_all [] s = s
  register_all (p ∷ ps) s = register_all ps (j.register s p)

  -- The server when `serve_thread_entry` lets it run.
  unfoldable pub started : S
  unfolding register_all
  started = register_all entries (j.init port)

  unfoldable pub serve_thread_entry : Io (Unit {0})
  unfolding started
  serve_thread_entry = do s ← j.serve started; j.destroy s

-- The thread that is created runs `serve_thread_entry`; whether it was created is not looked at.
unfoldable pub establish_serve : Io ℤ
establish_serve = do call spawn; pure (pos 0)

-- The names, each with a space behind it.
abbrev pub joined : List Bytes → Bytes
joined [] = []
joined (n ∷ ns) = n ++ (32 ∷ joined ns)

-- The text, if it fits the buffer with its NUL.
abbrev in_buffer : Bytes → Outcome Bytes
in_buffer s = if ltb (length s) cmd_buff_size then ok s else crash

strcat-fitted : (buf s : Bytes) → strcat cmd_buff_size buf s ≡ in_buffer (buf ++ s)
strcat-fitted buf s = rw (length-append buf s) refl

-- What does not fit does not fit with more behind it.
bind-fitted :
    (x t : Bytes) (k : Bytes → Outcome Bytes)
    → k x ≡ in_buffer (x ++ t)
    → bind (in_buffer x) k ≡ in_buffer (x ++ t)
bind-fitted x t k next = elim (Bool-cases (ltb (length x) cmd_buff_size)) [
  | inl fits ↦ rw fits next
  | inr past ↦ rw past (ground (arith, past, length-append x t))
]

joined-append : (buf n s t : Bytes) → (buf ++ n) ++ (32 ∷ (s ++ t)) ≡ buf ++ ((n ++ (32 ∷ s)) ++ t)
joined-append buf n s t = simp append_assoc refl

list_names-fitted :
    (names : List Bytes) (buf : Bytes)
    → list_names names buf ≡ in_buffer (buf ++ (joined names ++ endstring))
unfolding list_names
list_names-fitted [] buf = strcat-fitted buf endstring
list_names-fitted (n ∷ ns) buf =
    let rest = joined ns ++ endstring in
    let one = buf ++ n in
    let two = one ++ (32 ∷ []) in
    let last : bind (in_buffer two) (list_names ns) ≡ in_buffer (two ++ rest) =
      bind-fitted two rest (list_names ns) (list_names-fitted ns two) in
    let spaced : bind (strcat cmd_buff_size one (32 ∷ [])) (list_names ns)
        ≡ in_buffer (one ++ (32 ∷ rest)) =
      rw (strcat-fitted one (32 ∷ [])) (last ∙ ap in_buffer (append_assoc one (32 ∷ []) rest)) in
    rw (strcat-fitted buf n) (
      bind-fitted one (32 ∷ rest) (λ b. bind (strcat cmd_buff_size b (32 ∷ [])) (list_names ns))
        spaced
      ∙ ap in_buffer (joined-append buf n (joined ns) endstring))

list_all-cases :
    (s : Bytes)
    → ((length s < cmd_buff_size) × (reply (in_buffer s) ≡ ok (string s)))
      ⊎ ((cmd_buff_size ≤ length s) × (reply (in_buffer s) ≡ crash))
list_all-cases s = elim (Bool-cases (ltb (length s) cmd_buff_size)) [
  | inl fits ↦ inl (ground (arith, fits), rw fits refl)
  | inr past ↦ inr (ground (arith, past), rw past refl)
]

-- The names are returned in their order, each with a space behind it, and the end mark behind them,
-- if all that is shorter than the buffer; if not, the text is written past the end of the buffer.
pub list_all-joined :
    (names : List Bytes)
    → let s = joined names ++ endstring in
      ((length s < cmd_buff_size) × (list_all names ≡ ok (string s)))
      ⊎ ((cmd_buff_size ≤ length s) × (list_all names ≡ crash))
unfolding list_all
list_all-joined names = rw (list_names-fitted names []) (list_all-cases (joined names ++ endstring))

module _ {S : Type 0} (j : JsonServer S) (k : KeepsTable j) where
  register_all-table :
      (ps : List ProcedureEntry) (s : S) → j.table (register_all j ps s) ≡ j.table s ++ ps
  unfolding register_all
  register_all-table [] s = sym (append-nil (j.table s))
  register_all-table (p ∷ ps) s =
      register_all-table ps (j.register s p)
      ∙ rw (k.table-register s p) (append_assoc (j.table s) (p ∷ []) ps)

  -- The server that is let run offers its procedures in the order of their registration.
  pub started-table : j.table (started j) ≡ entries
  unfolding started
  started-table =
      register_all-table entries (j.init port) ∙ ap (λ t. t ++ entries) (k.table-init port)
