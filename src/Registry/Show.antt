-- ===== src/Registry/Show.antt =====
-- `ldal_show_device_list` of src/ldal.c: the lines that are printed when the program ends.
use ldal.Base.{ℕ, zero, suc, none, some, List, [], ◌∷◌, ◌++◌, ◌==◌, if◌then◌else◌, codes}
use ldal.Kernel.{Bytes}
use ldal.ListHead.{null}
use ldal.Socket.{text_of}
use ldal.Registry.{class_label, device_list, Registry, Outcome, ok, crash, lost, name_bytes}

-- `printf("!_ %s: %s -> %s\n", ...)`
abbrev pub show_line : Registry → ℕ → Bytes → Bytes
show_line r p label =
    codes "!_ "
    ++ (label
        ++ (codes ": "
            ++ (text_of (name_bytes (r.device p))
                ++ (codes " -> " ++ (text_of (r.device p).filename ++ (10 ∷ []))))))

abbrev then_line : Bytes → Outcome (List Bytes) → Outcome (List Bytes)
then_line s (ok ls) = ok (s ∷ ls)
then_line s crash = crash
then_line s lost = lost

-- The lines of the loop of `ldal_show_device_list` from a node on.
unfoldable pub show_from : ℕ → Registry → ℕ → Outcome (List Bytes)
show_from zero r node = lost
show_from (suc fuel) r node =
    let rest = show_from fuel r (r.device_links.next node) in
    if node == device_list
    then ok []
    else if node == null
    then crash
    else elim (class_label (r.class_id (r.class node))) [
      | none ↦ crash
      | some label ↦ then_line (show_line r node label) rest
    ]

-- `ldal_show_device_list`
unfoldable pub show_device_list : ℕ → Registry → Outcome (List Bytes)
unfolding show_from
show_device_list fuel r = show_from fuel r (r.device_links.next device_list)
