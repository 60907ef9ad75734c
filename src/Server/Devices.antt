-- ===== src/Server/Devices.antt =====
-- What `list_device` prints of the registered devices.
use ldal.Base.{
  ℕ, zero, suc, ◌+◌, ◌*◌, ◌≤◌, ◌<◌, ◌≡◌, refl, ◌∙◌, ap, sym, ◌==◌, false, none, some, List, [], ◌∷◌,
  ◌++◌, arith, length, length-append, length-take,
}
use mathlib.Core.List.{append-nil, append_assoc}
use ldal.Kernel.{Bytes}
use ldal.ListHead.{null}
use ldal.ListHead.Linked.{has, Linked}
use ldal.Registry.{device_list, Registry, ok}
use ldal.Registry.Lookup.{IsValid}
use ldal.Server.{string, class_label, device_line, list_from, list_device, result_size, strcat}

-- The line of a device, and those of many.
abbrev pub line_of : Registry → ℕ → Bytes
line_of r p = elim (class_label (r.class_id (r.class p))) [ none ↦ [] | some l ↦ device_line r p l ]

abbrev pub lines_of : Registry → List ℕ → Bytes
lines_of r [] = []
lines_of r (p ∷ ps) = line_of r p ++ lines_of r ps

-- The classes of the devices are in the enumeration.
abbrev pub Labelled : Registry → List ℕ → Type 0
Labelled r [] = Unit {0}
Labelled r (p ∷ ps) =
    ((l : Bytes) × (class_label (r.class_id (r.class p)) ≡ some l)) × Labelled r ps

length-device_line : (r : Registry) (p : ℕ) (l : Bytes) → length (device_line r p l) ≤ 127
unfolding device_line
length-device_line r p l = omega (arith, length-take {0} 127)

strcat-append :
    (size : ℕ) (buf s : Bytes) → length buf + length s < size → strcat size buf s ≡ ok (buf ++ s)
strcat-append size buf s h = ground arith

-- One round of the loop, at a device.
list_from-step :
    (fuel : ℕ) (r : Registry) (x : ℕ) (label result : Bytes)
    → (x == device_list) ≡ false
    → (x == null) ≡ false
    → class_label (r.class_id (r.class x)) ≡ some label
    → length result + 127 < result_size
    → list_from (suc fuel) r x result
      ≡ list_from fuel r (r.device_links.next x) (result ++ device_line r x label)
unfolding list_from
list_from-step fuel r x label result apart real is room = rw (
  apart,
  real,
  is,
  strcat-append result_size result (device_line r x label)
      (omega (arith, length-device_line r x label)),
)

list_from-end :
    (fuel : ℕ) (r : Registry) (result : Bytes)
    → list_from (suc fuel) r device_list result ≡ ok result
unfolding list_from
list_from-end fuel r result = refl

line_of-label :
    (r : Registry) (p : ℕ) (label : Bytes)
    → class_label (r.class_id (r.class p)) ≡ some label
    → line_of r p ≡ device_line r p label
line_of-label r p label is = rw (line_of, is)

list_from-lines_of :
    (fuel : ℕ) (r : Registry) (a : ℕ) (xs : List ℕ) (result : Bytes)
    → Linked r.device_links a xs device_list
    → has device_list xs ≡ false
    → has null xs ≡ false
    → Labelled r xs
    → length xs < fuel
    → length result + 127 * length xs < result_size
    → list_from fuel r (r.device_links.next a) result ≡ ok (result ++ lines_of r xs)
list_from-lines_of zero r a xs result h out apart named f room = absurd (omega arith)
list_from-lines_of (suc fuel) r a [] result h out apart named f room =
    rw (h.0, list_from-end, append-nil)
list_from-lines_of (suc fuel) r a (x ∷ xs) result h out apart named f room =
    let (label, is) = named.0 in
    let line = device_line r x label in
    let fits : length line ≤ 127 = length-device_line r x label in
    let grown : length (result ++ line) ≡ length result + length line = length-append result line in
    ap (λ n. list_from (suc fuel) r n result) h.0
    ∙ list_from-step fuel r x label result (ground arith) (ground arith) is (omega arith)
    ∙ list_from-lines_of fuel r x xs (result ++ line) h.2 (ground arith) (ground arith) named.1
        (omega arith) (omega arith)
    ∙ ap ok (append_assoc result line (lines_of r xs))
    ∙ ap (λ l. ok (result ++ (l ++ lines_of r xs))) (sym (line_of-label r x label is))

-- On well formed lists of at most 32 devices, whose classes are in the enumeration, the procedure
-- prints a line for each device, in their order, and writes nothing outside its buffers, with fuel
-- above the number of devices.
pub list_device-lines_of :
    (fuel : ℕ) (r : Registry) (cs xs : List ℕ)
    → IsValid cs xs r
    → Labelled r xs
    → length xs ≤ 32
    → length xs < fuel
    → list_device fuel r ≡ ok (string (lines_of r xs))
unfolding list_device
list_device-lines_of fuel r cs xs v named few f = rw (
    list_from-lines_of fuel r device_list xs [] v.devices.linked (ground (arith, v.devices))
      (ground (arith, v.devices)) named f (omega arith))
