-- ===== src/Registry/Tests.antt =====
-- A registry with two classes and one device.
use ldal.Base.{
  length, ◌+◌, ◌⊎◌, List, ℕ, pos, true, false, ◌≡◌, refl, arith, Option, some, [], ◌∷◌, ◌++◌, ◌==◌,
  if◌then◌else◌, ldal_eok, replicate,
}
use ldal.Kernel.{Bytes}
use ldal.Device.{Device}
use ldal.ListHead.{null}
use ldal.Registry.{ClassId, gpio, serial, Registry, ok, crash, zeroed, strncmp_zero, get_by_name}
use ldal.Registry.Lookup.{IsValid, get_by_name-first}
use ldal.Registry.Created.{Fresh, Apart, IsEntry}
use ldal.Registry.Table.{Ends, device_create-Ends}
use ldal.Registry.Enroll.{TableEntry, device_create, device_register, device_unregister}
use ldal.Registry.Enrolled.{IsEnrolled, KeepsName, device_register-new}
use ldal.Registry.Startup.{loaded, start_up, IsApart}
use ldal.Registry.Ready.{start_up-device_create}
use ldal.Registry.Removed.{device_unregister-erase}
use ldal.Registry.Invariant.{FreshClass, device_register-IsValid}

abbrev uart1 : Bytes
uart1 = b'u' ∷ b'a' ∷ b'r' ∷ b't' ∷ b'1' ∷ []

abbrev uart : Bytes
uart = b'u' ∷ b'a' ∷ b'r' ∷ b't' ∷ []

abbrev led : Bytes
led = b'l' ∷ b'e' ∷ b'd' ∷ []

abbrev uart1_device : Device
uart1_device = record zeroed { name = uart1 ++ replicate 27 0; is_init = true }

abbrev loop_of : (head node : ℕ) → ℕ → ℕ
loop_of head node q = if q == head then node else if q == node then head else null

-- The class GPIO at 5, the device "uart1" at 10; address 11 is a device that is not registered.
abbrev board : Registry
board = record {
  class_links = record { next = loop_of 1 5; prev = loop_of 1 5 };
  device_links = record { next = loop_of 2 10; prev = loop_of 2 10 };
  class_id = λ q. gpio;
  device = λ q. if q == 10 then uart1_device else zeroed;
  class = λ q. 5;
  user_data = λ q. q;
  pos = λ q. pos 0;
  device_num = 1;
  allocated = 0;
}

board-IsValid : IsValid (5 ∷ []) (10 ∷ []) board
board-IsValid = record {
  classes = record { linked = (refl, refl, (refl, refl)); apart = refl; non_null = refl };
  devices = record { linked = (refl, refl, (refl, refl)); apart = refl; non_null = refl };
  counted = refl;
}

abbrev calloc : ℕ → Option ℕ
calloc n = some 20

abbrev init : ClassId → Device → Device
init c d = d

keeps : KeepsName 4 calloc init
keeps = record { keeps_name = λ c d. refl; keeps_ref = λ c d. refl }

get_by_name-first_example : get_by_name 4 calloc init uart board ≡ ok (some 10)
unfolding strncmp_zero
get_by_name-first_example = get_by_name-first 4 calloc init board-IsValid uart (omega arith)

device_register-new_example :
    (r' : Registry) × (device_register 4 calloc init 11 led led gpio 11 board ≡ ok (ldal_eok, r'))
    × IsValid (5 ∷ []) (10 ∷ 11 ∷ []) r'
    × IsEnrolled 4 calloc init 11 5 11 led board r'
    × (get_by_name 4 calloc init led r' ≡ ok (some 11))
unfolding strncmp_zero
device_register-new_example =
    device_register-new 4 calloc init 11 5 11 led led gpio keeps board-IsValid (omega arith)
      (omega arith) refl (omega arith) (omega arith) refl refl

device_unregister-erase_example :
    (r' : Registry) × (device_unregister 4 calloc init 10 board ≡ ok (ldal_eok, r'))
    × IsValid (5 ∷ []) [] r'
    × (r'.device ≡ board.device)
    × (device_unregister 4 calloc init 10 r' ≡ crash)
device_unregister-erase_example = device_unregister-erase 4 calloc init board-IsValid 10 refl refl

fresh_classes : FreshClass 4 calloc init (5 ∷ []) board
fresh_classes c p = ground arith

device_register-IsValid_example :
    (r' : Registry) × (device_register 4 calloc init 11 led led serial 11 board ≡ ok (ldal_eok, r'))
    × ((cs' : List ℕ) × (xs' : List ℕ) × IsValid cs' xs' r'
        × (((xs' ≡ 10 ∷ []) × ((r'.device 11).is_init ≡ false))
            ⊎ ((xs' ≡ 10 ∷ 11 ∷ []) × ((r'.device 11).is_init ≡ true))))
device_register-IsValid_example =
    device_register-IsValid 4 calloc init 11 11 led led serial keeps board-IsValid fresh_classes
      (omega arith) (omega arith) refl (omega arith) (omega arith) (omega arith)

abbrev callocs : ℕ → Option ℕ
callocs n = some (20 + n)

keeps_all : KeepsName 8 callocs init
keeps_all = record { keeps_name = λ c d. refl; keeps_ref = λ c d. refl }

apart : Apart 8 callocs init
apart n k p is is' = ground arith

fresh : Fresh 8 callocs init (10 ∷ []) board
fresh n p later is = ground arith

abbrev led_entry : TableEntry
led_entry = record { device_name = led; file_name = led; class_id = gpio; private_data = pos 0 }

abbrev uart_entry : TableEntry
uart_entry = record { device_name = uart; file_name = led; class_id = gpio; private_data = pos 0 }

led_entry-IsEntry : IsEntry 8 callocs init (5 ∷ []) board led_entry
led_entry-IsEntry = record {
  class = 5;
  in_library = refl;
  has_class = refl;
  fits = omega arith;
  fits_file = omega arith;
}

uart_entry-IsEntry : IsEntry 8 callocs init (5 ∷ []) board uart_entry
uart_entry-IsEntry = record {
  class = 5;
  in_library = refl;
  has_class = refl;
  fits = omega arith;
  fits_file = omega arith;
}

device_create-Ends_example :
    Ends 8 callocs init
      (5 ∷ [])
      (10 ∷ [])
      (led_entry ∷ uart_entry ∷ [])
      board
      (device_create 8 callocs init (led_entry ∷ uart_entry ∷ []) board)
device_create-Ends_example =
    device_create-Ends 8 callocs init led_entry (uart_entry ∷ []) keeps_all apart board-IsValid
      fresh (led_entry-IsEntry, (uart_entry-IsEntry, _)) (omega arith) (omega arith)

apart_lists : IsApart 8 callocs init
apart_lists n p is = ground arith

start_up-device_create_example :
    (r : Registry) × (cs : List ℕ) × (start_up 8 callocs init (serial ∷ gpio ∷ []) loaded ≡ ok r)
    × (length cs ≡ 2)
    × Ends 8 callocs init cs []
        (led_entry ∷ uart_entry ∷ [])
        r
        (device_create 8 callocs init (led_entry ∷ uart_entry ∷ []) r)
start_up-device_create_example =
    start_up-device_create 8 callocs init (serial ∷ gpio ∷ []) led_entry (uart_entry ∷ []) keeps_all
      apart apart_lists (λ n below. (20 + n, refl)) (refl, (refl, _))
      (refl, refl, omega arith, omega arith, (refl, refl, omega arith, omega arith, _))
      (omega arith) (omega arith)
