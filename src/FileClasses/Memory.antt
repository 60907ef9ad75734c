-- ===== src/FileClasses/Memory.antt =====
-- src/class/ldal_memory.c: data in a ring buffer. The ring buffer (src/ringbuffer.c, a copy of the
-- one of RT-Thread) is a parameter: its operations, with what they promise of its contents.
use ldal.Base.{
  ℕ, ◌%◌, ◌^◌, ◌<◌, ◌≡◌, ℤ, pos, neg, ldal_eok, ldal_error, ldal_enomem, Option, none, some, [],
  ◌++◌, take, drop, length, min,
}
use ldal.Kernel.{Bytes}

pub record RingBuffer : Type 1 where
  pub Ring : Type 0
  pub create : ℕ → Option Ring
  pub put : Ring → Bytes → ℕ × Ring
  pub get : Ring → ℕ → Bytes × Ring
  pub contents : Ring → Bytes
  pub space : Ring → ℕ

-- A ring buffer is a bounded queue: `put` appends what fits, `get` takes from the front. A size is
-- kept as it is asked for if it is a multiple of the alignment and below 32 KB, and
-- lengths have 16 bits.
pub record IsQueue (b : RingBuffer) : Type 0 where
  pub create_contents : (n : ℕ) (r : b.Ring) → b.create n ≡ some r → b.contents r ≡ []
  pub create_space :
      (n : ℕ) (r : b.Ring) → n % 4 ≡ 0 → n < 2 ^ 15 → b.create n ≡ some r → b.space r ≡ n
  pub put_size :
      (r : b.Ring) (s : Bytes) → length s < 2 ^ 16 → (b.put r s).0 ≡ min (length s) (b.space r)
  pub put_contents :
      (r : b.Ring) (s : Bytes)
      → length s < 2 ^ 16
      → b.contents (b.put r s).1 ≡ b.contents r ++ take (b.put r s).0 s
  pub get_bytes : (r : b.Ring) (n : ℕ) → n < 2 ^ 16 → (b.get r n).0 ≡ take n (b.contents r)
  pub get_contents :
      (r : b.Ring) (n : ℕ) → n < 2 ^ 16 → b.contents (b.get r n).1 ≡ drop n (b.contents r)

abbrev pub default_mem_size : ℕ
default_mem_size = 4096

module _ (b : RingBuffer) where
  -- `mem->user_data`: NULL, a ring buffer, or the address of one that was freed.
  pub data Slot : Type 0 where
    null_slot : Slot
    live : b.Ring → Slot
    freed : Slot

  unfoldable pub memory_open : Slot → ℤ × Slot
  memory_open s = elim (b.create default_mem_size) [
    | none ↦ (neg ldal_enomem, s)
    | some r ↦ (ldal_eok, live r)
  ]

  -- `none` is an access to freed memory. The pointer stays when the ring buffer is freed.
  unfoldable pub memory_close : Slot → Option (ℤ × Slot)
  memory_close null_slot = some (ldal_eok, null_slot)
  memory_close (live r) = some (ldal_eok, freed)
  memory_close freed = none

  -- The length is cut to 16 bits where it is handed on.
  unfoldable pub memory_read : Slot → ℕ → Option (ℤ × Bytes × Slot)
  memory_read null_slot len = some (neg ldal_error, [], null_slot)
  memory_read (live r) len =
      let (bytes, r') = b.get r (len % 2 ^ 16) in some (pos (length bytes), bytes, live r')
  memory_read freed len = none

  unfoldable pub memory_write : Slot → Bytes → Option (ℤ × Slot)
  memory_write null_slot buf = some (neg ldal_error, null_slot)
  memory_write (live r) buf =
      let (size, r') = b.put r (take (length buf % 2 ^ 16) buf) in some (pos size, live r')
  memory_write freed buf = none

  unfoldable pub memory_control : Slot → ℤ × Slot
  memory_control s = (ldal_eok, s)
