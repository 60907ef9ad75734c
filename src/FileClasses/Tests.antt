-- ===== src/FileClasses/Tests.antt =====
-- A queue of bytes as a ring buffer, and devices on it.
use ldal.Base.{
  ℕ, ◌-◌, ◌+◌, pos, true, ◌≡◌, refl, Option, some, [], ◌∷◌, ◌++◌, arith, length, take, drop, min,
}
use ldal.Kernel.{Bytes, Env}
use ldal.FileClasses.Gpio.{FileDevice}
use ldal.FileClasses.Memory.{
  RingBuffer, IsQueue, Slot, null_slot, live, memory_open, memory_read, memory_write,
}
use ldal.FileClasses.Results.{memory_read-memory_write}

-- The bytes, and the free space.
abbrev queue : RingBuffer
queue = record {
  Ring = Bytes × ℕ;
  create = λ n. some ([], n);
  put = λ r s. let size = min (length s) r.1 in (size, (r.0 ++ take size s, r.1 - size));
  get = λ r n. (take n r.0, (drop n r.0, r.1 + min n (length r.0)));
  contents = λ r. r.0;
  space = λ r. r.1;
}

made_space :
    (n m : ℕ) (b : Bytes) → ◌≡◌ {A = Option (Bytes × ℕ)} (some ([], n)) (some (b, m)) → m ≡ n
made_space n m b p = cc

made_empty :
    (n m : ℕ) (b : Bytes) → ◌≡◌ {A = Option (Bytes × ℕ)} (some ([], n)) (some (b, m)) → b ≡ []
made_empty n m b p = cc

queue-IsQueue : IsQueue queue
queue-IsQueue = record {
  create_contents = λ n r p. made_empty n r.1 r.0 p;
  create_space = λ n r whole small p. made_space n r.1 r.0 p;
  put_size = λ r s small. refl;
  put_contents = λ r s small. refl;
  get_bytes = λ r n small. refl;
  get_contents = λ r n small. refl;
}

memory_read-memory_write_example :
    (t : Slot queue) × (memory_write queue (live ([], 4096)) (1 ∷ 2 ∷ 3 ∷ []) ≡ some (pos 3, t))
    × ((u : Slot queue) × (memory_read queue t 2 ≡ some (pos 2, 1 ∷ 2 ∷ [], u)))
unfolding memory_open
memory_read-memory_write_example =
    memory_read-memory_write queue queue-IsQueue null_slot (live ([], 4096)) (1 ∷ 2 ∷ 3 ∷ []) 2 refl
      (omega arith) (omega arith)

abbrev output : FileDevice
output = record {
  device = record { fd = pos 3; name = []; filename = []; is_init = true; ref = 0 };
  own = tt;
}

abbrev well : Env
well h c = record { ret = pos 0; payload = []; errno = 0 }
