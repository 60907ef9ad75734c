-- ===== src/FileClasses/Results.antt =====
-- What the classes of this folder give back.
use ldal.Base.{
  ℕ, ◌%◌, ◌^◌, ◌≤◌, ◌<◌, ◌≡◌, ◌≢◌, refl, ◌∙◌, ap, sym, ℤ, pos, ldal_eok, neg, ldal_enomem, subst,
  Option, none, some, Option-cases, inl, inr, List, [], ◌∷◌, ◌++◌, take, length, length-take, min,
  arith,
}
use ldal.Kernel.{Bytes, Env, History}
use ldal.FileClasses.Gpio.{FileDevice}
use ldal.FileClasses.Digital.{
  digital_control, do_conf_pluse_period, di_get_pluse_count, di_clr_pluse_count,
}
use ldal.FileClasses.Memory.{
  RingBuffer, IsQueue, Slot, live, memory_open, memory_read, memory_write, default_mem_size,
}

-- A digital command that the class does not know is reported as done, and nothing is called.
pub digital_control-unknown :
    (iow : ℕ → ℕ → ℕ) (o : FileDevice) (cmd : ℕ) (arg : Bytes) (e : Env) (h : History)
    → cmd ≢ di_get_pluse_count iow
    → cmd ≢ di_clr_pluse_count iow
    → cmd ≢ do_conf_pluse_period iow
    → digital_control iow o cmd arg e h ≡ ((ldal_eok, arg, o), h)
unfolding digital_control
digital_control-unknown iow o cmd arg e h a b c = grind arith

take-length : {A : Type 0} (xs : List A) → take (length xs) xs ≡ xs
take-length [] = refl
take-length (x ∷ xs) = ap (x ∷◌) (take-length xs)

module _ (b : RingBuffer) (q : IsQueue b) where
  written :
      (r : b.Ring) (buf : Bytes)
      → length buf < 2 ^ 16
      → length buf ≤ b.space r
      → (memory_write b (live r) buf ≡ some (pos (length buf), live (b.put r buf).1))
        × (b.contents (b.put r buf).1 ≡ b.contents r ++ buf)
  unfolding memory_write
  written r buf small fits =
      let cut : length buf % 2 ^ 16 ≡ length buf = omega arith in
      let size : (b.put r buf).0 ≡ length buf = q.put_size r buf small ∙ omega arith in
      (rw (cut, take-length buf, size), rw (q.put_contents r buf small, size, take-length buf))

  taken :
      (r : b.Ring) (n : ℕ)
      → n < 2 ^ 16
      → memory_read b (live r) n
        ≡ some (pos (length (take n (b.contents r))), take n (b.contents r), live (b.get r n).1)
  unfolding memory_read
  taken r n small = let cut : n % 2 ^ 16 ≡ n = omega arith in rw (cut, q.get_bytes r n small)

  not_an_error : {s s' : Slot b} → ◌≢◌ {A = ℤ × Slot b} (neg ldal_enomem, s) (ldal_eok, s')
  not_an_error p = cc

  Opened : Slot b → Slot b → Option b.Ring → Type 0
  Opened s s' c =
      ◌≡◌ {A = ℤ × Slot b} (elim c [ none ↦ (neg ldal_enomem, s) | some r ↦ (ldal_eok, live r) ])
        (ldal_eok, s')

  opened_live :
      (s s' : Slot b)
      → memory_open b s ≡ (ldal_eok, s')
      → (r : b.Ring) × (b.create default_mem_size ≡ some r) × (live r ≡ s')
  unfolding memory_open Opened
  opened_live s s' opened = elim (Option-cases (b.create default_mem_size)) [
    | inl nothing ↦ absurd (not_an_error (subst (Opened s s') nothing opened))
    | inr (r, made) ↦ (r, made, ap (λ p. p.1) (subst (Opened s s') made opened))
  ]

  Served : Bytes → ℕ → Slot b → Type 0
  Served buf n s =
      (t : Slot b) × (memory_write b s buf ≡ some (pos (length buf), t))
      × ((u : Slot b) × (memory_read b t n ≡ some (pos (min n (length buf)), take n buf, u)))

  -- Over a ring buffer that is a bounded queue, a memory device that was opened takes what is
  -- written to it, up to 4096 bytes, in full, and a read of up to 65535 bytes gives back its first bytes.
  pub memory_read-memory_write :
      (s s' : Slot b) (buf : Bytes) (n : ℕ)
      → memory_open b s ≡ (ldal_eok, s')
      → length buf ≤ default_mem_size
      → n < 2 ^ 16
      → (t : Slot b) × (memory_write b s' buf ≡ some (pos (length buf), t))
        × ((u : Slot b) × (memory_read b t n ≡ some (pos (min n (length buf)), take n buf, u)))
  unfolding Served
  memory_read-memory_write s s' buf n opened fits small =
      let (r, made, is_r) = opened_live s s' opened in
      let (w, kept) = written r buf (omega arith) (
        subst (length buf ≤◌) (sym (q.create_space default_mem_size r refl (omega arith) made))
          fits) in
      let after = b.put r buf in
      let all : b.contents after.1 ≡ buf =
        kept ∙ ap (◌++ buf) (q.create_contents default_mem_size r made) in
      subst (Served buf n) is_r (
        live after.1,
        w,
        (live (b.get after.1 n).1, taken after.1 n small ∙ rw (all, length-take n buf)),
      )
