-- ===== src/Tools.antt =====
-- tools: the small programs beside the library. A program may end early by `exit`.
pub mod Ensures
pub mod TcpEcho
pub mod UdpEcho
pub mod ListDevice
mod Tests
use ldal.Kernel.{Call, Answer, Io, pure, call}

-- How a program stops short of a value: by a call of `exit`, by an access outside of an array, or in
-- a loop that ran out of fuel.
pub data Stop : Type 0 where
  exited crashed lost : Stop

pub data Result (A : Type 0) : Type 0 where
  value : A → Result A
  stopped : Stop → Result A

abbrev pub Program : Type 0 → Type 0
Program A = Io (Result A)

unfoldable pub give : {A : Type 0} → A → Program A
give a = pure (value a)

unfoldable pub exit : {A : Type 0} → Program A
exit = pure (stopped exited)

unfoldable pub sys : Call → Program Answer
sys c e h = let (r, h') = call c e h in (value r, h')

infixl 5 ◌>>=◌ ◌>>◌
unfoldable pub ◌>>=◌ : {A B : Type 0} → Program A → (A → Program B) → Program B
◌>>=◌ m k e h = let (r, h') = m e h in elim r [ value a ↦ k a e h' | stopped s ↦ (stopped s, h') ]

abbrev pub ◌>>◌ : {A B : Type 0} → Program A → Program B → Program B
m >> k = m >>= λ _. k
