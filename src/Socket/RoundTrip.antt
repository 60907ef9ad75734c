-- ===== src/Socket/RoundTrip.antt =====
-- The address that a socket class prints into the file name is the one that it reads from it.
use ldal.Base.{
  zero, suc, ◌≤◌, length, length-append, take, ℕ, ◌+◌, ◌/◌, ◌%◌, ◌^◌, ◌<◌, ◌≡◌, refl, ◌∙◌, ap, ◌≢◌,
  ◌⊎◌, some, [], ◌∷◌, ◌++◌, arith,
}
use ldal.Kernel.{Bytes}
use ldal.Socket.{
  text_of, print_digits, print_port, read_digits, atoi16, skip_colons, token, after_token, strtok,
  parse_address, print_address, ipstr_size,
}
use ldal.Socket.Decimal.{Digits, Digits-print_digits, read_digits-print_digits}

-- The byte does not stand in the text.
abbrev pub Lacks : ℕ → Bytes → Type 0
Lacks b [] = Unit {0}
Lacks b (c ∷ s) = (c ≢ b) × Lacks b s

Lacks-Digits : (b : ℕ) (s : Bytes) → (b < 48) ⊎ (57 < b) → Digits s → Lacks b s
Lacks-Digits b [] h d = tt
Lacks-Digits b (c ∷ s) h d = (omega arith, Lacks-Digits b s h d.2)

Lacks-append : (b : ℕ) (s t : Bytes) → Lacks b s → Lacks b t → Lacks b (s ++ t)
Lacks-append b [] t p q = q
Lacks-append b (c ∷ s) t p q = (p.0, Lacks-append b s t p.1 q)

pub text_of-append : (s rest : Bytes) → Lacks 0 s → text_of (s ++ (0 ∷ rest)) ≡ s
unfolding text_of
text_of-append [] rest p = refl
text_of-append (c ∷ s) rest p = ground (arith, text_of-append s rest)

-- A text that stands with its NUL within two cuts is not shortened by them.
text_of-take :
    (n k : ℕ) (s rest : Bytes)
    → Lacks 0 s
    → length s < n
    → length s < k
    → text_of (take n (take k (s ++ (0 ∷ rest)))) ≡ s
unfolding text_of
text_of-take zero k s rest p f g = absurd (omega arith)
text_of-take (suc n) zero s rest p f g = absurd (omega arith)
text_of-take (suc n) (suc k) [] rest p f g = refl
text_of-take (suc n) (suc k) (c ∷ s) rest p f g =
    ground (arith, text_of-take n k s rest p.1 (omega arith) (omega arith))

length-print_digits : (fuel n : ℕ) → length (print_digits fuel n) ≤ fuel
unfolding print_digits
length-print_digits zero n = omega arith
length-print_digits (suc fuel) n = ground (
  arith,
  length-print_digits fuel (n / 10),
  length-append (print_digits fuel (n / 10)) ((48 + n % 10) ∷ []),
)

token-append : (s t : Bytes) → Lacks b':' s → token (s ++ (b':' ∷ t)) ≡ s
unfolding token
token-append [] t p = refl
token-append (c ∷ s) t p = ground (arith, token-append s t)

after_token-append : (s t : Bytes) → Lacks b':' s → after_token (s ++ (b':' ∷ t)) ≡ t
unfolding after_token
after_token-append [] t p = refl
after_token-append (c ∷ s) t p = ground (arith, after_token-append s t)

token-all : (s : Bytes) → Lacks b':' s → token s ≡ s
unfolding token
token-all [] p = refl
token-all (c ∷ s) p = ground (arith, token-all s)

-- The first token is what stands before the colon.
strtok-append :
    (c : ℕ) (s t : Bytes) → Lacks b':' (c ∷ s) → strtok (c ∷ s ++ (b':' ∷ t)) ≡ some (c ∷ s, t)
unfolding strtok
strtok-append c s t p = rw (
  unskipped c (s ++ (b':' ∷ t)) p.0,
  strtok,
  token-append (c ∷ s) t p,
  after_token-append (c ∷ s) t p,
)
  where
    unskipped : (b : ℕ) (r : Bytes) → b ≢ b':' → skip_colons (b ∷ r) ≡ b ∷ r
    unskipped b r h = ground arith

atoi16-Digits :
    (s : Bytes) → Digits s → s ≢ [] → read_digits 0 s < 2 ^ 16 → atoi16 s ≡ read_digits 0 s
unfolding atoi16
atoi16-Digits [] d ne h = absurd (ne refl)
atoi16-Digits (c ∷ s) d ne h = ground arith

-- A text of digits is one token, read as the number that it shows.
strtok-Digits : (s : Bytes) → Digits s → s ≢ [] → (rest : Bytes) × (strtok s ≡ some (s, rest))
unfolding strtok
strtok-Digits [] d ne = absurd (ne refl)
strtok-Digits (c ∷ s) d ne = (
  after_token (c ∷ s),
  ground (arith, token-all (c ∷ s) (Lacks-Digits b':' (c ∷ s) (omega arith) d)),
)

append_one-ne_nil : (s : Bytes) (c : ℕ) → s ++ c ∷ [] ≢ []
append_one-ne_nil [] c e = cc
append_one-ne_nil (x ∷ s) c e = cc

print_port-ne_nil : (port : ℕ) → print_port port ≢ []
unfolding print_digits
print_port-ne_nil port e =
    ground (arith, append_one-ne_nil (print_digits 4 (port / 10)) (48 + port % 10))

-- What `set_server_addr` prints into the file name, `import_ipaddr_from_filename` reads back: the
-- text of the host and the port, for a host that is not empty, has neither a NUL nor a colon and
-- leaves room for the colon, five digits and a NUL in the buffer of up to 64 bytes, and a 16-bit port.
pub parse_address-print_address :
    (filename host : Bytes) (port : ℕ)
    → host ≢ []
    → Lacks 0 host
    → Lacks b':' host
    → port < 2 ^ 16
    → length host + 7 ≤ length filename
    → length filename ≤ ipstr_size
    → parse_address (print_address filename host port) ≡ some (host, port)
unfolding parse_address print_address
parse_address-print_address filename [] port ne p q h room size = absurd (ne refl)
parse_address-print_address filename (c ∷ host) port ne p q h room size =
    let digits = print_port port in
    let shown = Digits-print_digits 5 port in
    let (rest, one) = strtok-Digits digits shown (print_port-ne_nil port) in
    let short = length-print_digits 5 port in
    let long = length-append (c ∷ host) (b':' ∷ digits) in
    let value : read_digits 0 digits ≡ port = read_digits-print_digits 5 port (omega arith) in
    rw
      (
        text_of-take ipstr_size (length filename) (c ∷ host ++ (b':' ∷ digits)) _
            (Lacks-append 0 (c ∷ host) (b':' ∷ digits) p
              (omega arith, Lacks-Digits 0 digits (omega arith) shown))
            (omega (arith, short, long, room, size)) (omega (arith, short, long, room)),
        parse_address,
        strtok-append c host digits q,
        one,
      )
      (ap (λ n. some (c ∷ host, n))
        (atoi16-Digits digits shown (print_port-ne_nil port) (omega (arith, value)) ∙ value))
