-- ===== src/At/Lines.antt =====
-- The lines of a response, each with a NUL behind it.
use ldal.Base.{
  ℕ, zero, suc, ◌+◌, ◌-◌, ◌≤◌, ◌≡◌, refl, Bool, Option, none, some, List, [], ◌∷◌, ◌++◌, arith,
  ◌==◌, if◌then◌else◌, length, drop, get_elem?, ltb, ==_iff, Bool-cases, inl, inr,
}
use ldal.Kernel.{Bytes}
use ldal.Socket.{text_of}
use ldal.Socket.RoundTrip.{Lacks, text_of-append}
use ldal.At.{Response, scan_lines, at_resp_get_line, at_resp_get_line_by_kw, strstr}

abbrev pub joined : List Bytes → Bytes → Bytes
joined [] rest = rest
joined (l ∷ ls) rest = l ++ (0 ∷ joined ls rest)

abbrev pub Texts : List Bytes → Type 0
Texts [] = Unit {0}
Texts (l ∷ ls) = Lacks 0 l × Texts ls

-- The response holds these lines.
pub record Holds (resp : Response) (ls : List Bytes) (rest : Bytes) : Type 0 where
  pub texts : Texts ls
  pub stored : resp.buf ≡ joined ls rest
  pub counted : resp.line_counts ≡ length ls

abbrev pub text? : Option Bytes → Option Bytes
text? none = none
text? (some buf) = some (text_of buf)

-- The first line that passes a test of its number and its text.
abbrev pub find_line : (ℕ → Bytes → Bool) → ℕ → List Bytes → Option Bytes
find_line test n [] = none
find_line test n (l ∷ ls) = if test n l then some l else find_line test (n + 1) ls

length-suc : (l : Bytes) → suc (length l) + 1 ≡ suc (length l + 1)
length-suc l = omega arith

drop-line : (l buf : Bytes) → drop (length l + 1) (l ++ (0 ∷ buf)) ≡ buf
drop-line [] buf = ground arith
drop-line (c ∷ l) buf = rw (length-suc l) (drop-line l buf)

scan_lines-joined :
    (ls : List Bytes) (rest : Bytes) (test : ℕ → Bytes → Bool) (n : ℕ)
    → Texts ls
    → text? (scan_lines (length ls) (λ k buf. test k (text_of buf)) n (joined ls rest))
      ≡ find_line test n ls
unfolding scan_lines
scan_lines-joined [] rest test n t = refl
scan_lines-joined (l ∷ ls) rest test n t =
    rw (text_of-append l (joined ls rest) t.0, drop-line l (joined ls rest))
      (ground
        (arith, text_of-append l (joined ls rest) t.0, scan_lines-joined ls rest test (n + 1) t.1))

find_line-at :
    (m n : ℕ) (ls : List Bytes)
    → find_line (λ k _. m == k) n ls ≡ (if ltb m n then none else get_elem? ls (m - n))
find_line-at m n [] = ground arith
find_line-at m n (l ∷ ls) = elim (Bool-cases (m == n)) [
  | inl same ↦
      let none_left : m - n ≡ 0 = omega (arith, (==_iff m n).0 same) in
      rw (same, none_left) (ground arith)
  | inr apart ↦ elim (Bool-cases (ltb m n)) [
    | inl below ↦ rw apart (ground (arith, find_line-at m (n + 1) ls))
    | inr above ↦
        let left : m - n ≡ suc (m - (n + 1)) = ground arith in
        rw (apart, left) (ground (arith, find_line-at m (n + 1) ls))
  ]
]

get_elem?-none : (ls : List Bytes) (i : ℕ) → length ls ≤ i → get_elem? ls i ≡ none
get_elem?-none [] i h = refl
get_elem?-none (l ∷ ls) zero h = absurd (omega arith)
get_elem?-none (l ∷ ls) (suc i) h = get_elem?-none ls i (omega arith)

-- The lines of a response are found by their numbers, from 1 on; any other number gives NULL.
pub at_resp_get_line-get_elem? :
    (resp : Response) (ls : List Bytes) (rest : Bytes) (n : ℕ)
    → Holds resp ls rest
    → text? (at_resp_get_line resp n) ≡ (if n == 0 then none else get_elem? ls (n - 1))
unfolding at_resp_get_line
at_resp_get_line-get_elem? resp ls rest n h =
    rw (h.counted, h.stored)
      (ground (
        arith,
        scan_lines-joined ls rest (λ (k : ℕ) (_ : Bytes). n == k) 1 h.texts,
        find_line-at n 1 ls,
        get_elem?-none ls (n - 1),
      ))

-- A line is found by a keyword: the first line that contains it, and NULL if none does.
pub at_resp_get_line_by_kw-find_line :
    (resp : Response) (ls : List Bytes) (rest keyword : Bytes)
    → Holds resp ls rest
    → text? (at_resp_get_line_by_kw resp keyword) ≡ find_line (λ _ l. strstr l keyword) 1 ls
unfolding at_resp_get_line_by_kw
at_resp_get_line_by_kw-find_line resp ls rest keyword h =
    rw (h.counted, h.stored) (scan_lines-joined ls rest (λ _ l. strstr l keyword) 1 h.texts)
