-- ===== src/At.antt =====
-- src/at.c and inc/at.h: responses of a modem. A pointer into a
-- response's buffer is what stands from there on. `alloc` gives a negative number for NULL.
pub mod Lines
mod Tests
use ldal.Base.{
  ℕ, zero, suc, ◌+◌, ℤ, negsuc, is_neg, Bool, true, false, ◌||◌, Option, none, some, [], ◌∷◌, ◌++◌,
  ltb, ◌==◌, if◌then◌else◌, take, drop, length, replicate,
}
use ldal.Kernel.{Bytes, alloc, free_mem, Io, pure, call, ◌>>=◌, ◌>>◌}
use ldal.Socket.{text_of}

-- `struct at_response`.
pub record Response : Type 0 where
  pub buf : Bytes
  pub buf_size : ℕ
  pub buf_len : ℕ
  pub line_num : ℕ
  pub line_counts : ℕ
  pub timeout : ℤ

-- `sizeof(struct at_response)`.
abbrev pub size_of_response : ℕ
size_of_response = 48

unfoldable pub at_create_resp : (buf_size line_num : ℕ) → ℤ → Io (Option Response)
at_create_resp buf_size line_num timeout = do
  resp ← call (alloc size_of_response)
  if is_neg resp.ret then pure none else do
    buf ← call (alloc buf_size)
    if is_neg buf.ret
        then (do call free_mem; pure none)
        else pure (
            some (record {
              buf = replicate buf_size 0;
              buf_size = buf_size;
              buf_len = 0;
              line_num = line_num;
              line_counts = 0;
              timeout = timeout;
            }))

-- The buffer of a response is never NULL.
unfoldable pub at_delete_resp : Option Response → Io (Unit {0})
at_delete_resp none = pure tt
at_delete_resp (some resp) = do call free_mem; call free_mem; pure tt

-- The result tells whether NULL was not returned. What `realloc` adds is whatever stands there.
unfoldable pub at_resp_set_info : Response → (buf_size line_num : ℕ) → ℤ → Io (Bool × Response)
at_resp_set_info resp buf_size line_num timeout =
    if resp.buf_size == buf_size
    then pure (true, record resp { line_num = line_num; timeout = timeout })
    else do
      grown ← call (alloc buf_size)
      if is_neg grown.ret
          then pure (false, record resp { buf_size = buf_size })
          else pure (
            true,
            record resp {
              buf = take buf_size (resp.buf ++ grown.payload);
              buf_size = buf_size;
              line_num = line_num;
              timeout = timeout;
            },
          )

-- `for (; line_num <= line_counts; line_num++) { if (test) return buf; buf += strlen(buf) + 1; }`
pub scan_lines : ℕ → (ℕ → Bytes → Bool) → ℕ → Bytes → Option Bytes
scan_lines zero test line_num buf = none
scan_lines (suc rounds) test line_num buf =
    let rest = scan_lines rounds test (line_num + 1) (drop (length (text_of buf) + 1) buf) in
    if test line_num buf then some buf else rest

unfoldable pub at_resp_get_line : Response → ℕ → Option Bytes
unfolding scan_lines
at_resp_get_line resp resp_line =
    if ltb resp.line_counts resp_line || resp_line == 0
    then none
    else scan_lines resp.line_counts (λ line_num _. resp_line == line_num) 1 resp.buf

pub starts_with : Bytes → Bytes → Bool
starts_with s [] = true
starts_with [] (c ∷ w) = false
starts_with (d ∷ s) (c ∷ w) = if d == c then starts_with s w else false

-- `strstr(s, w) != NULL`, on the text of `s`.
unfoldable pub strstr : Bytes → Bytes → Bool
unfolding starts_with
strstr [] w = starts_with [] w
strstr (c ∷ s) w = starts_with (c ∷ s) w || strstr s w

unfoldable pub at_resp_get_line_by_kw : Response → Bytes → Option Bytes
unfolding scan_lines
at_resp_get_line_by_kw resp keyword =
    scan_lines resp.line_counts (λ _ buf. strstr (text_of buf) keyword) 1 resp.buf

-- `sscanf s` is the number of arguments that `vsscanf` reads from the text with the expression.
module _ (sscanf : Bytes → ℤ) where
  parse_line : Option Bytes → ℤ
  parse_line none = negsuc 0
  parse_line (some s) = sscanf (text_of s)

  unfoldable pub at_resp_parse_line_args : Response → ℕ → ℤ
  unfolding parse_line
  at_resp_parse_line_args resp resp_line = parse_line (at_resp_get_line resp resp_line)

  unfoldable pub at_resp_parse_line_args_by_kw : Response → Bytes → ℤ
  unfolding parse_line
  at_resp_parse_line_args_by_kw resp keyword = parse_line (at_resp_get_line_by_kw resp keyword)
