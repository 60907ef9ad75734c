-- ===== src/At/Tests.antt =====
-- A response with two lines.
use ldal.Base.{pos, ◌≡◌, refl, some, List, [], ◌∷◌, arith}
use ldal.Kernel.{Bytes}
use ldal.At.{Response, at_resp_get_line, at_resp_get_line_by_kw}
use ldal.At.Lines.{
  Holds, joined, text?, at_resp_get_line-get_elem?, at_resp_get_line_by_kw-find_line,
}

-- "ATI" and "OK".
abbrev two_lines : List Bytes
two_lines = (b'A' ∷ b'T' ∷ b'I' ∷ []) ∷ (b'O' ∷ b'K' ∷ []) ∷ []

abbrev answer : Response
answer = record {
  buf = joined two_lines (0 ∷ 0 ∷ []);
  buf_size = 9;
  buf_len = 7;
  line_num = 0;
  line_counts = 2;
  timeout = pos 300;
}

answer-Holds : Holds answer two_lines (0 ∷ 0 ∷ [])
answer-Holds = record { texts = omega arith; stored = refl; counted = refl }

at_resp_get_line-get_elem?_example : text? (at_resp_get_line answer 2) ≡ some (b'O' ∷ b'K' ∷ [])
at_resp_get_line-get_elem?_example =
    at_resp_get_line-get_elem? answer two_lines (0 ∷ 0 ∷ []) 2 answer-Holds

at_resp_get_line_by_kw-find_line_example :
    text? (at_resp_get_line_by_kw answer (b'K' ∷ [])) ≡ some (b'O' ∷ b'K' ∷ [])
unfolding ldal.At.strstr
at_resp_get_line_by_kw-find_line_example =
    at_resp_get_line_by_kw-find_line answer two_lines (0 ∷ 0 ∷ []) (b'K' ∷ []) answer-Holds
