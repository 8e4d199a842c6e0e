-- ===== src/Http/Written.antt =====
-- examples/http_proxy.rs: a message written as lines, a blank line and a body is read back by
-- `read_message`, however the socket cuts it.
use compio_pool.Prelude.{
  ℕ, none, some, ◌⊎◌, inr, ◌≡◌, refl, sym, ap, ◌∙◌, ◌+◌, ◌≤◌, List, [], ◌∷◌, ◌++◌, map, arith,
  length, length-append, take, drop, take-all, drop-all,
}
use mathlib.Core.List.{append_assoc}
use compio_pool.Prelude.Text.{split_crlf, to_ascii_lowercase, lower_byte}
use compio_pool.Http.Head.{Kind, Refusal, body_length, settle, scan}
use compio_pool.Net.{Framed}
use compio_pool.Http.Framed.{read_message, find, blank_line, max_head, max_body}
use compio_pool.Http.Find.{find_window}
use compio_pool.Net.Stream.{stream}
use compio_pool.Http.Framing.{Message}
use compio_pool.Http.Arrival.{read_message_ready}
use compio_pool.Http.Lines.{
  AreLines, text, text-append, size, length-text, window_position-text, window_position_line,
  split_crlf-text,
}

module _ (lossy : List ℕ → List ℕ) (kind : Kind) (line : List ℕ) (lines : List (List ℕ))
    (body : List ℕ) (are : AreLines (line ∷ lines))
    (plain : lossy (text (line ∷ lines) []) ≡ text (line ∷ lines) [])
    (sized : settle kind
        (map lower_byte line)
        (scan (map (map lower_byte) lines ++ ([] ∷ [] ∷ [])) none)
      ≡ inr (length body))
    (small : length body ≤ max_body) (short : length line + size lines + 4 ≤ max_head) where
  abbrev head : List ℕ
  head = text (line ∷ lines) []

  abbrev pos : ℕ
  pos = length line + size lines

  find-text : (rest : List ℕ) → find (text (line ∷ lines) rest) blank_line ≡ some pos
  find-text rest =
      find_window 13 (10 ∷ 13 ∷ 10 ∷ []) (text (line ∷ lines) rest)
      ∙ window_position_line line (13 ∷ 10 ∷ text lines rest) (size lines) are.0
          (window_position-text lines rest are.2)

  length-head : length head ≡ pos + 4
  length-head = ground (arith, length-append line (13 ∷ 10 ∷ text lines []), length-text lines)

  body_length-text : body_length lossy head kind ≡ inr (length body)
  unfolding body_length to_ascii_lowercase
  body_length-text =
      let read : List ℕ × List (List ℕ) → Refusal ⊎ ℕ =
        λ cut. settle kind cut.0 (scan cut.1 none) in
      ap (λ t. read (split_crlf (map lower_byte t))) plain
      ∙ ap read (split_crlf-text line lines are)
      ∙ sized

  split : (more : List ℕ) → text (line ∷ lines) body ++ more ≡ head ++ (body ++ more)
  split more = ap (λ t. t ++ more) (text-append (line ∷ lines) body) ∙ append_assoc head body more

  length-cut : length (head ++ body) ≡ pos + 4 + length body
  length-cut = ground (arith, length-append head body, length-head)

  cuts :
      (f : ℕ → List ℕ → List ℕ) (more : List ℕ)
      → f (length (head ++ body)) ((head ++ body) ++ more)
        ≡ f (pos + 4 + length body) (head ++ (body ++ more))
  cuts f more = λ i. f (length-cut i) (append_assoc head body more i)

  text-Message :
      (s more : List ℕ) (e : s ≡ head ++ (body ++ more))
      → (m : Message lossy kind s (text (line ∷ lines) body) more) × (m.pos ≡ pos)
  text-Message s more e =
      let whole : List ℕ = head ++ (body ++ more) in
      let whole-head : take (pos + 4) whole ≡ head =
        ap (λ n. take n whole) (sym length-head) ∙ take-all head (body ++ more) in
      let blank : find whole blank_line ≡ some pos =
        ap (λ t. find t blank_line) (sym (text-append (line ∷ lines) (body ++ more)))
        ∙ find-text (body ++ more) in
      (
        record {
          pos = pos;
          body = length body;
          blank = ap (λ t. find t blank_line) e ∙ blank;
          sized =
              ap (λ t. body_length lossy (take (pos + 4) t) kind) e
              ∙ ap (λ t. body_length lossy t kind) whole-head
              ∙ body_length-text;
          small = small;
          there = omega (
            arith,
            ap length e,
            length-append head (body ++ more),
            length-append body more,
            length-head,
          );
          cut =
              text-append (line ∷ lines) body
              ∙ sym (take-all (head ++ body) more)
              ∙ cuts take more
              ∙ ap (take (pos + 4 + length body)) (sym e);
          left =
              sym (drop-all (head ++ body) more)
              ∙ cuts drop more
              ∙ ap (drop (pos + 4 + length body)) (sym e);
        },
        refl,
      )

  -- Read back whole, with what follows left on the stream.
  pub text_read :
      (more : List ℕ) (conn : Framed)
      → stream conn ≡ text (line ∷ lines) body ++ more
      → ((read_message lossy kind conn).0 ≡ inr (some (text (line ∷ lines) body)))
        × (stream (read_message lossy kind conn).1 ≡ more)
  text_read more conn same =
      let (message, at) = text-Message (stream conn) more (same ∙ split more) in
      read_message_ready lossy kind conn (text (line ∷ lines) body) more message
        (omega (arith, at, short))
