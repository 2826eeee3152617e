-- ===== src/Dsl/Parser/Bodies.antt =====
-- `parse_script` on the bodies of here-documents.
use shellflow.Base.{
  ℕ, suc, ◌+◌, true, List, [], ◌∷◌, ◌++◌, Text, ◌≡◌, refl, sym, ap, ◌∙◌, arith, map, append-nil,
  append_assoc, length,
}
use shellflow.Base.Text.Lines.{strip_last}
use shellflow.Base.Result.{err, ◌>>=◌}
use shellflow.Dsl.Error.{unterminated_heredoc}
use shellflow.Dsl.Heredoc.{Heredoc, terminates}
use shellflow.Dsl.Heredoc.Tracker.{tracking, IsBody}
use shellflow.Dsl.Parser.Script.{scan_all, check_heredocs, finish_script}
use shellflow.Dsl.Parser.State.{State}

-- A line as `parse_script` reads it.
abbrev pub without_cr : Text → Text
without_cr raw = strip_last b'\r' raw

-- The state with these pending lines and these open here-documents.
abbrev pub holding : List Text → List (ℕ × Heredoc) → State → State
holding pending opened s = record s { pending = pending; heredocs = tracking opened }

-- Lines that do not terminate the oldest here-document.
scan_all-body :
    (at : ℕ) (h : Heredoc) (rest : List (ℕ × Heredoc)) (more : List Text) (s : State)
    (body : List Text) (line_no : ℕ) (pending : List Text)
    → IsBody h (map without_cr body)
    → scan_all line_no (body ++ more) (holding pending ((at, h) ∷ rest) s)
      ≡ scan_all
          (line_no + length body)
          more
          (holding (pending ++ map without_cr body) ((at, h) ∷ rest) s)
unfolding scan_all ◌>>=◌
scan_all-body at h rest more s [] line_no pending b =
    ap (λ p. scan_all line_no more (holding p ((at, h) ∷ rest) s)) (sym (append-nil pending))
    ∙ ap (λ n. scan_all n more (holding (pending ++ []) ((at, h) ∷ rest) s)) (omega arith)
scan_all-body at h rest more s (raw ∷ body) line_no pending (b, bs) = rw b (
    scan_all-body at h rest more s body (suc line_no) (pending ++ without_cr raw ∷ []) bs
    ∙ ap (λ p. scan_all (suc line_no + length body) more (holding p ((at, h) ∷ rest) s))
        (append_assoc pending (without_cr raw ∷ []) (map without_cr body))
    ∙ ap
        (λ n.
          scan_all n more
            (holding (pending ++ without_cr raw ∷ map without_cr body) ((at, h) ∷ rest) s))
        (omega arith))

-- While a here-document is open, its body and its terminator are script lines whatever they look
-- like: they are kept, without carriage returns, in the pending block, and nothing else of the state
-- changes but that the document is closed; the lines that follow are scanned from there.
pub scan_all-terminated :
    (at line_no : ℕ) (h : Heredoc) (rest : List (ℕ × Heredoc)) (body more : List Text) (end : Text)
    (pending : List Text) (s : State)
    → IsBody h (map without_cr body)
    → terminates h (without_cr end) ≡ true
    → scan_all line_no (body ++ end ∷ more) (holding pending ((at, h) ∷ rest) s)
      ≡ scan_all
          (suc (line_no + length body))
          more
          (holding ((pending ++ map without_cr body) ++ without_cr end ∷ []) rest s)
unfolding scan_all ◌>>=◌
scan_all-terminated at line_no h rest body more end pending s b e =
    scan_all-body at h rest (end ∷ more) s body line_no pending b ∙ rw e refl

-- A script that ends inside of a here-document is refused, with the line and the delimiter of the
-- oldest open document, whatever directives stand in its body.
pub scan_all-unterminated :
    (at line_no : ℕ) (h : Heredoc) (rest : List (ℕ × Heredoc)) (body pending : List Text)
    (s : State)
    → IsBody h (map without_cr body)
    → (scan_all line_no body (holding pending ((at, h) ∷ rest) s) >>= finish_script)
      ≡ err (unterminated_heredoc at h.tag)
unfolding scan_all ◌>>=◌ finish_script check_heredocs
scan_all-unterminated at line_no h rest body pending s b =
    ap (λ raws. scan_all line_no raws (holding pending ((at, h) ∷ rest) s) >>= finish_script)
      (sym (append-nil body))
    ∙ ap (λ r. r >>= finish_script) (scan_all-body at h rest [] s body line_no pending b)
