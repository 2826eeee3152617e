-- ===== src/Dsl/Parser/Spelling.antt =====
-- Directives, written out and scanned.
use shellflow.Base.{
  ℕ, true, false, [], ◌∷◌, ◌++◌, none, some, Text, ◌≡◌, refl, sym, ap, ◌∙◌, arith, append_assoc,
  all, is_empty,
}
use shellflow.Base.Text.{codes, is_white, trim, trim_start, trim_end, trim_skip, strip_prefix}
use shellflow.Base.Dict.{insert, contains_key}
use shellflow.Base.Result.{ok, ◌>>=◌, ensure}
use shellflow.Shell.{is_word, quote_byte, quote_body, shell_quote_single}
use shellflow.Shell.Strip.{trim-Solid, trim_start-Solid}
use shellflow.Dsl.SshSpec.{SshSpec}
use shellflow.Dsl.SshSpec.Print.{IsSpec, print, parse-print}
use shellflow.Dsl.Heredoc.Tracker.{tracking, consume_body}
use shellflow.Dsl.Parser.Apply.{apply_directive}
use shellflow.Dsl.Parser.Declare.{read_pair, parse_at, add_server, declare_server}
use shellflow.Dsl.Parser.Flags.{is_valid_alias_name, join_spaces}
use shellflow.Dsl.Parser.Script.{split_word, keyword_of, directive, scan_line}
use shellflow.Dsl.Parser.State.{State, flush}
use shellflow.Dsl.Parser.Words.Quoted.{split_words-shell_quote_single, white_len_space}

split_word-append :
    (word payload : Text)
    → all is_word word ≡ true
    → split_word (word ++ b' ' ∷ payload) ≡ (word, b' ' ∷ payload)
unfolding split_word
split_word-append [] payload h = refl
split_word-append (c ∷ word) payload h = ground (arith, split_word-append word payload)

trim_start_space : (s : Text) → trim_start (b' ' ∷ s) ≡ trim_start s
unfolding trim_start
trim_start_space s = rw (white_len_space s, trim_skip) refl

trim_space : (s : Text) → trim (b' ' ∷ s) ≡ trim s
unfolding trim
trim_space s = ap trim_end (trim_start_space s)

behind_hash : (s : Text) → trim_start (b' ' ∷ b'@' ∷ s) ≡ b'@' ∷ s
unfolding is_white
behind_hash s = trim_start_space (b'@' ∷ s) ∙ trim_start-Solid b'@' s (omega arith, refl)

directive_at : (s : Text) → directive (codes "# @" ++ s) ≡ keyword_of (split_word s)
unfolding directive strip_prefix trim_start
directive_at s =
    ap
      (λ r. elim (strip_prefix (codes "@") r) [
        | none ↦ none
        | some after_at ↦ keyword_of (split_word after_at)
      ])
      (behind_hash s)

keyword_of_word :
    (word payload : Text)
    → is_empty word ≡ false
    → keyword_of (word, b' ' ∷ payload) ≡ some (word, trim payload)
unfolding keyword_of
keyword_of_word [] payload n = absurd (cc n)
keyword_of_word (c ∷ word) payload n =
    rw (white_len_space payload, keyword_of) (ap (λ p. some (c ∷ word, p)) (trim_space payload))

-- A keyword behind `# @` is read back with its payload, trimmed.
pub directive-keyword :
    (word payload : Text)
    → is_empty word ≡ false
    → all is_word word ≡ true
    → directive (codes "# @" ++ (word ++ b' ' ∷ payload)) ≡ some (word, trim payload)
directive-keyword word payload n h =
    directive_at (word ++ b' ' ∷ payload)
    ∙ ap keyword_of (split_word-append word payload h)
    ∙ keyword_of_word word payload n

-- The bytes in front of the closing quote.
body_of : Text → Text
unfolding quote_byte
body_of [] = []
body_of (c ∷ s) = quote_byte c ++ body_of s

quote_body-end : (v : Text) → quote_body v ≡ body_of v ++ b'\'' ∷ []
unfolding quote_body body_of
quote_body-end [] = refl
quote_body-end (c ∷ v) =
    ap (◌++◌ (quote_byte c)) (quote_body-end v)
    ∙ sym (append_assoc (quote_byte c) (body_of v) (b'\'' ∷ []))

pub trim-quoted :
    (v w : Text)
    → trim (shell_quote_single v ++ b' ' ∷ shell_quote_single w)
      ≡ shell_quote_single v ++ b' ' ∷ shell_quote_single w
unfolding shell_quote_single is_white
trim-quoted v w =
    let middle = quote_body v ++ b' ' ∷ b'\'' ∷ body_of w in
    let e =
      ap (λ r. b'\'' ∷ (quote_body v ++ b' ' ∷ b'\'' ∷ r)) (quote_body-end w)
      ∙ ap (◌∷◌ b'\'')
          (sym (append_assoc (quote_body v) (b' ' ∷ b'\'' ∷ body_of w) (b'\'' ∷ []))) in
    ap trim e ∙ trim-Solid b'\'' b'\'' middle (omega arith, refl) (omega arith, refl) ∙ sym e

-- A server as a line declares it, with both of its words quoted.
abbrev pub server_line : Text → SshSpec → Text
server_line name spec =
    codes "# @"
    ++ (codes "server"
        ++ b' ' ∷ (shell_quote_single name ++ b' ' ∷ shell_quote_single (print spec)))

abbrev pub with_server : Text → SshSpec → State → State
with_server name spec s = record s {
  plan = record s.plan { servers = insert name spec s.plan.servers };
}

read_pair-alias :
    (name spec : Text) (line_no : ℕ)
    → is_valid_alias_name name ≡ true
    → read_pair (codes "server") (codes "ssh spec") line_no (name ∷ spec ∷ []) ≡ ok (name, spec)
unfolding read_pair ◌>>=◌ ensure
read_pair-alias name spec line_no a = rw (a, read_pair) refl

add_server-print :
    (name : Text) (spec : SshSpec) (line_no : ℕ) (s : State)
    → IsSpec spec
    → contains_key name s.plan.servers ≡ false
    → add_server line_no s (name, print spec) ≡ ok (with_server name spec s)
unfolding add_server ◌>>=◌ ensure parse_at
add_server-print name spec line_no s i k = rw (k, parse-print spec i, parse_at) refl

declare_server-quoted :
    (name : Text) (spec : SshSpec) (line_no : ℕ) (s : State)
    → is_valid_alias_name name ≡ true
    → IsSpec spec
    → contains_key name s.plan.servers ≡ false
    → declare_server (shell_quote_single name ++ b' ' ∷ shell_quote_single (print spec)) line_no s
      ≡ ok (with_server name spec s)
unfolding declare_server ◌>>=◌ join_spaces
declare_server-quoted name spec line_no s a i k =
    ap
      (λ words.
        read_pair (codes "server") (codes "ssh spec") line_no words >>= add_server line_no s)
      (split_words-shell_quote_single (name ∷ print spec ∷ []))
    ∙ ap (λ r. r >>= add_server line_no s) (read_pair-alias name (print spec) line_no a)
    ∙ add_server-print name spec line_no s i k

-- Outside of the here-documents a directive is applied.
pub scan_line-directive :
    (line_no : ℕ) (line keyword payload : Text) (s : State)
    → s.heredocs ≡ tracking []
    → directive line ≡ some (keyword, payload)
    → scan_line line_no line s ≡ apply_directive keyword payload line_no s
unfolding scan_line consume_body
scan_line-directive line_no line keyword payload s t d =
    rw (t, d, scan_line)
      (ap
        (λ h.
          apply_directive keyword payload line_no (record s { heredocs = (consume_body h line).1 }))
        t)

apply_directive-server :
    (payload : Text) (line_no : ℕ) (s : State)
    → apply_directive (codes "server") payload line_no s ≡ declare_server payload line_no (flush s)
unfolding apply_directive
apply_directive-server payload line_no s = refl

-- A line that declares a server, written with its words quoted, is scanned outside of the
-- here-documents as that declaration: it flushes the pending block and adds the server, whatever the
-- destination, if the alias is well-formed and new.
pub scan_line-server_line :
    (name : Text) (spec : SshSpec) (line_no : ℕ) (s : State)
    → is_valid_alias_name name ≡ true
    → IsSpec spec
    → contains_key name (flush s).plan.servers ≡ false
    → s.heredocs ≡ tracking []
    → scan_line line_no (server_line name spec) s ≡ ok (with_server name spec (flush s))
scan_line-server_line name spec line_no s a i k t =
    let payload = shell_quote_single name ++ b' ' ∷ shell_quote_single (print spec) in
    scan_line-directive line_no (server_line name spec) (codes "server") payload s t (
      directive-keyword (codes "server") payload refl refl
      ∙ ap (λ p. some (codes "server", p)) (trim-quoted name (print spec)))
    ∙ apply_directive-server payload line_no s
    ∙ declare_server-quoted name spec line_no (flush s) a i k
