-- ===== src/Master/Config/File.antt =====
-- What reading a configuration file does, line by line.
use slg.Base.{
  ℕ, zero, suc, ◌≤◌, ◌<◌, ◌≡◌, refl, sym, ap, ◌∙◌, List, [], ◌∷◌, ◌++◌, length, length-append,
  append_assoc, arith, ne→==, some, ◌≢◌,
}
use slg.Base.Text.{c_string}
use slg.Base.Tokens.{strtok}
use slg.Base.Outcome.{Outcome, ok, stop, ◌>>=◌}
use slg.Master.Config.{
  Config, BadConfig, set_parameter, read_assignment, read_config_line, read_lines, blank,
  parse_config_file,
}
use slg.Master.Config.Names.{Name, spelled, meaning, set_parameter-meaning}
use slg.Master.Config.Lines.{
  Line, comment, empty, assignment, body_of, text_of, file_of, OneLine, Blanks, IsWord, IsName,
  IsLine, AreLines, apply_line, apply_lines, NoBlank-OneLine, OneLine-append, Blanks-OneLine,
  IsTrail-OneLine, IsSeparator-Blanks, fgets-line, c_string-line, strtok-Blanks, strtok-separator,
  strtok-trail,
}

read_lines-step :
    (fuel : ℕ) (body rest : List ℕ) (c : Config)
    → OneLine body
    → length body < 2047
    → read_lines (suc fuel) (body ++ b'\n' ∷ rest) c
      ≡ (read_config_line (body ++ b'\n' ∷ []) c >>= read_lines fuel rest)
unfolding read_lines c_string
read_lines-step fuel [] rest c h l = refl
read_lines-step fuel (b ∷ body) rest c h l =
    rw (fgets-line 2047 (b ∷ body) rest h l, c_string-line (b ∷ body) h)

word_OneLine : (w : List ℕ) → IsWord w → OneLine w
word_OneLine [] h = absurd h
word_OneLine (c ∷ w) h = NoBlank-OneLine (c ∷ w) h

name-IsWord : (w : List ℕ) → IsName w → IsWord w
name-IsWord [] h = absurd h
name-IsWord (c ∷ w) h = h.1

body_of-OneLine : (l : Line) → IsLine l → OneLine (body_of l)
body_of-OneLine (comment s) h = (omega arith, omega arith, h)
body_of-OneLine empty h = tt
body_of-OneLine (assignment lead name separator value trail) (b, n, none, s, w, t) =
    OneLine-append lead _ (Blanks-OneLine lead b) (
      OneLine-append (spelled name) _ (word_OneLine (spelled name) (name-IsWord (spelled name) n)) (
        OneLine-append separator _ (Blanks-OneLine separator (IsSeparator-Blanks separator s))
          (OneLine-append value trail (word_OneLine value w) (IsTrail-OneLine trail t))))

-- A line whose two first tokens are a name and a value.
read_assignment-tokens :
    (buffer name value rest rest' : List ℕ) (c : Config)
    → strtok blank buffer ≡ (some name, rest)
    → strtok blank rest ≡ (some value, rest')
    → read_assignment buffer c ≡ set_parameter name value c
unfolding read_assignment
read_assignment-tokens buffer name value rest rest' c e e' = rw (read_assignment, e, e', e)

read_assignment-text :
    (lead : List ℕ) (name : Name) (separator value trail : List ℕ) (c : Config)
    → IsLine (assignment lead name separator value trail)
    → read_assignment (text_of (assignment lead name separator value trail)) c
      ≡ meaning name value c
read_assignment-text lead name separator value trail c (b, n, none, s, w, t) =
    let word = spelled name in
    let nested : text_of (assignment lead name separator value trail)
        ≡ lead ++ (word ++ (separator ++ (value ++ (trail ++ b'\n' ∷ [])))) =
      simp append_assoc in
    let (rest, e, next) =
      strtok-separator word separator (value ++ (trail ++ b'\n' ∷ [])) (name-IsWord word n) s in
    let (rest', e') = strtok-trail value trail w t in
    ap (λ x. read_assignment x c) nested
    ∙ read_assignment-tokens _ word value rest rest' c (strtok-Blanks lead _ b ∙ e) (next ∙ e')
    ∙ set_parameter-meaning name value c none

-- A line that is no comment and not empty.
read_config_line-other :
    (b : ℕ) (s : List ℕ) (c : Config)
    → b ≢ b'#'
    → b ≢ b'\n'
    → read_config_line (b ∷ s) c ≡ read_assignment (b ∷ s) c
unfolding read_config_line
read_config_line-other b s c h n = rw (ne→== b b'#' h, ne→== b b'\n' n) refl

read_config_line-assignment :
    (lead name rest : List ℕ) (c : Config)
    → Blanks lead
    → IsName name
    → read_config_line (lead ++ (name ++ rest)) c ≡ read_assignment (lead ++ (name ++ rest)) c
read_config_line-assignment [] [] rest c b n = absurd n
read_config_line-assignment [] (d ∷ name) rest c b n =
    read_config_line-other d (name ++ rest) c n.0 (n.1.1)
read_config_line-assignment (d ∷ lead) name rest c (b, bs) n =
    read_config_line-other d (lead ++ (name ++ rest)) c (ground arith) (ground arith)

read_config_line-text :
    (l : Line) (c : Config) → IsLine l → read_config_line (text_of l) c ≡ apply_line l c
unfolding read_config_line
read_config_line-text (comment s) c h = refl
read_config_line-text empty c h = refl
read_config_line-text (assignment lead name separator value trail) c h =
    let nested : text_of (assignment lead name separator value trail)
        ≡ lead ++ (spelled name ++ ((separator ++ (value ++ trail)) ++ b'\n' ∷ [])) =
      simp append_assoc in
    ap (λ x. read_config_line x c) nested
    ∙ read_config_line-assignment lead (spelled name) _ c h.0 h.1
    ∙ ap (λ x. read_assignment x c) (sym nested)
    ∙ read_assignment-text lead name separator value trail c h

file_of-step :
    (fuel : ℕ) (l : Line) (rest : List ℕ) (c : Config)
    → IsLine l
    → length (text_of l) ≤ 2047
    → read_lines (suc fuel) (text_of l ++ rest) c ≡ (apply_line l c >>= read_lines fuel rest)
file_of-step fuel l rest c h le =
    let body = body_of l in
    let assoc : (body ++ b'\n' ∷ []) ++ rest ≡ body ++ b'\n' ∷ rest =
      append_assoc body (b'\n' ∷ []) rest in
    let short : length body < 2047 = omega (arith, le, length-append body (b'\n' ∷ [])) in
    ap (λ x. read_lines (suc fuel) x c) assoc
    ∙ read_lines-step fuel body rest c (body_of-OneLine l h) short
    ∙ ap (λ m. m >>= read_lines fuel rest) (read_config_line-text l c h)

bind-ext :
    (m : Outcome BadConfig Config) (f g : Config → Outcome BadConfig Config)
    → ((c : Config) → f c ≡ g c)
    → (m >>= f) ≡ (m >>= g)
bind-ext (ok c) f g h = h c
bind-ext (stop e) f g h = refl

read_lines-file_of :
    (ls : List Line) (fuel : ℕ) (c : Config)
    → AreLines ls
    → length ls ≤ fuel
    → read_lines fuel (file_of ls) c ≡ apply_lines ls c
unfolding read_lines
read_lines-file_of [] fuel c h le = refl
read_lines-file_of (l ∷ ls) zero c h le = absurd (omega arith)
read_lines-file_of (l ∷ ls) (suc fuel) c h le =
    file_of-step fuel l (file_of ls) c h.0 h.1
    ∙ bind-ext (apply_line l c) _ _ (λ d. read_lines-file_of ls fuel d h.2 (omega arith))

text_of-nonempty : (l : Line) → 1 ≤ length (text_of l)
text_of-nonempty l = omega (arith, length-append (body_of l) (b'\n' ∷ []))

file_of-length : (ls : List Line) → AreLines ls → length ls ≤ length (file_of ls)
file_of-length [] h = omega arith
file_of-length (l ∷ ls) h =
    omega (arith, text_of-nonempty l, file_of-length ls h.2, length-append (text_of l) (file_of ls))

-- Reading a file of comments, empty lines and lines "name = value", each short enough for the buffer,
-- gives each named parameter the value of its line, in the order of the lines, and ends where a name
-- is no parameter's; comments and empty lines change nothing. Any blanks and equality signs may stand
-- before a name and, one at least, between it and its value, and a value may be followed by a blank and
-- any text; names and values contain no blank, equality sign, NUL or end of line, and no name starts
-- with '#'.
pub parse_config_file-file_of :
    (ls : List Line) (c : Config)
    → AreLines ls
    → parse_config_file (file_of ls) c ≡ apply_lines ls c
unfolding parse_config_file
parse_config_file-file_of ls c h =
    read_lines-file_of ls (length (file_of ls)) c h (file_of-length ls h)
