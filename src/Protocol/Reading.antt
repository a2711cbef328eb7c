-- ===== src/Protocol/Reading.antt =====
-- What a reader has that waits for the end of a line, however the line is cut into reads.
use slg.Base.{
  ℕ, ◌-◌, ◌≤◌, ◌<◌, ◌+◌, ◌≡◌, ◌≢◌, refl, sym, ap, ◌∙◌, List, [], ◌∷◌, ◌++◌, map, append-nil,
  append_assoc, length, length-append, take-all, arith, ne→==,
}
use slg.Base.Outcome.{ok}
use slg.Os.{ReadAnswer, got}
use slg.Protocol.Line.{read_line, last, without_last}

abbrev pub concat : List (List ℕ) → List ℕ
concat [] = []
concat (s ∷ ss) = s ++ concat ss

-- Each read brings a byte at least.
abbrev pub NonemptyParts : List (List ℕ) → Type 0
NonemptyParts [] = Unit {0}
NonemptyParts ([] ∷ ss) = ⊥
NonemptyParts ((c ∷ s) ∷ ss) = NonemptyParts ss

abbrev pub NoNewline : List ℕ → Type 0
NoNewline [] = Unit {0}
NoNewline (c ∷ s) = (c ≢ b'\n') × NoNewline s

pub last-append : (xs s : List ℕ) (c : ℕ) → last (xs ++ c ∷ s) ≡ last (c ∷ s)
last-append [] s c = refl
last-append (x ∷ []) s c = refl
last-append (x ∷ y ∷ xs) s c = last-append (y ∷ xs) s c

last-snoc : (xs : List ℕ) (c : ℕ) → last (xs ++ c ∷ []) ≡ c
last-snoc xs c = last-append xs [] c

without_last-snoc : (xs : List ℕ) (c : ℕ) → without_last (xs ++ c ∷ []) ≡ xs
without_last-snoc [] c = refl
without_last-snoc (x ∷ []) c = refl
without_last-snoc (x ∷ y ∷ xs) c = ap (◌∷◌ x) (without_last-snoc (y ∷ xs) c)

pub last-NoNewline : (s : List ℕ) (c : ℕ) → NoNewline (c ∷ s) → last (c ∷ s) ≢ b'\n'
last-NoNewline [] c h = h.0
last-NoNewline (d ∷ s) c h = last-NoNewline s d h.1

tail : List ℕ → List ℕ
tail [] = []
tail (c ∷ s) = s

head : List ℕ → ℕ
head [] = 0
head (c ∷ s) = c

-- A first part with something behind it is a part of the line before its end.
split_line :
    (s rest line : List ℕ) (d : ℕ)
    → s ++ d ∷ rest ≡ line ++ b'\n' ∷ []
    → NoNewline line
    → (line' : List ℕ) × (line ≡ s ++ line')
      × (d ∷ rest ≡ line' ++ b'\n' ∷ [])
      × NoNewline s
      × NoNewline line'
unfolding tail head
split_line [] rest line d h n = (line, refl, h, tt, n)
split_line (c ∷ s) rest [] d h n = absurd (omega (arith, ap length h, length-append s (d ∷ rest)))
split_line (c ∷ s) rest (e ∷ line) d h n =
    let (line', a, b, x, y) = split_line s rest line d (ap tail h) n.1 in
    (line', cc, b, (λ q. n.0 (sym (ap head h) ∙ q), x), y)

line_end :
    (buffer line s : List ℕ) → s ≡ line ++ b'\n' ∷ [] → buffer ++ s ≡ (buffer ++ line) ++ b'\n' ∷ []
line_end buffer line s e = ap (◌++◌ buffer) e ∙ sym (append_assoc buffer line (b'\n' ∷ []))

read_line-end :
    (size : ℕ) (answers : List ReadAnswer) (buffer s line : List ℕ) (c : ℕ)
    → c ∷ s ≡ line ++ b'\n' ∷ []
    → length buffer + length line < size
    → read_line size (got (c ∷ s) ∷ answers) buffer ≡ ok (buffer ++ line)
unfolding read_line
read_line-end size answers buffer s line c e h =
    let f : length (c ∷ s) ≤ size - length buffer =
      omega (arith, ap length e, length-append line (b'\n' ∷ [])) in
    rw (
      take-all (size - length buffer) (c ∷ s) f,
      line_end buffer line (c ∷ s) e,
      last-snoc (buffer ++ line) b'\n',
      without_last-snoc (buffer ++ line) b'\n',
    )

read_line-middle :
    (size : ℕ) (answers : List ReadAnswer) (buffer s : List ℕ) (c : ℕ)
    → NoNewline (c ∷ s)
    → length buffer + length (c ∷ s) ≤ size
    → read_line size (got (c ∷ s) ∷ answers) buffer ≡ read_line size answers (buffer ++ c ∷ s)
unfolding read_line
read_line-middle size answers buffer s c n h =
    let f : length (c ∷ s) ≤ size - length buffer = omega arith in
    let g : last (buffer ++ c ∷ s) ≢ b'\n' =
      λ e. last-NoNewline s c n (sym (last-append buffer s c) ∙ e) in
    rw (take-all (size - length buffer) (c ∷ s) f, ne→== (last (buffer ++ c ∷ s)) b'\n' g)

-- The reader has the line, whatever the parts it comes in.
pub read_line-parts :
    (size : ℕ) (parts : List (List ℕ)) (buffer line : List ℕ)
    → NonemptyParts parts
    → concat parts ≡ line ++ b'\n' ∷ []
    → NoNewline line
    → length buffer + length line < size
    → read_line size (map got parts) buffer ≡ ok (buffer ++ line)
unfolding read_line
read_line-parts size [] buffer line p e n h =
    absurd (omega (arith, ap length e, length-append line (b'\n' ∷ [])))
read_line-parts size ([] ∷ parts) buffer line p e n h = absurd p
read_line-parts size ((c ∷ s) ∷ []) buffer line p e n h =
    read_line-end size [] buffer s line c (sym (append-nil (c ∷ s)) ∙ e) h
read_line-parts size ((c ∷ s) ∷ [] ∷ parts) buffer line p e n h = absurd p
read_line-parts size ((c ∷ s) ∷ (d ∷ t) ∷ parts) buffer line p e n h =
    let (line', a, b, x, y) = split_line (c ∷ s) (t ++ concat parts) line d e n in
    let l : length line ≡ length (c ∷ s) + length line' =
      ap length a ∙ length-append (c ∷ s) line' in
    let i : read_line size (map got ((d ∷ t) ∷ parts)) (buffer ++ c ∷ s)
        ≡ ok ((buffer ++ c ∷ s) ++ line') =
      read_line-parts size ((d ∷ t) ∷ parts) (buffer ++ c ∷ s) line' p b y
        (omega (arith, length-append buffer (c ∷ s))) in
    read_line-middle size (map got ((d ∷ t) ∷ parts)) buffer s c x (omega arith)
    ∙ i
    ∙ ap ok (append_assoc buffer (c ∷ s) line' ∙ ap (◌++◌ buffer) (sym a))
