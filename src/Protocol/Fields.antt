-- ===== src/Protocol/Fields.antt =====
-- Lines of fields, apart by commas.
use slg.Base.{ℕ, ◌≡◌, sym, ap, ◌∙◌, List, [], ◌∷◌, ◌++◌, append-nil, append_assoc, arith}
use slg.Base.Text.{c_string}
use slg.Base.Tokens.{Plain, IsField, c_string-field}
use slg.Protocol.Reading.{NoNewline}

pub IsField-Plain : (w : List ℕ) → IsField w → Plain w
IsField-Plain [] h = absurd h
IsField-Plain (c ∷ w) h = h

-- A line of fields.
abbrev pub commas : List ℕ → List (List ℕ) → List ℕ
commas w [] = w
commas w (v ∷ vs) = w ++ b',' ∷ commas v vs

abbrev pub AreFields : List (List ℕ) → Type 0
AreFields [] = Unit {0}
AreFields (w ∷ ws) = IsField w × AreFields ws

c_string-commas_end :
    (w : List ℕ) (ws : List (List ℕ)) (end : List ℕ)
    → AreFields (w ∷ ws)
    → c_string (commas w ws ++ end) ≡ commas w ws ++ c_string end
unfolding c_string
c_string-commas_end w [] end h = c_string-field w end (IsField-Plain w h.0)
c_string-commas_end w (v ∷ ws) end h = rw (
  append_assoc w (b',' ∷ commas v ws) end,
  c_string-field w (b',' ∷ (commas v ws ++ end)) (IsField-Plain w h.0),
  c_string-commas_end v ws end h.1,
  append_assoc w (b',' ∷ commas v ws) (c_string end),
)

pub c_string-commas :
    (w : List ℕ) (ws : List (List ℕ)) → AreFields (w ∷ ws) → c_string (commas w ws) ≡ commas w ws
unfolding c_string
c_string-commas w ws h =
    ap c_string (sym (append-nil (commas w ws)))
    ∙ c_string-commas_end w ws [] h
    ∙ append-nil (commas w ws)

pub c_string-commas_line :
    (w : List ℕ) (ws : List (List ℕ))
    → AreFields (w ∷ ws)
    → c_string (commas w ws ++ b'\n' ∷ []) ≡ commas w ws ++ b'\n' ∷ []
unfolding c_string
c_string-commas_line w ws h = c_string-commas_end w ws (b'\n' ∷ []) h

Plain-NoNewline : (w : List ℕ) → Plain w → NoNewline w
Plain-NoNewline [] h = tt
Plain-NoNewline (c ∷ w) h = (h.2, Plain-NoNewline w h.3)

NoNewline-append : (w rest : List ℕ) → Plain w → NoNewline rest → NoNewline (w ++ rest)
NoNewline-append [] rest h n = n
NoNewline-append (c ∷ w) rest h n = (h.2, NoNewline-append w rest h.3 n)

pub NoNewline-commas :
    (w : List ℕ) (ws : List (List ℕ)) → AreFields (w ∷ ws) → NoNewline (commas w ws)
NoNewline-commas w [] h = Plain-NoNewline w (IsField-Plain w h.0)
NoNewline-commas w (v ∷ ws) h =
    NoNewline-append w (b',' ∷ commas v ws) (IsField-Plain w h.0)
      (omega arith, NoNewline-commas v ws h.1)
