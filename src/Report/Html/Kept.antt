-- ===== src/Report/Html/Kept.antt =====
-- What a reader of the HTML of the details in services/dba-mcp/src/dbatools.ts sees of the text.
use mssql_data_api.Prelude.{
  ℕ, zero, suc, ◌≡◌, ◌≢◌, refl, ap, sym, ◌∙◌, arith, Bool, true, false, ◌==◌, ◌&&◌, List, [], ◌∷◌,
  ◌++◌, append-nil, append_assoc, All, Bool-cases, inl, inr, if◌then◌else◌, any,
}
use mssql_data_api.Prelude.Text.{Text, codes}
use mssql_data_api.Safety.Guard.{split}
use mssql_data_api.Report.Html.{
  esc_char, esc, Block, line, bullets, items_html, block_html, blocks_html, blocks_of, prose,
}
use mssql_data_api.Report.Html.Order.{
  Shown, plain, bullet, shown_lines, as_bullets, shown_block, shown_blocks, blocks_of-shown_lines,
  IsInert, esc-IsInert,
}

-- The text outside of tags; the Boolean says whether it begins in one.
unfoldable pub outside : Bool → Text → Text
outside tag [] = []
outside true (c ∷ s) =
    let over = outside false s in let rest = outside true s in if c == b'>' then over else rest
outside false (c ∷ s) =
    let begun = outside true s in
    let rest = outside false s in if c == b'<' then begun else c ∷ rest

abbrev begins : Text → Text → Bool
begins [] s = true
begins (p ∷ ps) [] = false
begins (p ∷ ps) (c ∷ s) = p == c && begins ps s

-- The character that an entity stands for, and how long the rest of it is.
abbrev entity : Text → ℕ × ℕ
entity s =
    if begins (codes "amp;") s
    then (b'&', 4)
    else if begins (codes "lt;") s
    then (b'<', 3)
    else if begins (codes "gt;") s
    then (b'>', 3)
    else if begins (codes "quot;") s
    then (b'"', 5)
    else if begins (codes "#39;") s
    then (b'\'', 4)
    else (b'&', 0)

abbrev character : ℕ → Text → ℕ × ℕ
character c s = if c == b'&' then entity s else (c, 0)

-- Entities as their characters; the number is how much is still to be skipped.
unfoldable pub decode : ℕ → Text → Text
decode n [] = []
decode (suc n) (c ∷ s) = decode n s
decode zero (c ∷ s) = (character c s).0 ∷ decode (character c s).1 s

-- What is read of a piece of HTML.
abbrev pub read : Text → Text
read h = decode 0 (outside false h)

abbrev pub text_of : Shown → Text
text_of (plain t) = t
text_of (bullet t) = t

abbrev pub texts : List Shown → Text
texts [] = []
texts (x ∷ l) = text_of x ++ texts l

abbrev escaped : List Shown → Text
escaped [] = []
escaped (x ∷ l) = esc (text_of x) ++ escaped l

outside-inert : (a b : Text) → All IsInert a → outside false (a ++ b) ≡ a ++ outside false b
unfolding outside
outside-inert [] b h = refl
outside-inert (c ∷ a) b ((lt, gt, dq, sq), hs) =
    rw (other lt) (ap (λ t. c ∷ t) (outside-inert a b hs))
  where
    other : c ≢ b'<' → (c == b'<') ≡ false
    other n = ground arith

escaped-append : (a b : List Shown) → escaped (a ++ b) ≡ escaped a ++ escaped b
escaped-append [] b = refl
escaped-append (x ∷ a) b =
    ap (λ t. esc (text_of x) ++ t) (escaped-append a b)
    ∙ sym (append_assoc (esc (text_of x)) (escaped a) (escaped b))

-- A text in a tag of its own.
outside-esc : (t x : Text) → outside false (esc t ++ x) ≡ esc t ++ outside false x
outside-esc t x = outside-inert (esc t) x (esc-IsInert t)

outside-items :
    (l : List Text) (x : Text)
    → outside false (items_html l ++ x) ≡ escaped (as_bullets l) ++ outside false x
unfolding items_html outside
outside-items [] x = refl
outside-items (b ∷ l) x =
    ap (λ t. outside false t)
      (append_assoc (esc b ++ codes "</li>") (items_html l) x
        ∙ append_assoc (esc b) (codes "</li>") (items_html l ++ x))
    ∙ outside-esc b (codes "</li>" ++ (items_html l ++ x))
    ∙ ap (λ t. esc b ++ t) (outside-items l x)
    ∙ sym (append_assoc (esc b) (escaped (as_bullets l)) (outside false x))

outside-block :
    (b : Block) (x : Text)
    → outside false (block_html b ++ x) ≡ escaped (shown_block b) ++ outside false x
unfolding block_html outside
outside-block (line t) x =
    ap (λ u. outside false u) (append_assoc (esc t) (codes "</div>") x)
    ∙ outside-esc t (codes "</div>" ++ x)
    ∙ ap (λ u. u ++ outside false x) (sym (append-nil (esc t)))
outside-block (bullets l) x =
    ap (λ u. outside false u) (append_assoc (items_html l) (codes "</ul>") x)
    ∙ outside-items l (codes "</ul>" ++ x)

outside-blocks : (l : List Block) → outside false (blocks_html l) ≡ escaped (shown_blocks l)
unfolding blocks_html outside
outside-blocks [] = refl
outside-blocks (b ∷ l) =
    outside-block b (blocks_html l)
    ∙ ap (λ t. escaped (shown_block b) ++ t) (outside-blocks l)
    ∙ sym (escaped-append (shown_block b) (shown_blocks l))

decode-char : (c : ℕ) (x : Text) → decode 0 (esc_char c ++ x) ≡ c ∷ decode 0 x
unfolding esc_char decode
decode-char c x = elim (Bool-cases (c == b'&')) [
  | inl e ↦ rw e (ap (λ d. d ∷ decode 0 x) (same b'&' e))
  | inr a ↦ elim (Bool-cases (c == b'<')) [
    | inl e ↦ rw (a, e) (ap (λ d. d ∷ decode 0 x) (same b'<' e))
    | inr b ↦ elim (Bool-cases (c == b'>')) [
      | inl e ↦ rw (a, b, e) (ap (λ d. d ∷ decode 0 x) (same b'>' e))
      | inr d ↦ elim (Bool-cases (c == b'"')) [
        | inl e ↦ rw (a, b, d, e) (ap (λ d. d ∷ decode 0 x) (same b'"' e))
        | inr f ↦ elim (Bool-cases (c == b'\'')) [
          | inl e ↦ rw (a, b, d, f, e) (ap (λ d. d ∷ decode 0 x) (same b'\'' e))
          | inr g ↦ rw (a, b, d, f, g, a) refl
        ]
      ]
    ]
  ]
]
  where
    same : (d : ℕ) → (c == d) ≡ true → d ≡ c
    same d e = ground arith

decode-esc : (t x : Text) → decode 0 (esc t ++ x) ≡ t ++ decode 0 x
unfolding esc
decode-esc [] x = refl
decode-esc (c ∷ t) x =
    ap (λ u. decode 0 u) (append_assoc (esc_char c) (esc t) x)
    ∙ decode-char c (esc t ++ x)
    ∙ ap (λ u. c ∷ u) (decode-esc t x)

decode-escaped : (l : List Shown) → decode 0 (escaped l) ≡ texts l
unfolding decode
decode-escaped [] = refl
decode-escaped (x ∷ l) =
    decode-esc (text_of x) (escaped l) ∙ ap (λ t. text_of x ++ t) (decode-escaped l)

read-esc : (s : Text) → read (esc s) ≡ s
unfolding outside decode
read-esc s =
    ap read (sym (append-nil (esc s)))
    ∙ ap (λ t. decode 0 t) (outside-esc s [])
    ∙ decode-esc s []
    ∙ append-nil s

-- The HTML of the details, without its tags and with its entities read, is the text of every line that is
-- not blank, each once and in order, without the mark of a bullet; a text of one line is itself.
pub prose-texts :
    (s : Text)
    → read (prose s) ≡ (if any (λ c. c == 10) s then texts (shown_lines (split 10 s)) else s)
unfolding prose
prose-texts s = elim (Bool-cases (any (λ c. c == 10) s)) [
  | inl e ↦ rw e (
      ap (λ t. decode 0 t) (outside-blocks (blocks_of s))
      ∙ decode-escaped (shown_blocks (blocks_of s))
      ∙ ap texts (blocks_of-shown_lines s))
  | inr e ↦ rw e (read-esc s)
]
