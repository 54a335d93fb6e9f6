-- ===== src/Report/Html/Order.antt =====
-- The HTML of the details in services/dba-mcp/src/dbatools.ts keeps every line in its place, and no
-- character of a text makes a tag.
use mssql_data_api.Prelude.{
  ℕ, ◌≡◌, ◌≢◌, refl, ap, sym, ◌∙◌, arith, ◌==◌, false, Option, none, some, List, [], ◌∷◌, ◌++◌,
  append-nil, append_assoc, All, Bool-cases, inl, inr, if◌then◌else◌,
}
use mssql_data_api.Prelude.Text.{Text, trim}
use mssql_data_api.Safety.Guard.{split}
use mssql_data_api.Settings.{is_blank}
use mssql_data_api.Report.Html.{
  esc_char, esc, Block, line, bullets, flush, bullet_of, Pending, add_line, add_lines, blocks_of,
}

-- A line as it stands in the list of the lines, the mark of a bullet kept.
pub data Shown : Type 0 where
  plain : Text → Shown
  bullet : Text → Shown

abbrev pub shown_as : Text → Option Text → Shown
shown_as t none = plain t
shown_as t (some b) = bullet b

-- The lines of a text that are not blank, trimmed.
unfoldable pub shown_lines : List Text → List Shown
unfolding trim
shown_lines [] = []
shown_lines (s ∷ l) =
    let rest = shown_lines l in
    if is_blank (trim s) then rest else shown_as (trim s) (bullet_of (trim s)) ∷ rest

abbrev pub as_bullets : List Text → List Shown
as_bullets [] = []
as_bullets (b ∷ l) = bullet b ∷ as_bullets l

abbrev pub shown_block : Block → List Shown
shown_block (line t) = plain t ∷ []
shown_block (bullets l) = as_bullets l

abbrev pub shown_blocks : List Block → List Shown
shown_blocks [] = []
shown_blocks (b ∷ l) = shown_block b ++ shown_blocks l

shown-append : (a b : List Block) → shown_blocks (a ++ b) ≡ shown_blocks a ++ shown_blocks b
shown-append [] b = refl
shown-append (x ∷ a) b =
    ap (λ t. shown_block x ++ t) (shown-append a b)
    ∙ sym (append_assoc (shown_block x) (shown_blocks a) (shown_blocks b))

bullets-append : (a b : List Text) → as_bullets (a ++ b) ≡ as_bullets a ++ as_bullets b
bullets-append [] b = refl
bullets-append (x ∷ a) b = ap (λ t. bullet x ∷ t) (bullets-append a b)

shown-flush :
    (held : List Text) (out : List Block)
    → shown_blocks (flush held out) ≡ shown_blocks out ++ as_bullets held
unfolding flush
shown-flush [] out = sym (append-nil (shown_blocks out))
shown-flush (b ∷ l) out =
    shown-append out (bullets (b ∷ l) ∷ [])
    ∙ ap (λ t. shown_blocks out ++ t) (append-nil (as_bullets (b ∷ l)))

-- What is pushed, and what is held behind it.
so_far : Pending → List Shown
so_far (held, out) = shown_blocks out ++ as_bullets held

so_far-add_line :
    (t : Text) (o : Option Text) (p : Pending)
    → so_far (add_line t o p) ≡ so_far p ++ shown_as t o ∷ []
unfolding so_far
so_far-add_line t (some b) (held, out) =
    ap (λ q. shown_blocks out ++ q) (bullets-append held (b ∷ []))
    ∙ sym (append_assoc (shown_blocks out) (as_bullets held) (bullet b ∷ []))
so_far-add_line t none (held, out) =
    append-nil (shown_blocks (flush held out ++ line t ∷ []))
    ∙ shown-append (flush held out) (line t ∷ [])
    ∙ ap (λ q. q ++ plain t ∷ []) (shown-flush held out)

so_far-add_lines :
    (l : List Text) (p : Pending) → so_far (add_lines l p) ≡ so_far p ++ shown_lines l
unfolding add_lines shown_lines
so_far-add_lines [] p = sym (append-nil (so_far p))
so_far-add_lines (s ∷ l) p = elim (Bool-cases (is_blank (trim s))) [
  | inl e ↦ rw e (so_far-add_lines l p)
  | inr e ↦ rw e (
      so_far-add_lines l (add_line (trim s) (bullet_of (trim s)) p)
      ∙ ap (λ q. q ++ shown_lines l) (so_far-add_line (trim s) (bullet_of (trim s)) p)
      ∙ append_assoc (so_far p) (shown_as (trim s) (bullet_of (trim s)) ∷ []) (shown_lines l))
]

-- The blocks of a text have its lines that are not blank, each once and in their order, as bullets
-- where they begin with a star and as plain lines elsewhere.
pub blocks_of-shown_lines : (s : Text) → shown_blocks (blocks_of s) ≡ shown_lines (split 10 s)
unfolding blocks_of so_far
blocks_of-shown_lines s =
    let p = add_lines (split 10 s) ([], []) in
    shown-flush p.0 p.1 ∙ so_far-add_lines (split 10 s) ([], [])

-- A character that begins or ends no tag and no attribute.
abbrev pub IsInert : ℕ → Type 0
IsInert c = (c ≢ b'<') × (c ≢ b'>') × (c ≢ b'"') × (c ≢ b'\'')

All-append {ℓ} : (P : ℕ → Type ℓ) (a b : Text) → All P a → All P b → All P (a ++ b)
All-append P [] b h k = k
All-append P (x ∷ a) b (h, hs) k = (h, All-append P a b hs k)

esc_char-IsInert : (c : ℕ) → All IsInert (esc_char c)
unfolding esc_char
esc_char-IsInert c = elim (Bool-cases (c == b'&')) [
  | inl e ↦ rw e (ground arith)
  | inr a ↦ elim (Bool-cases (c == b'<')) [
    | inl e ↦ rw (a, e) (ground arith)
    | inr b ↦ elim (Bool-cases (c == b'>')) [
      | inl e ↦ rw (a, b, e) (ground arith)
      | inr d ↦ elim (Bool-cases (c == b'"')) [
        | inl e ↦ rw (a, b, d, e) (ground arith)
        | inr f ↦ elim (Bool-cases (c == b'\'')) [
          | inl e ↦ rw (a, b, d, f, e) (ground arith)
          | inr g ↦ rw (a, b, d, f, g) (inert a b d f g, tt)
        ]
      ]
    ]
  ]
]
  where
    inert :
        (c == b'&') ≡ false
        → (c == b'<') ≡ false
        → (c == b'>') ≡ false
        → (c == b'"') ≡ false
        → (c == b'\'') ≡ false
        → IsInert c
    inert a b d f g = ground arith

-- No character of a text that was escaped begins or ends a tag or the value of an attribute.
pub esc-IsInert : (s : Text) → All IsInert (esc s)
unfolding esc
esc-IsInert [] = tt
esc-IsInert (c ∷ s) = All-append IsInert (esc_char c) (esc s) (esc_char-IsInert c) (esc-IsInert s)
