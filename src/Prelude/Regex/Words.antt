-- ===== src/Prelude/Regex/Words.antt =====
-- What `/\b(A|B|…)\b/i` finds: every standalone occurrence of a word, in any case.
use mssql_data_api.Prelude.{
  ℕ, String, ◌≡◌, refl, sym, ap, ◌∙◌, true, false, Option, none, some, List, [], ◌∷◌, ◌++◌, map,
  arith, ==_iff,
}
use mathlib.Core.List.{Memᴰ}
use mssql_data_api.Prelude.Text.{Text, codes, is_word, fold}
use mssql_data_api.Prelude.Regex.{
  is_word_at, head_char, run, accept, test, letters, word, one_of, keyword, Regex, ◌⋆◌, boundary,
}
use mssql_data_api.Prelude.Regex.Laws.{
  Matches, nothing, single, both, left, right, at_boundary, run_complete, search_complete,
  before_end,
}

-- `mid` spells `w`, case aside.
abbrev pub Spells : Text → Text → Type 0
Spells w mid = map fold mid ≡ map fold w

-- `w` stands in `s` as a whole word: no word character touches it on either side.
pub record IsWordIn (w s : Text) : Type 0 where
  pub before : Text
  pub mid : Text
  pub after : Text
  pub parts : s ≡ before ++ (mid ++ after)
  pub spelled : Spells w mid
  pub open_left : is_word_at (before_end none before) ≡ false
  pub open_right : is_word_at (head_char after) ≡ false

-- A text that begins and ends with a word character.
abbrev pub IsWordText : Text → Type 0
IsWordText w = (is_word_at (head_char w) ≡ true) × (is_word_at (before_end none w) ≡ true)

is_word-fold : (c : ℕ) → is_word (fold c) ≡ is_word c
unfolding is_word fold
is_word-fold c = ground arith

is_word_eq : (a c : ℕ) → fold c ≡ fold a → is_word c ≡ is_word a
is_word_eq a c e = sym (is_word-fold c) ∙ ap is_word e ∙ is_word-fold a

pub letters-Matches :
    (w mid : Text) (b : Option ℕ) (after : Text)
    → Spells w mid
    → Matches (letters w) b (mid ++ after) (before_end b mid) after
unfolding letters
letters-Matches [] [] b after e = nothing
letters-Matches [] (c ∷ mid) b after e = cc
letters-Matches (a ∷ w) [] b after e = cc
letters-Matches (a ∷ w) (c ∷ mid) b after e =
    both (single ((==_iff _ _).1 (cc))) (letters-Matches w mid (some c) after (cc))

pub is_word_at-before_end :
    (w mid : Text) (b b' : Option ℕ)
    → is_word_at b ≡ is_word_at b'
    → Spells w mid
    → is_word_at (before_end b mid) ≡ is_word_at (before_end b' w)
is_word_at-before_end [] [] b b' h e = h
is_word_at-before_end [] (c ∷ mid) b b' h e = cc
is_word_at-before_end (a ∷ w) [] b b' h e = cc
is_word_at-before_end (a ∷ w) (c ∷ mid) b b' h e =
    is_word_at-before_end w mid (some c) (some a) (is_word_eq a c (cc)) (cc)

pub is_word_at-head_char :
    (w mid after : Text)
    → Spells w mid
    → is_word_at (head_char w) ≡ true
    → is_word_at (head_char (mid ++ after)) ≡ true
is_word_at-head_char [] mid after e h = cc
is_word_at-head_char (a ∷ w) [] after e h = cc
is_word_at-head_char (a ∷ w) (c ∷ mid) after e h = is_word_eq a c (cc) ∙ h

-- The last character before a place, when the text before it is a word, does not depend on what
-- stands further left.
pub last-eq : (w : Text) (b : Option ℕ) → IsWordText w → is_word_at (before_end b w) ≡ true
last-eq [] b h = cc h.0
last-eq (a ∷ w) b h = h.1

one_of-Matches :
    (l : List String) {k : String} (mid : Text) (b : Option ℕ) (after : Text)
    → Memᴰ k l
    → Spells (codes k) mid
    → Matches (one_of l) b (mid ++ after) (before_end b mid) after
unfolding one_of word
one_of-Matches [] mid b after m h = elim m [ ]
one_of-Matches (s ∷ []) mid b after (Memᴰ.tail m) h = elim m [ ]
one_of-Matches (s ∷ []) mid b after (Memᴰ.head e) h =
    letters-Matches (codes s) mid b after (h ∙ ap (λ k. map fold (codes k)) e)
one_of-Matches (s ∷ t ∷ l) mid b after (Memᴰ.head e) h =
    left (letters-Matches (codes s) mid b after (h ∙ ap (λ k. map fold (codes k)) e))
one_of-Matches (s ∷ t ∷ l) mid b after (Memᴰ.tail m) h =
    right (one_of-Matches (t ∷ l) mid b after m h)

-- A standalone word is found between two boundaries by what matches all its spellings.
pub bounded_complete :
    (r : Regex) (w s : Text)
    → ((mid : Text) (b : Option ℕ) (after : Text)
        → Spells w mid
        → Matches r b (mid ++ after) (before_end b mid) after)
    → IsWordText w
    → IsWordIn w s
    → test (boundary ⋆ r ⋆ boundary) s ≡ true
unfolding test
bounded_complete r w s matches words o =
    rw o.parts (search_complete (boundary ⋆ r ⋆ boundary) none o.before (o.mid ++ o.after) found)
  where
    starts : is_word_at (head_char (o.mid ++ o.after)) ≡ true
    starts = is_word_at-head_char w o.mid o.after o.spelled words.0

    ends : is_word_at (before_end (before_end none o.before) o.mid) ≡ true
    ends =
        is_word_at-before_end w o.mid (before_end none o.before) (before_end none o.before) refl
          o.spelled
        ∙ last-eq w (before_end none o.before) words

    found :
        run (boundary ⋆ r ⋆ boundary) (before_end none o.before) (o.mid ++ o.after) accept ≡ true
    found =
        run_complete {a = before_end none o.before} accept
          (both (at_boundary (rw (o.open_left, starts)))
            (both (matches o.mid _ o.after o.spelled) (at_boundary (rw (ends, o.open_right)))))
          refl

-- A standalone word of the list is found.
pub keyword_complete :
    (l : List String) {k : String} (s : Text)
    → Memᴰ k l
    → IsWordText (codes k)
    → IsWordIn (codes k) s
    → test (keyword l) s ≡ true
unfolding keyword
keyword_complete l {k} s m words o =
    bounded_complete (one_of l) (codes k) s (λ mid b after e. one_of-Matches l mid b after m e)
      words o
