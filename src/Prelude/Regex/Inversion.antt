-- ===== src/Prelude/Regex/Inversion.antt =====
-- What a match says of the text: the cases of `Matches`, part by part.
use mssql_data_api.Prelude.{
  ℕ, String, ◌≡◌, subst, sym, refl, ap, ◌∙◌, Bool, true, false, Option, none, some, List, [], ◌∷◌,
  ◌++◌, arith, ==_iff, All,
}
use mathlib.Core.List.{Memᴰ}
use mssql_data_api.Prelude.Text.{Text, codes}
use mssql_data_api.Prelude.Regex.{
  Regex, one, many, ◌⋆◌, boundary, start, finish, keyword, test, is_word_at, head_char, differ,
  at_start, at_end, letters, word, one_of,
}
use mssql_data_api.Prelude.Regex.Laws.{
  Matches, nothing, single, none_more, one_more, both, left, right, at_boundary, at_first, at_last,
  before_end, search_sound,
}
use mssql_data_api.Prelude.Regex.Words.{
  Spells, IsWordIn, IsWordText, is_word_at-before_end, is_word_at-head_char, last-eq,
}

pub both_inv :
    {r q : Regex} {a c : Option ℕ} {s u : Text}
    → Matches (r ⋆ q) a s c u
    → (b : Option ℕ) × (t : Text) × Matches r a s b t × Matches q b t c u
both_inv (both {b = b} {t = t} m n) = (b, t, m, n)

pub start_inv :
    {a b : Option ℕ} {s t : Text} → Matches start a s b t → (a ≡ b) × (s ≡ t) × (at_start a ≡ true)
start_inv (at_first e) = (refl, refl, e)

pub finish_inv :
    {a b : Option ℕ} {s t : Text} → Matches finish a s b t → (at_end s ≡ true) × (s ≡ t)
finish_inv (at_last e) = (e, refl)

pub boundary_inv :
    {a b : Option ℕ} {s t : Text}
    → Matches boundary a s b t
    → (a ≡ b) × (s ≡ t) × (differ (is_word_at a) (is_word_at (head_char s)) ≡ true)
boundary_inv (at_boundary e) = (refl, refl, e)

pub one_inv :
    {p : ℕ → Bool} {a b : Option ℕ} {s t : Text}
    → Matches (one p) a s b t
    → (c : ℕ) × (s ≡ c ∷ t) × (p c ≡ true) × (b ≡ some c)
one_inv (single {c = c} e) = (c, refl, e, refl)

-- Every character of the text satisfies `p`.
abbrev pub AllChars : (ℕ → Bool) → Text → Type 0
AllChars p s = All (λ c. p c ≡ true) s

pub many_inv :
    {p : ℕ → Bool} {a b : Option ℕ} {s t : Text}
    → Matches (many p) a s b t
    → (u : Text) × (s ≡ u ++ t) × AllChars p u × (b ≡ before_end a u)
many_inv none_more = ([], refl, tt, refl)
many_inv (one_more {c = c} e m) =
    let (u, split, all, last) = many_inv m in (c ∷ u, ap (◌∷◌ c) split, (e, all), last)

pub letters_inv :
    (w : Text) {a b : Option ℕ} {s t : Text}
    → Matches (letters w) a s b t
    → (mid : Text) × Spells w mid × (s ≡ mid ++ t) × (b ≡ before_end a mid)
unfolding letters
letters_inv [] nothing = ([], refl, refl, refl)
letters_inv (x ∷ w) (both (single {c = c} e) n) =
    let (mid, spelled, split, last) = letters_inv w n in
    (c ∷ mid, cc ((==_iff _ _).0 e), ap (◌∷◌ c) split, last)

pub one_of_inv :
    (l : List String) {a b : Option ℕ} {s t : Text}
    → Matches (one_of l) a s b t
    → (k : String) × (mid : Text) × Memᴰ k l
      × Spells (codes k) mid
      × (s ≡ mid ++ t)
      × (b ≡ before_end a mid)
unfolding one_of word
one_of_inv [] (single e) = cc
one_of_inv (k ∷ []) m =
    let (mid, spelled, split, last) = letters_inv (codes k) m in
    (k, mid, Memᴰ.head refl, spelled, split, last)
one_of_inv (k ∷ j ∷ l) (left m) =
    let (mid, spelled, split, last) = letters_inv (codes k) m in
    (k, mid, Memᴰ.head refl, spelled, split, last)
one_of_inv (k ∷ j ∷ l) (right m) =
    let (i, mid, mem, spelled, split, last) = one_of_inv (j ∷ l) m in
    (i, mid, Memᴰ.tail mem, spelled, split, last)

differ_right : (a b : Bool) → a ≡ true → differ a b ≡ true → b ≡ false
differ_right a b h k = ground arith

differ_left : (a b : Bool) → b ≡ true → differ a b ≡ true → a ≡ false
differ_left a b h k = ground arith

-- A spelled word before a word boundary is followed by no word character, and one behind a
-- boundary follows none.
pub word_ends :
    (k : String) (mid after : Text) (b : Option ℕ)
    → IsWordText (codes k)
    → Spells (codes k) mid
    → differ (is_word_at (before_end b mid)) (is_word_at (head_char after)) ≡ true
    → is_word_at (head_char after) ≡ false
word_ends k mid after b words spelled h =
    differ_right _ _
      (is_word_at-before_end (codes k) mid b b refl spelled ∙ last-eq (codes k) b words) h

word_begins :
    (k : String) (mid after : Text) (b : Option ℕ)
    → IsWordText (codes k)
    → Spells (codes k) mid
    → differ (is_word_at b) (is_word_at (head_char (mid ++ after))) ≡ true
    → is_word_at b ≡ false
word_begins k mid after b words spelled h =
    differ_left _ _ (is_word_at-head_char (codes k) mid after spelled words.0) h

-- What `/\b(A|B|…)\b/i` finds is a standalone word of the list.
pub keyword_sound :
    (l : List String) (s : Text)
    → ((k : String) → Memᴰ k l → IsWordText (codes k))
    → test (keyword l) s ≡ true
    → (k : String) × Memᴰ k l × IsWordIn (codes k) s
unfolding test keyword
keyword_sound l s words h =
    let (u, v, split, found) = search_sound (keyword l) none s h in
    let (b, t, m, _) = found in
    let (b1, t1, m1, m2) = both_inv m in
    let (b2, t2, m3, m4) = both_inv m2 in
    let (same, here, bound) = boundary_inv m1 in
    let (k, mid, listed, spelled, split3, last3) = one_of_inv l m3 in
    let at = here ∙ split3 in
    (
      k,
      listed,
      record {
        before = u;
        mid = mid;
        after = t2;
        parts = split ∙ ap (λ w. u ++ w) at;
        spelled = spelled;
        open_left =
            word_begins k mid t2 (before_end none u) (words k listed) spelled (rw at at bound);
        open_right =
            word_ends k mid t2 b1 (words k listed) spelled (rw (last3) at ((boundary_inv m4).2));
      },
    )

pub word_sound :
    (k : String) (s : Text)
    → IsWordText (codes k)
    → test (keyword (k ∷ [])) s ≡ true
    → IsWordIn (codes k) s
word_sound k s words h =
    let (j, m, o) = keyword_sound (k ∷ []) s only h in
    let e : j ≡ k = is_it m in subst (λ i. IsWordIn (codes i) s) e o
  where
    is_it : {j : String} → Memᴰ j (k ∷ []) → j ≡ k
    is_it (Memᴰ.head e) = e
    is_it (Memᴰ.tail m) = elim m [ ]

    only : (j : String) → Memᴰ j (k ∷ []) → IsWordText (codes j)
    only j m = subst (λ i. IsWordText (codes i)) (sym (is_it m)) words
