-- ===== src/Safety/Guard/Parts.antt =====
-- The tests of the two guards of services/dba-mcp/src/safety.ts, as statements about the text: line ends, first words, blocked words.
use mssql_data_api.Prelude.{
  ℕ, zero, suc, Option, String, ◌≡◌, refl, sym, ap, ◌∙◌, true, false, none, some, List, [], ◌∷◌,
  ◌++◌, ◌==◌, Bool-cases, inl, inr, All,
}
use mathlib.Core.List.{Memᴰ}
use mssql_data_api.Prelude.Text.{Text, codes, is_space}
use mssql_data_api.Prelude.Regex.{
  Regex, test, keyword, head_is, accept, search_from, is_word_at, head_char, at_start,
}
use mssql_data_api.Prelude.Regex.Laws.{
  search_complete, run_complete, both, single, unless, before_end,
}
use mssql_data_api.Prelude.Regex.Laws.{search_sound}
use mssql_data_api.Prelude.Regex.Words.{Spells, IsWordIn, IsWordText, keyword_complete}
use mssql_data_api.Prelude.Regex.Inversion.{
  both_inv, start_inv, boundary_inv, many_inv, one_of_inv, AllChars, word_ends,
}
use mssql_data_api.Safety.Patterns.{begins_with, bare_cr}
use mssql_data_api.Safety.Guard.{first_blocked}

-- Every pattern of a list is missed where none is reported.
pub first_blocked-none :
    (l : List (Regex × String)) (s : Text)
    → first_blocked l s ≡ none
    → All (λ p. test p.0 s ≡ false) l
unfolding first_blocked
first_blocked-none [] s h = tt
first_blocked-none ((pattern, label) ∷ l) s h = elim (Bool-cases (test pattern s)) [
  | inl found ↦ cc (rw found at h)
  | inr missed ↦ (missed, first_blocked-none l s (rw missed at h))
]

-- The text has no word of the list.
abbrev pub HasNone : List String → Text → Type 0
HasNone l s = All (λ k. ¬ IsWordIn (codes k) s) l

pub HasNone-of_missed :
    (l : List String) (s : Text)
    → All (λ k. IsWordText (codes k)) l
    → test (keyword l) s ≡ false
    → HasNone l s
HasNone-of_missed l s h missed = go l h (λ k m. m)
  where
    go :
        (m : List String)
        → All (λ k. IsWordText (codes k)) m
        → ((k : String) → Memᴰ k m → Memᴰ k l)
        → HasNone m s
    go [] h sub = tt
    go (k ∷ m) h sub = (
      λ o. cc (sym missed ∙ keyword_complete l s (sub k (Memᴰ.head refl)) h.0 o),
      go m h.1 (λ j n. sub j (Memᴰ.tail n)),
    )

-- A carriage return is always followed by a line feed.
abbrev pub HasNoBareReturn : Text → Type 0
HasNoBareReturn query = (u v : Text) → query ≡ u ++ (13 ∷ v) → head_is (λ c. c == 10) v ≡ true

pub bare_cr_missed : (query : Text) → test bare_cr query ≡ false → HasNoBareReturn query
unfolding test bare_cr
bare_cr_missed query h u v e = elim (Bool-cases (head_is (λ c. c == 10) v)) [
  | inl lf ↦ lf
  | inr other ↦ cc (sym h ∙ found other)
]
  where
    found : head_is (λ c. c == 10) v ≡ false → search_from bare_cr none query ≡ true
    found other = rw e (
        search_complete bare_cr none u (13 ∷ v) (
          run_complete {a = before_end none u} {b = some 13} {t = v} accept
            (both (single {p = λ c. c == 13} {c = 13} refl) (unless {p = λ c. c == 10} other))
            refl))

-- The text begins, after white space, with a word of the list.
pub record BeginsWith (l : List String) (s : Text) : Type 0 where
  pub blank : Text
  pub mid : Text
  pub after : Text
  pub word : String
  pub listed : Memᴰ word l
  pub parts : s ≡ blank ++ (mid ++ after)
  pub is_blank : AllChars is_space blank
  pub spelled : Spells (codes word) mid
  pub ends : is_word_at (head_char after) ≡ false

before_end-some : (c : ℕ) (u : Text) → (d : ℕ) × (before_end (some c) u ≡ some d)
before_end-some c [] = (c, refl)
before_end-some c (d ∷ u) = before_end-some d u

pub at_start_nil : (u : Text) → at_start (before_end none u) ≡ true → u ≡ []
at_start_nil [] h = refl
at_start_nil (c ∷ u) h = let (d, e) = before_end-some c u in cc (rw e at h)

pub BeginsWith-of_found :
    (l : List String) (s : Text)
    → ((k : String) → Memᴰ k l → IsWordText (codes k))
    → test (begins_with l) s ≡ true
    → BeginsWith l s
unfolding test begins_with
BeginsWith-of_found l s words h =
    let (u, v, split, found) = search_sound (begins_with l) none s h in
    let (b, t, m, _) = found in
    let (b1, t1, m1, m2) = both_inv m in
    let (b2, t2, m3, m4) = both_inv m2 in
    let (b3, t3, m5, m6) = both_inv m4 in
    let (blank, split2, is_blank, last2) = many_inv m3 in
    let (k, mid, listed, spelled, split3, last3) = one_of_inv l m5 in
    let (same, here, first) = start_inv m1 in
    record {
      blank = blank;
      mid = mid;
      after = t3;
      word = k;
      listed = listed;
      parts =
          split
          ∙ ap (λ w. w ++ v) (at_start_nil u first)
          ∙ here
          ∙ split2
          ∙ ap (λ w. blank ++ w) split3;
      is_blank = is_blank;
      spelled = spelled;
      ends = word_ends k mid t3 b2 (words k listed) spelled (rw (← last3) (boundary_inv m6).2);
    }

-- The groups of words that a pattern list blocks, each with the place of its pattern.
abbrev pub Groups : Type 0
Groups = List (ℕ × List String)

abbrev regex_at : List (Regex × String) → ℕ → Option Regex
regex_at [] n = none
regex_at (p ∷ l) zero = some p.0
regex_at (p ∷ l) (suc n) = regex_at l n

-- Every group stands at its place of the list.
abbrev pub Places : List (Regex × String) → Groups → Type 0
Places l groups = All (λ g. regex_at l g.0 ≡ some (keyword g.1)) groups

abbrev pub words_of : Groups → List String
words_of [] = []
words_of (g ∷ groups) = g.1 ++ words_of groups

missed_at :
    (l : List (Regex × String)) (n : ℕ) (r : Regex) (s : Text)
    → regex_at l n ≡ some r
    → All (λ p. test p.0 s ≡ false) l
    → test r s ≡ false
missed_at [] n r s e h = cc
missed_at (p ∷ l) zero r s e h = cc h.0
missed_at (p ∷ l) (suc n) r s e h = missed_at l n r s e h.1

HasNone-append : (l m : List String) (s : Text) → HasNone l s → HasNone m s → HasNone (l ++ m) s
HasNone-append [] m s h k = k
HasNone-append (j ∷ l) m s h k = (h.0, HasNone-append l m s h.1 k)

-- No word of the groups stands in a text for which no pattern of the list is reported.
pub Places-HasNone :
    (l : List (Regex × String)) (groups : Groups) (s : Text)
    → Places l groups
    → All (λ g. All (λ k. IsWordText (codes k)) g.1) groups
    → first_blocked l s ≡ none
    → HasNone (words_of groups) s
Places-HasNone l [] s places words h = tt
Places-HasNone l (g ∷ groups) s (place, places) (word, words) h =
    HasNone-append g.1 (words_of groups) s
      (HasNone-of_missed g.1 s word
        (missed_at l g.0 (keyword g.1) s place (first_blocked-none l s h)))
      (Places-HasNone l groups s places words h)
