-- ===== src/Prelude/Regex/Laws.antt =====
-- What a search finds: the matches of a regular expression as a relation, and the words of a text.
use Prim.Native.Nat.{ℕ}
use mathlib.Core.Path.{◌≡◌, refl, ap}
use mathlib.Core.Bool.{Bool, true, false, not, ◌&&◌, ◌||◌}
use mathlib.Core.Option.{Option, some}
use mathlib.Core.Logic.{◌⊎◌, inl, inr}
use mathlib.Core.List.{[], ◌∷◌, ◌++◌}
use native.Mathlib.Omega.{arith}
use mssql_data_api.Prelude.Text.{Text}
use mssql_data_api.Prelude.Regex.{
  Regex, empty, one, many, ◌⋆◌, ◌∣∣◌, boundary, start, finish, not_followed_by, is_word_at,
  head_char, differ, at_start, at_end, head_is, Rest, run_many, run, accept, search_from,
}

-- `Matches r b s c t`: `r` matches from before `s` to before `t`, where `b` and `c` are the
-- characters that precede.
pub data Matches : Regex → Option ℕ → Text → Option ℕ → Text → Type 0 where
  nothing : {b : Option ℕ} {s : Text} → Matches empty b s b s
  single :
      {p : ℕ → Bool} {b : Option ℕ} {c : ℕ} {s : Text}
      → p c ≡ true
      → Matches (one p) b (c ∷ s) (some c) s
  none_more : {p : ℕ → Bool} {b : Option ℕ} {s : Text} → Matches (many p) b s b s
  one_more :
      {p : ℕ → Bool} {b d : Option ℕ} {c : ℕ} {s t : Text}
      → p c ≡ true
      → Matches (many p) (some c) s d t
      → Matches (many p) b (c ∷ s) d t
  both :
      {r q : Regex} {a b c : Option ℕ} {s t u : Text}
      → Matches r a s b t
      → Matches q b t c u
      → Matches (r ⋆ q) a s c u
  left : {r q : Regex} {a b : Option ℕ} {s t : Text} → Matches r a s b t → Matches (r ∣∣ q) a s b t
  right : {r q : Regex} {a b : Option ℕ} {s t : Text} → Matches q a s b t → Matches (r ∣∣ q) a s b t
  at_boundary :
      {b : Option ℕ} {s : Text}
      → differ (is_word_at b) (is_word_at (head_char s)) ≡ true
      → Matches boundary b s b s
  at_first : {b : Option ℕ} {s : Text} → at_start b ≡ true → Matches start b s b s
  at_last : {b : Option ℕ} {s : Text} → at_end s ≡ true → Matches finish b s b s
  unless :
      {p : ℕ → Bool} {b : Option ℕ} {s : Text}
      → head_is p s ≡ false
      → Matches (not_followed_by p) b s b s

and_true : (a b : Bool) → a ≡ true → b ≡ true → (a && b) ≡ true
and_true a b h k = ground arith

or_left : (a b : Bool) → a ≡ true → (a || b) ≡ true
or_left a b h = ground arith

or_right : (a b : Bool) → b ≡ true → (a || b) ≡ true
or_right true b h = refl
or_right false b h = h

run_many_now :
    (p : ℕ → Bool) (b : Option ℕ) (s : Text) (k : Rest) → k b s ≡ true → run_many p b s k ≡ true
unfolding run_many
run_many_now p b [] k h = h
run_many_now p b (c ∷ s) k h = or_left _ _ h

-- A match is found, whatever else can match.
pub run_complete :
    {r : Regex} {a b : Option ℕ} {s t : Text} (k : Rest)
    → Matches r a s b t
    → k b t ≡ true
    → run r a s k ≡ true
unfolding run
run_complete k nothing h = h
run_complete k (single e) h = and_true _ _ e h
run_complete k none_more h = run_many_now _ _ _ k h
run_complete k (one_more e m) h = or_right _ _ (and_true _ _ e (run_complete k m h))
run_complete k (both {q = q} m n) h = run_complete (λ b t. run q b t k) m (run_complete k n h)
run_complete k (left m) h = or_left _ _ (run_complete k m h)
run_complete k (right m) h = or_right _ _ (run_complete k m h)
run_complete k (at_boundary e) h = and_true _ _ e h
run_complete k (at_first e) h = and_true _ _ e h
run_complete k (at_last e) h = and_true _ _ e h
run_complete k (unless e) h = and_true _ _ (ap not e) h

-- The character before the end of `s`, where `b` stands before its start.
abbrev pub before_end : Option ℕ → Text → Option ℕ
before_end b [] = b
before_end b (c ∷ s) = before_end (some c) s

-- A search from the left reaches every place.
pub search_complete :
    (r : Regex) (b : Option ℕ) (s t : Text)
    → run r (before_end b s) t accept ≡ true
    → search_from r b (s ++ t) ≡ true
unfolding search_from
search_complete r b [] [] h = h
search_complete r b [] (c ∷ t) h = or_left _ _ h
search_complete r b (c ∷ s) t h = or_right _ _ (search_complete r (some c) s t h)

and_split : (a b : Bool) → (a && b) ≡ true → (a ≡ true) × (b ≡ true)
and_split a b h = ground arith

or_split : (a b : Bool) → (a || b) ≡ true → (a ≡ true) ⊎ (b ≡ true)
or_split a b h = ground arith

not_split : (a : Bool) → not a ≡ true → a ≡ false
not_split a h = ground arith

-- `r` matched up to a place where the rest is accepted.
abbrev pub Found : Regex → Option ℕ → Text → Rest → Type 0
Found r a s k = (b : Option ℕ) × (t : Text) × Matches r a s b t × (k b t ≡ true)

run_many_sound :
    (p : ℕ → Bool) (a : Option ℕ) (s : Text) (k : Rest)
    → run_many p a s k ≡ true
    → Found (many p) a s k
unfolding run_many
run_many_sound p a [] k h = (a, [], none_more, h)
run_many_sound p a (c ∷ s) k h = elim (or_split _ _ h) [
  | inl now ↦ (a, c ∷ s, none_more, now)
  | inr later ↦
      let (here, rest) = and_split (p c) _ later in
      let (b, t, m, e) = run_many_sound p (some c) s k rest in (b, t, one_more here m, e)
]

-- What is found is a match.
pub run_sound :
    (r : Regex) (a : Option ℕ) (s : Text) (k : Rest) → run r a s k ≡ true → Found r a s k
unfolding run
run_sound empty a s k h = (a, s, nothing, h)
run_sound (one p) a [] k h = cc
run_sound (one p) a (c ∷ s) k h = let (e, rest) = and_split (p c) _ h in (some c, s, single e, rest)
run_sound (many p) a s k h = run_many_sound p a s k h
run_sound (r ⋆ q) a s k h =
    let (b, t, m, e) = run_sound r a s (λ b t. run q b t k) h in
    let (c, u, n, e') = run_sound q b t k e in (c, u, both m n, e')
run_sound (r ∣∣ q) a s k h = elim (or_split (run r a s k) (run q a s k) h) [
  | inl first ↦ let (b, t, m, e) = run_sound r a s k first in (b, t, left m, e)
  | inr second ↦ let (b, t, m, e) = run_sound q a s k second in (b, t, right m, e)
]
run_sound boundary a s k h = let (e, r) = and_split _ (k a s) h in (a, s, at_boundary e, r)
run_sound start a s k h = let (e, r) = and_split (at_start a) (k a s) h in (a, s, at_first e, r)
run_sound finish a s k h = let (e, r) = and_split (at_end s) (k a s) h in (a, s, at_last e, r)
run_sound (not_followed_by p) a s k h =
    let (e, r) = and_split (not (head_is p s)) (k a s) h in (a, s, unless (not_split _ e), r)

pub search_sound :
    (r : Regex) (a : Option ℕ) (s : Text)
    → search_from r a s ≡ true
    → (u v : Text) × (s ≡ u ++ v) × Found r (before_end a u) v accept
unfolding search_from
search_sound r a [] h = ([], [], refl, run_sound r a [] accept h)
search_sound r a (c ∷ s) h = elim (or_split _ _ h) [
  | inl now ↦ ([], c ∷ s, refl, run_sound r a (c ∷ s) accept now)
  | inr later ↦ let (u, v, e, f) = search_sound r (some c) s later in (c ∷ u, v, ap (◌∷◌ c) e, f)
]
