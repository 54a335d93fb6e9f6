-- ===== src/Prelude/Regex.antt =====
-- The part of JavaScript's regular expressions that the program uses, run by backtracking, as
-- `RegExp.prototype.test` does. Every `*` and `+` of the program repeats a character class, so
-- `many` takes a class and the matcher recurs on the text.
pub mod Laws
pub mod Words
pub mod Inversion
use Prim.Native.Nat.{ℕ, zero, suc}
use Prim.Native.String.{String}
use mathlib.Core.Bool.{Bool, true, false, not, ◌&&◌, ◌||◌}
use mathlib.Core.Option.{Option, none, some}
use mathlib.Core.List.{List, [], ◌∷◌}
use mssql_data_api.Prelude.Tests.{◌==◌}
use mssql_data_api.Prelude.Text.{Text, codes, is_word, fold}

pub data Regex : Type 0 where
  empty : Regex
  one : (ℕ → Bool) → Regex
  many : (ℕ → Bool) → Regex
  ◌⋆◌ : Regex → Regex → Regex
  ◌∣∣◌ : Regex → Regex → Regex
  boundary : Regex
  start : Regex
  finish : Regex
  not_followed_by : (ℕ → Bool) → Regex

infixr 60 ◌⋆◌
infixr 55 ◌∣∣◌
-- `\b` between the character before and the text after.
abbrev pub is_word_at : Option ℕ → Bool
is_word_at none = false
is_word_at (some c) = is_word c

abbrev pub head_char : Text → Option ℕ
head_char [] = none
head_char (c ∷ s) = some c

abbrev pub differ : Bool → Bool → Bool
differ true b = not b
differ false b = b

abbrev pub at_start : Option ℕ → Bool
at_start none = true
at_start (some c) = false

abbrev pub at_end : Text → Bool
at_end [] = true
at_end (c ∷ s) = false

abbrev pub head_is : (ℕ → Bool) → Text → Bool
head_is p [] = false
head_is p (c ∷ s) = p c

-- What has to be matched after a part: it is asked at each place where the part can end.
abbrev pub Rest : Type 0
Rest = Option ℕ → Text → Bool

unfoldable pub run_many : (ℕ → Bool) → Option ℕ → Text → Rest → Bool
run_many p before [] k = k before []
run_many p before (c ∷ s) k =
    let longer = run_many p (some c) s k in k before (c ∷ s) || (p c && longer)

unfoldable pub run : Regex → Option ℕ → Text → Rest → Bool
unfolding run_many is_word
run empty before s k = k before s
run (one p) before [] k = false
run (one p) before (c ∷ s) k = p c && k (some c) s
run (many p) before s k = run_many p before s k
run (r ⋆ q) before s k = run r before s (λ b t. run q b t k)
run (r ∣∣ q) before s k = run r before s k || run q before s k
run boundary before s k = differ (is_word_at before) (is_word_at (head_char s)) && k before s
run start before s k = at_start before && k before s
run finish before s k = at_end s && k before s
run (not_followed_by p) before s k = not (head_is p s) && k before s

abbrev pub accept : Rest
accept before s = true

-- The search tries every place of the text from left to right.
unfoldable pub search_from : Regex → Option ℕ → Text → Bool
unfolding run
search_from r before [] = run r before [] accept
search_from r before (c ∷ s) = run r before (c ∷ s) accept || search_from r (some c) s

-- `r.test(s)`
unfoldable pub test : Regex → Text → Bool
unfolding search_from
test r s = search_from r none s

-- Letters that match whatever their case (the `i` flag), and the shapes that the patterns share.
abbrev pub same_letter : ℕ → ℕ → Bool
same_letter a c = fold c == fold a

unfoldable pub letters : Text → Regex
unfolding fold
letters [] = empty
letters (c ∷ s) = one (same_letter c) ⋆ letters s

-- `X` with the `i` flag.
unfoldable pub word : String → Regex
unfolding letters
word s = letters (codes s)

unfoldable pub one_of : List String → Regex
unfolding word
one_of [] = one (λ c. false)
one_of (s ∷ []) = word s
one_of (s ∷ t ∷ l) = word s ∣∣ one_of (t ∷ l)

abbrev pub optional : Regex → Regex
optional r = r ∣∣ empty

abbrev pub some_of : (ℕ → Bool) → Regex
some_of p = one p ⋆ many p

-- `p{0,n}`
unfoldable pub up_to : ℕ → (ℕ → Bool) → Regex
up_to zero p = empty
up_to (suc n) p = one p ⋆ up_to n p ∣∣ empty

-- `/\b(A|B|…)\b/i`
unfoldable pub keyword : List String → Regex
unfolding one_of
keyword l = boundary ⋆ one_of l ⋆ boundary
