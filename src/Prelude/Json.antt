-- ===== src/Prelude/Json.antt =====
-- The values that `JSON.parse` returns, and JavaScript's conversions of them. An object lists its
-- entries in the order of `Object.entries`, each key once.
use Prim.Native.Nat.{ℕ, zero, suc, ◌+◌, ◌/◌, ◌%◌}
use mathlib.Core.Bool.{Bool}
use mathlib.Core.Option.{Option}
use mathlib.Core.List.{List, [], ◌∷◌, ◌++◌}
use mssql_data_api.Prelude.Tests.{if◌then◌else◌, ltb}
use mssql_data_api.Prelude.Text.{Text}

-- A number: an integer from 0 on (-0 is 0), one below 0 (`below n` is -n - 1), or one that is no
-- integer, NaN and the infinities included.
pub data Number : Type 0 where
  whole : ℕ → Number
  below : ℕ → Number
  fraction : Number

mutual
  pub data Json : Type 0 where
    null : Json
    boolean : Bool → Json
    number : Number → Json
    string : Text → Json
    array : Items → Json
    object : Fields → Json

  pub data Items : Type 0 where
    nil : Items
    cons : Json → Items → Items

  pub data Fields : Type 0 where
    end : Fields
    field : Text → Json → Fields → Fields

abbrev pub elements : Items → List Json
elements nil = []
elements (cons x xs) = x ∷ elements xs

abbrev pub fields : Fields → List (Text × Json)
fields end = []
fields (field k v fs) = (k, v) ∷ fields fs

-- JavaScript's own functions: `JSON.parse`, none where it throws; `String(v)` of a value that is no
-- string; `Number(v)` of a value that is no number; `toUpperCase` and `toLowerCase`.
pub record Runtime : Type 0 where
  pub parse : Text → Option Json
  pub text_of : Json → Text
  pub number_of : Json → Number
  pub upper : Text → Text
  pub lower : Text → Text

abbrev pub to_text : Runtime → Json → Text
to_text rt (string s) = s
to_text rt v = rt.text_of v

abbrev pub to_number : Runtime → Json → Number
to_number rt (number n) = n
to_number rt v = rt.number_of v

-- The decimal digits of a number, with fuel; a number has fewer digits than its value and one.
unfoldable pub digits : ℕ → ℕ → Text → Text
digits zero n acc = acc
digits (suc fuel) n acc =
    let further = digits fuel (n / 10) ((b'0' + n % 10) ∷ acc) in
    if ltb n 10 then (b'0' + n) ∷ acc else further

-- `String(n)`; JavaScript writes the numbers below 10^21 in this way.
unfoldable pub decimal : ℕ → Text
unfolding digits
decimal n = digits (suc n) n []

-- JavaScript's comparison of strings, by code units.
unfoldable pub lt_text : Text → Text → Bool
lt_text s [] = Bool.false
lt_text [] (d ∷ t) = Bool.true
lt_text (c ∷ s) (d ∷ t) =
    let rest = lt_text s t in if ltb c d then Bool.true else if ltb d c then Bool.false else rest

-- `l.join(sep)`
unfoldable pub join : Text → List Text → Text
join sep [] = []
join sep (s ∷ []) = s
join sep (s ∷ t ∷ l) = s ++ sep ++ join sep (t ∷ l)
