-- ===== src/ReportCli/Flags.antt =====
-- `parseFlags` of services/dba-mcp/src/reportCli.ts. The object of the flags is a dictionary.
use mssql_data_api.Prelude.{ℕ, ◌==◌, ◌&&◌, Option, none, some, List, [], ◌∷◌, if◌then◌else◌}
use mssql_data_api.Prelude.Text.{Text, codes}
use mssql_data_api.Prelude.Dict.{Dict, set}

-- `a.startsWith("--")`, with the rest.
unfoldable pub flag : Text → Option Text
flag [] = none
flag (c ∷ []) = none
flag (c ∷ d ∷ s) = if c == b'-' && d == b'-' then some s else none

abbrev pub consed : ℕ → Option (Text × Text) → Option (Text × Text)
consed c none = none
consed c (some (k, v)) = some (c ∷ k, v)

-- The parts before and after the first `=`.
unfoldable pub cut_eq : Text → Option (Text × Text)
cut_eq [] = none
cut_eq (c ∷ s) = let rest = cut_eq s in if c == b'=' then some ([], s) else consed c rest

-- What an argument is, given the next one: no flag, a flag with its value, a flag that takes the next
-- argument, or a flag alone.
pub data Kind : Type 0 where
  other : Kind
  inline : Text → Text → Kind
  takes : Text → Text → Kind
  alone : Text → Kind

abbrev pub with_next : Text → Option Text → Option Text → Kind
with_next k none next_flag = alone k
with_next k (some v) none = takes k v
with_next k (some v) (some t) = alone k

abbrev pub next_flag : Option Text → Option Text
next_flag none = none
next_flag (some s) = flag s

abbrev pub kind_eq : Text → Option Text → Option (Text × Text) → Kind
kind_eq k next none = with_next k next (next_flag next)
kind_eq k next (some (a, v)) = inline a v

abbrev pub kind_flag : Option Text → Option Text → Kind
kind_flag none next = other
kind_flag (some k) next = kind_eq k next (cut_eq k)

unfoldable pub kind : Text → Option Text → Kind
unfolding flag cut_eq
kind a next = kind_flag (flag a) next

abbrev pub last_of : Kind → List (Text × Text)
last_of other = []
last_of (inline k v) = (k, v) ∷ []
last_of (takes k v) = (k, v) ∷ []
last_of (alone k) = (k, codes "true") ∷ []

-- `skipped` are the settings from the next argument on, `taken` those from the one after it.
abbrev pub add_kind : Kind → List (Text × Text) → List (Text × Text) → List (Text × Text)
add_kind other skipped taken = skipped
add_kind (inline k v) skipped taken = (k, v) ∷ skipped
add_kind (takes k v) skipped taken = (k, v) ∷ taken
add_kind (alone k) skipped taken = (k, codes "true") ∷ skipped

-- The assignments of the loop, in order.
unfoldable pub settings : List Text → List (Text × Text)
unfolding kind
settings [] = []
settings (a ∷ []) = last_of (kind a none)
settings (a ∷ b ∷ l) = add_kind (kind a (some b)) (settings (b ∷ l)) (settings l)

unfoldable pub assign : List (Text × Text) → Dict Text → Dict Text
unfolding set
assign [] o = o
assign ((k, v) ∷ l) o = assign l (set k v o)

unfoldable pub parse_flags : List Text → Dict Text
unfolding settings assign
parse_flags argv = assign (settings argv) []
