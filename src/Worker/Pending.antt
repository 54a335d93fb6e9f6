-- ===== src/Worker/Pending.antt =====
-- The map `pending` of services/dba-mcp/src/pwshWorker.ts: from the id of a request to the process
-- that it was written to, oldest first.
use mssql_data_api.Prelude.{
  ℕ, suc, ◌+◌, ◌≤◌, ◌<◌, ◌≡◌, refl, ◌≢◌, Option, none, some, List, [], ◌∷◌, ◌++◌, arith,
  if◌then◌else◌, ◌==◌, length, All,
}

abbrev pub Entry : Type 0
Entry = ℕ × ℕ

abbrev pub Entries : Type 0
Entries = List Entry

unfoldable pub lookup : ℕ → Entries → Option ℕ
lookup id [] = none
lookup id ((j, p) ∷ l) = if j == id then some p else lookup id l

unfoldable pub delete : ℕ → Entries → Entries
delete id [] = []
delete id ((j, p) ∷ l) = let rest = delete id l in if j == id then rest else (j, p) ∷ rest

-- The entries of a process, and those of the others.
unfoldable pub owned : ℕ → Entries → Entries
owned q [] = []
owned q ((j, p) ∷ l) = let rest = owned q l in if p == q then (j, p) ∷ rest else rest

unfoldable pub disowned : ℕ → Entries → Entries
disowned q [] = []
disowned q ((j, p) ∷ l) = let rest = disowned q l in if p == q then rest else (j, p) ∷ rest

abbrev pub ids : Entries → List ℕ
ids [] = []
ids ((j, p) ∷ l) = j ∷ ids l

-- How often an id is pending.
unfoldable pub count : ℕ → Entries → ℕ
count id [] = 0
count id ((j, p) ∷ l) = let rest = count id l in if j == id then suc rest else rest

pub length-delete : (id : ℕ) (l : Entries) → length (delete id l) ≤ length l
unfolding delete
length-delete id [] = omega arith
length-delete id ((j, p) ∷ l) = ground (arith, length-delete id l)

pub length-disowned : (q : ℕ) (l : Entries) → length (disowned q l) ≤ length l
unfolding disowned
length-disowned q [] = omega arith
length-disowned q ((j, p) ∷ l) = ground (arith, length-disowned q l)

pub count-delete :
    (id k : ℕ) (l : Entries) → count k (delete id l) ≡ (if k == id then 0 else count k l)
unfolding delete count
count-delete id k [] = ground arith
count-delete id k ((j, p) ∷ l) = ground (arith, count-delete id k l)

pub count-owned : (q k : ℕ) (l : Entries) → count k (owned q l) + count k (disowned q l) ≡ count k l
unfolding owned disowned count
count-owned q k [] = omega arith
count-owned q k ((j, p) ∷ l) = ground (arith, count-owned q k l)

pub count_of_lookup : (id p : ℕ) (l : Entries) → lookup id l ≡ some p → 0 < count id l
unfolding lookup count
count_of_lookup id p [] h = cc
count_of_lookup id p ((j, q) ∷ l) h = ground (arith, count_of_lookup id p l)

-- A property of every entry survives.
module _ (P : Entry → Type 0) where
  pub All-delete : (id : ℕ) (l : Entries) → All P l → All P (delete id l)
  unfolding delete
  All-delete id [] h = tt
  All-delete id ((j, p) ∷ l) (h, hs) = ground (arith, All-delete id l hs)

  pub All-disowned : (q : ℕ) (l : Entries) → All P l → All P (disowned q l)
  unfolding disowned
  All-disowned q [] h = tt
  All-disowned q ((j, p) ∷ l) (h, hs) = ground (arith, All-disowned q l hs)

  pub All-lookup : (id p : ℕ) (l : Entries) → All P l → lookup id l ≡ some p → P (id, p)
  unfolding lookup
  All-lookup id p [] h e = cc
  All-lookup id p ((j, q) ∷ l) (h, hs) e = ground (arith, All-lookup id p l hs)

-- No entry of a process is left among those of the others, and each that is left was there.
pub disowned_none : (q : ℕ) (l : Entries) → All (λ e. e.1 ≢ q) (disowned q l)
unfolding disowned
disowned_none q [] = tt
disowned_none q ((j, p) ∷ l) = ground (arith, disowned_none q l)

pub owned-All : (q : ℕ) (l : Entries) → All (λ e. e.1 ≡ q) (owned q l)
unfolding owned
owned-All q [] = tt
owned-All q ((j, p) ∷ l) = ground (arith, owned-All q l)

pub count-append :
    (k id p : ℕ) (l : Entries)
    → count k (l ++ (id, p) ∷ []) ≡ count k l + (if id == k then 1 else 0)
unfolding count
count-append k id p [] = ground arith
count-append k id p ((j, q) ∷ l) = ground (arith, count-append k id p l)

pub All-append {ℓ} :
    (P : Entry → Type ℓ) (e : Entry) (l : Entries) → All P l → P e → All P (l ++ e ∷ [])
All-append P e [] h k = (k, tt)
All-append P e (x ∷ l) h k = (h.0, All-append P e l h.1 k)

-- An entry of an id and a process that are below the next ones.
abbrev pub Known : ℕ → ℕ → Entry → Type 0
Known id p e = (e.0 < id) × (0 < e.0) × (e.1 < p)

-- The next id has no entry yet.
pub count_below : (id p : ℕ) (l : Entries) → All (Known id p) l → count id l ≡ 0
unfolding count
count_below id p [] h = refl
count_below id p ((j, q) ∷ l) (h, hs) = ground (arith, count_below id p l hs)

pub Known-up :
    (id id' p p' : ℕ) (l : Entries) → id ≤ id' → p ≤ p' → All (Known id p) l → All (Known id' p') l
Known-up id id' p p' [] le le' h = tt
Known-up id id' p p' ((j, q) ∷ l) le le' ((a, b, c), hs) =
    ((omega arith, b, omega arith), Known-up id id' p p' l le le' hs)
