-- ===== src/Queries/Notices.antt =====
-- The notices of services/dba-mcp/src/connectionManager.ts, from the query to the tool result.
use mssql_data_api.Prelude.{
  ℕ, ◌≡◌, refl, sym, ◌∙◌, Bool, true, false, ◌&&◌, Option, none, some, List, [], ◌∷◌, if◌then◌else◌,
  ltb, Bool-cases, inl, inr, ==_iff,
}
use mathlib.Core.List.{Memᴰ}
use mssql_data_api.Prelude.Text.{Text}
use mssql_data_api.Prelude.Dict.{eq_text_refl}
use mssql_data_api.Queries.{
  Key, fallback, row_cap, result_sets, same_key, Notice, cut_at, first_of, Notices, set_notice,
  note_row_cap, note_result_sets, Content, banner, notices, attach_catalog_fallbacks, cap_rows,
  first_set, set_count, finish_query,
}

find : Key → Notices → Option Notice
find k [] = none
find k ((j, m) ∷ l) = if same_key j k then some m else find k l

same_key_refl : (k : Key) → same_key k k ≡ true
same_key_refl (fallback a) = eq_text_refl a
same_key_refl (row_cap a m) = rw (eq_text_refl a, (==_iff m m).1 refl) refl
same_key_refl (result_sets a) = eq_text_refl a

find-set_notice : (k : Key) (n : Notice) (l : Notices) → find k (set_notice k n l) ≡ some n
unfolding find set_notice
find-set_notice k n [] = rw (same_key_refl k) refl
find-set_notice k n ((j, m) ∷ l) = elim (Bool-cases (same_key j k)) [
  | inl e ↦ rw (e, e) refl
  | inr e ↦ rw (e, e) (find-set_notice k n l)
]

-- A key of another kind is left alone.
find-other :
    (k k' : Key) (n : Notice) (l : Notices)
    → ((j : Key) → same_key j k ≡ true → same_key j k' ≡ false)
    → same_key k' k ≡ false
    → find k (set_notice k' n l) ≡ find k l
unfolding find set_notice
find-other k k' n [] apart h = rw h refl
find-other k k' n ((j, m) ∷ l) apart h = elim (Bool-cases (same_key j k)) [
  | inl e ↦ rw (apart j e, e) refl
  | inr e ↦ elim (Bool-cases (same_key j k')) [
    | inl d ↦ rw (d, e) refl
    | inr d ↦ rw (d, e) (find-other k k' n l apart h)
  ]
]

cap_apart :
    (a b : Text) (m : ℕ) (j : Key)
    → same_key j (row_cap a m) ≡ true
    → same_key j (result_sets b) ≡ false
cap_apart a b m (fallback c) h = cc
cap_apart a b m (row_cap c n) h = refl
cap_apart a b m (result_sets c) h = cc

some_injective : (a b : Notice) → some a ≡ some b → a ≡ b
some_injective a b h = cc

notices-find : (k : Key) (n : Notice) (l : Notices) → find k l ≡ some n → Memᴰ n (notices l)
unfolding find
notices-find k n [] h = cc
notices-find k n ((j, m) ∷ l) h = elim (Bool-cases (same_key j k)) [
  | inl e ↦ Memᴰ.head (some_injective n m (sym (rw e at h)))
  | inr e ↦ Memᴰ.tail (notices-find k n l (rw e at h))
]

attach-find :
    (k : Key) (v : Notice) (l : Notices) (content : List Content)
    → find k l ≡ some v
    → (ns : List Notice) × (attach_catalog_fallbacks (some l) (some content)
        ≡ some (banner ns ∷ content))
      × Memᴰ v ns
unfolding find attach_catalog_fallbacks
attach-find k v [] content h = cc
attach-find k v (e ∷ l) content h = (notices (e ∷ l), refl, notices-find k v (e ∷ l) h)

-- Inside a scope, where rows were cut off and the caller does not report it itself, the result of
-- the tool begins with a banner that has the notice of the cut, with the instance and the cap.
pub finish_query-noticed :
    {Row : Type 0} (name : Text) (recordsets : Option (List (List Row))) (n : ℕ) (user_sql : Bool)
    (l : Notices) (content : List Content)
    → (cap_rows (first_set recordsets) n).1 ≡ true
    → (ns : List Notice) × (attach_catalog_fallbacks
          (finish_query name recordsets n true user_sql (some l)).1
          (some content)
        ≡ some (banner ns ∷ content))
      × Memᴰ (cut_at n name) ns
unfolding finish_query cap_rows note_row_cap note_result_sets
finish_query-noticed name recordsets n user_sql l content h =
    elim (Bool-cases (user_sql && ltb 1 (set_count recordsets))) [
      | inl more ↦
          rw (h, more)
            (attach-find (row_cap name n) (cut_at n name) _ content (
              find-other (row_cap name n) (result_sets name) (first_of (set_count recordsets) name)
                noted (cap_apart name name n) refl
              ∙ find-set_notice (row_cap name n) (cut_at n name) l))
      | inr one ↦
          rw (h, one)
            (attach-find (row_cap name n) (cut_at n name) noted content
              (find-set_notice (row_cap name n) (cut_at n name) l))
    ]
  where
    noted : Notices
    noted = set_notice (row_cap name n) (cut_at n name) l
