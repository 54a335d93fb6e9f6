-- ===== src/Settings/Paths/Keys.antt =====
-- The keys that `hostDllProbe` of services/dba-mcp/src/dbatools.ts tells paths apart by.
use mssql_data_api.Prelude.{
  ◌≡◌, refl, subst, arith, ◌||◌, Bool, true, false, List, [], ◌∷◌, map, Bool-cases, inl, inr, any,
}
use mssql_data_api.Prelude.Text.{Text, eq_text}
use mssql_data_api.Prelude.Dict.{eq_text_refl, eq_text_sound}
use mssql_data_api.Settings.Paths.{DllWatchEntry, first_of_each}

-- Whether a key is among some.
abbrev pub seen_in : List Text → Text → Bool
seen_in l k = any (λ x. eq_text x k) l

abbrev pub keys_of : (Text → Text) → List DllWatchEntry → List Text
keys_of lower l = map (λ e. lower e.path) l

-- No key twice.
abbrev pub AllDifferent : List Text → Type 0
AllDifferent [] = Unit
AllDifferent (k ∷ l) = (seen_in l k ≡ false) × AllDifferent l

module _ (lower : Text → Text) where
  -- None of the keys before is a key of the result.
  later_unseen :
      (k : Text) (seen : List Text) (l : List DllWatchEntry)
      → seen_in seen k ≡ true
      → seen_in (keys_of lower (first_of_each lower seen l)) k ≡ false
  unfolding first_of_each
  later_unseen k seen [] h = refl
  later_unseen k seen (e ∷ l) h = elim (Bool-cases (seen_in seen (lower e.path))) [
    | inl s ↦ rw s (later_unseen k seen l h)
    | inr s ↦
        rw s (ground (arith, apart s, later_unseen k (lower e.path ∷ seen) l (ground (arith, h))))
  ]
    where
      apart : seen_in seen (lower e.path) ≡ false → eq_text (lower e.path) k ≡ false
      apart s = elim (Bool-cases (eq_text (lower e.path) k)) [
        | inl q ↦ cc (h, rw (eq_text_sound (lower e.path) k q) at s)
        | inr q ↦ q
      ]

  pub first_of_each-AllDifferent :
      (seen : List Text) (l : List DllWatchEntry)
      → AllDifferent (keys_of lower (first_of_each lower seen l))
  unfolding first_of_each
  first_of_each-AllDifferent seen [] = tt
  first_of_each-AllDifferent seen (e ∷ l) = elim (Bool-cases (seen_in seen (lower e.path))) [
    | inl s ↦ rw s (first_of_each-AllDifferent seen l)
    | inr s ↦ rw s (
      later_unseen (lower e.path) (lower e.path ∷ seen) l
          (ground (arith, eq_text_refl (lower e.path))),
      first_of_each-AllDifferent (lower e.path ∷ seen) l,
    )
  ]

  -- Every key is in the result, or was seen before.
  pub first_of_each_complete :
      (k : Text) (seen : List Text) (l : List DllWatchEntry)
      → seen_in (keys_of lower l) k ≡ true
      → (seen_in seen k || seen_in (keys_of lower (first_of_each lower seen l)) k) ≡ true
  unfolding first_of_each
  first_of_each_complete k seen [] h = cc h
  first_of_each_complete k seen (e ∷ l) h = elim (Bool-cases (seen_in seen (lower e.path))) [
    | inl s ↦ rw s (elim (Bool-cases (eq_text (lower e.path) k)) [
      | inl q ↦
          ground (arith, subst (λ t. seen_in seen t ≡ true) (eq_text_sound (lower e.path) k q) s)
      | inr q ↦ first_of_each_complete k seen l (rw q at h)
    ])
    | inr s ↦ rw s (elim (Bool-cases (eq_text (lower e.path) k)) [
      | inl q ↦ ground (arith, q)
      | inr q ↦
          ground (arith, rw q at (first_of_each_complete k (lower e.path ∷ seen) l (rw q at h)))
    ])
  ]
