-- ===== src/Prelude/Dict.antt =====
-- JavaScript's `Map` with string keys: an association list in the order of insertion. A key that is
-- set again keeps its place.
use mathlib.Core.Path.{◌≡◌, refl, ◌∙◌}
use mathlib.Core.Bool.{Bool, true, false}
use mathlib.Core.Logic.{inl, inr}
use mathlib.Core.Option.{Option, none, some}
use mathlib.Core.List.{List, [], ◌∷◌}
use native.Mathlib.Omega.{arith}
use mssql_data_api.Prelude.Tests.{◌==◌, ==_iff, if◌then◌else◌, Bool-cases}
use mssql_data_api.Prelude.Text.{Text, eq_text}

pub eq_text_sound : (s t : Text) → eq_text s t ≡ true → s ≡ t
eq_text_sound [] [] h = refl
eq_text_sound [] (c ∷ t) h = cc
eq_text_sound (c ∷ s) [] h = cc
eq_text_sound (c ∷ s) (d ∷ t) h = elim (Bool-cases (c == d)) [
  | inl e ↦ cc ((==_iff c d).0 e, eq_text_sound s t (rw e at h))
  | inr e ↦ cc (rw e at h)
]

pub eq_text_refl : (s : Text) → eq_text s s ≡ true
eq_text_refl [] = refl
eq_text_refl (c ∷ s) = rw ((==_iff c c).1 refl, eq_text_refl s) refl

-- Two texts that both equal a third equal each other.
pub eq_text_same : (s t u : Text) → eq_text s t ≡ true → eq_text s u ≡ eq_text t u
eq_text_same s t u h = rw (eq_text_sound s t h) refl

pub eq_text_apart : (s t u : Text) → eq_text s t ≡ false → eq_text t u ≡ true → eq_text s u ≡ false
eq_text_apart s t u h k = rw (← (eq_text_sound t u k)) h

pub eq_text_sym : (s t : Text) → eq_text s t ≡ false → eq_text t s ≡ false
eq_text_sym [] [] h = h
eq_text_sym [] (c ∷ t) h = refl
eq_text_sym (c ∷ s) [] h = refl
eq_text_sym (c ∷ s) (d ∷ t) h = grind (arith, eq_text_sym s t)

abbrev pub Dict {ℓ} : Type ℓ → Type ℓ
Dict V = List (Text × V)

module _ {ℓ} {V : Type ℓ} where
  unfoldable pub get : Text → Dict V → Option V
  get k [] = none
  get k ((j, v) ∷ l) = if eq_text j k then some v else get k l

  unfoldable pub set : Text → V → Dict V → Dict V
  set k v [] = (k, v) ∷ []
  set k v ((j, w) ∷ l) = let rest = set k v l in if eq_text j k then (j, v) ∷ l else (j, w) ∷ rest

  unfoldable pub remove : Text → Dict V → Dict V
  remove k [] = []
  remove k ((j, w) ∷ l) = let rest = remove k l in if eq_text j k then rest else (j, w) ∷ rest

  -- A function, changed at one key.
  abbrev pub update_at : (Text → Option V) → Text → Option V → Text → Option V
  update_at f k o q = if eq_text k q then o else f q

  pub get-set :
      (k q : Text) (v : V) (l : Dict V) → get q (set k v l) ≡ update_at (λ p. get p l) k (some v) q
  unfolding get set
  get-set k q v [] = refl
  get-set k q v ((j, w) ∷ l) = elim (Bool-cases (eq_text j k)) [
    | inl e ↦
        rw (e, eq_text_same j k q e)
          (elim (Bool-cases (eq_text k q)) [ inl h ↦ rw h refl | inr h ↦ rw h refl ])
    | inr e ↦
        rw (e, get-set k q v l)
          (elim (Bool-cases (eq_text k q)) [
            | inl h ↦ rw (h, eq_text_apart j k q e h) refl
            | inr h ↦ rw h refl
          ])
  ]

  pub get-remove :
      (k q : Text) (l : Dict V) → get q (remove k l) ≡ update_at (λ p. get p l) k none q
  unfolding get remove
  get-remove k q [] = elim (Bool-cases (eq_text k q)) [ inl h ↦ rw h refl | inr h ↦ rw h refl ]
  get-remove k q ((j, w) ∷ l) = elim (Bool-cases (eq_text j k)) [
    | inl e ↦
        rw (e, eq_text_same j k q e, get-remove k q l)
          (elim (Bool-cases (eq_text k q)) [ inl h ↦ rw h refl | inr h ↦ rw h refl ])
    | inr e ↦
        rw (e, get-remove k q l)
          (elim (Bool-cases (eq_text k q)) [
            | inl h ↦ rw (h, eq_text_apart j k q e h) refl
            | inr h ↦ rw h refl
          ])
  ]

  pub get-set_self : (k : Text) (v : V) (l : Dict V) → get k (set k v l) ≡ some v
  get-set_self k v l = rw (get-set k k v l, eq_text_refl k) refl

  pub get-set_other :
      (k q : Text) (v : V) (l : Dict V) → eq_text k q ≡ false → get q (set k v l) ≡ get q l
  get-set_other k q v l h = rw (get-set k q v l, h) refl

-- No key has two entries.
abbrev pub Distinct {ℓ} : {V : Type ℓ} → Dict V → Type ℓ
Distinct [] = Unit
Distinct ((k, v) ∷ l) = (get k l ≡ none) × Distinct l

module _ {ℓ} {V : Type ℓ} where
  pub set-Distinct : (k : Text) (v : V) (l : Dict V) → Distinct l → Distinct (set k v l)
  unfolding set get
  set-Distinct k v [] h = (refl, tt)
  set-Distinct k v ((j, w) ∷ l) (h, hs) = elim (Bool-cases (eq_text j k)) [
    | inl e ↦ rw e (h, hs)
    | inr e ↦ rw e (get-set_other k j v l (eq_text_sym j k e) ∙ h, set-Distinct k v l hs)
  ]

  -- The entries whose values pass a test.
  unfoldable pub keep_if : (V → Bool) → Dict V → Dict V
  keep_if p [] = []
  keep_if p ((j, w) ∷ l) = let rest = keep_if p l in if p w then (j, w) ∷ rest else rest

  abbrev pub if_passes : (V → Bool) → Option V → Option V
  if_passes p none = none
  if_passes p (some v) = if p v then some v else none

  pub get-keep_if :
      (p : V → Bool) (k : Text) (l : Dict V)
      → Distinct l
      → get k (keep_if p l) ≡ if_passes p (get k l)
  unfolding get keep_if
  get-keep_if p k [] h = refl
  get-keep_if p k ((j, w) ∷ l) (h, hs) = elim (Bool-cases (eq_text j k)) [
    | inl e ↦ elim (Bool-cases (p w)) [
      | inl y ↦ rw (e, y, e) refl
      | inr n ↦ rw (e, n, get-keep_if p k l hs, ← (eq_text_sound j k e), h) refl
    ]
    | inr e ↦ elim (Bool-cases (p w)) [
      | inl y ↦ rw (y, e) (get-keep_if p k l hs)
      | inr n ↦ rw (n, e) (get-keep_if p k l hs)
    ]
  ]

  pub keep_if-Distinct : (p : V → Bool) (l : Dict V) → Distinct l → Distinct (keep_if p l)
  unfolding get keep_if
  keep_if-Distinct p [] h = tt
  keep_if-Distinct p ((j, w) ∷ l) (h, hs) = elim (Bool-cases (p w)) [
    | inl e ↦ rw e (rw (get-keep_if p j l hs, h) refl, keep_if-Distinct p l hs)
    | inr e ↦ rw e (keep_if-Distinct p l hs)
  ]
