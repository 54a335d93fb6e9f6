-- ===== src/Http/Retries.antt =====
-- The header Retry-After, and the independence of the keys, of the rate limit of
-- services/dba-mcp/src/index.ts.
use mssql_data_api.Prelude.{
  ℕ, zero, suc, ◌+◌, ◌*◌, ◌<◌, true, false, not, none, some, List, [], ◌∷◌, if◌then◌else◌,
  Bool-cases, inl, inr, ◌≡◌, refl, sym, subst, ◌∙◌, arith,
}
use mssql_data_api.Prelude.Text.{Text, eq_text}
use mssql_data_api.Prelude.Dict.{
  Dict, get, Distinct, get-set_self, get-set_other, get-keep_if, set-Distinct, keep_if-Distinct,
  eq_text_sound,
}
use mssql_data_api.Http.Limiter.{
  Hits, Verdict, passed, refused, Limit, is_over, counted, verdict, window, ask, prune, Event, asks,
  prunes, answers, is_off,
}

-- The entry that refused a request is over after the time that the refusal names.
refused-over :
    (m now later s : ℕ) (e : Hits)
    → verdict (some m) now e ≡ refused s
    → now + s * 1000 < later
    → is_over later e ≡ true
unfolding verdict is_over
refused-over m now later s e h l = grind arith

window-anew :
    (m later : ℕ) (e : Hits)
    → is_over later e ≡ true
    → verdict (some (suc m)) later (counted (window later (some e))) ≡ passed
unfolding verdict window
window-anew m later e h = rw h (ground arith)

-- A key whose request was refused passes when it asks again later than the seconds that Retry-After
-- named.
pub retry-passes :
    (m now later s : ℕ) (k : Text) (hits : Dict Hits)
    → (ask (some (suc m)) k now hits).0 ≡ refused s
    → now + s * 1000 < later
    → (ask (some (suc m)) k later (ask (some (suc m)) k now hits).1).0 ≡ passed
unfolding ask
retry-passes m now later s k hits h l =
    let e = counted (window now (get k hits)) in
    rw (get-set_self k e hits) (window-anew m later e (refused-over (suc m) now later s e h l))

-- The entries of a list that are of a key.
unfoldable pub of_key : Text → List (Text × Verdict) → List (Text × Verdict)
of_key k [] = []
of_key k ((q, v) ∷ l) = let rest = of_key k l in if eq_text q k then (q, v) ∷ rest else rest

-- The history without the requests of other keys.
unfoldable pub alone : Text → List Event → List Event
alone k [] = []
alone k (asks q now ∷ l) = let rest = alone k l in if eq_text q k then asks q now ∷ rest else rest
alone k (prunes now ∷ l) = prunes now ∷ alone k l

prune-Distinct :
    (o : Limit) (now : ℕ) (hits : Dict Hits) → Distinct hits → Distinct (prune o now hits)
unfolding prune
prune-Distinct none now hits d = d
prune-Distinct (some zero) now hits d = d
prune-Distinct (some (suc m)) now hits d = keep_if-Distinct (λ e. not (is_over now e)) hits d

ask-Distinct :
    (o : Limit) (k : Text) (now : ℕ) (hits : Dict Hits)
    → Distinct hits
    → Distinct (ask o k now hits).1
unfolding ask
ask-Distinct o k now hits d = elim (Bool-cases (is_off o)) [
  | inl e ↦ rw e d
  | inr e ↦ rw e (set-Distinct k (counted (window now (get k hits))) hits d)
]

prune-same :
    (o : Limit) (k : Text) (now : ℕ) (a b : Dict Hits)
    → Distinct a
    → Distinct b
    → get k a ≡ get k b
    → get k (prune o now a) ≡ get k (prune o now b)
unfolding prune
prune-same none k now a b d c h = h
prune-same (some zero) k now a b d c h = h
prune-same (some (suc m)) k now a b d c h =
    rw
      (
        get-keep_if (λ e. not (is_over now e)) k a d,
        get-keep_if (λ e. not (is_over now e)) k b c,
        h,
      )
      refl

ask-same :
    (o : Limit) (k : Text) (now : ℕ) (a b : Dict Hits)
    → get k a ≡ get k b
    → ((ask o k now a).0 ≡ (ask o k now b).0) × (get k (ask o k now a).1 ≡ get k (ask o k now b).1)
unfolding ask
ask-same o k now a b h = elim (Bool-cases (is_off o)) [
  | inl e ↦ rw e (refl, h)
  | inr e ↦
      rw (e, h)
        (
          refl,
          rw
              (
                get-set_self k (counted (window now (get k b))) a,
                get-set_self k (counted (window now (get k b))) b,
              )
              refl,
        )
]

ask-apart :
    (o : Limit) (q k : Text) (now : ℕ) (hits : Dict Hits)
    → eq_text q k ≡ false
    → get k (ask o q now hits).1 ≡ get k hits
unfolding ask
ask-apart o q k now hits h = elim (Bool-cases (is_off o)) [
  | inl e ↦ rw e refl
  | inr e ↦ rw e (get-set_other q k (counted (window now (get q hits))) hits h)
]

-- The answers that a key gets in any history are those that it gets when no other key asks: no
-- caller can use up the limit of another.
pub alone-same :
    (o : Limit) (k : Text) (l : List Event) (hits : Dict Hits)
    → Distinct hits
    → of_key k (answers o (alone k l) hits) ≡ of_key k (answers o l hits)
unfolding answers alone of_key
alone-same o k l hits d = go l hits hits d d refl
  where
    go :
        (l : List Event) (a b : Dict Hits)
        → Distinct a
        → Distinct b
        → get k a ≡ get k b
        → of_key k (answers o (alone k l) a) ≡ of_key k (answers o l b)
    go [] a b c d h = refl
    go (prunes now ∷ l) a b c d h =
        go l (prune o now a) (prune o now b) (prune-Distinct o now a c) (prune-Distinct o now b d)
          (prune-same o k now a b c d h)
    go (asks q now ∷ l) a b c d h = elim (Bool-cases (eq_text q k)) [
      | inl e ↦
          let qk = eq_text_sound q k e in
          let s = ask-same o q now a b (subst (λ p. get p a ≡ get p b) (sym qk) h) in
          let ih =
            go l (ask o q now a).1 (ask o q now b).1 (ask-Distinct o q now a c)
              (ask-Distinct o q now b d)
              (subst (λ p. get p (ask o q now a).1 ≡ get p (ask o q now b).1) qk s.1) in
          rw (e, e) (cc (s.0, ih))
      | inr e ↦ rw e (
          go l a (ask o q now b).1 c (ask-Distinct o q now b d) (h ∙ sym (ask-apart o q k now b e)))
    ]
