-- ===== src/Pools/Keys.antt =====
-- The keys of the pools of services/dba-mcp/src/connectionManager.ts determine what they are made of.
use mssql_data_api.Prelude.{
  ℕ, ◌==◌, ==_iff, Bool, true, false, not, ◌&&◌, [], ◌∷◌, ◌++◌, ◌≡◌, refl, Bool-cases, inl, inr,
  sym,
}
use mssql_data_api.Prelude.Text.{Text, codes}
use mssql_data_api.Pools.Login.{key_of, marked}

abbrev pub lacks : ℕ → Text → Bool
lacks c [] = true
lacks c (d ∷ s) = not (d == c) && lacks c s

-- No colon and no number sign, which the keys use.
abbrev pub is_plain : Text → Bool
is_plain s = lacks b':' s && lacks b'#' s

both : (p q : Bool) → (p && q) ≡ true → (p ≡ true) × (q ≡ true)
both true q h = (refl, h)
both false q h = cc h

lacks-head : (c d : ℕ) (s : Text) → lacks c (d ∷ s) ≡ true → (d == c) ≡ false
lacks-head c d s h = elim (Bool-cases (d == c)) [
  | inl e ↦ cc ((both (not (d == c)) (lacks c s) h).0, e)
  | inr e ↦ e
]

lacks-tail : (c d : ℕ) (s : Text) → lacks c (d ∷ s) ≡ true → lacks c s ≡ true
lacks-tail c d s h = (both (not (d == c)) (lacks c s) h).1

lacks-append : (c : ℕ) (s t : Text) → lacks c (s ++ c ∷ t) ≡ false
lacks-append c [] t = rw ((==_iff c c).1 refl) refl
lacks-append c (d ∷ s) t = elim (Bool-cases (d == c)) [
  | inl e ↦ rw e refl
  | inr e ↦ rw e (lacks-append c s t)
]

tail_same : (c d : ℕ) (s t : Text) → (c ∷ s) ≡ (d ∷ t) → s ≡ t
tail_same c d s t h = cc h

head_same : (c d : ℕ) (s t : Text) → (c ∷ s) ≡ (d ∷ t) → c ≡ d
head_same c d s t h = cc h

-- The first mark splits a text in one way.
before_mark :
    (c : ℕ) (a b s t : Text)
    → lacks c a ≡ true
    → lacks c b ≡ true
    → (a ++ c ∷ s) ≡ (b ++ c ∷ t)
    → a ≡ b
before_mark c [] [] s t h k e = refl
before_mark c [] (d ∷ b) s t h k e =
    cc (lacks-head c d b k, (==_iff d c).1 (sym (head_same c d s (b ++ c ∷ t) e)))
before_mark c (d ∷ a) [] s t h k e =
    cc (lacks-head c d a h, (==_iff d c).1 (head_same d c (a ++ c ∷ s) t e))
before_mark c (d ∷ a) (f ∷ b) s t h k e = cc (
  head_same d f (a ++ c ∷ s) (b ++ c ∷ t) e,
  before_mark c a b s t (lacks-tail c d a h) (lacks-tail c f b k)
      (tail_same d f (a ++ c ∷ s) (b ++ c ∷ t) e),
)

-- So does the last doubled mark.
around_marks :
    (c : ℕ) (a b n m : Text)
    → lacks c n ≡ true
    → lacks c m ≡ true
    → (a ++ c ∷ c ∷ n) ≡ (b ++ c ∷ c ∷ m)
    → (a ≡ b) × (n ≡ m)
around_marks c [] [] n m h k e = (refl, cc e)
around_marks c [] (d ∷ []) n m h k e =
    cc (h, lacks-append c [] m, tail_same c c n (c ∷ m) (tail_same c d (c ∷ n) (c ∷ c ∷ m) e))
around_marks c [] (d ∷ f ∷ b) n m h k e = cc (
  h,
  lacks-append c b (c ∷ m),
  tail_same c f n (b ++ c ∷ c ∷ m) (tail_same c d (c ∷ n) (f ∷ b ++ c ∷ c ∷ m) e),
)
around_marks c (d ∷ []) [] n m h k e =
    cc (k, lacks-append c [] n, tail_same c c (c ∷ n) m (tail_same d c (c ∷ c ∷ n) (c ∷ m) e))
around_marks c (d ∷ f ∷ a) [] n m h k e = cc (
  k,
  lacks-append c a (c ∷ n),
  tail_same f c (a ++ c ∷ c ∷ n) m (tail_same d c (f ∷ a ++ c ∷ c ∷ n) (c ∷ m) e),
)
around_marks c (d ∷ a) (f ∷ b) n m h k e =
    let r = around_marks c a b n m h k (tail_same d f (a ++ c ∷ c ∷ n) (b ++ c ∷ c ∷ m) e) in
    (cc (head_same d f (a ++ c ∷ c ∷ n) (b ++ c ∷ c ∷ m) e, r.0), r.1)

marked-lacks :
    (name : Text) (write : Bool) → lacks b':' name ≡ true → lacks b':' (marked name write) ≡ true
marked-lacks name false h = h
marked-lacks [] true h = refl
marked-lacks (c ∷ s) true h =
    let r = both (not (c == b':')) (lacks b':' s) h in rw (r.0, marked-lacks s true r.1) refl

marked-same :
    (n m : Text) (v w : Bool)
    → lacks b'#' n ≡ true
    → lacks b'#' m ≡ true
    → marked n v ≡ marked m w
    → (n ≡ m) × (v ≡ w)
marked-same n m false false h k e = (e, refl)
marked-same n m true true h k e = (before_mark b'#' n m (codes "rw") (codes "rw") h k e, refl)
marked-same n m true false h k e = cc (k, e, lacks-append b'#' n (codes "rw"))
marked-same n m false true h k e = cc (h, e, lacks-append b'#' m (codes "rw"))

pub key_of-same :
    (i j n m : Text) (v w : Bool)
    → is_plain n ≡ true
    → is_plain m ≡ true
    → key_of i n v ≡ key_of j m w
    → (i ≡ j) × (n ≡ m) × (v ≡ w)
unfolding key_of
key_of-same i j n m v w h k e =
    let a = both (lacks b':' n) (lacks b'#' n) h in
    let b = both (lacks b':' m) (lacks b'#' m) k in
    let r =
      around_marks b':' i j (marked n v) (marked m w) (marked-lacks n v a.0) (marked-lacks m w b.0)
        e in
    let s = marked-same n m v w a.1 b.1 r.1 in (r.0, s.0, s.1)
