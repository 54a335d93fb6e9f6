-- ===== src/Primary/Resolved.antt =====
-- What `resolveRegionPrimary` of services/dba-mcp/src/connectionManager.ts resolves to.
use mssql_data_api.Prelude.{
  All-Mem, ℕ, ◌+◌, ◌≡◌, ◌≢◌, refl, sym, ap, ◌∙◌, Bool, true, false, not, ◌&&◌, Option, none, some,
  List, [], ◌∷◌, All, if◌then◌else◌, Bool-cases, inl, inr,
}
use mathlib.Core.List.{Memᴰ}
use mssql_data_api.Prelude.Text.{Text, codes, eq_text}
use mssql_data_api.Prelude.Dict.{eq_text_sound}
use mssql_data_api.Primary.{
  Instance, ends_with, in_region, candidates, is_candidate, Names, name_of, cached_primary, Caches,
  or_blank, learned, known_or, server_name, is_node, match_node, asked, or_next, try_each, remember,
  fresh, resolve_region_primary,
}

module _ (lower : Text → Text) (ag : Text → Option (Option Text))
    (server : Text → Option Text) where
  -- The cached server names are those that the instances answer.
  abbrev pub IsTrue : Names → Type 0
  IsTrue names = All (λ e. server e.0 ≡ some e.1) names

  name_of_true :
      (n s : Text) (names : Names) → IsTrue names → name_of n names ≡ some s → server n ≡ some s
  unfolding name_of
  name_of_true n s [] h e = cc
  name_of_true n s ((m, t) ∷ l) (h, hs) e = elim (Bool-cases (eq_text m n)) [
    | inl same ↦ cc (eq_text_sound m n same, h, rw same at e)
    | inr other ↦ name_of_true n s l hs (rw other at e)
  ]

  abbrev pub IsAnswer : Text → Option Text × Names → Type 0
  IsAnswer n r = IsTrue r.1 × ((s : Text) → r.0 ≡ some s → server n ≡ some s)

  server_name-IsAnswer :
      (n : Text) (names : Names) → IsTrue names → IsAnswer n (server_name lower ag server n names)
  unfolding server_name known_or learned
  server_name-IsAnswer n names h = cached (name_of n names) (λ s. name_of_true n s names h)
    where
      asks : (o : Option Text) → server n ≡ o → IsAnswer n (learned lower ag server n o names)
      asks none e = (h, λ s k. cc)
      asks (some []) e = (h, λ s k. e ∙ k)
      asks (some (c ∷ s)) e = ((e, h), λ t k. e ∙ k)

      cached :
          (o : Option Text)
          → ((s : Text) → o ≡ some s → server n ≡ some s)
          → IsAnswer n (known_or lower ag server n o names)
      cached none k = asks (server n) refl
      cached (some s) k = (h, k)

  -- An instance of the list whose server name, which is not empty, is the given one up to case.
  pub record IsNode (primary : Text) (all : List Instance) (n : Text) : Type 0 where
    pub node : Instance
    pub listed : Memᴰ node all
    pub named : node.name ≡ n
    pub answer : Text
    pub answered : server node.name ≡ some answer
    pub non_empty : answer ≢ []
    pub same : lower answer ≡ lower primary

  abbrev pub IsMatch : Text → List Instance → Option Text × Names → Type 0
  IsMatch primary all r = IsTrue r.1 × ((n : Text) → r.0 ≡ some n → IsNode primary all n)

  IsNode-later :
      (primary n : Text) (c : Instance) (cs : List Instance)
      → IsNode primary cs n
      → IsNode primary (c ∷ cs) n
  IsNode-later primary n c cs h = record {
    node = h.node;
    listed = Memᴰ.tail h.listed;
    named = h.named;
    answer = h.answer;
    answered = h.answered;
    non_empty = h.non_empty;
    same = h.same;
  }

  is_node_lem :
      (s primary : Text)
      → is_node lower ag server s primary ≡ true
      → (s ≢ []) × (lower s ≡ lower primary)
  is_node_lem [] primary h = cc h
  is_node_lem (c ∷ s) primary h = (λ e. cc e, eq_text_sound (lower (c ∷ s)) (lower primary) h)

  match_node-IsMatch :
      (primary : Text) (cs : List Instance) (names : Names)
      → IsTrue names
      → IsMatch primary cs (match_node lower ag server primary cs names)
  unfolding match_node
  match_node-IsMatch primary [] names h = (h, λ n k. cc)
  match_node-IsMatch primary (c ∷ cs) names h =
      let answer = server_name-IsAnswer c.name names h in
      go (server_name lower ag server c.name names) answer
        (match_node-IsMatch primary cs (server_name lower ag server c.name names).1 answer.0)
    where
      go :
          (r : Option Text × Names)
          → IsAnswer c.name r
          → IsMatch primary cs (match_node lower ag server primary cs r.1)
          → IsMatch primary (c ∷ cs) (
              if is_node lower ag server (or_blank r.0) primary
              then (some c.name, r.1)
              else match_node lower ag server primary cs r.1)
      go (none, names) answer rest = (rest.0, λ n k. IsNode-later primary n c cs (rest.1 n k))
      go (some s, names) answer rest = elim (Bool-cases (is_node lower ag server s primary)) [
        | inl e ↦ rw e (
          answer.0,
          λ n k. record {
            node = c;
            listed = Memᴰ.head refl;
            named = cc k;
            answer = s;
            answered = answer.1 s refl;
            non_empty = (is_node_lem s primary e).0;
            same = (is_node_lem s primary e).1;
          },
        )
        | inr e ↦ rw e (rest.0, λ n k. IsNode-later primary n c cs (rest.1 n k))
      ]

  -- What some candidate reports as the primary, and the candidate that is it.
  pub record IsPrimary (cs all : List Instance) (n : Text) : Type 0 where
    pub reporter : Instance
    pub asked_of : Memᴰ reporter cs
    pub primary : Text
    pub reported : ag reporter.name ≡ some (some primary)
    pub node : IsNode primary all n

  asked-IsMatch :
      (c : Instance) (cs all : List Instance) (names : Names) (o : Option (Option Text))
      → ag c.name ≡ o
      → IsTrue names
      → let r = asked lower ag server o all names in
        IsTrue r.1 × ((n : Text) → r.0 ≡ some n → IsPrimary (c ∷ cs) all n)
  unfolding asked
  asked-IsMatch c cs all names none e h = (h, λ n k. cc)
  asked-IsMatch c cs all names (some none) e h = (h, λ n k. cc)
  asked-IsMatch c cs all names (some (some [])) e h = (h, λ n k. cc)
  asked-IsMatch c cs all names (some (some (d ∷ p))) e h =
      let m = match_node-IsMatch (d ∷ p) all names h in
      (
        m.0,
        λ n k. record {
          reporter = c;
          asked_of = Memᴰ.head refl;
          primary = d ∷ p;
          reported = e;
          node = m.1 n k;
        },
      )

  try_each-IsPrimary :
      (cs all : List Instance) (names : Names)
      → IsTrue names
      → let r = try_each lower ag server cs all names in
        IsTrue r.1 × ((n : Text) → r.0 ≡ some n → IsPrimary cs all n)
  unfolding try_each
  try_each-IsPrimary [] all names h = (h, λ n k. cc)
  try_each-IsPrimary (c ∷ cs) all names h =
      go (asked lower ag server (ag c.name) all names)
        (asked-IsMatch c cs all names (ag c.name) refl h)
        (λ names' h'. try_each-IsPrimary cs all names' h')
    where
      go :
          (r : Option Text × Names)
          → IsTrue r.1 × ((n : Text) → r.0 ≡ some n → IsPrimary (c ∷ cs) all n)
          → ((names : Names)
              → IsTrue names
              → IsTrue (try_each lower ag server cs all names).1
                × ((n : Text)
                    → (try_each lower ag server cs all names).0 ≡ some n
                    → IsPrimary cs all n))
          → let s = or_next lower ag server r (try_each lower ag server cs all) in
            IsTrue s.1 × ((n : Text) → s.0 ≡ some n → IsPrimary (c ∷ cs) all n)
      go (some m, names) h next = h
      go (none, names) h next =
          let later = next names h.0 in
          (
            later.0,
            λ n k.
                let i = later.1 n k in
                record {
                  reporter = i.reporter;
                  asked_of = Memᴰ.tail i.asked_of;
                  primary = i.primary;
                  reported = i.reported;
                  node = i.node;
                },
          )

-- A node of the region: no witness, listener or alias.
abbrev pub IsEligible : Text → Instance → Type 0
IsEligible region i =
    (i.region ≡ some region)
    × (i.is_witness ≡ false)
    × (ends_with (codes "-nlb") i.name ≡ false)
    × (ends_with (codes "-primary") i.name ≡ false)

both : (a b : Bool) → (a && b) ≡ true → (a ≡ true) × (b ≡ true)
both true b h = (refl, h)
both false b h = cc h

refutes : (b : Bool) → not b ≡ true → b ≡ false
refutes true h = cc h
refutes false h = refl

eligible : (region : Text) (i : Instance) → is_candidate region i ≡ true → IsEligible region i
unfolding is_candidate
eligible region i h =
    let named = not (ends_with (codes "-nlb") i.name) in
    let alias = not (ends_with (codes "-primary") i.name) in
    let p = both (in_region region i.region && not i.is_witness && named) alias h in
    let q = both (in_region region i.region && not i.is_witness) named p.0 in
    let r = both (in_region region i.region) (not i.is_witness) q.0 in
    (
      here i.region r.0,
      refutes i.is_witness r.1,
      refutes (ends_with (codes "-nlb") i.name) q.1,
      refutes (ends_with (codes "-primary") i.name) p.1,
    )
  where
    here : (o : Option Text) → in_region region o ≡ true → o ≡ some region
    here none k = cc k
    here (some t) k = ap (λ u. some u) (eq_text_sound t region k)

candidates-All :
    (region : Text) (fleet : List Instance) → All (IsEligible region) (candidates region fleet)
unfolding candidates
candidates-All region [] = tt
candidates-All region (i ∷ l) = elim (Bool-cases (is_candidate region i)) [
  | inl e ↦ rw e (eligible region i e, candidates-All region l)
  | inr e ↦ rw e (candidates-All region l)
]

module _ (lower : Text → Text) (ag : Text → Option (Option Text))
    (server : Text → Option Text) where
  remember-result :
      (region : Text) (expires : ℕ) (r : Option Text × Names) (s : Caches)
      → (remember lower ag server region expires r s).0 ≡ r.0
  remember-result region expires (none, names) s = refl
  remember-result region expires (some n, names) s = refl

  -- Where no cached entry is fresh and the cached server names are true, an alias resolves only to an
  -- instance of the region that is no witness, listener or alias, and whose server name, which is not
  -- empty, is up to case what some such instance reports as the primary.
  pub resolve_region_primary-IsPrimary :
      (fleet : List Instance) (ttl now later : ℕ) (region : Text) (s : Caches) (n : Text)
      → IsTrue lower ag server s.names
      → fresh lower ag server (cached_primary region s.primaries) now ≡ none
      → (resolve_region_primary lower ag server fleet ttl now later region s).0 ≡ some n
      → (i : IsPrimary lower ag server (candidates region fleet) (candidates region fleet) n)
        × IsEligible region i.reporter
        × IsEligible region i.node.node
  unfolding resolve_region_primary
  resolve_region_primary-IsPrimary fleet ttl now later region s n true_names stale h =
      let all = candidates region fleet in
      let tried = try_each lower ag server all all s.names in
      let i =
        (try_each-IsPrimary lower ag server all all s.names true_names).1 n
          (sym (remember-result region (later + ttl) tried s) ∙ rw stale at h) in
      (
        i,
        All-Mem (IsEligible region) all i.reporter (candidates-All region fleet) i.asked_of,
        All-Mem (IsEligible region) all i.node.node (candidates-All region fleet) i.node.listed,
      )
