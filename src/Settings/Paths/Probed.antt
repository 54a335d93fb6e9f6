-- ===== src/Settings/Paths/Probed.antt =====
-- The paths that `hostDllProbe` of services/dba-mcp/src/dbatools.ts probes.
use mssql_data_api.Prelude.{
  ◌≡◌, refl, ap, sym, subst, ◌∙◌, arith, ◌&&◌, Option, Bool, true, false, List, [], ◌∷◌, ◌++◌, map,
  Bool-cases, inl, inr, if◌then◌else◌, All, ◌⊎◌, right, inr-injective,
}
use mssql_data_api.Prelude.Text.{Text, codes}
use mssql_data_api.Prelude.Dict.{eq_text_refl}
use mssql_data_api.Prelude.Json.{Json, Runtime}
use mssql_data_api.Settings.Paths.{
  DllWatchEntry, Refusal, has_dots, has_drive_root, is_unc, strip_separators, user_path, add_path,
  user_paths, first_of_each, probe_from, probed, caller_entry, Probe, probe_of, as_probe,
  host_dll_probe, host_dll_watchlist, base_host_dll_watchlist, parse_host_dll_watchlist,
  watch_entries, watch_entry, is_watched_path, is_printable, label_or,
}
use mssql_data_api.Settings.{every, parsed, array_of, field_of, trimmed, concat_some}
use mssql_data_api.Settings.Paths.Keys.{
  seen_in, keys_of, AllDifferent, first_of_each-AllDifferent, first_of_each_complete,
}

abbrev pub IsPlain : Text → Type 0
IsPlain p = has_dots p ≡ false

-- The first of the entries keep what all have.
first_of_each-All {ℓ} :
    (P : DllWatchEntry → Type ℓ) (lower : Text → Text) (seen : List Text) (l : List DllWatchEntry)
    → All P l
    → All P (first_of_each lower seen l)
unfolding first_of_each
first_of_each-All P lower seen [] h = tt
first_of_each-All P lower seen (e ∷ l) (h, hs) = elim (Bool-cases (seen_in seen (lower e.path))) [
  | inl s ↦ rw s (first_of_each-All P lower seen l hs)
  | inr s ↦ rw s (h, first_of_each-All P lower (lower e.path ∷ seen) l hs)
]

strip_separators-IsPlain : (p : Text) → IsPlain p → IsPlain (strip_separators p)
unfolding strip_separators has_dots
strip_separators-IsPlain [] h = h
strip_separators-IsPlain (c ∷ []) h = ground arith
strip_separators-IsPlain (c ∷ d ∷ s) h = ground (arith, strip_separators-IsPlain (d ∷ s))

user_path_sound :
    (p q : Text) → user_path p ≡ right Refusal q → IsPlain q × (q ≡ strip_separators p)
unfolding user_path
user_path_sound p q h = elim (Bool-cases (has_dots p)) [
  | inl d ↦ cc (rw d at h)
  | inr d ↦ elim (Bool-cases (has_drive_root p)) [
    | inl r ↦ cc (rw (d, r) at h)
    | inr r ↦ elim (Bool-cases (is_unc p)) [
      | inl u ↦ cc (rw (d, r, u) at h)
      | inr u ↦
          let e = inr-injective (rw (d, r, u) at h) in
          (subst IsPlain e (strip_separators-IsPlain p d), sym e)
    ]
  ]
]

-- The paths of the caller that are taken: each without the separators in front, and plain.
user_paths_sound :
    (ps l : List Text)
    → user_paths ps ≡ right Refusal l
    → All IsPlain l × (l ≡ map strip_separators ps)
unfolding user_paths
user_paths_sound [] l h = subst (λ l. All IsPlain l × (l ≡ [])) (inr-injective h) (tt, refl)
user_paths_sound (p ∷ ps) l h = split (user_path p) (user_paths ps) refl (user_paths_sound ps) h
  where
    Sound : List Text → Type 0
    Sound l = All IsPlain l × (l ≡ strip_separators p ∷ map strip_separators ps)

    split :
        (a : Refusal ⊎ Text) (b : Refusal ⊎ List Text)
        → user_path p ≡ a
        → ((l : List Text) → b ≡ right Refusal l → All IsPlain l × (l ≡ map strip_separators ps))
        → add_path a b ≡ right Refusal l
        → Sound l
    split (inl e) b ha hb h = cc h
    split (inr q) (inl e) ha hb h = cc h
    split (inr q) (inr qs) ha hb h =
        let (plain, same) = user_path_sound p q ha in
        let (plains, sames) = hb qs refl in
        subst Sound (inr-injective h) ((plain, plains), rw (same, sames) refl)

abbrev paths_of : List DllWatchEntry → List Text
paths_of l = map (λ e. e.path) l

keys_of-paths :
    (lower : Text → Text) (l : List DllWatchEntry) → keys_of lower l ≡ map lower (paths_of l)
keys_of-paths lower [] = refl
keys_of-paths lower (e ∷ l) = ap (λ t. lower e.path ∷ t) (keys_of-paths lower l)

All-paths : (l : List DllWatchEntry) → All (λ e. IsPlain e.path) l → All IsPlain (paths_of l)
All-paths [] h = tt
All-paths (e ∷ l) (h, hs) = (h, All-paths l hs)

All-entries :
    (w : List DllWatchEntry) (l : List Text)
    → All (λ e. IsPlain e.path) w
    → All IsPlain l
    → All (λ e. IsPlain e.path) (w ++ map caller_entry l)
All-entries [] [] h k = tt
All-entries [] (p ∷ l) h (k, ks) = (k, All-entries [] l tt ks)
All-entries (e ∷ w) l (h, hs) k = (h, All-entries w l hs k)

-- What a list of paths covers: each path is there, but for the case of its letters.
abbrev pub Covers : (Text → Text) → List Text → Text → Type 0
Covers lower paths p = seen_in (map lower paths) (lower p) ≡ true

covered :
    (lower : Text → Text) (l : List DllWatchEntry) (k : Text)
    → seen_in (keys_of lower l) k ≡ true
    → seen_in (map lower (paths_of (first_of_each lower [] l))) k ≡ true
covered lower l k h =
    subst (λ t. seen_in t k ≡ true) (keys_of-paths lower (first_of_each lower [] l))
      (first_of_each_complete lower k [] l h)

All-seen :
    (lower : Text → Text) (ts r : List Text)
    → ((k : Text) → seen_in (map lower ts) k ≡ true → seen_in r k ≡ true)
    → All (λ t. seen_in r (lower t) ≡ true) ts
All-seen lower [] r h = tt
All-seen lower (t ∷ ts) r h = (
  h (lower t) (ground (arith, eq_text_refl (lower t))),
  All-seen lower ts r (λ k s. h k (ground (arith, s))),
)

paths_of-entries :
    (w : List DllWatchEntry) (l : List Text) → paths_of (w ++ map caller_entry l) ≡ paths_of w ++ l
paths_of-entries [] [] = refl
paths_of-entries [] (p ∷ l) = ap (λ t. p ∷ t) (paths_of-entries [] l)
paths_of-entries (e ∷ w) l = ap (λ t. e.path ∷ t) (paths_of-entries w l)

abbrev pub watched : Bool → List DllWatchEntry → List DllWatchEntry
watched include_watchlist l = if include_watchlist then l else []

module _ (lower : Text → Text) where
  entries_covered :
      (w : List DllWatchEntry) (l : List Text)
      → All
          (Covers lower (paths_of (first_of_each lower [] (w ++ map caller_entry l))))
          (paths_of w ++ l)
  entries_covered w l =
      All-seen lower (paths_of w ++ l)
        (map lower (paths_of (first_of_each lower [] (w ++ map caller_entry l))))
        (λ k s. covered lower (w ++ map caller_entry l) k (
          subst (λ t. seen_in t k ≡ true)
            (sym (
              keys_of-paths lower (w ++ map caller_entry l)
              ∙ ap (map lower) (paths_of-entries w l)))
            s))

  -- What is said of the paths of a probe.
  abbrev pub IsProbe : List DllWatchEntry → List Text → List Text → Type 0
  IsProbe w extra paths =
      AllDifferent (map lower paths)
      × All IsPlain paths
      × All (Covers lower paths) (paths_of w ++ map strip_separators extra)

  entries-IsProbe :
      (w : List DllWatchEntry) (l : List Text)
      → All (λ e. IsPlain e.path) w
      → All IsPlain l
      → AllDifferent (map lower (paths_of (first_of_each lower [] (w ++ map caller_entry l))))
        × All IsPlain (paths_of (first_of_each lower [] (w ++ map caller_entry l)))
  entries-IsProbe w l h k = (
    subst AllDifferent (keys_of-paths lower (first_of_each lower [] (w ++ map caller_entry l)))
        (first_of_each-AllDifferent lower [] (w ++ map caller_entry l)),
    All-paths (first_of_each lower [] (w ++ map caller_entry l)) (
        first_of_each-All (λ e. IsPlain e.path) lower [] (w ++ map caller_entry l)
          (All-entries w l h k)),
  )

watched-IsPlain :
    (b : Bool) (l : List DllWatchEntry)
    → All (λ e. IsPlain e.path) l
    → All (λ e. IsPlain e.path) (watched b l)
watched-IsPlain true l h = h
watched-IsPlain false l h = tt

-- A probe that is made has no two paths that differ in the case of letters alone, none that goes up a
-- directory where none of the list does, and it has, but for that case, every path of the list that is
-- asked for and every path of the caller without the separators in front.
pub host_dll_probe-IsProbe :
    (rt : Runtime) (include_watchlist : Bool) (extra : List Text) (watchlist : List DllWatchEntry)
    (p : Probe)
    → All (λ e. IsPlain e.path) watchlist
    → host_dll_probe rt include_watchlist extra watchlist ≡ right Refusal p
    → IsProbe rt.lower (watched include_watchlist watchlist) extra p.paths
unfolding host_dll_probe probed probe_of
host_dll_probe-IsProbe rt b extra watchlist p plain h = made (user_paths extra) refl h
  where
    made :
        (o : Refusal ⊎ List Text)
        → user_paths extra ≡ o
        → as_probe (probe_from rt (watched b watchlist) o) ≡ right Refusal p
        → IsProbe rt.lower (watched b watchlist) extra p.paths
    made (inl e) q h = cc h
    made (inr l) q h =
        let (plains, same) = user_paths_sound extra l q in
        let (different, all_plain) =
          entries-IsProbe rt.lower (watched b watchlist) l (watched-IsPlain b watchlist plain)
            plains in
        subst (λ p. IsProbe rt.lower (watched b watchlist) extra p.paths) (inr-injective h)
          (
            different,
            all_plain,
            subst
                (λ t.
                  All
                    (Covers rt.lower (
                      paths_of
                        (first_of_each rt.lower [] (watched b watchlist ++ map caller_entry l))))
                    (paths_of (watched b watchlist) ++ t))
                same (entries_covered rt.lower (watched b watchlist) l),
          )

is_watched_path-IsPlain : (p : Text) → is_watched_path p ≡ true → IsPlain p
unfolding is_watched_path
is_watched_path-IsPlain p h = ground arith

watch_entries-IsPlain : (l : List Json) → All (λ e. IsPlain e.path) (watch_entries l)
unfolding watch_entries
watch_entries-IsPlain [] = tt
watch_entries-IsPlain (e ∷ l) =
    one (strip_separators (trimmed (field_of (codes "path") e)))
      (label_or (trimmed (field_of (codes "label") e))) (watch_entries-IsPlain l)
  where
    one :
        (path label : Text)
        → All (λ e. IsPlain e.path) (watch_entries l)
        → All (λ e. IsPlain e.path) (concat_some (watch_entry path label) (watch_entries l))
    one path label h = elim (Bool-cases (is_watched_path path && every is_printable label)) [
      | inl e ↦ rw e (is_watched_path-IsPlain path (ground (arith, e)), h)
      | inr e ↦ rw e h
    ]

All-both :
    (P : DllWatchEntry → Type 0) (a b : List DllWatchEntry) → All P a → All P b → All P (a ++ b)
All-both P [] b h k = k
All-both P (x ∷ a) b (h, hs) k = (h, All-both P a b hs k)

-- No path of the list that the server probes goes up a directory, whatever the setting holds.
pub host_dll_watchlist-IsPlain :
    (rt : Runtime) (raw : Option Text) → All (λ e. IsPlain e.path) (host_dll_watchlist rt raw)
unfolding host_dll_watchlist base_host_dll_watchlist parse_host_dll_watchlist has_dots
host_dll_watchlist-IsPlain rt raw =
    All-both (λ e. IsPlain e.path) base_host_dll_watchlist
      (watch_entries (array_of (parsed rt raw)))
      (
        refl,
        (
          refl,
          (
            refl,
            (refl, (refl, (refl, (refl, (refl, (refl, (refl, (refl, (refl, (refl, tt)))))))))),
          ),
        ),
      )
      (watch_entries-IsPlain (array_of (parsed rt raw)))
