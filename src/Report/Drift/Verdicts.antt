-- ===== src/Report/Drift/Verdicts.antt =====
-- The verdict of `applyReplicaJobDrift` of services/dba-mcp/src/dbatools.ts on two nodes.
use mssql_data_api.Prelude.{
  ◌≡◌, refl, ap, ◌∙◌, sym, ◌↔◌, Bool, true, false, not, ◌&&◌, ◌||◌, Option, none, some, List, [],
  ◌∷◌, ◌++◌, any, All, arith, Bool-cases, inl, inr, if◌then◌else◌,
}
use mssql_data_api.Prelude.Text.{Text, eq_text}
use mssql_data_api.Prelude.Dict.{Dict, get, Distinct, eq_text_sound, eq_text_refl}
use mssql_data_api.Report.{RawCheck, RawStatus, raw_pass, raw_attention}
use mssql_data_api.Report.Inventory.{JobInv, NodeInventory}
use mssql_data_api.Report.Drift.{
  Diff, is_live, differ, push, compare_job, missing_here, diffs_here, diffs_there, differences,
  regraded,
}

-- Whether two nodes differ in a job that runs on either: it is missing on one, or is enabled, is
-- scheduled or has steps in another way.
unfoldable pub drifts : Option JobInv → Option JobInv → Bool
drifts none none = false
drifts (some a) none = is_live a
drifts none (some b) = is_live b
drifts (some a) (some b) =
    (is_live a || is_live b)
    && (differ a.enabled b.enabled || differ a.scheduled b.scheduled || not (eq_text a.hash b.hash))

abbrev pub has_live : List Diff → Bool
has_live ds = any (λ d. d.is_live) ds

any-append {ℓ} :
    {A : Type ℓ} (p : A → Bool) (xs ys : List A) → any p (xs ++ ys) ≡ (any p xs || any p ys)
any-append p [] ys = refl
any-append p (x ∷ xs) ys = ground (arith, any-append p xs ys)

-- The entries of a map that pass a test.
any_entry : (Text → JobInv → Bool) → Dict JobInv → Bool
any_entry p [] = false
any_entry p ((k, v) ∷ l) = p k v || any_entry p l

abbrev at_entry : (JobInv → Bool) → Option JobInv → Bool
at_entry p none = false
at_entry p (some v) = p v

-- No entry passes exactly where what is found under no key does.
any_entry_sound :
    (p : Text → JobInv → Bool) (l : Dict JobInv)
    → any_entry p l ≡ false
    → (k : Text) → at_entry (p k) (get k l) ≡ false
unfolding any_entry get
any_entry_sound p [] h k = refl
any_entry_sound p ((j, v) ∷ l) h k = elim (Bool-cases (eq_text j k)) [
  | inl e ↦ rw (e, ← (eq_text_sound j k e)) (ground arith)
  | inr e ↦ rw e (any_entry_sound p l (ground arith) k)
]

any_entry_complete :
    (p : Text → JobInv → Bool) (l : Dict JobInv)
    → Distinct l
    → ((k : Text) → at_entry (p k) (get k l) ≡ false)
    → any_entry p l ≡ false
unfolding any_entry get
any_entry_complete p [] d h = refl
any_entry_complete p ((j, v) ∷ l) (n, d) h = ground (arith, first, any_entry_complete p l d others)
  where
    first : p j v ≡ false
    first = rw (eq_text_refl j) at (h j)

    others : (k : Text) → at_entry (p k) (get k l) ≡ false
    others k = elim (Bool-cases (eq_text j k)) [
      | inl e ↦ rw (← (eq_text_sound j k e), n) refl
      | inr e ↦ rw e at (h k)
    ]

is_live_of : Option Diff → Bool
is_live_of none = false
is_live_of (some d) = d.is_live

has_live-push :
    (o : Option Diff) (ds : List Diff) → has_live (push o ds) ≡ (is_live_of o || has_live ds)
unfolding is_live_of
has_live-push none ds = refl
has_live-push (some d) ds = refl

compare_live :
    (server partner job : Text) (a : JobInv) (o : Option JobInv)
    → is_live_of (compare_job server partner job a o) ≡ drifts (some a) o
unfolding is_live_of compare_job drifts
compare_live server partner job a none = refl
compare_live server partner job a (some b) = ground arith

abbrev lacks : Option JobInv → JobInv → Bool
lacks none b = is_live b
lacks (some a) b = false

missing_live :
    (server partner job : Text) (o : Option JobInv) (b : JobInv)
    → is_live_of (missing_here server partner job o b) ≡ lacks o b
unfolding is_live_of missing_here
missing_live server partner job none b = refl
missing_live server partner job (some a) b = refl

module _ (me peer : NodeInventory) where
  here_live :
      (l : Dict JobInv)
      → has_live (diffs_here me peer l) ≡ any_entry (λ k a. drifts (some a) (get k peer.jobs)) l
  unfolding diffs_here any_entry
  here_live [] = refl
  here_live ((job, a) ∷ l) = rw (
    has_live-push (compare_job me.server peer.server job a (get job peer.jobs))
        (diffs_here me peer l),
    compare_live me.server peer.server job a (get job peer.jobs),
    here_live l,
  )

  there_live :
      (l : Dict JobInv)
      → has_live (diffs_there me peer l) ≡ any_entry (λ k b. lacks (get k me.jobs) b) l
  unfolding diffs_there any_entry
  there_live [] = refl
  there_live ((job, b) ∷ l) = rw (
    has_live-push (missing_here me.server peer.server job (get job me.jobs) b)
        (diffs_there me peer l),
    missing_live me.server peer.server job (get job me.jobs) b,
    there_live l,
  )

-- The two halves of the comparison, at one key.
halves :
    (o p : Option JobInv)
    → at_entry (λ a. drifts (some a) p) o ≡ false
    → at_entry (λ b. lacks o b) p ≡ false
    → drifts o p ≡ false
unfolding drifts
halves none none h k = refl
halves none (some b) h k = k
halves (some a) none h k = h
halves (some a) (some b) h k = h

here_half : (o p : Option JobInv) → drifts o p ≡ false → at_entry (λ a. drifts (some a) p) o ≡ false
here_half none p h = refl
here_half (some a) p h = h

there_half : (o p : Option JobInv) → drifts o p ≡ false → at_entry (λ b. lacks o b) p ≡ false
unfolding drifts
there_half o none h = refl
there_half none (some b) h = h
there_half (some a) (some b) h = refl

-- The two nodes run every job in the same way.
abbrev pub Agree : NodeInventory → NodeInventory → Type 0
Agree me peer = (job : Text) → drifts (get job me.jobs) (get job peer.jobs) ≡ false

abbrev both : NodeInventory → NodeInventory → List Diff
both me peer = diffs_here me peer me.jobs ++ diffs_there me peer peer.jobs

quiet-Agree : (me peer : NodeInventory) → has_live (both me peer) ≡ false → Agree me peer
quiet-Agree me peer h job =
    halves (get job me.jobs) (get job peer.jobs)
      (any_entry_sound (λ k a. drifts (some a) (get k peer.jobs)) me.jobs
        (sym (here_live me peer me.jobs) ∙ ground (arith, split)) job)
      (any_entry_sound (λ k b. lacks (get k me.jobs) b) peer.jobs
        (sym (there_live me peer peer.jobs) ∙ ground (arith, split)) job)
  where
    split :
        (has_live (diffs_here me peer me.jobs) || has_live (diffs_there me peer peer.jobs)) ≡ false
    split =
        sym
          (any-append (λ d. d.is_live) (diffs_here me peer me.jobs) (diffs_there me peer peer.jobs))
        ∙ h

Agree-quiet :
    (me peer : NodeInventory)
    → Distinct me.jobs
    → Distinct peer.jobs
    → Agree me peer
    → has_live (both me peer) ≡ false
Agree-quiet me peer d e h =
    any-append (λ d. d.is_live) (diffs_here me peer me.jobs) (diffs_there me peer peer.jobs)
    ∙ ground (arith, first, second)
  where
    first : has_live (diffs_here me peer me.jobs) ≡ false
    first =
        here_live me peer me.jobs
        ∙ any_entry_complete (λ k a. drifts (some a) (get k peer.jobs)) me.jobs d
            (λ job. here_half (get job me.jobs) (get job peer.jobs) (h job))

    second : has_live (diffs_there me peer peer.jobs) ≡ false
    second =
        there_live me peer peer.jobs
        ∙ any_entry_complete (λ k b. lacks (get k me.jobs) b) peer.jobs e
            (λ job. there_half (get job me.jobs) (get job peer.jobs) (h job))

pub status_of : Bool → RawStatus
status_of live = if live then raw_attention else raw_pass

status_of-pass : (live : Bool) → (status_of live ≡ raw_pass) ↔ (live ≡ false)
unfolding status_of
status_of-pass true = (λ h. cc h, λ h. cc h)
status_of-pass false = (λ h. refl, λ h. refl)

pub regraded_status :
    (me : NodeInventory) (peers : List NodeInventory) (raw : RawCheck)
    → (regraded me peers raw).status ≡ status_of (has_live (differences me peers))
unfolding regraded status_of
regraded_status me peers raw = refl

differences_live :
    (me p : NodeInventory) (ps : List NodeInventory)
    → has_live (differences me (p ∷ ps)) ≡ (has_live (both me p) || has_live (differences me ps))
unfolding differences
differences_live me p ps = any-append (λ d. d.is_live) (both me p) (differences me ps)

differences-nil : (me : NodeInventory) → has_live (differences me []) ≡ false
unfolding differences
differences-nil me = refl

pub quiet-All :
    (me : NodeInventory) (peers : List NodeInventory)
    → has_live (differences me peers) ≡ false
    → All (Agree me) peers
quiet-All me [] h = tt
quiet-All me (p ∷ ps) h =
    (quiet-Agree me p (ground (arith, parts)), quiet-All me ps (ground (arith, parts)))
  where
    parts : (has_live (both me p) || has_live (differences me ps)) ≡ false
    parts = sym (differences_live me p ps) ∙ h

pub All-quiet :
    (me : NodeInventory) (peers : List NodeInventory)
    → Distinct me.jobs
    → All (λ p. Distinct p.jobs) peers
    → All (Agree me) peers
    → has_live (differences me peers) ≡ false
All-quiet me [] d ds h = differences-nil me
All-quiet me (p ∷ ps) d (e, es) (h, hs) =
    differences_live me p ps ∙ ground (arith, Agree-quiet me p d e h, All-quiet me ps d es hs)

-- A node compared with its partners passes exactly where, for every partner and every job, the job
-- runs on neither, or both have it and it is enabled, is scheduled and has steps in the same way;
-- the jobs of each node have different names.
pub regraded-Agree :
    (me : NodeInventory) (peers : List NodeInventory) (raw : RawCheck)
    → Distinct me.jobs
    → All (λ p. Distinct p.jobs) peers
    → ((regraded me peers raw).status ≡ raw_pass) ↔ All (Agree me) peers
unfolding status_of
regraded-Agree me peers raw d ds = (
  λ h. quiet-All me peers (
      (status_of-pass (has_live (differences me peers))).0
        (sym (regraded_status me peers raw) ∙ h)),
  λ h. regraded_status me peers raw ∙ ap status_of (All-quiet me peers d ds h),
)
