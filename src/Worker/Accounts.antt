-- ===== src/Worker/Accounts.antt =====
-- The books of the worker of services/dba-mcp/src/pwshWorker.ts, one method at a time: the ids that
-- were given out, the calls that wait and the promises that were settled.
use mssql_data_api.Prelude.{
  ℕ, ◌+◌, ◌≤◌, ◌<◌, ◌≡◌, refl, subst, Bool, true, false, Option, none, some, [], ◌∷◌, ◌++◌, arith,
  if◌then◌else◌, ltb, leb, length, Bool-cases, inl, inr,
}
use mssql_data_api.Prelude.Text.{Text}
use mssql_data_api.Worker.{
  Options, Worker, Reply, Failure, spawned, sent, refused, rejected, not_booted, stdin_closed,
  Result, update, is_active, disown, suffix, ending, start, send, timeout, settle, stderr_data,
  stop, reply_to, answer, reject_all,
}
use mssql_data_api.Worker.Pending.{
  Entries, lookup, delete, owned, disowned, ids, count, count-delete, count-owned, count-append,
  count_of_lookup,
}
use mssql_data_api.Worker.Histories.{settled, issued, issued-suc}
use mssql_data_api.Worker.Invariant.{
  Inv, disown-Inv, spawned-Inv, given_out, queued, answered, gone, healthy, stopped, complained,
}

-- The outcome of an event: the invariant, and the books: a call is waiting, settled once, or
-- not there yet.
pub record Sound {Row : Type 0} (opts : Options) (w : Worker) (r : Result Row) : Type 0 where
  pub inv : Inv opts r.0
  pub books :
      (k : ℕ)
      → count k r.0.pending + settled k r.1 + issued k w.next_id
        ≡ count k w.pending + issued k r.0.next_id

-- Only `proc` and `restarts` change where a process is disowned.
disown_rest :
    (w : Worker) (p : ℕ) (l : Entries)
    → (disown (record w { pending = l }) p ≡ record (disown w p) { pending = l })
      × ((disown w p).next_id ≡ w.next_id)
disown_rest w p l = elim (Bool-cases (is_active w.proc p)) [
  | inl e ↦ rw e (refl, refl)
  | inr e ↦ rw e (refl, refl)
]

settled-reject_all :
    (Row : Type 0) (k : ℕ) (e : Failure) (l : Entries)
    → settled {Row = Row} k (reject_all e (ids l)) ≡ count k l
unfolding settled reject_all count
settled-reject_all Row k e [] = refl
settled-reject_all Row k e ((j, p) ∷ l) = ground (arith, settled-reject_all Row k e l)

module _ {Row : Type 0} {opts : Options} {w : Worker} (i : Inv opts w) where
  pub quiet : Sound {Row = Row} opts w (w, [])
  unfolding settled
  quiet = record { inv = i; books = λ k. omega arith }

  pub start-Sound : (boots : Bool) → Sound {Row = Row} opts w (start w.proc boots w)
  unfolding start settled
  start-Sound boots = go w.proc boots
    where
      booting :
          (boots : Bool)
          → ltb w.max_restarts w.restarts ≡ false
          → Sound {Row = Row} opts w (
              if boots
              then (
                record w {
                  proc = some w.next_proc;
                  next_proc = w.next_proc + 1;
                  tails = update w.tails w.next_proc [];
                },
                spawned w.next_proc ∷ [],
              )
              else (w, refused not_booted ∷ []))
      booting true e = record { inv = spawned-Inv i (ground (arith, e)); books = λ k. omega arith }
      booting false e = record { inv = i; books = λ k. omega arith }

      go : (o : Option ℕ) (boots : Bool) → Sound {Row = Row} opts w (start o boots w)
      go (some p) boots = quiet
      go none boots = elim (Bool-cases (ltb w.max_restarts w.restarts)) [
        | inl e ↦ rw e (record { inv = i; books = λ k. omega arith })
        | inr e ↦ rw e (booting boots e)
      ]

  pub send-Sound : (writes : Bool) → Sound {Row = Row} opts w (send w.proc writes w)
  unfolding send settled
  send-Sound writes = go w.proc i.active
    where
      sending :
          (p : ℕ) (writes : Bool)
          → p < w.next_proc
          → length w.pending < w.max_queue
          → Sound {Row = Row} opts w (
              if writes
              then (
                record w { next_id = w.next_id + 1; pending = w.pending ++ (w.next_id, p) ∷ [] },
                sent p w.next_id ∷ [],
              )
              else (record w { next_id = w.next_id + 1 }, rejected w.next_id stdin_closed ∷ []))
      sending p true h n = record {
        inv = queued i p h n;
        books = λ k.
            omega (arith, count-append k w.next_id p w.pending, issued-suc k w.next_id i.first);
      }
      sending p false h n = record {
        inv = given_out i;
        books = λ k. ground (arith, issued-suc k w.next_id i.first);
      }

      go :
          (o : Option ℕ)
          → ((p : ℕ) → o ≡ some p → (p < w.next_proc) × (w.restarts ≤ w.max_restarts))
          → Sound {Row = Row} opts w (send o writes w)
      go none a = record { inv = i; books = λ k. omega arith }
      go (some p) a = elim (Bool-cases (leb w.max_queue (length w.pending))) [
        | inl e ↦ rw e (record { inv = i; books = λ k. omega arith })
        | inr e ↦ rw e (sending p writes (a p refl).0 (ground (arith, e)))
      ]

  pub timeout-Sound : (id : ℕ) → Sound {Row = Row} opts w (timeout id (lookup id w.pending) w)
  unfolding timeout settled
  timeout-Sound id = go (lookup id w.pending) refl
    where
      go : (o : Option ℕ) → lookup id w.pending ≡ o → Sound {Row = Row} opts w (timeout id o w)
      go none e = quiet
      go (some p) e = record {
        inv =
            subst (Inv opts) (disown_rest w p (delete id w.pending)).0
              (disown-Inv (answered i id) p);
        books = λ k. rw (disown_rest w p []).1 (
            ground
              (arith, count-delete id k w.pending, count_of_lookup id p w.pending e, i.unique id));
      }

  pub settle-Sound : (p : ℕ) (base : Text → Failure) → Sound {Row = Row} opts w (settle p base w)
  unfolding settle settled
  settle-Sound p base = record {
    inv = subst (Inv opts) (disown_rest w p (disowned p w.pending)).0 (disown-Inv (gone i p) p);
    books = λ k. rw (disown_rest w p []).1 (
        omega (
          arith,
          count-owned p k w.pending,
          settled-reject_all Row k (ending (disown w p) (suffix w p) (base (suffix w p)))
              (owned p w.pending),
        ));
  }

  pub stderr_data-Sound : (p : ℕ) (s : Text) → Sound {Row = Row} opts w (stderr_data p s w)
  unfolding stderr_data settled
  stderr_data-Sound p s = record { inv = complained i p (w.tails p ++ s); books = λ k. omega arith }

  pub stop-Sound : Sound {Row = Row} opts w (stop w.proc w)
  unfolding stop settled
  stop-Sound = go w.proc
    where
      go : (o : Option ℕ) → Sound {Row = Row} opts w (stop o w)
      go none = quiet
      go (some p) = record { inv = stopped i; books = λ k. omega arith }

  reply_to-Sound :
      (r : Reply Row) (id : ℕ) → Sound {Row = Row} opts w (reply_to r id (lookup id w.pending) w)
  unfolding reply_to settled
  reply_to-Sound r id = go (lookup id w.pending) refl
    where
      go : (o : Option ℕ) → lookup id w.pending ≡ o → Sound {Row = Row} opts w (reply_to r id o w)
      go none e = quiet
      go (some p) e = elim (Bool-cases r.ok) [
        | inl k ↦ rw k (record {
          inv = healthy (answered i id);
          books = λ k.
              ground
                (arith, count-delete id k w.pending, count_of_lookup id p w.pending e, i.unique id);
        })
        | inr k ↦ rw k (record {
          inv = answered i id;
          books = λ k.
              ground
                (arith, count-delete id k w.pending, count_of_lookup id p w.pending e, i.unique id);
        })
      ]

  pub answer-Sound : (r : Reply Row) (o : Option ℕ) → Sound {Row = Row} opts w (answer r o w)
  unfolding answer
  answer-Sound r none = quiet
  answer-Sound r (some id) = reply_to-Sound r id
