-- ===== src/Worker/Invariant.antt =====
-- What holds of the worker of services/dba-mcp/src/pwshWorker.ts at every moment of its life.
use mssql_data_api.Prelude.{
  ℕ, ◌+◌, ◌≤◌, ◌<◌, ◌≡◌, true, Option, none, some, [], ◌∷◌, ◌++◌, arith, length, length-append, All,
  Bool-cases, ==_iff, ap, inl, inr,
}
use mssql_data_api.Prelude.Text.{Text}
use mssql_data_api.Worker.{Options, Worker, update, take_last, is_active, disown, stderr_tail_max}
use mssql_data_api.Worker.Pending.{
  Entries, delete, disowned, count, length-delete, length-disowned, count-delete, count-owned,
  count-append, All-delete, All-disowned, All-append, count_below, Known, Known-up,
}

-- The entries are of ids that were given out and processes that were made, no id has two, and
-- there are no more than `maxQueue`. While a process is active, `restarts` is within
-- `maxRestarts`; it is never more than one above. A tail keeps to `STDERR_TAIL_MAX`.
pub record Inv (opts : Options) (w : Worker) : Type 0 where
  pub kept : w.opts ≡ opts
  pub known : All (Known w.next_id w.next_proc) w.pending
  pub unique : (k : ℕ) → count k w.pending ≤ 1
  pub bounded : length w.pending ≤ w.max_queue
  pub first : 0 < w.next_id
  pub active : (p : ℕ) → w.proc ≡ some p → (p < w.next_proc) × (w.restarts ≤ w.max_restarts)
  pub restarts_bounded : w.restarts ≤ w.max_restarts + 1
  pub tails_bounded : (p : ℕ) → length (w.tails p) ≤ stderr_tail_max

pub length-take_last : (n : ℕ) (s : Text) → length (take_last n s) ≤ n
unfolding take_last
length-take_last n [] = omega arith
length-take_last n (c ∷ s) = ground (arith, length-take_last n s)

is_active-some : (o : Option ℕ) (p : ℕ) → is_active o p ≡ true → o ≡ some p
is_active-some none p h = cc
is_active-some (some q) p h = ap some ((==_iff q p).0 h)

some_injective : (a b : ℕ) → some a ≡ some b → a ≡ b
some_injective a b h = cc

module _ {opts : Options} {w : Worker} (i : Inv opts w) where
  pub disown-Inv : (p : ℕ) → Inv opts (disown w p)
  disown-Inv p = elim (Bool-cases (is_active w.proc p)) [
    | inl e ↦ rw e (record {
      kept = i.kept;
      known = i.known;
      unique = i.unique;
      bounded = i.bounded;
      first = i.first;
      active = λ q h. cc;
      restarts_bounded = omega (arith, (i.active p (is_active-some w.proc p e)).1);
      tails_bounded = i.tails_bounded;
    })
    | inr e ↦ rw e i
  ]

  -- Entries may go at any time.
  fewer :
      (l : Entries)
      → All (Known w.next_id w.next_proc) l
      → ((k : ℕ) → count k l ≤ count k w.pending)
      → length l ≤ length w.pending
      → Inv opts (record w { pending = l })
  fewer l known c n = record {
    kept = i.kept;
    known = known;
    unique = λ k. omega (arith, c k, i.unique k);
    bounded = omega (arith, n, i.bounded);
    first = i.first;
    active = i.active;
    restarts_bounded = i.restarts_bounded;
    tails_bounded = i.tails_bounded;
  }

  pub spawned-Inv :
      w.restarts ≤ w.max_restarts
      → Inv opts (record w {
        proc = some w.next_proc;
        next_proc = w.next_proc + 1;
        tails = update w.tails w.next_proc [];
      })
  spawned-Inv h = record {
    kept = i.kept;
    known =
        Known-up w.next_id w.next_id w.next_proc (w.next_proc + 1) w.pending (omega arith)
          (omega arith) i.known;
    unique = i.unique;
    bounded = i.bounded;
    first = i.first;
    active = λ p e. (omega (arith, some_injective w.next_proc p e), h);
    restarts_bounded = i.restarts_bounded;
    tails_bounded = λ p. ground (arith, i.tails_bounded p);
  }

  pub given_out : Inv opts (record w { next_id = w.next_id + 1 })
  given_out = record {
    kept = i.kept;
    known =
        Known-up w.next_id (w.next_id + 1) w.next_proc w.next_proc w.pending (omega arith)
          (omega arith) i.known;
    unique = i.unique;
    bounded = i.bounded;
    first = omega arith;
    active = i.active;
    restarts_bounded = i.restarts_bounded;
    tails_bounded = i.tails_bounded;
  }

  pub queued :
      (p : ℕ)
      → p < w.next_proc
      → length w.pending < w.max_queue
      → Inv opts (record w { next_id = w.next_id + 1; pending = w.pending ++ (w.next_id, p) ∷ [] })
  queued p h n = record {
    kept = i.kept;
    known =
        All-append (Known (w.next_id + 1) w.next_proc) (w.next_id, p) w.pending given_out.known
          (omega arith, i.first, h);
    unique = λ k. ground (
      arith,
      count-append k w.next_id p w.pending,
      i.unique k,
      count_below w.next_id w.next_proc w.pending i.known,
    );
    bounded = omega (arith, n, length-append w.pending ((w.next_id, p) ∷ []));
    first = omega arith;
    active = i.active;
    restarts_bounded = i.restarts_bounded;
    tails_bounded = i.tails_bounded;
  }

  pub answered : (id : ℕ) → Inv opts (record w { pending = delete id w.pending })
  answered id =
      fewer (delete id w.pending) (All-delete (Known w.next_id w.next_proc) id w.pending i.known)
        (λ k. ground (arith, count-delete id k w.pending)) (length-delete id w.pending)

  pub gone : (p : ℕ) → Inv opts (record w { pending = disowned p w.pending })
  gone p =
      fewer (disowned p w.pending) (All-disowned (Known w.next_id w.next_proc) p w.pending i.known)
        (λ k. omega (arith, count-owned p k w.pending)) (length-disowned p w.pending)

  -- A success clears `restarts`.
  pub healthy : Inv opts (record w { restarts = 0 })
  healthy = record {
    kept = i.kept;
    known = i.known;
    unique = i.unique;
    bounded = i.bounded;
    first = i.first;
    active = λ p e. ((i.active p e).0, omega arith);
    restarts_bounded = omega arith;
    tails_bounded = i.tails_bounded;
  }

  pub stopped : Inv opts (record w { proc = none })
  stopped = record {
    kept = i.kept;
    known = i.known;
    unique = i.unique;
    bounded = i.bounded;
    first = i.first;
    active = λ p e. cc;
    restarts_bounded = i.restarts_bounded;
    tails_bounded = i.tails_bounded;
  }

  pub buffered : (b : Text) → Inv opts (record w { buf = b })
  buffered b = record {
    kept = i.kept;
    known = i.known;
    unique = i.unique;
    bounded = i.bounded;
    first = i.first;
    active = i.active;
    restarts_bounded = i.restarts_bounded;
    tails_bounded = i.tails_bounded;
  }

  pub complained :
      (p : ℕ) (s : Text)
      → Inv opts (record w { tails = update w.tails p (take_last stderr_tail_max s) })
  complained p s = record {
    kept = i.kept;
    known = i.known;
    unique = i.unique;
    bounded = i.bounded;
    first = i.first;
    active = i.active;
    restarts_bounded = i.restarts_bounded;
    tails_bounded = λ q. ground (arith, i.tails_bounded q, length-take_last stderr_tail_max s);
  }
