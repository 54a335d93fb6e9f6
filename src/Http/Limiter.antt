-- ===== src/Http/Limiter.antt =====
-- The fixed-window rate limit of services/dba-mcp/src/index.ts, keyed by the request's `req.ip`.
-- Times are in milliseconds, as `Date.now` gives them.
use mssql_data_api.Prelude.{
  ℕ, ◌+◌, ◌-◌, ◌/◌, zero, suc, ltb, Bool, true, false, not, Option, none, some, List, [], ◌∷◌,
  if◌then◌else◌,
}
use mssql_data_api.Prelude.Text.{Text}
use mssql_data_api.Prelude.Dict.{Dict, get, set, keep_if}

pub record Hits : Type 0 where
  pub count : ℕ
  pub reset_at : ℕ

-- `refused` carries the header Retry-After, in seconds.
pub data Verdict : Type 0 where
  passed : Verdict
  refused : ℕ → Verdict

-- `RL_MAX` as `parseInt` gives it: none is NaN, and 0 stands for every number that is not positive.
abbrev pub Limit : Type 0
Limit = Option ℕ

abbrev pub is_off : Limit → Bool
is_off none = false
is_off (some zero) = true
is_off (some (suc m)) = false

abbrev pub window_ms : ℕ
window_ms = 60000

unfoldable pub is_over : ℕ → Hits → Bool
is_over now e = ltb e.reset_at now

-- The entry that a request counts in: `!e || now > e.resetAt` starts a new one.
unfoldable pub window : ℕ → Option Hits → Hits
unfolding is_over
window now none = record { count = 0; reset_at = now + window_ms }
window now (some e) = if is_over now e then record { count = 0; reset_at = now + window_ms } else e

abbrev pub counted : Hits → Hits
counted e = record e { count = e.count + 1 }

-- `Math.ceil((e.resetAt - now) / 1000)`; the entry is not over, so the difference is not negative.
abbrev pub retry_after : ℕ → Hits → ℕ
retry_after now e = (e.reset_at - now + 999) / 1000

unfoldable pub verdict : Limit → ℕ → Hits → Verdict
verdict none now e = passed
verdict (some m) now e = if ltb m e.count then refused (retry_after now e) else passed

unfoldable pub ask : Limit → Text → ℕ → Dict Hits → Verdict × Dict Hits
unfolding verdict window get set
ask limit key now hits =
    let e = counted (window now (get key hits)) in
    if is_off limit then (passed, hits) else (verdict limit now e, set key e hits)

-- The callback of `setInterval`, which is called only for a positive limit.
unfoldable pub prune : Limit → ℕ → Dict Hits → Dict Hits
unfolding keep_if is_over
prune none now hits = hits
prune (some zero) now hits = hits
prune (some (suc m)) now hits = keep_if (λ e. not (is_over now e)) hits

pub data Event : Type 0 where
  asks : Text → ℕ → Event
  prunes : ℕ → Event

-- The answers, in order, with the keys that asked.
unfoldable pub answers : Limit → List Event → Dict Hits → List (Text × Verdict)
unfolding ask prune
answers limit [] hits = []
answers limit (asks key now ∷ l) hits =
    let r = ask limit key now hits in (key, r.0) ∷ answers limit l r.1
answers limit (prunes now ∷ l) hits = answers limit l (prune limit now hits)
