-- ===== src/Http/Tests.antt =====
-- The HTTP transport at concrete histories, and its theorems there.
use mssql_data_api.Prelude.{◌*◌, ◌≤◌, ◌≡◌, refl, arith, true, none, some, List, [], ◌∷◌}
use mssql_data_api.Prelude.Text.{Text, codes}
use mssql_data_api.Prelude.Dict.{Dict, set, keep_if, get}
use mssql_data_api.Http.Limiter.{
  Hits, Event, asks, prunes, answers, ask, prune, window, verdict, is_over, refused, passed,
}
use mssql_data_api.Http.Windows.{passes, Within, passes-bounded}
use mssql_data_api.Http.Retries.{of_key, alone, alone-same, retry-passes}
use mssql_data_api.Http.Sessions
use mssql_data_api.Http.Sessions.{
  posts, gets, deletes, run, init, step, handled_by, post, delete_session,
}
use mssql_data_api.Http.Routing.{header_of, handled-owned}

abbrev a : Text
a = codes "a"

abbrev b : Text
b = codes "b"

abbrev burst : List Event
burst = asks a 5 ∷ asks b 6 ∷ asks a 7 ∷ asks a 8 ∷ prunes 9 ∷ []

-- The third request of the key is one too many.
third_refused :
    answers (some 2) burst [] ≡ (a, passed) ∷ (b, passed) ∷ (a, passed) ∷ (a, refused 60) ∷ []
unfolding answers ask verdict window is_over set get prune keep_if
third_refused = refl

-- A number that is not positive turns the limit off.
unlimited : answers (some 0) (asks a 5 ∷ asks a 6 ∷ []) [] ≡ (a, passed) ∷ (a, passed) ∷ []
unfolding answers ask
unlimited = refl

burst-Within : Within 60000 burst
burst-Within = (
  omega arith,
  omega arith,
  (
    omega arith,
    omega arith,
    (omega arith, omega arith, (omega arith, omega arith, (omega arith, omega arith, tt))),
  ),
)

passes-bounded_example : passes a (answers (some 2) burst []) ≤ 2 * 2
passes-bounded_example = passes-bounded 1 60000 a burst [] tt burst-Within

abbrev full : Dict Hits
full = (a, record { count = 2; reset_at = 60005 }) ∷ []

full_refuses : (ask (some 2) a 8 full).0 ≡ refused 60
unfolding ask verdict window is_over get
full_refuses = refl

retry-passes_example : (ask (some 2) a 60009 (ask (some 2) a 8 full).1).0 ≡ passed
retry-passes_example = retry-passes 1 8 60009 60 a full full_refuses (omega arith)

alone-same_example :
    of_key a (answers (some 2) (alone a burst) []) ≡ of_key a (answers (some 2) burst [])
alone-same_example = alone-same (some 2) a burst [] tt

abbrev opened : List Sessions.Event
opened = posts none true (some a) ∷ posts none true (some b) ∷ []

found_second : (step (gets (some b)) (run opened init)).0 ≡ handled_by 1
unfolding step run init set get post
found_second = refl

handled-owned_example : (run opened init).session_ids 1 ≡ some b
unfolding header_of
handled-owned_example = handled-owned opened (gets (some b)) b 1 refl found_second
