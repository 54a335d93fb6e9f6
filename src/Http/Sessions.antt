-- ===== src/Http/Sessions.antt =====
-- The sessions of services/dba-mcp/src/index.ts: `transports` and the handlers of POST, GET and
-- DELETE /mcp. Transports are numbered as they are made. What the SDK's transport does is given
-- with the event: the id that it takes when it handles an initialize request (none where it
-- refuses the request) and the moment of its `onclose`, which its `close` calls at once.
use mssql_data_api.Prelude.{
  ℕ, ◌+◌, ◌==◌, Bool, true, false, Option, none, some, List, [], ◌∷◌, if◌then◌else◌,
}
use mssql_data_api.Prelude.Text.{Text}
use mssql_data_api.Prelude.Dict.{Dict, get, set, remove}

-- `session_ids` holds the ids that the transports have taken.
pub record Server : Type 0 where
  pub transports : Dict ℕ
  pub session_ids : ℕ → Option Text
  pub made : ℕ

pub data Response : Type 0 where
  handled_by : ℕ → Response
  bad_request : Response
  session_not_found : Response
  ended : Response

-- A header that is missing and one that is empty are alike.
abbrev pub header : Option Text → Option Text
header none = none
header (some []) = none
header (some (c ∷ s)) = some (c ∷ s)

abbrev pub find : Option Text → Dict ℕ → Option ℕ
find none l = none
find (some id) l = get id l

abbrev pub is_none : Option Text → Bool
is_none none = true
is_none (some s) = false

unfoldable pub take_id : ℕ → Option Text → (ℕ → Option Text) → ℕ → Option Text
take_id n id ids k = if k == n then id else ids k

-- `onsessioninitialized`
unfoldable pub initialized : ℕ → Option Text → Server → Server
unfolding take_id set
initialized n none s = s
initialized n (some id) s = record s {
  transports = set id n s.transports;
  session_ids = take_id n (some id) s.session_ids;
}

unfoldable pub open_session : Option Text → Server → Response × Server
unfolding initialized
open_session id s = (handled_by s.made, initialized s.made id (record s { made = s.made + 1 }))

unfoldable pub post_found : Option ℕ → Bool → Bool → Option Text → Server → Response × Server
unfolding open_session
post_found (some n) no_id is_initialize id s = (handled_by n, s)
post_found none true true id s = open_session id s
post_found none true false id s = (bad_request, s)
post_found none false is_initialize id s = (bad_request, s)

unfoldable pub post : Option Text → Bool → Option Text → Server → Response × Server
unfolding post_found get
post h is_initialize id s =
    post_found (find (header h) s.transports) (is_none (header h)) is_initialize id s

abbrev pub get_found : Option ℕ → Response
get_found none = session_not_found
get_found (some n) = handled_by n

unfoldable pub get_stream : Option Text → Server → Response × Server
unfolding get
get_stream h s = (get_found (find (header h) s.transports), s)

abbrev pub forget : Option Text → Server → Server
forget none s = s
forget (some []) s = s
forget (some (c ∷ id)) s = record s { transports = remove (c ∷ id) s.transports }

-- `transport.onclose`
unfoldable pub on_close : ℕ → Server → Server
unfolding remove
on_close n s = forget (s.session_ids n) s

abbrev pub delete_found : Option ℕ → Option Text → Server → Server
delete_found none h s = s
delete_found (some n) h s = forget h (on_close n s)

unfoldable pub delete_session : Option Text → Server → Response × Server
unfolding on_close get
delete_session h s = (ended, delete_found (find (header h) s.transports) h s)

pub data Event : Type 0 where
  posts : Option Text → Bool → Option Text → Event
  gets : Option Text → Event
  deletes : Option Text → Event
  closes : ℕ → Event

unfoldable pub step : Event → Server → Response × Server
unfolding post get_stream delete_session on_close
step (posts h is_initialize id) s = post h is_initialize id s
step (gets h) s = get_stream h s
step (deletes h) s = delete_session h s
step (closes n) s = (ended, on_close n s)

unfoldable pub run : List Event → Server → Server
unfolding step
run [] s = s
run (e ∷ l) s = run l (step e s).1

unfoldable pub init : Server
init = record { transports = []; session_ids = λ n. none; made = 0 }
