-- ===== src/Settings/Paths.antt =====
-- `parseHostDllWatchlist` and `hostDllProbe` of services/dba-mcp/src/dbatools.ts.
mod Keys
pub mod Probed
use mssql_data_api.Prelude.{
  ℕ, Bool, true, false, not, ◌&&◌, ◌||◌, ◌==◌, leb, ltb, Option, none, some, List, [], ◌∷◌, ◌++◌,
  map, if◌then◌else◌, length, any, take, ◌⊎◌, inl, inr,
}
use mssql_data_api.Prelude.Text.{Text, codes, eq_text, trim}
use mssql_data_api.Prelude.Json.{Json, Runtime, join}
use mssql_data_api.Safety.Lexer.Quoting.{double}
use mssql_data_api.Settings.{
  every, is_letter, is_blank, parsed, array_of, field_of, trimmed, concat_some,
}

pub record DllWatchEntry : Type 0 where
  pub path : Text
  pub label : Text

abbrev entry : Text → Text → DllWatchEntry
entry path label = record { path = path; label = label }

abbrev in_directory : Text → Text → List Text → List DllWatchEntry
in_directory dir label files = map (λ f. entry (dir ++ f) label) files

unfoldable pub base_host_dll_watchlist : List DllWatchEntry
base_host_dll_watchlist =
    (in_directory (codes "Windows\\System32\\") (codes "Windows core") (
        codes "ntdll.dll"
        ∷ codes "KERNELBASE.dll"
        ∷ codes "KERNEL32.DLL"
        ∷ codes "ucrtbase.dll"
        ∷ codes "bcrypt.dll"
        ∷ codes "bcryptPrimitives.dll"
        ∷ [])
      ++ in_directory (codes "Windows\\System32\\") (codes "VC++ runtime")
          (codes "vcruntime140.dll" ∷ codes "msvcp140.dll" ∷ []))
    ++ in_directory (codes "Program Files\\Microsoft SQL Server\\MSSQL*.MSSQLSERVER\\MSSQL\\Binn\\")
        (codes "SQL Server binary")
        (codes "sqlservr.exe"
          ∷ codes "sqldk.dll"
          ∷ codes "sqllang.dll"
          ∷ codes "sqlmin.dll"
          ∷ codes "sqltses.dll"
          ∷ [])

abbrev is_separator : ℕ → Bool
is_separator c = c == b'\\' || c == b'/'

-- `p.replace(/^[\\/]+/, "")`
unfoldable pub strip_separators : Text → Text
strip_separators [] = []
strip_separators (c ∷ s) = let rest = strip_separators s in if is_separator c then rest else c ∷ s

-- `/\.\./.test(p)`
unfoldable pub has_dots : Text → Bool
has_dots [] = false
has_dots (c ∷ []) = false
has_dots (c ∷ d ∷ s) = c == b'.' && d == b'.' || has_dots (d ∷ s)

-- `/^[A-Za-z]:/`, `/^[A-Za-z]:[\\/]/` and `/^\\\\/`.
abbrev pub has_drive : Text → Bool
has_drive (c ∷ d ∷ s) = is_letter c && d == b':'
has_drive _ = false

abbrev pub has_drive_root : Text → Bool
has_drive_root (c ∷ d ∷ e ∷ s) = is_letter c && d == b':' && is_separator e
has_drive_root _ = false

abbrev pub is_unc : Text → Bool
is_unc (c ∷ d ∷ s) = c == b'\\' && d == b'\\'
is_unc _ = false

-- Characters that no label has, and those that no path has.
abbrev pub is_printable : ℕ → Bool
is_printable c = ltb 0x1f c

abbrev is_path_char : ℕ → Bool
is_path_char c = is_printable c && not (c == b'\'') && not (c == b'"')

abbrev pub label_or : Text → Text
label_or [] = codes "site entry"
label_or (c ∷ s) = take 80 (c ∷ s)

-- Whether a path of the setting is accepted.
unfoldable pub is_watched_path : Text → Bool
unfolding has_dots
is_watched_path path =
    not (is_blank path)
    && leb (length path) 260
    && not (has_dots path)
    && not (has_drive path)
    && every is_path_char path

abbrev pub watch_entry : Text → Text → Option DllWatchEntry
watch_entry path label =
    if is_watched_path path && every is_printable label
    then some (record { path = path; label = label })
    else none

unfoldable pub watch_entries : List Json → List DllWatchEntry
unfolding field_of trimmed strip_separators is_watched_path
watch_entries [] = []
watch_entries (e ∷ l) =
    concat_some
      (watch_entry (strip_separators (trimmed (field_of (codes "path") e)))
        (label_or (trimmed (field_of (codes "label") e))))
      (watch_entries l)

unfoldable pub parse_host_dll_watchlist : Runtime → Option Text → List DllWatchEntry
unfolding parsed watch_entries
parse_host_dll_watchlist rt raw = watch_entries (array_of (parsed rt raw))

unfoldable pub host_dll_watchlist : Runtime → Option Text → List DllWatchEntry
unfolding base_host_dll_watchlist parse_host_dll_watchlist
host_dll_watchlist rt raw = base_host_dll_watchlist ++ parse_host_dll_watchlist rt raw

pub data Refusal : Type 0 where
  dots : Text → Refusal
  drive : Text → Refusal
  unc : Text → Refusal

abbrev pub caller_entry : Text → DllWatchEntry
caller_entry p = record { path = p; label = codes "caller-supplied" }

unfoldable pub user_path : Text → Refusal ⊎ Text
unfolding has_dots strip_separators
user_path p =
    if has_dots p
    then inl (dots p)
    else if has_drive_root p
    then inl (drive p)
    else if is_unc p
    then inl (unc p)
    else inr (strip_separators p)

abbrev pub add_path : Refusal ⊎ Text → Refusal ⊎ List Text → Refusal ⊎ List Text
add_path (inl e) r = inl e
add_path (inr p) (inl e) = inl e
add_path (inr p) (inr l) = inr (p ∷ l)

-- The exception is that of the first path that is refused.
unfoldable pub user_paths : List Text → Refusal ⊎ List Text
unfolding user_path
user_paths [] = inr []
user_paths (p ∷ l) = add_path (user_path p) (user_paths l)

-- The entries whose key was not seen before.
unfoldable pub first_of_each : (Text → Text) → List Text → List DllWatchEntry → List DllWatchEntry
first_of_each lower seen [] = []
first_of_each lower seen (e ∷ l) =
    let skip = first_of_each lower seen l in
    let keep = e ∷ first_of_each lower (lower e.path ∷ seen) l in
    if any (λ k. eq_text k (lower e.path)) seen then skip else keep

pub record Probe : Type 0 where
  pub paths : List Text
  pub ps_array : Text
  pub ps_labels : Text

-- `'${sq(s)}'`
unfoldable pub ps_literal : Text → Text
unfolding double
ps_literal s = (b'\'' ∷ double b'\'' s) ++ b'\'' ∷ []

unfoldable pub probe_of : List DllWatchEntry → Probe
unfolding ps_literal join
probe_of l = record {
  paths = map (λ e. e.path) l;
  ps_array = codes "@(" ++ join (codes ", ") (map (λ e. ps_literal e.path) l) ++ codes ")";
  ps_labels =
      codes "@{"
      ++ join (codes "; ") (map (λ e. ps_literal e.path ++ codes "=" ++ ps_literal e.label) l)
      ++ codes "}";
}

abbrev pub probe_from :
    Runtime → List DllWatchEntry → Refusal ⊎ List Text → Refusal ⊎ List DllWatchEntry
probe_from rt watched (inl e) = inl e
probe_from rt watched (inr l) = inr (first_of_each rt.lower [] (watched ++ map caller_entry l))

unfoldable pub probed :
    Runtime → Bool → List Text → List DllWatchEntry → Refusal ⊎ List DllWatchEntry
unfolding user_paths first_of_each
probed rt include_watchlist extra watchlist =
    probe_from rt (if include_watchlist then watchlist else []) (user_paths extra)

abbrev pub as_probe : Refusal ⊎ List DllWatchEntry → Refusal ⊎ Probe
as_probe (inl e) = inl e
as_probe (inr l) = inr (probe_of l)

unfoldable pub host_dll_probe : Runtime → Bool → List Text → List DllWatchEntry → Refusal ⊎ Probe
unfolding probed probe_of
host_dll_probe rt include_watchlist extra watchlist =
    as_probe (probed rt include_watchlist extra watchlist)
