-- ===== src/Credentials/Silence.antt =====
-- When `readWindows` of services/dba-mcp/src/credentialStore.ts has no credential and says nothing.
use mssql_data_api.Prelude.{
  ℕ, arith, Bool, true, false, Option, none, some, ◌≡◌, refl, Bool-cases, inl, inr, ◌∷◌, [],
}
use mssql_data_api.Prelude.Text.{Text}
use mssql_data_api.Credentials.Store.{
  Os, win32, Helper, printed, threw, Fields, not_found, with_password, fields_lookup,
  windows_lookup, read_os_credential,
}

abbrev pub is_empty : Option Text → Bool
is_empty none = true
is_empty (some []) = true
is_empty (some (c ∷ s)) = false

-- The helper says so with its exit status 2, or has printed an entry without a password.
abbrev pub IsAbsent : (Text → Option Fields) → Helper → Type 0
IsAbsent parse (threw status killed) = (status ≡ some 2) × (killed ≡ false)
IsAbsent parse (printed out) = (f : Fields) × (parse out ≡ some f) × (is_empty f.password ≡ true)

-- On Windows, a lookup that gives no credential and logs nothing has an answer of the helper: it exited
-- with status 2, by itself and not on the time limit, or printed an entry without a password. A helper that
-- was killed, exited in any other way or printed what cannot be parsed is always logged.
pub silent-IsAbsent :
    (parse : Text → Option Fields) (os : Os) (target : Text)
    → (read_os_credential parse win32 os target).credential ≡ none
    → (read_os_credential parse win32 os target).logged ≡ false
    → IsAbsent parse (os.helper target)
unfolding read_os_credential windows_lookup not_found
silent-IsAbsent parse os target = go (os.helper target)
  where
    empty : (u p : Option Text) → with_password u p ≡ none → is_empty p ≡ true
    empty u none h = refl
    empty u (some []) h = refl
    empty u (some (c ∷ s)) h = cc h

    parsed :
        (o : Option Fields)
        → (fields_lookup o).credential ≡ none
        → (fields_lookup o).logged ≡ false
        → (f : Fields) × (o ≡ some f) × (is_empty f.password ≡ true)
    parsed none h k = cc k
    parsed (some f) h k = (f, refl, empty f.user f.password h)

    found :
        (status : Option ℕ) (killed : Bool)
        → not_found status killed ≡ true
        → (status ≡ some 2) × (killed ≡ false)
    found none killed e = cc e
    found (some n) killed e = ground (arith, e)

    go :
        (h : Helper)
        → (windows_lookup parse h).credential ≡ none
        → (windows_lookup parse h).logged ≡ false
        → IsAbsent parse h
    go (printed out) h k = parsed (parse out) h k
    go (threw status killed) h k = elim (Bool-cases (not_found status killed)) [
      | inl e ↦ found status killed e
      | inr e ↦ cc (rw e at k)
    ]
