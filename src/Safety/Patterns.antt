-- ===== src/Safety/Patterns.antt =====
-- The pattern lists of services/dba-mcp/src/safety.ts, each entry with its label. `(A|B)` between
-- two `\b` is `keyword`, and `EXEC(UTE)?` is written as the two words it stands for.
use mssql_data_api.Prelude.{ℕ, String, Bool, ◌||◌, not, List, [], ◌∷◌, ◌==◌}
use mssql_data_api.Prelude.Text.{is_word, is_space, is_digit, is_upper, is_lower}
use mssql_data_api.Prelude.Regex.{
  Regex, many, one, ◌⋆◌, ◌∣∣◌, boundary, start, word, one_of, keyword, some_of, optional,
  not_followed_by,
}

abbrev pub spaces : Regex
spaces = some_of is_space

abbrev pub maybe_spaces : Regex
maybe_spaces = many is_space

-- `.` with no `s` flag, and `[\s\S]`.
abbrev any_char : ℕ → Bool
any_char c = Bool.true

-- `^\s*(A|B|…)\b`
unfoldable pub begins_with : List String → Regex
unfolding keyword is_space
begins_with l = start ⋆ maybe_spaces ⋆ one_of l ⋆ boundary

abbrev pub read_starts : List String
read_starts = "SELECT" ∷ "WITH" ∷ "DECLARE" ∷ []

abbrev pub write_starts : List String
write_starts =
    "SELECT" ∷ "WITH" ∷ "DECLARE" ∷ "INSERT" ∷ "UPDATE" ∷ "DELETE" ∷ "MERGE" ∷ "EXEC" ∷ "EXECUTE"
    ∷ []

-- `A\s+B` between word boundaries.
abbrev pub two_words : String → List String → Regex
two_words a l = boundary ⋆ word a ⋆ spaces ⋆ one_of l ⋆ boundary

-- `;\s*(A|B|…)\b`
abbrev pub second_statement : List String → Regex
second_statement l = one (λ c. c == b';') ⋆ maybe_spaces ⋆ one_of l ⋆ boundary

-- `\bX\w+`
abbrev pub word_with_more : String → Regex
word_with_more a = boundary ⋆ word a ⋆ some_of is_word

abbrev not_at_or_hash : ℕ → Bool
not_at_or_hash c = not (c == b'@' || c == b'#')

abbrev is_name_char : ℕ → Bool
is_name_char c = is_upper c || is_lower c || c == b'_'

unfoldable pub read_blocked : List (Regex × String)
unfolding keyword is_space
read_blocked =
    (keyword ("INSERT" ∷ []), "INSERT")
    ∷ (boundary ⋆ word "UPDATE" ⋆ spaces ⋆ one is_word, "UPDATE")
    ∷ (boundary ⋆ word "DELETE" ⋆ spaces ⋆ (word "FROM" ∣∣ word "TOP" ∣∣ one is_word), "DELETE")
    ∷ (boundary ⋆ word "MERGE" ⋆ spaces ⋆ optional (word "INTO" ⋆ spaces) ⋆ one is_word, "MERGE")
    ∷ (two_words "TRUNCATE" ("TABLE" ∷ []), "TRUNCATE")
    ∷ (
      boundary
          ⋆ word "SELECT"
          ⋆ boundary
          ⋆ many any_char
          ⋆ boundary
          ⋆ word "INTO"
          ⋆ spaces
          ⋆ one not_at_or_hash,
      "SELECT ... INTO (permanent table; #temp / @table only)",
    )
    ∷ (two_words "BULK" ("INSERT" ∷ []), "BULK INSERT")
    ∷ (keyword ("CREATE" ∷ "ALTER" ∷ "DROP" ∷ []), "CREATE/ALTER/DROP — not a read")
    ∷ (two_words "ALTER" ("ANY" ∷ []), "ALTER ANY")
    ∷ (keyword ("GRANT" ∷ "REVOKE" ∷ "DENY" ∷ []), "GRANT/REVOKE/DENY")
    ∷ (two_words "BACKUP" ("DATABASE" ∷ "LOG" ∷ "CERTIFICATE" ∷ []), "BACKUP")
    ∷ (
      two_words "RESTORE" ("DATABASE" ∷ "LOG" ∷ "VERIFYONLY" ∷ "HEADERONLY" ∷ "FILELISTONLY" ∷ []),
      "RESTORE",
    )
    ∷ (keyword ("RECONFIGURE" ∷ []), "RECONFIGURE")
    ∷ (keyword ("SP_CONFIGURE" ∷ []), "sp_configure")
    ∷ (keyword ("SHUTDOWN" ∷ []), "SHUTDOWN")
    ∷ (keyword ("KILL" ∷ []), "KILL")
    ∷ (keyword ("CHECKPOINT" ∷ []), "CHECKPOINT (forces dirty pages to disk)")
    ∷ (keyword ("RAISERROR" ∷ []), "RAISERROR")
    ∷ (
      boundary
          ⋆ one_of ("BEGIN" ∷ "COMMIT" ∷ "ROLLBACK" ∷ [])
          ⋆ spaces
          ⋆ word "TRAN"
          ⋆ optional (word "SACTION")
          ⋆ boundary,
      "explicit transaction control",
    )
    ∷ (
      boundary ⋆ word "SEND" ⋆ spaces ⋆ word "ON" ⋆ spaces ⋆ word "CONVERSATION" ⋆ boundary,
      "Service Broker SEND",
    )
    ∷ (two_words "BEGIN" ("DIALOG" ∷ []), "Service Broker BEGIN DIALOG")
    ∷ (two_words "SET" ("CONTEXT_INFO" ∷ []), "SET CONTEXT_INFO")
    ∷ (two_words "SET" ("ROWCOUNT" ∷ []), "SET ROWCOUNT (the server sets the row cap)")
    ∷ (keyword ("DBCC" ∷ []), "DBCC")
    ∷ (keyword ("WAITFOR" ∷ []), "WAITFOR (would pin a connection)")
    ∷ (keyword ("RESTORE" ∷ []), "RESTORE")
    ∷ (keyword ("XP_CMDSHELL" ∷ []), "xp_cmdshell")
    ∷ (word_with_more "XP_", "xp_ extended procedure")
    ∷ (word_with_more "SP_OA", "sp_OA* OLE automation")
    ∷ (word_with_more "SP_ADD", "sp_add* (agent/job/operator)")
    ∷ (keyword ("SP_EXECUTESQL" ∷ []), "sp_executesql (dynamic SQL)")
    ∷ (keyword ("OPENROWSET" ∷ []), "OPENROWSET")
    ∷ (keyword ("OPENDATASOURCE" ∷ []), "OPENDATASOURCE")
    ∷ (keyword ("OPENQUERY" ∷ []), "OPENQUERY")
    ∷ (
      second_statement (
          "EXEC" ∷ "EXECUTE" ∷ "INSERT" ∷ "UPDATE" ∷ "DELETE" ∷ "MERGE" ∷ "CREATE" ∷ "ALTER"
          ∷ "DROP" ∷ "GRANT" ∷ "REVOKE" ∷ "DENY" ∷ "BACKUP" ∷ "RESTORE" ∷ "TRUNCATE" ∷ []),
      "second statement after ';'",
    )
    ∷ (
      keyword ("EXEC" ∷ "EXECUTE" ∷ []),
      "EXEC / EXECUTE — not a read; use the built-in tool for that procedure",
    )
    ∷ []

unfoldable pub write_blocked : List (Regex × String)
unfolding keyword is_space
write_blocked =
    (keyword ("CREATE" ∷ "ALTER" ∷ "DROP" ∷ []), "DDL (CREATE/ALTER/DROP) is not allowed")
    ∷ (two_words "ALTER" ("ANY" ∷ []), "ALTER ANY")
    ∷ (two_words "TRUNCATE" ("TABLE" ∷ []), "TRUNCATE (use DELETE … WHERE)")
    ∷ (keyword ("GRANT" ∷ "REVOKE" ∷ "DENY" ∷ []), "GRANT/REVOKE/DENY")
    ∷ (
      boundary
          ⋆ word "SP_"
          ⋆ one_of ("ADD" ∷ "DROP" ∷ [])
          ⋆ optional (word "SRV")
          ⋆ word "ROLEMEMBER"
          ⋆ boundary,
      "role membership change",
    )
    ∷ (
      boundary ⋆ word "SP_" ⋆ one_of ("ADD" ∷ "DROP" ∷ []) ⋆ word "ROLE" ⋆ boundary,
      "role create/drop",
    )
    ∷ (
      boundary ⋆ word "SP_" ⋆ one_of ("ADD" ∷ "DROP" ∷ []) ⋆ word "LOGIN" ⋆ boundary,
      "login create/drop",
    )
    ∷ (keyword ("SP_PASSWORD" ∷ []), "sp_password")
    ∷ (two_words "ADD" ("MEMBER" ∷ []), "ALTER ROLE … ADD MEMBER")
    ∷ (keyword ("RECONFIGURE" ∷ []), "RECONFIGURE")
    ∷ (keyword ("SP_CONFIGURE" ∷ []), "sp_configure")
    ∷ (keyword ("SHUTDOWN" ∷ []), "SHUTDOWN")
    ∷ (
      boundary ⋆ word "KILL" ⋆ boundary ⋆ spaces ⋆ one is_digit ∣∣ two_words "KILL" ("UOW" ∷ []),
      "KILL",
    )
    ∷ (keyword ("DBCC" ∷ []), "DBCC")
    ∷ (keyword ("WAITFOR" ∷ []), "WAITFOR")
    ∷ (two_words "BACKUP" ("DATABASE" ∷ "LOG" ∷ "CERTIFICATE" ∷ []), "BACKUP")
    ∷ (keyword ("RESTORE" ∷ []), "RESTORE")
    ∷ (keyword ("MSDB" ∷ []), "msdb (backups / SQL Agent jobs) is off-limits to writes")
    ∷ (
      boundary ⋆ word "SP_" ⋆ many is_name_char ⋆ word "JOB" ⋆ many is_word,
      "SQL Agent job procedure",
    )
    ∷ (
      boundary ⋆ word "SP_" ⋆ many is_name_char ⋆ word "SCHEDULE" ⋆ many is_word,
      "SQL Agent schedule procedure",
    )
    ∷ (keyword ("SP_ADD_OPERATOR" ∷ []), "sp_add_operator")
    ∷ (keyword ("SP_EXECUTESQL" ∷ []), "sp_executesql (dynamic SQL)")
    ∷ (
      boundary ⋆ one_of ("EXEC" ∷ "EXECUTE" ∷ []) ⋆ maybe_spaces ⋆ one (λ c. c == b'('),
      "dynamic EXEC()",
    )
    ∷ (word_with_more "XP_", "xp_ extended procedure")
    ∷ (word_with_more "SP_OA", "sp_OA* OLE automation")
    ∷ (word_with_more "SP_ADDLINKED", "linked server procedure")
    ∷ (keyword ("OPENROWSET" ∷ []), "OPENROWSET")
    ∷ (keyword ("OPENDATASOURCE" ∷ []), "OPENDATASOURCE")
    ∷ (keyword ("OPENQUERY" ∷ []), "OPENQUERY")
    ∷ (
      second_statement (
          "CREATE" ∷ "ALTER" ∷ "DROP" ∷ "GRANT" ∷ "REVOKE" ∷ "DENY" ∷ "BACKUP" ∷ "RESTORE"
          ∷ "SHUTDOWN" ∷ "DBCC" ∷ "TRUNCATE" ∷ "RECONFIGURE" ∷ []),
      "forbidden statement after ';'",
    )
    ∷ []

-- `\r(?!\n)`
unfoldable pub bare_cr : Regex
bare_cr = one (λ c. c == 13) ⋆ not_followed_by (λ c. c == 10)

abbrev is_target_char : ℕ → Bool
is_target_char c = is_word c || c == b'.' || c == b'[' || c == b']'

-- `\bUPDATE\s+[\w.\[\]]+\s+SET\b` and `\bDELETE\s+(FROM\s+)?[\w.\[\]]+`
unfoldable pub update_set : Regex
unfolding keyword is_space
update_set =
    boundary ⋆ word "UPDATE" ⋆ spaces ⋆ some_of is_target_char ⋆ spaces ⋆ word "SET" ⋆ boundary

unfoldable pub delete_from : Regex
unfolding keyword is_space
delete_from =
    boundary ⋆ word "DELETE" ⋆ spaces ⋆ optional (word "FROM" ⋆ spaces) ⋆ some_of is_target_char
