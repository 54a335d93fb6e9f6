-- ===== src/Report/Html/Tests.antt =====
-- Details of several lines, and the theorem on them.
use mssql_data_api.Prelude.{◌≡◌, refl, [], ◌∷◌, ◌++◌, ◌==◌, any, if◌then◌else◌}
use mssql_data_api.Prelude.Text.{Text, codes, trim, trim_start, is_space}
use mssql_data_api.Safety.Guard.{split}
use mssql_data_api.Report.Html.{line, bullets, blocks_of, add_lines, flush, esc, esc_char, prose}
use mssql_data_api.Report.Html.Order.{shown_lines}
use mssql_data_api.Report.Html.Kept.{read, texts, prose-texts}

abbrev details : Text
details = codes "two:" ++ (10 ∷ codes "* a<b" ++ (10 ∷ (10 ∷ codes " * c " ++ (10 ∷ codes "end"))))

grouped :
    blocks_of details
    ≡ line (codes "two:") ∷ bullets (codes "a<b" ∷ codes "c" ∷ []) ∷ line (codes "end") ∷ []
unfolding blocks_of add_lines flush split trim trim_start is_space
grouped = refl

escaped : prose (codes "a<b & c") ≡ codes "a&lt;b &amp; c"
unfolding prose esc esc_char
escaped = refl

-- What is read of the text: the line that is blank and the stars are gone.
reads : texts (shown_lines (split 10 details)) ≡ codes "two:a<bcend"
unfolding shown_lines split trim trim_start is_space
reads = refl

prose-texts_example :
    read (prose details)
    ≡ (if any (λ c. c == 10) details then texts (shown_lines (split 10 details)) else details)
prose-texts_example = prose-texts details
