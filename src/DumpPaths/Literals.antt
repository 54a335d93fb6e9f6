-- ===== src/DumpPaths/Literals.antt =====
-- The common table expression of services/dba-mcp/src/dumpPaths.ts, as the lexer of the guard reads it.
use mssql_data_api.Prelude.{◌≡◌, refl, ap, sym, ◌∙◌, Option, List, [], ◌∷◌, ◌++◌, map, append_assoc}
use mssql_data_api.Prelude.Text.{Text, codes}
use mssql_data_api.Safety.Guard.{split}
use mssql_data_api.Safety.Lexer.{quote, strip_noise}
use mssql_data_api.Safety.Lexer.Quoting.{double}
use mssql_data_api.Safety.Lexer.Templates.{
  Template, quoted, render, skeleton, IsCode, HasCode, strip_noise-render,
}
use mssql_data_api.DumpPaths.{
  literal, union_before, extra_unions, own_candidates, candidates_end, build_dump_dir_cte,
  extra_dump_dir_literals, directories, or_blank,
}

abbrev before_literal : Text
before_literal = codes " UNION ALL SELECT N"

-- The candidates of the site as code and values, behind some code.
site_template : Text → List Text → Template
site_template before [] = []
site_template before (d ∷ l) = (before ++ before_literal, d) ∷ site_template (codes ",3") l

literal-quoted : (d : Text) → literal d ≡ codes "N" ++ quoted d
unfolding literal
literal-quoted d = refl

-- One candidate of the site, regrouped.
regroup :
    (b u n q t r e : Text)
    → b ++ ((((u ++ (n ++ q)) ++ t) ++ r) ++ e) ≡ (b ++ (u ++ n)) ++ (q ++ (t ++ (r ++ e)))
regroup b u n q t r e = simp append_assoc

module _ (last : Text) where
  site_end : Text → List Text → Text
  site_end before [] = before ++ last
  site_end before (d ∷ l) = site_end (codes ",3") l

  site_render :
      (before : Text) (dirs : List Text)
      → before ++ (extra_unions (map literal dirs) ++ last)
        ≡ render (site_template before dirs) (site_end before dirs)
  unfolding extra_unions site_template site_end render
  site_render before [] = refl
  site_render before (d ∷ l) =
      ap
        (λ t.
          before ++ ((((union_before ++ t) ++ codes ",3") ++ extra_unions (map literal l)) ++ last))
        (literal-quoted d)
      ∙ regroup before union_before (codes "N") (quoted d) (codes ",3")
          (extra_unions (map literal l)) last
      ∙ ap (λ t. (before ++ before_literal) ++ (quoted d ++ t)) (site_render (codes ",3") l)

own_template : Template
own_template =
    (codes ";WITH cand(dir,pref) AS (SELECT @errDir,0 UNION ALL SELECT @mssql+N", codes "\\Log")
    ∷ (codes ",1 UNION ALL SELECT f.full_filesystem_path+N", codes "\\MSSQL\\Log")
    ∷ (codes ",2 FROM sys.dm_os_enumerate_filesystem(@root,", codes "MSSQL*")
    ∷ (
      codes
          ") f WHERE f.is_directory=1 AND LEN(f.full_filesystem_path)-LEN(REPLACE(f.full_filesystem_path,",
      codes "\\",
    )
    ∷ (codes ",", [])
    ∷ (codes "))=LEN(@root)-LEN(REPLACE(@root,", codes "\\")
    ∷ (codes ",", [])
    ∷ []

abbrev own_end : Text
own_end = codes "))+1"

own_render : own_candidates ≡ render own_template own_end
unfolding own_candidates own_template render double
own_render = refl

render-append : (l : Template) (last r : Text) → render l last ++ r ≡ render l (last ++ r)
unfolding render
render-append [] last r = refl
render-append ((code, v) ∷ l) last r =
    append_assoc code (quoted v ++ render l last) r
    ∙ ap (λ t. code ++ t)
        (append_assoc (quoted v) (render l last) r
          ∙ ap (λ t. quoted v ++ t) (render-append l last r))

render_twice : (l m : Template) (last : Text) → render l (render m last) ≡ render (l ++ m) last
unfolding render
render_twice [] m last = refl
render_twice ((code, v) ∷ l) m last = ap (λ t. code ++ (quoted v ++ t)) (render_twice l m last)

dump_template : List Text → Template
dump_template dirs = own_template ++ site_template own_end dirs

dump_end : List Text → Text
unfolding candidates_end
dump_end dirs = site_end candidates_end own_end dirs

dump_render :
    (dirs : List Text)
    → build_dump_dir_cte (map literal dirs) ≡ render (dump_template dirs) (dump_end dirs)
unfolding build_dump_dir_cte dump_template dump_end
dump_render dirs =
    append_assoc own_candidates (extra_unions (map literal dirs)) candidates_end
    ∙ ap (λ t. t ++ (extra_unions (map literal dirs) ++ candidates_end)) own_render
    ∙ render-append own_template own_end (extra_unions (map literal dirs) ++ candidates_end)
    ∙ ap (render own_template) (site_render candidates_end own_end dirs)
    ∙ render_twice own_template (site_template own_end dirs) (site_end candidates_end own_end dirs)

site-HasCode :
    (before : Text) (dirs : List Text)
    → IsCode (before ++ before_literal)
    → HasCode (site_template before dirs)
unfolding site_template
site-HasCode before [] h = tt
site-HasCode before (d ∷ l) h = (h, site-HasCode (codes ",3") l refl)

dump-HasCode : (dirs : List Text) → HasCode (dump_template dirs)
unfolding dump_template own_template
dump-HasCode dirs =
    (refl, (refl, (refl, (refl, (refl, (refl, (refl, site-HasCode own_end dirs refl)))))))

site_end-IsCode :
    (before : Text) (dirs : List Text)
    → IsCode (before ++ candidates_end)
    → IsCode (site_end candidates_end before dirs)
unfolding site_end candidates_end
site_end-IsCode before [] h = h
site_end-IsCode before (d ∷ l) h = site_end-IsCode (codes ",3") l refl

dump_end-IsCode : (dirs : List Text) → IsCode (dump_end dirs)
unfolding dump_end candidates_end
dump_end-IsCode dirs = site_end-IsCode own_end dirs refl

strip_noise-dump :
    (dirs : List Text) (x : Text)
    → strip_noise (build_dump_dir_cte (map literal dirs) ++ x)
      ≡ skeleton (dump_template dirs) (dump_end dirs) ++ strip_noise x
strip_noise-dump dirs x =
    ap (λ t. strip_noise (t ++ x)) (dump_render dirs)
    ∙ strip_noise-render (dump_template dirs) (dump_end dirs) x (dump-HasCode dirs)
        (dump_end-IsCode dirs)

-- A directory without a character in the place of each.
abbrev blanks : List Text → List Text
blanks l = map (λ d. []) l

skeleton_twice :
    (l m : Template) (last : Text) → skeleton (l ++ m) last ≡ skeleton l (skeleton m last)
unfolding skeleton
skeleton_twice [] m last = refl
skeleton_twice ((code, v) ∷ l) m last =
    ap (λ t. code ++ (quote ∷ quote ∷ t)) (skeleton_twice l m last)

site_skeleton :
    (last before : Text) (dirs : List Text)
    → skeleton (site_template before dirs) (site_end last before dirs)
      ≡ skeleton (site_template before (blanks dirs)) (site_end last before (blanks dirs))
unfolding site_template site_end skeleton
site_skeleton last before [] = refl
site_skeleton last before (d ∷ l) =
    ap (λ t. (before ++ before_literal) ++ (quote ∷ quote ∷ t)) (site_skeleton last (codes ",3") l)

dump_skeleton :
    (dirs : List Text)
    → skeleton (dump_template dirs) (dump_end dirs)
      ≡ skeleton (dump_template (blanks dirs)) (dump_end (blanks dirs))
unfolding dump_template dump_end
dump_skeleton dirs =
    skeleton_twice own_template (site_template own_end dirs) (dump_end dirs)
    ∙ ap (skeleton own_template) (site_skeleton candidates_end own_end dirs)
    ∙ sym
        (skeleton_twice own_template (site_template own_end (blanks dirs)) (dump_end (blanks dirs)))

map-blanks : (l : List Text) → map (λ d. literal []) l ≡ map literal (blanks l)
map-blanks [] = refl
map-blanks (d ∷ l) = ap (λ t. literal [] ∷ t) (map-blanks l)

-- However SQL_EXTRA_DUMP_DIRS is set, the code that the lexer reads in the common table expression, and
-- in what follows it, is that for as many directories without a character: no directory ends its literal
-- or adds code.
pub build_dump_dir_cte-literals :
    (raw : Option Text) (x : Text)
    → let dirs = directories (split b';' (or_blank raw)) in
      strip_noise (build_dump_dir_cte (extra_dump_dir_literals raw) ++ x)
      ≡ strip_noise (build_dump_dir_cte (map (λ d. literal []) dirs) ++ x)
unfolding extra_dump_dir_literals
build_dump_dir_cte-literals raw x =
    let dirs = directories (split b';' (or_blank raw)) in
    strip_noise-dump dirs x
    ∙ ap (λ t. t ++ strip_noise x) (dump_skeleton dirs)
    ∙ sym (strip_noise-dump (blanks dirs) x)
    ∙ ap (λ l. strip_noise (build_dump_dir_cte l ++ x)) (sym (map-blanks dirs))
