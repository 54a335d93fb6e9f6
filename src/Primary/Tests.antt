-- ===== src/Primary/Tests.antt =====
-- A region of two nodes and a listener, and the theorem at it.
use mssql_data_api.Prelude.{◌≡◌, refl, false, Option, none, some, List, [], ◌∷◌, if◌then◌else◌}
use mssql_data_api.Prelude.Text.{Text, codes, eq_text}
use mssql_data_api.Primary.{
  Instance, candidates, Caches, cached_primary, resolve_region_primary, fresh,
}
use mssql_data_api.Primary.Resolved.{IsPrimary, IsEligible, resolve_region_primary-IsPrimary}

abbrev fleet : List Instance
fleet =
    record { name = codes "r1-nlb"; region = some (codes "r1"); is_witness = false }
    ∷ record { name = codes "r1-n1"; region = some (codes "r1"); is_witness = false }
    ∷ record { name = codes "r1-n2"; region = some (codes "r1"); is_witness = false }
    ∷ []

-- Every node reports N2 as the primary.
abbrev ag : Text → Option (Option Text)
ag n = some (some (codes "N2"))

abbrev server : Text → Option Text
server n = if eq_text n (codes "r1-n2") then some (codes "N2") else some (codes "N1")

abbrev same : Text → Text
same t = t

abbrev no_caches : Caches
no_caches = record { names = []; primaries = [] }

resolves :
    (resolve_region_primary same ag server fleet 60 5 6 (codes "r1") no_caches).0
    ≡ some (codes "r1-n2")
unfolding resolve_region_primary
resolves = refl

no_entry : fresh same ag server (cached_primary (codes "r1") []) 5 ≡ none
unfolding cached_primary
no_entry = refl

resolve_region_primary-IsPrimary_example :
    (i : IsPrimary same ag server
      (candidates (codes "r1") fleet)
      (candidates (codes "r1") fleet)
      (codes "r1-n2"))
    × IsEligible (codes "r1") i.reporter
    × IsEligible (codes "r1") i.node.node
resolve_region_primary-IsPrimary_example =
    resolve_region_primary-IsPrimary same ag server fleet 60 5 6 (codes "r1") no_caches
      (codes "r1-n2") tt no_entry resolves
