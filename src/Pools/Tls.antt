-- ===== src/Pools/Tls.antt =====
-- The TLS posture of services/dba-mcp/src/connectionManager.ts: `resolveCaFile`, the loading of the
-- bundle, `resolveTrustServerCert` and the override of the host name check. What the file system
-- answers is given.
use mssql_data_api.Prelude.{
  Bool, true, false, not, ◌&&◌, Option, none, some, List, [], ◌∷◌, any, if◌then◌else◌,
}
use mssql_data_api.Prelude.Text.{Text, eq_text, trim}

-- `ca_file` is SQL_CA_FILE, `relax` is whether SQL_CA_RELAX_HOSTNAME differs from "0", `bundled` the
-- path of the bundle beside the program if there is one, and `read` a file's contents, none where
-- reading throws.
pub record Posture : Type 0 where
  pub trust_all : Bool
  pub ca_file : Option Text
  pub relax : Bool
  pub bundled : Option Text
  pub read : Text → Option Text

abbrev pub nonempty : Option Text → Option Text
nonempty none = none
nonempty (some []) = none
nonempty (some (c ∷ s)) = some (c ∷ s)

abbrev pub trimmed : Option Text → Option Text
trimmed none = none
trimmed (some s) = nonempty (some (trim s))

abbrev pub or_bundled : Option Text → Option Text → Option Text
or_bundled (some f) b = some f
or_bundled none b = b

unfoldable pub resolve_ca_file : Posture → Option Text
resolve_ca_file p = if p.trust_all then none else or_bundled (trimmed p.ca_file) p.bundled

abbrev pub loaded : Posture → Option Text → Option Text
loaded p none = none
loaded p (some f) = nonempty (p.read f)

-- `CA_BUNDLE_PEM`; an empty file counts as none wherever the code tests it.
unfoldable pub ca_bundle_pem : Posture → Option Text
unfolding resolve_ca_file
ca_bundle_pem p = loaded p (resolve_ca_file p)

abbrev pub is_some : Option Text → Bool
is_some none = false
is_some (some s) = true

unfoldable pub relax_hostname : Posture → Bool
unfolding ca_bundle_pem
relax_hostname p = is_some (ca_bundle_pem p) && p.relax

-- The per-instance setting, if it is a boolean, wins.
unfoldable pub resolve_trust_server_cert : Posture → Option Bool → Bool
resolve_trust_server_cert p (some b) = b
resolve_trust_server_cert p none = p.trust_all

-- `tls.checkServerIdentity` after the override: none is no error. `lower` is `toLowerCase`.
unfoldable pub check_server_identity :
    (Text → Text) → List Text → (Text → Option Text) → Posture → Text → Option Text
unfolding relax_hostname
check_server_identity lower fleet orig p host =
    if relax_hostname p && any (λ h. not (eq_text h []) && eq_text (lower h) (lower host)) fleet
    then none
    else orig host
