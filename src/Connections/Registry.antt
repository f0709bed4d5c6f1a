-- ===== src/Connections/Registry.antt =====
-- packages/connections_api/src/rca_connections_api/registry.py. The probes that ask a connector's
-- server are a parameter; every other connector type gets a probe that reports a failure.
use Prim.Native.String.{◌++◌}
use industrial_rca.Prelude.{String, false, Option, none, some, []}
use industrial_rca.Mar.Rows.{TestConnectionResponse}

-- A probe of a base URL with the connection's extra configuration.
abbrev pub Probe : Type 0
Probe = String → Option String → TestConnectionResponse

unfoldable pub no_probe : String → Probe
no_probe connector_type base_url extra_config = record {
  success = false;
  checks = [];
  upstream_version = none;
  error_summary = some ("no test probe configured for connector_type '" ++ (connector_type ++ "'"));
}

-- `CONNECTOR_PROBES.get(connector_type) or _no_probe(connector_type)`.
unfoldable pub probe_for : (String → Option Probe) → String → Probe
unfolding no_probe
probe_for wired connector_type = elim (wired connector_type) [
  | some probe ↦ probe
  | none ↦ no_probe connector_type
]
