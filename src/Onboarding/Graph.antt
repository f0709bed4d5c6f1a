-- ===== src/Onboarding/Graph.antt =====
-- packages/onboarding/src/rca_onboarding/activities.py: the nodes that `_project_to_kg_impl` sends to
-- the knowledge graph.
pub mod Edges
use Prim.Native.String.{◌++◌ as str_append}
use industrial_rca.Prelude.{
  String, Option, none, some, List, [], ◌∷◌, string_eq, str_eq, if◌then◌else◌,
}
use industrial_rca.Prelude.Dict.{Dict, get, put}
use industrial_rca.Kg.Slugs.{slug}
use industrial_rca.Onboarding.Rows.{DiscoveredHierarchyNode, Kind, site, area, unit}

unfoldable pub kind_name : Kind → String
kind_name site = "site"
kind_name area = "area"
kind_name unit = "unit"

-- `_KG_LABEL`.
unfoldable pub kg_label : Kind → String
kg_label site = "Site"
kg_label area = "Area"
kg_label unit = "Unit"

unfoldable pub mint_kg_id : Kind → String → String → String
unfolding kind_name
mint_kg_id site plant_id name = str_append "site:" (slug plant_id)
mint_kg_id kind plant_id name =
    str_append (kind_name kind)
      (str_append ":" (str_append (slug plant_id) (str_append ":" (slug name))))

-- A dictionary of the payload.
pub record KgNode : Type 0 where
  pub id : String
  pub label : String
  pub name : String
  pub plant_id : String
  pub parent_id : Option String

unfoldable pub minted_ids : List DiscoveredHierarchyNode → Dict String String → Dict String String
unfolding mint_kg_id
minted_ids [] minted = minted
minted_ids (node ∷ nodes) minted =
    minted_ids nodes (put node.vendor_id (mint_kg_id node.kind node.plant_id node.name) minted)

-- `minted.get(parent) if parent else None`.
unfoldable pub parent_of : Dict String String → Option String → Option String
parent_of minted none = none
parent_of minted (some parent) = if str_eq parent "" then none else get parent minted

-- The loop: `none` is the `KeyError` of `minted[node.vendor_id]`.
unfoldable pub kg_payload : Dict String String → List DiscoveredHierarchyNode → Option (List KgNode)
unfolding kg_label parent_of
kg_payload minted [] = some []
kg_payload minted (node ∷ nodes) = elim (get node.vendor_id minted) [
  | none ↦ none
  | some id ↦ elim (kg_payload minted nodes) [
    | none ↦ none
    | some rest ↦ some (
        record {
          id = id;
          label = kg_label node.kind;
          name = node.name;
          plant_id = node.plant_id;
          parent_id = parent_of minted node.parent_vendor_id;
        }
        ∷ rest)
  ]
]

-- The whole payload: `none` is the `KeyError` of `minted[node.vendor_id]`.
unfoldable pub hierarchy_payload : List DiscoveredHierarchyNode → Option (List KgNode)
unfolding minted_ids kg_payload
hierarchy_payload nodes = kg_payload (minted_ids nodes []) nodes
