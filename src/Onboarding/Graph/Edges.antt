-- ===== src/Onboarding/Graph/Edges.antt =====
-- packages/onboarding/src/rca_onboarding/activities.py: the payload of `_project_to_kg_impl` is closed
-- under the edges to a parent.
use industrial_rca.Prelude.{
  String, ◌≡◌, refl, subst, ap, ◌∙◌, Option, none, some, List, [], ◌∷◌, length, All, Any, map-All,
  ◌⊎◌, inl, inr, Bool-cases, string_eq, str_eq, some_unique, suc, eq_iff,
}
use industrial_rca.Prelude.Dict.{Has, put-Has, Dict, get, get-put_self, get-put_cases}
use industrial_rca.Onboarding.Rows.{DiscoveredHierarchyNode, Kind, site, area, unit}
use industrial_rca.Kg.Slugs.{slug}
use Prim.Native.String.{◌++◌ as str_append}
use industrial_rca.Onboarding.Graph.{
  kind_name, mint_kg_id, KgNode, kg_label, minted_ids, parent_of, kg_payload, hierarchy_payload,
}

abbrev Node : Type 0
Node = DiscoveredHierarchyNode

minted_keeps :
    (k : String) (nodes : List Node) (d : Dict String String) → Has k d → Has k (minted_ids nodes d)
unfolding minted_ids
minted_keeps k [] d h = h
minted_keeps k (n ∷ nodes) d h = minted_keeps k nodes _ (put-Has n.vendor_id k _ d h)

minted-Has :
    (nodes : List Node) (d : Dict String String)
    → All (λ n. Has n.vendor_id (minted_ids nodes d)) nodes
unfolding minted_ids
minted-Has [] d = tt
minted-Has (n ∷ nodes) d =
    (minted_keeps n.vendor_id nodes _ (_, get-put_self n.vendor_id _ d), minted-Has nodes _)

-- The id of a node, by its kind.
abbrev pub SpellsId : Node → String → Type 0
SpellsId n i =
    ((n.kind ≡ site) × (i ≡ str_append "site:" (slug n.plant_id)))
    ⊎ ((n.kind ≡ area)
        × (i
            ≡ str_append "area"
                (str_append ":" (str_append (slug n.plant_id) (str_append ":" (slug n.name))))))
    ⊎ ((n.kind ≡ unit)
        × (i
            ≡ str_append "unit"
                (str_append ":" (str_append (slug n.plant_id) (str_append ":" (slug n.name))))))

mint-SpellsId : (n : Node) → SpellsId n (mint_kg_id n.kind n.plant_id n.name)
unfolding mint_kg_id kind_name
mint-SpellsId n = by n.kind refl
  where
    by : (k : Kind) → n.kind ≡ k → SpellsId n (mint_kg_id n.kind n.plant_id n.name)
    by site e = inl (e, ap (λ x. mint_kg_id x n.plant_id n.name) e)
    by area e = inr (inl (e, ap (λ x. mint_kg_id x n.plant_id n.name) e))
    by unit e = inr (inr (e, ap (λ x. mint_kg_id x n.plant_id n.name) e))

-- An id that is held for a vendor's id is that of a crawled node with it.
abbrev pub IsIdIn : List Node → String → String → Type 0
IsIdIn nodes vendor_id i = Any (λ n. (n.vendor_id ≡ vendor_id) × SpellsId n i) nodes

minted_from :
    (k v : String) (nodes : List Node) (d : Dict String String)
    → get k (minted_ids nodes d) ≡ some v
    → IsIdIn nodes k v ⊎ (get k d ≡ some v)
unfolding minted_ids
minted_from k v [] d h = inr h
minted_from k v (n ∷ nodes) d h = elim (minted_from k v nodes _ h) [
  | inl a ↦ inl (inr a)
  | inr at ↦ elim (get-put_cases n.vendor_id k _ d at) [
    | inl (q, same) ↦ inl (inl (q, subst (SpellsId n) same (mint-SpellsId n)))
    | inr (_, old) ↦ inr old
  ]
]

minted-IsIdIn :
    (k v : String) (nodes : List Node) → get k (minted_ids nodes []) ≡ some v → IsIdIn nodes k v
unfolding get
minted-IsIdIn k v nodes h = elim (minted_from k v nodes [] h) [
  | inl a ↦ a
  | inr e ↦ absurd (let c : ⊥ = cc in c)
]

abbrev pub IsLabelOf : Kind → String → Type 0
IsLabelOf site l = l ≡ "Site"
IsLabelOf area l = l ≡ "Area"
IsLabelOf unit l = l ≡ "Unit"

-- The parent's id, by the vendor's id that a node names: there is none where it names none, an empty one,
-- or one that was not crawled.
abbrev pub IsPlaced : List Node → Option String → Option String → Type 0
IsPlaced nodes none p = p ≡ none
IsPlaced nodes (some v) (some i) = IsIdIn nodes v i
IsPlaced nodes (some v) none = (v ≡ "") ⊎ ¬ Any (λ k. k.vendor_id ≡ v) nodes

-- What the payload says of a crawled node: its name, its plant and its label, the id of a crawled node
-- with its vendor's id, and as its parent the id of one with the vendor's id of its parent, if there is
-- one.
pub record IsNodeOf (nodes : List Node) (n : Node) (m : KgNode) : Type 0 where
  pub same_name : m.name ≡ n.name
  pub same_plant : m.plant_id ≡ n.plant_id
  pub labelled : IsLabelOf n.kind m.label
  pub own_id : IsIdIn nodes n.vendor_id m.id
  pub placed : IsPlaced nodes n.parent_vendor_id m.parent_id

-- One list stands for the other, element by element.
abbrev pub Pairs : {A B : Type 0} → (A → B → Type 0) → List A → List B → Type 0
Pairs R [] [] = Unit
Pairs R (x ∷ xs) (y ∷ ys) = R x y × Pairs R xs ys
Pairs R _ _ = ⊥

vendor_in : (k i : String) (nodes : List Node) → IsIdIn nodes k i → Any (λ n. n.vendor_id ≡ k) nodes
vendor_in k i [] a = absurd a.lower
vendor_in k i (n ∷ nodes) (inl h) = inl h.0
vendor_in k i (n ∷ nodes) (inr h) = inr (vendor_in k i nodes h)

vendor_held :
    (d : Dict String String) (v : String) (nodes : List Node)
    → All (λ n. Has n.vendor_id d) nodes
    → Any (λ n. n.vendor_id ≡ v) nodes
    → Has v d
vendor_held d v [] h a = absurd a.lower
vendor_held d v (n ∷ nodes) (h, hs) (inl e) = subst (λ k. Has k d) e h
vendor_held d v (n ∷ nodes) (h, hs) (inr a) = vendor_held d v nodes hs a

parent_minted :
    (minted : Dict String String) (o : Option String) (p : String)
    → parent_of minted o ≡ some p
    → (k : String) × (get k minted ≡ some p)
unfolding parent_of
parent_minted minted none p h = cc
parent_minted minted (some k) p h = elim (Bool-cases (str_eq k "")) [
  | inl y ↦ let c : none ≡ some p = rw y at h in cc
  | inr n ↦ (k, rw n at h)
]

label-IsLabelOf : (k : Kind) → IsLabelOf k (kg_label k)
unfolding kg_label
label-IsLabelOf site = refl
label-IsLabelOf area = refl
label-IsLabelOf unit = refl

module _ (all : List Node) where
  abbrev minted : Dict String String
  minted = minted_ids all []

  record Built (nodes : List Node) : Type 0 where
    pub payload : List KgNode
    pub returns : kg_payload minted nodes ≡ some payload
    pub as_many : length payload ≡ length nodes
    pub ids :
        (k v : String)
        → Any (λ n. n.vendor_id ≡ k) nodes
        → get k minted ≡ some v
        → Any (λ m. m.id ≡ v) payload
    pub parents :
        All
          (λ m. (p : String) → m.parent_id ≡ some p → (k : String) × (get k minted ≡ some p))
          payload
    pub stands : Pairs (IsNodeOf all) nodes payload

  abbrev node_of : Node → String → KgNode
  node_of n i = record {
    id = i;
    label = kg_label n.kind;
    name = n.name;
    plant_id = n.plant_id;
    parent_id = parent_of minted n.parent_vendor_id;
  }

  parent-IsPlaced : (o : Option String) → IsPlaced all o (parent_of minted o)
  unfolding parent_of
  parent-IsPlaced none = refl
  parent-IsPlaced (some v) = elim (Bool-cases (str_eq v "")) [
    | inl y ↦ rw (y) (inl ((eq_iff v "").0 y))
    | inr n ↦ rw (n) (held (get v minted) refl)
  ]
    where
      held : (o : Option String) → get v minted ≡ o → IsPlaced all (some v) o
      held (some i) e = minted-IsIdIn v i all e
      held none e =
          inr (λ a.
            let (i, at) = vendor_held minted v all (minted-Has all []) a in let b : ⊥ = cc in b)

  node_of-IsNodeOf :
      (n : Node) (i : String) → get n.vendor_id minted ≡ some i → IsNodeOf all n (node_of n i)
  node_of-IsNodeOf n i at = record {
    same_name = refl;
    same_plant = refl;
    labelled = label-IsLabelOf n.kind;
    own_id = minted-IsIdIn n.vendor_id i all at;
    placed = parent-IsPlaced n.parent_vendor_id;
  }

  payload_of : (nodes : List Node) → All (λ n. Has n.vendor_id minted) nodes → Built nodes
  unfolding kg_payload
  payload_of [] h = record {
    payload = [];
    returns = refl;
    as_many = refl;
    ids = λ k v a. absurd a.lower;
    parents = tt;
    stands = tt;
  }
  payload_of (n ∷ nodes) ((i, at), h) =
      let rest = payload_of nodes h in
      record {
        payload = node_of n i ∷ rest.payload;
        returns = rw (at, kg_payload) (rw (rest.returns, kg_payload) refl);
        as_many = ap suc rest.as_many;
        ids = λ k v a q. elim a [
          | inl e ↦ inl (some_unique at (ap (λ j. get j minted) e ∙ q))
          | inr b ↦ inr (rest.ids k v b q)
        ];
        parents = (parent_minted minted n.parent_vendor_id, rest.parents);
        stands = (node_of-IsNodeOf n i at, rest.stands);
      }

-- The payload of a crawled hierarchy is built without a `KeyError`. Its nodes stand for the crawled ones,
-- one for each and in their order, with the name, the plant and the label of the kind, the id of a crawled
-- node of the same vendor's id, and as the parent that of a crawled node of the vendor's id that the node
-- names, where it names one that was crawled. Every parent in the payload is a node of the payload.
pub hierarchy_payload_closed :
    (nodes : List DiscoveredHierarchyNode)
    → (payload : List KgNode) × (hierarchy_payload nodes ≡ some payload)
      × (length payload ≡ length nodes)
      × Pairs (IsNodeOf nodes) nodes payload
      × All (λ m. (p : String) → m.parent_id ≡ some p → Any (λ n. n.id ≡ p) payload) payload
unfolding hierarchy_payload
hierarchy_payload_closed nodes =
    let f = payload_of nodes nodes (minted-Has nodes []) in
    (
      f.payload,
      f.returns,
      f.as_many,
      f.stands,
      map-All _ _ f.payload
          (λ m h p q.
            let (k, at) = h p q in f.ids k p (vendor_in k p nodes (minted-IsIdIn k p nodes at)) at)
          f.parents,
    )
