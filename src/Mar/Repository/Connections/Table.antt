-- ===== src/Mar/Repository/Connections/Table.antt =====
-- packages/mar/src/rca_mar/repository.py: the connection table holds each row under its own id and
-- one active connection for a plant and category, and `upsert_connection` keeps it so.
use industrial_rca.Prelude.{
  String, ◌≡◌, refl, sym, ap, ◌∙◌, ◌≢◌, ◌⊎◌, inl, inr, true, false, none, some, [], ◌∷◌, arith,
  keep_if, eq_iff, eq_refl, str_eq, beq_cases, Option-cases, Bool-cases, string_eq, All, subst,
}
use industrial_rca.Prelude.Dict.{
  Dict, get, put, remove, Unique, put-Unique, remove-Unique, get-put_cases, get-remove_cases,
}
use industrial_rca.Mar.Rows.{ConnectionRow, Status, active, status_eq, status_eq→≡, status_eq_refl}
use industrial_rca.Mar.Repository.Connections.{
  DuplicateActiveConnection, stored, duplicate, rivals, first_rival, upsert_connection,
  list_connections, keep_if, Bool, values,
}

first_rival-none :
    (conn : ConnectionRow) (d : Dict String ConnectionRow) (k : String) (r : ConnectionRow)
    → first_rival conn d ≡ none
    → get k d ≡ some r
    → rivals conn r ≡ false
unfolding first_rival get
first_rival-none conn [] k r h e = cc
first_rival-none conn ((j, s) ∷ d) k r h e = ground (arith, eq_iff j k, first_rival-none conn d k r)

first_rival-some :
    (conn : ConnectionRow) (d : Dict String ConnectionRow) (r : ConnectionRow)
    → Unique d
    → first_rival conn d ≡ some r
    → (rivals conn r ≡ true) × ((k : String) × (get k d ≡ some r))
unfolding first_rival get
first_rival-some conn [] r u h = cc
first_rival-some conn ((j, s) ∷ d) r u h = elim (Bool-cases (rivals conn s)) [
  | inl e ↦ (ground arith, (j, ground (arith, eq_iff j j)))
  | inr n ↦
      let rest = first_rival-some conn d r u.1 (ground arith) in
      (rest.0, (rest.1.0, ground (arith, eq_iff j rest.1.0, u.0, rest.1.1)))
]

rivals_of :
    (conn r : ConnectionRow)
    → str_eq r.connection_id conn.connection_id ≡ false
    → r.plant_id ≡ conn.plant_id
    → r.category ≡ conn.category
    → r.status ≡ active
    → rivals conn r ≡ true
unfolding rivals status_eq
rivals_of conn r n p c x = rw (n, p, c, x) (rw (eq_refl conn.plant_id) (rw (eq_refl conn.category)))

rivals_parts :
    (conn r : ConnectionRow)
    → rivals conn r ≡ true
    → (r.connection_id ≢ conn.connection_id)
      × (r.plant_id ≡ conn.plant_id)
      × (r.category ≡ conn.category)
      × (r.status ≡ active)
unfolding rivals
rivals_parts conn r h = (
  λ e. ground (arith, eq_iff r.connection_id conn.connection_id),
  ground (arith, eq_iff r.plant_id conn.plant_id),
  ground (arith, eq_iff r.category conn.category),
  status_eq→≡ r.status active (ground arith),
)

-- The table of the registry: each row under its own id, each id once, and for a plant and category
-- at most one active connection.
pub record IsTable (d : Dict String ConnectionRow) : Type 0 where
  pub unique : Unique d
  pub keyed : (k : String) (r : ConnectionRow) → get k d ≡ some r → r.connection_id ≡ k
  pub one_active :
      (j k : String) (r s : ConnectionRow)
      → get j d ≡ some r
      → get k d ≡ some s
      → r.status ≡ active
      → s.status ≡ active
      → r.plant_id ≡ s.plant_id
      → r.category ≡ s.category
      → j ≡ k

-- A row that may stand beside the table: no other row holds its place while it is active.
abbrev pub IsAdmitted : ConnectionRow → Dict String ConnectionRow → Type 0
IsAdmitted conn d =
    conn.status ≡ active
    → (k : String) (r : ConnectionRow) → get k d ≡ some r
    → r.status ≡ active
    → r.plant_id ≡ conn.plant_id
    → r.category ≡ conn.category
    → k ≡ conn.connection_id

pub put-IsTable :
    (conn : ConnectionRow) (d : Dict String ConnectionRow)
    → IsAdmitted conn d
    → IsTable d
    → IsTable (put conn.connection_id conn d)
put-IsTable conn d a t = record {
  unique = put-Unique conn.connection_id conn d t.unique;
  keyed = λ k r e. elim (get-put_cases conn.connection_id k conn d e) [
    | inl (i, v) ↦ rw (← v) i
    | inr (n, old) ↦ t.keyed k r old
  ];
  one_active = λ j k r s e f x y p c. elim (get-put_cases conn.connection_id j conn d e) [
    | inl (i, v) ↦ elim (get-put_cases conn.connection_id k conn d f) [
      | inl (i', v') ↦ sym i ∙ i'
      | inr (n, old) ↦ sym i ∙ sym (a (rw v x) k s old y (rw (v, p) refl) (rw (v, c) refl))
    ]
    | inr (n, old) ↦ elim (get-put_cases conn.connection_id k conn d f) [
      | inl (i', v') ↦ a (rw v' y) j r old x (rw (v', p) refl) (rw (v', c) refl) ∙ i'
      | inr (n', old') ↦ t.one_active j k r s old old' x y p c
    ]
  ];
}

pub remove-IsTable : (k : String) (d : Dict String ConnectionRow) → IsTable d → IsTable (remove k d)
remove-IsTable i d t = record {
  unique = remove-Unique i d t.unique;
  keyed = λ k r e. t.keyed k r (get-remove_cases i k d e).1;
  one_active = λ j k r s e f x y p c.
      t.one_active j k r s (get-remove_cases i j d e).1 (get-remove_cases i k d f).1 x y p c;
}

pub no_rival-IsAdmitted :
    (conn : ConnectionRow) (d : Dict String ConnectionRow)
    → IsTable d
    → first_rival conn d ≡ none
    → IsAdmitted conn d
no_rival-IsAdmitted conn d t h a k r e x p c =
    let no = first_rival-none conn d k r h e in
    let id = t.keyed k r e in
    elim (beq_cases r.connection_id conn.connection_id) [
      | inl same ↦ sym id ∙ same
      | inr (_, n) ↦ cc (no, rivals_of conn r n p c x)
    ]

abbrev refusal : ConnectionRow → ConnectionRow → DuplicateActiveConnection
refusal conn r = record {
  plant_id = conn.plant_id;
  category = conn.category;
  existing_connection_id = r.connection_id;
}

upsert_cases :
    (conn : ConnectionRow) (d : Dict String ConnectionRow)
    → IsTable d
    → ((upsert_connection conn d ≡ stored (put conn.connection_id conn d)) × IsAdmitted conn d)
      ⊎ ((r : ConnectionRow) × (upsert_connection conn d ≡ duplicate (refusal conn r))
          × (conn.status ≡ active)
          × (first_rival conn d ≡ some r))
unfolding upsert_connection
upsert_cases conn d t = elim (Bool-cases (status_eq conn.status active)) [
  | inr n ↦ inl (rw n refl, λ a. absurd (not_active n a))
  | inl y ↦ elim (Option-cases (first_rival conn d)) [
    | inl e ↦ inl (rw (y, e) refl, no_rival-IsAdmitted conn d t e)
    | inr (r, e) ↦ inr (r, rw (y, e) refl, status_eq→≡ conn.status active y, e)
  ]
]
  where
    not_active : status_eq conn.status active ≡ false → conn.status ≡ active → ⊥
    not_active n a = cc (n, ap (λ (s : Status). status_eq s active) a, status_eq_refl active)

-- `upsert_connection` keeps the table, and what it stored is what a lookup finds.
pub upsert_connection_stored :
    (conn : ConnectionRow) (d e : Dict String ConnectionRow)
    → IsTable d
    → upsert_connection conn d ≡ stored e
    → IsTable e × (e ≡ put conn.connection_id conn d)
upsert_connection_stored conn d e t h = elim (upsert_cases conn d t) [
  | inl (q, a) ↦
      let same : e ≡ put conn.connection_id conn d = ground (arith, q, h) in
      (rw same (put-IsTable conn d a t), same)
  | inr (r, q, a, f) ↦ cc
]

-- A refusal names another row that is active for the same plant and category.
pub upsert_connection_duplicate :
    (conn : ConnectionRow) (d : Dict String ConnectionRow) (x : DuplicateActiveConnection)
    → IsTable d
    → upsert_connection conn d ≡ duplicate x
    → (conn.status ≡ active)
      × ((r : ConnectionRow) × (get x.existing_connection_id d ≡ some r)
          × (r.status ≡ active)
          × (r.plant_id ≡ conn.plant_id)
          × (r.category ≡ conn.category)
          × (x.existing_connection_id ≢ conn.connection_id))
upsert_connection_duplicate conn d x t h = elim (upsert_cases conn d t) [
  | inl (q, a) ↦ cc
  | inr (r, q, a, f) ↦
      let found = first_rival-some conn d r t.unique f in
      let parts = rivals_parts conn r found.0 in
      let id : x.existing_connection_id ≡ r.connection_id = ground (arith, q, h) in
      let at : get x.existing_connection_id d ≡ some r =
        rw (id ∙ t.keyed found.1.0 r found.1.1) found.1.1 in
      (a, (r, at, parts.3, parts.1, parts.2, λ e. parts.0 (sym id ∙ e)))
]

-- A row that the table admits is stored.
pub upsert_connection_admitted :
    (conn : ConnectionRow) (d : Dict String ConnectionRow)
    → IsTable d
    → IsAdmitted conn d
    → upsert_connection conn d ≡ stored (put conn.connection_id conn d)
upsert_connection_admitted conn d t a = elim (upsert_cases conn d t) [
  | inl (q, _) ↦ q
  | inr (r, q, y, f) ↦ absurd (clash r y f)
]
  where
    clash : (r : ConnectionRow) → conn.status ≡ active → first_rival conn d ≡ some r → ⊥
    clash r y f =
        let found = first_rival-some conn d r t.unique f in
        let parts = rivals_parts conn r found.0 in
        parts.0 (t.keyed found.1.0 r found.1.1 ∙ a y found.1.0 r found.1.1 parts.3 parts.1 parts.2)

All-keep_if {ℓ} :
    (P : ConnectionRow → Type ℓ) (p : ConnectionRow → Bool) (d : Dict String ConnectionRow)
    (k : String) (r : ConnectionRow)
    → All P (keep_if p (values d))
    → get k d ≡ some r
    → p r ≡ true
    → P r
unfolding keep_if get
All-keep_if P p [] k r h e q = absurd (empty e)
  where
    empty : none ≡ some r → ⊥
    empty e = cc
All-keep_if P p ((j, x) ∷ d) k r h e q = elim (Bool-cases (p x)) [
  | inl y ↦
      let h' = rw (y, keep_if) at h in
      elim (beq_cases j k) [
        | inl same ↦ subst P (ground (arith, eq_iff j k)) h'.0
        | inr (n, b) ↦ All-keep_if P p d k r h'.1 (ground arith) q
      ]
  | inr n ↦
      let h' = rw (n, keep_if) at h in
      elim (beq_cases j k) [
        | inl same ↦ absurd (clash n (ap p (let v : x ≡ r = ground (arith, eq_iff j k) in v) ∙ q))
        | inr (_, b) ↦ All-keep_if P p d k r h' (ground arith) q
      ]
]
  where
    clash : p x ≡ false → p x ≡ true → ⊥
    clash n y = cc

-- What holds of every row that `list_connections` returns for a plant, a category and a status
-- holds of each stored row that has these three.
pub list_connections_all {ℓ} :
    (P : ConnectionRow → Type ℓ) (plant category : String) (status : Status)
    (d : Dict String ConnectionRow) (k : String) (r : ConnectionRow)
    → All P (list_connections (some plant) (some category) (some status) d)
    → get k d ≡ some r
    → r.plant_id ≡ plant
    → r.category ≡ category
    → r.status ≡ status
    → P r
unfolding list_connections
list_connections_all P plant category status d k r h e p c s =
    All-keep_if P _ d k r h e
      (rw (p, c, s) (rw (eq_refl plant) (rw (eq_refl category) (status_eq_refl status))))
