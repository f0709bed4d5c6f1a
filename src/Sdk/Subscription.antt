-- ===== src/Sdk/Subscription.antt =====
-- packages/connector_sdk/src/rca_connector_sdk/subscription.py: `RingBuffer`.
use industrial_rca.Prelude.{ℕ, ◌-◌, ◌≤◌, List, [], ◌∷◌, ◌++◌, length, length-drop, drop, arith}

pub record RingBuffer {ℓ} (A : Type ℓ) : Type ℓ where
  pub maxlen : ℕ
  pub items : List A

-- `deque.append`: past `maxlen` the oldest item goes.
unfoldable pub append {ℓ} : {A : Type ℓ} → A → RingBuffer A → RingBuffer A
append item buffer =
    let all = buffer.items ++ item ∷ [] in
    record buffer { items = drop (length all - buffer.maxlen) all }

pub append-bounded {ℓ} :
    {A : Type ℓ} (item : A) (buffer : RingBuffer A)
    → (length (append item buffer).items ≤ buffer.maxlen)
unfolding append
append-bounded item buffer =
    let all = buffer.items ++ item ∷ [] in
    omega (arith, length-drop (length all - buffer.maxlen) all)
