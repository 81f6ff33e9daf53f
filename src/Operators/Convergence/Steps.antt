-- ===== src/Operators/Convergence/Steps.antt =====
-- How near a resource is to Running, and what the step at one name leaves as it is.
use royak.Prelude.{
  Bool-cases, Map, lookup, insert, contains_key, lookup-insert, lookup-modify, lookup-insert_self,
  Text, text_eq, ℕ, ◌≤◌, ◌≡◌, refl, inl, inr, Bool, true, false, Option, none, some, List, [], ◌∷◌,
  arith,
}
use royak.World.Cluster.{Operator, OperatorComponent, CustomResource, CrStatus}
use royak.World.Workloads.{StoredDeployment}
use royak.World.State.{DesiredWorld}
use royak.Operators.{
  System, dep_name, find_operator, first_missing, set_status, component_deployment, provision_all,
  verify, provision_cr, reconcile_status, reconcile_cr, reconcile_found, reconcile_name,
}

-- How near a resource is to Running with all its deployments: the argument is what is missing.
unfoldable pub rank : CrStatus → Option Text → ℕ
rank CrStatus.pending missing = 1
rank CrStatus.provisioning (some m) = 0
rank CrStatus.provisioning none = 2
rank CrStatus.running (some m) = 0
rank CrStatus.running none = 3
rank CrStatus.failed missing = 0

abbrev pub is_failed : CrStatus → Bool
is_failed CrStatus.failed = true
is_failed CrStatus.pending = false
is_failed CrStatus.provisioning = false
is_failed CrStatus.running = false

pub rank-le : (s : CrStatus) (o o' : Option Text) → (o ≡ none → o' ≡ none) → rank s o ≤ rank s o'
unfolding rank
rank-le CrStatus.pending o o' h = omega arith
rank-le CrStatus.failed o o' h = omega arith
rank-le CrStatus.provisioning (some m) o' h = omega arith
rank-le CrStatus.provisioning none o' h = rw (h refl) (omega arith)
rank-le CrStatus.running (some m) o' h = omega arith
rank-le CrStatus.running none o' h = rw (h refl) (omega arith)

contains_key-insert :
    (k j : Text) (d : StoredDeployment) (m : Map StoredDeployment)
    → contains_key j m ≡ true
    → contains_key j (insert k d m) ≡ true
contains_key-insert k j d m h = ground (arith, lookup-insert k j d m)

contains_key-insert_self :
    (k : Text) (d : StoredDeployment) (m : Map StoredDeployment)
    → contains_key k (insert k d m) ≡ true
contains_key-insert_self k d m = ground (arith, lookup-insert_self k d m)

abbrev pub Grows : Map StoredDeployment → Map StoredDeployment → Type 0
Grows m n = (k : Text) → contains_key k m ≡ true → contains_key k n ≡ true

pub first_missing-Grows :
    (name : Text) (m n : Map StoredDeployment) (cs : List OperatorComponent)
    → Grows m n
    → first_missing name m cs ≡ none
    → first_missing name n cs ≡ none
unfolding first_missing
first_missing-Grows name m n [] g h = refl
first_missing-Grows name m n (c ∷ cs) g h = elim (Bool-cases (contains_key (dep_name name c) m)) [
  | inl there ↦ rw (g (dep_name name c) there) (first_missing-Grows name m n cs g (ground arith))
  | inr gone ↦ absurd (ground arith)
]

module _ (sys : System) (name : Text) (cr : CustomResource) where
  pub provision_all-Grows :
      (cs : List OperatorComponent) (m : Map StoredDeployment)
      → Grows m (provision_all sys name cr cs m)
  unfolding provision_all
  provision_all-Grows [] m k h = h
  provision_all-Grows (c ∷ cs) m k h =
      provision_all-Grows cs _ k (contains_key-insert (dep_name name c) k _ m h)

  pub provision_all_complete :
      (cs : List OperatorComponent) (m : Map StoredDeployment)
      → first_missing name (provision_all sys name cr cs m) cs ≡ none
  unfolding provision_all first_missing
  provision_all_complete [] m = refl
  provision_all_complete (c ∷ cs) m =
      let first = insert (dep_name name c) (component_deployment sys name cr c) m in
      rw
        (provision_all-Grows cs first (dep_name name c)
          (contains_key-insert_self (dep_name name c) (component_deployment sys name cr c) m))
        (provision_all_complete cs first)

-- What the step at one name does to all others.
pub record Step (n : Text) (w v : DesiredWorld) : Type 0 where
  pub operators : v.operators ≡ w.operators
  pub grows : Grows w.deployments v.deployments
  pub others :
      (j : Text) → text_eq n j ≡ false → lookup j v.custom_resources ≡ lookup j w.custom_resources

module _ (sys : System) (n : Text) where
  pub stay : (w : DesiredWorld) → Step n w w
  stay w = record { operators = refl; grows = λ k h. h; others = λ j ne. refl }

  pub set_status-Step :
      (s : CrStatus) (w : DesiredWorld) (m : Map StoredDeployment)
      → Grows w.deployments m
      → Step n w (set_status n s (record w { deployments = m }))
  unfolding set_status
  set_status-Step s w m g = record {
    operators = refl;
    grows = g;
    others = λ j ne.
        ground (arith, lookup-modify n j (λ cr. record cr { status = s }) w.custom_resources);
  }

  pub verify-Step :
      (w : DesiredWorld) (cr : CustomResource) (op : Operator) (s : CrStatus) (o : Option Text)
      → Step n w (verify sys w n cr op s o).0
  unfolding verify
  verify-Step w cr op s (some missing) = set_status-Step CrStatus.pending w w.deployments (λ k h. h)
  verify-Step w cr op CrStatus.provisioning none =
      set_status-Step CrStatus.running w w.deployments (λ k h. h)
  verify-Step w cr op CrStatus.running none = stay w
  verify-Step w cr op CrStatus.pending none = stay w
  verify-Step w cr op CrStatus.failed none = stay w

  pub reconcile_status-Step :
      (s : CrStatus) (w : DesiredWorld) (cr : CustomResource) (op : Operator)
      → Step n w (reconcile_status sys s w n cr op).0
  unfolding reconcile_status provision_cr
  reconcile_status-Step CrStatus.running w cr op = verify-Step w cr op CrStatus.running _
  reconcile_status-Step CrStatus.provisioning w cr op = verify-Step w cr op CrStatus.provisioning _
  reconcile_status-Step CrStatus.pending w cr op =
      set_status-Step CrStatus.provisioning w _
        (provision_all-Grows sys n cr op.provision w.deployments)
  reconcile_status-Step CrStatus.failed w cr op = stay w

  pub reconcile_name-Step : (w : DesiredWorld) → Step n w (reconcile_name sys w n).0
  unfolding reconcile_name reconcile_found reconcile_cr
  reconcile_name-Step w = of_found (lookup n w.custom_resources)
    where
      of_operator :
          (cr : CustomResource) (o : Option Operator) → Step n w (reconcile_cr sys w n cr o).0
      of_operator cr none = stay w
      of_operator cr (some op) = reconcile_status-Step cr.status w cr op

      of_found : (o : Option CustomResource) → Step n w (reconcile_found sys w n o).0
      of_found none = stay w
      of_found (some cr) = of_operator cr (find_operator w cr.kind)
