-- ===== src/Operators/Convergence.antt =====
-- Custom resources become Running, with all their deployments there.
use royak.Operators.Convergence.Steps.{
  provision_all_complete, first_missing-Grows, rank-le, is_failed, rank, reconcile_name-Step, Grows,
}
use royak.Apply.Base.{failed}
mod Steps
use mathlib.Core.Option
use royak.Prelude.{
  Bool-cases, find, Map, lookup, keys, lookup-modify, Text, text_eq, text_eq_sound, text_eq_refl,
  contains, ℕ, suc, ◌≤◌, ◌≡◌, refl, sym, ap, ◌∙◌, subst, inl, inr, true, false, Option, none, some,
  List, [], ◌∷◌, arith,
}
use royak.World.Cluster.{Operator, CustomResource, CrStatus}
use royak.World.Workloads.{StoredDeployment}
use royak.World.State.{DesiredWorld}
use royak.Operators.{
  values, System, find_operator, first_missing, set_status, verify, provision_cr, reconcile_status,
  reconcile_cr, reconcile_found, reconcile_name, reconcile_names, reconcile_operators,
}

-- The resource is stored with some status, has its operator, and is at least that near.
record Stands (name : Text) (base : CustomResource) (op : Operator) (k : ℕ) (w : DesiredWorld)
    : Type 0 where
  status : CrStatus
  stored : lookup name w.custom_resources ≡ some (record base { status = status })
  operated : find_operator w base.kind ≡ some op
  alive : is_failed status ≡ false
  near : k ≤ rank status (first_missing name w.deployments op.provision)

module _ (sys : System) (name : Text) (base : CustomResource) (op : Operator) where
  rank-Grows :
      (s : CrStatus) (m m' : Map StoredDeployment)
      → Grows m m'
      → rank s (first_missing name m op.provision) ≤ rank s (first_missing name m' op.provision)
  rank-Grows s m m' g = rank-le s _ _ (first_missing-Grows name m m' op.provision g)

  other-Stands :
      (k : ℕ) (n : Text) (w : DesiredWorld)
      → text_eq n name ≡ false
      → Stands name base op k w
      → Stands name base op k (reconcile_name sys w n).0
  unfolding find_operator
  other-Stands k n w ne h =
      let step = reconcile_name-Step sys n w in
      record {
        status = h.status;
        stored = step.others name ne ∙ h.stored;
        operated =
            ap (λ os. find (λ o. text_eq o.custom_kind base.kind) (values os)) step.operators
            ∙ h.operated;
        alive = h.alive;
        near = omega (
          arith,
          h.near,
          rank-Grows h.status w.deployments (reconcile_name sys w n).0.deployments step.grows,
        );
      }

  module _ (k : ℕ) (w : DesiredWorld) (found : find_operator w base.kind ≡ some op) where
    set_status-Stands :
        (s t : CrStatus) (m : Map StoredDeployment)
        → lookup name w.custom_resources ≡ some (record base { status = s })
        → is_failed t ≡ false
        → k ≤ rank t (first_missing name m op.provision)
        → Stands name base op k (set_status name t (record w { deployments = m }))
    unfolding set_status find_operator
    set_status-Stands s t m h alive near = record {
      status = t;
      stored =
          lookup-modify name name (λ cr. record cr { status = t }) w.custom_resources
          ∙ rw (text_eq_refl name)
              (ap (Option.map {A = CustomResource} (λ cr. record cr { status = t })) h);
      operated = found;
      alive = alive;
      near = near;
    }

    provisioning-Stands :
        (o : Option Text)
        → first_missing name w.deployments op.provision ≡ o
        → lookup name w.custom_resources ≡ some (record base { status = CrStatus.provisioning })
        → k ≤ suc (rank CrStatus.provisioning o)
        → k ≤ 3
        → Stands name base op k
            (verify sys w name
              (record base { status = CrStatus.provisioning })
              op
              CrStatus.provisioning
              o).0
    unfolding verify rank
    provisioning-Stands (some m) e h le top =
        set_status-Stands CrStatus.provisioning CrStatus.pending w.deployments h refl le
    provisioning-Stands none e h le top =
        set_status-Stands CrStatus.provisioning CrStatus.running w.deployments h refl (rw e top)

    running-Stands :
        (o : Option Text)
        → first_missing name w.deployments op.provision ≡ o
        → lookup name w.custom_resources ≡ some (record base { status = CrStatus.running })
        → k ≤ suc (rank CrStatus.running o)
        → k ≤ 3
        → Stands name base op k
            (verify sys w name (record base { status = CrStatus.running }) op CrStatus.running o).0
    unfolding verify rank
    running-Stands (some m) e h le top =
        set_status-Stands CrStatus.running CrStatus.pending w.deployments h refl le
    running-Stands none e h le top = record {
      status = CrStatus.running;
      stored = h;
      operated = found;
      alive = refl;
      near = rw e top;
    }

    reconcile_status-Stands :
        (s : CrStatus)
        → lookup name w.custom_resources ≡ some (record base { status = s })
        → is_failed s ≡ false
        → k ≤ suc (rank s (first_missing name w.deployments op.provision))
        → k ≤ 3
        → Stands name base op k (reconcile_status sys s w name (record base { status = s }) op).0
    unfolding reconcile_status provision_cr rank
    reconcile_status-Stands CrStatus.running h alive le top = running-Stands _ refl h le top
    reconcile_status-Stands CrStatus.provisioning h alive le top =
        provisioning-Stands _ refl h le top
    reconcile_status-Stands CrStatus.pending h alive le top =
        let cr = record base { status = CrStatus.pending } in
        set_status-Stands CrStatus.pending CrStatus.provisioning _ h refl
          (rw (provision_all_complete sys name cr op.provision w.deployments) le)
    reconcile_status-Stands CrStatus.failed h alive le top = absurd (cc alive)

  own-Stands :
      (j k : ℕ) (w : DesiredWorld)
      → k ≤ suc j
      → k ≤ 3
      → Stands name base op j w
      → Stands name base op k (reconcile_name sys w name).0
  unfolding reconcile_name reconcile_found reconcile_cr
  own-Stands j k w le top h =
      rw (h.stored, h.operated)
        (reconcile_status-Stands k w h.operated h.status h.stored h.alive (omega (arith, h.near))
          top)

  -- A round over names that include the resource brings it one nearer.
  names-keep :
      (ns : List Text) (k : ℕ) (w : DesiredWorld)
      → k ≤ 3
      → Stands name base op k w
      → Stands name base op k (reconcile_names sys ns w).0
  unfolding reconcile_names
  names-keep [] k w top h = h
  names-keep (n ∷ ns) k w top h =
      names-keep ns k (reconcile_name sys w n).0 top (elim (Bool-cases (text_eq n name)) [
        | inl y ↦
            subst (λ m. Stands name base op k (reconcile_name sys w m).0)
              (sym (text_eq_sound n name y)) (own-Stands k k w (omega arith) top h)
        | inr e ↦ other-Stands k n w e h
      ])

  names-advance :
      (ns : List Text) (k : ℕ) (w : DesiredWorld)
      → suc k ≤ 3
      → contains ns name ≡ true
      → Stands name base op k w
      → Stands name base op (suc k) (reconcile_names sys ns w).0
  unfolding reconcile_names contains
  names-advance [] k w top c h = absurd (cc c)
  names-advance (n ∷ ns) k w top c h = elim (Bool-cases (text_eq n name)) [
    | inl y ↦ names-keep ns (suc k) (reconcile_name sys w n).0 top (
        subst (λ m. Stands name base op (suc k) (reconcile_name sys w m).0)
          (sym (text_eq_sound n name y)) (own-Stands k (suc k) w (omega arith) top h))
    | inr e ↦
        names-advance ns k (reconcile_name sys w n).0 top (ground arith) (other-Stands k n w e h)
  ]

contains-keys {ℓ} :
    {V : Type ℓ} (k : Text) (v : V) (m : Map V) → lookup k m ≡ some v → contains (keys m) k ≡ true
unfolding contains lookup keys
contains-keys k v [] h = absurd (cc h)
contains-keys k v ((j, u) ∷ m) h = elim (Bool-cases (text_eq j k)) [
  | inl y ↦ rw y refl
  | inr e ↦ rw (e, contains-keys k v m (ground arith)) refl
]

round-Stands :
    (sys : System) (name : Text) (base : CustomResource) (op : Operator) (k : ℕ) (w : DesiredWorld)
    → suc k ≤ 3
    → Stands name base op k w
    → Stands name base op (suc k) (reconcile_operators sys w).0
unfolding reconcile_operators
round-Stands sys name base op k w top h =
    names-advance sys name base op (keys w.custom_resources) k w top
      (contains-keys name _ w.custom_resources h.stored) h

-- The world after three rounds.
abbrev pub three_rounds : System → DesiredWorld → DesiredWorld
three_rounds sys w =
    (reconcile_operators sys (reconcile_operators sys (reconcile_operators sys w).0).0).0

top_rank : (s : CrStatus) (o : Option Text) → 3 ≤ rank s o → (s ≡ CrStatus.running) × (o ≡ none)
unfolding rank
top_rank CrStatus.pending o h = absurd (omega (arith, h))
top_rank CrStatus.failed o h = absurd (omega (arith, h))
top_rank CrStatus.provisioning (some m) h = absurd (omega (arith, h))
top_rank CrStatus.provisioning none h = absurd (omega (arith, h))
top_rank CrStatus.running (some m) h = absurd (omega (arith, h))
top_rank CrStatus.running none h = (refl, refl)

-- A custom resource that is not Failed and whose kind has an operator is Running after three
-- rounds, whatever its deployments were, with every deployment of its operator there.
pub reconcile_operators-converges :
    (sys : System) (w : DesiredWorld) (name : Text) (cr : CustomResource) (op : Operator)
    → lookup name w.custom_resources ≡ some cr
    → is_failed cr.status ≡ false
    → find_operator w cr.kind ≡ some op
    → (lookup name (three_rounds sys w).custom_resources
        ≡ some (record cr { status = CrStatus.running }))
      × (first_missing name (three_rounds sys w).deployments op.provision ≡ none)
reconcile_operators-converges sys w name cr op h alive found =
    let start : Stands name cr op 0 w = record {
      status = cr.status;
      stored = h;
      operated = found;
      alive = alive;
      near = omega arith;
    } in
    let end = round-Stands sys name cr op 2 _ (omega arith) (
      round-Stands sys name cr op 1 _ (omega arith)
        (round-Stands sys name cr op 0 w (omega arith) start)) in
    let at_top = top_rank end.status _ end.near in
    (end.stored ∙ ap (λ s. some (record cr { status = s })) at_top.0, at_top.1)
