-- ===== src/Peers/Union.antt =====
-- Merging a peer's state is a union that keeps what is here.
use royak.Prelude.{
  Bool-cases, Option-cases, unwrap_or, ◌>>=◌, any, Map, lookup, insert, lookup-insert, Text, codes,
  text_eq, text_eq_sound, text_eq_iff, contains, ℕ, ◌≡◌, ap, inl, inr, Bool, false, ◌||◌, Option,
  none, some, List, [], ◌∷◌, ◌++◌, arith,
}
use royak.Peers.{
  AsF32, merge_missing, merge_namespaces, merge_state, deployment_from, configmap_from, object_at,
}
use royak.World.State.{DesiredWorld}
use royak.World.Json.{Json, get, as_str, as_array}

abbrev pub prefer {ℓ} : {V : Type ℓ} → Option V → (Json → V) → Option Json → Option V
prefer (some v) make val = some v
prefer none make (some val) = some (make val)
prefer none make none = none

lookup-merge_missing {ℓ} :
    {V : Type ℓ} (make : Text → Json → V) (message : Text → Text) (remote : Map Json) (here : Map V)
    (j : Text)
    → lookup j (merge_missing make message remote here).1
      ≡ prefer (lookup j here) (make j) (lookup j remote)
unfolding merge_missing lookup
lookup-merge_missing make message [] here j = ground arith
lookup-merge_missing make message ((name, val) ∷ more) here j = elim (Bool-cases (text_eq name j)) [
  | inl e ↦
      let same : name ≡ j = text_eq_sound name j e in
      ground (
        arith,
        same,
        ap (λ n. make n val) same,
        ap (λ n. lookup n here) same,
        lookup-merge_missing make message more here j,
        lookup-merge_missing make message more (insert name (make name val) here) j,
        lookup-insert name j (make name val) here,
      )
  | inr e ↦ ground (
    arith,
    lookup-merge_missing make message more here j,
    lookup-merge_missing make message more (insert name (make name val) here) j,
    lookup-insert name j (make name val) here,
  )
]

contains-append :
    (ss : List Text) (s t : Text) → contains (ss ++ s ∷ []) t ≡ contains ss t || text_eq s t
unfolding contains
contains-append [] s t = ground arith
contains-append (r ∷ ss) s t = ground (arith, contains-append ss s t)

abbrev pub names : Json → Text → Bool
names v s = elim (as_str v) [ none ↦ false | some t ↦ text_eq t s ]

contains-merge_namespaces :
    (vs : List Json) (here : List Text) (s : Text)
    → contains (merge_namespaces vs here).1 s ≡ contains here s || any (λ v. names v s) vs
unfolding merge_namespaces contains any
contains-merge_namespaces [] here s = ground arith
contains-merge_namespaces (v ∷ more) here s = elim (Option-cases (as_str v)) [
  | inl e ↦ ground (arith, contains-merge_namespaces more here s)
  | inr (t, e) ↦ ground (
    arith,
    contains-merge_namespaces more here s,
    contains-merge_namespaces more (here ++ t ∷ []) s,
    contains-append here t s,
    text_eq_iff t s,
  )
]

-- After a merge, a deployment or config map that was here is the same as before, one that was
-- missing is the one that the peer's state describes, if there is one, and the namespaces are those
-- of both sides.
pub merge_state-union :
    (as_f32 : AsF32) (now : ℕ) (w : DesiredWorld) (remote : Json) (j : Text)
    → let after = (merge_state as_f32 now w remote).1 in
      (lookup j after.deployments
        ≡ prefer
            (lookup j w.deployments)
            (deployment_from j)
            (lookup j (object_at (codes "deployments") remote)))
      × (lookup j after.configmaps
          ≡ prefer
              (lookup j w.configmaps)
              (configmap_from j)
              (lookup j (object_at (codes "configmaps") remote)))
      × (contains after.namespaces j
          ≡ contains w.namespaces j
            || any (λ v. names v j) (unwrap_or (get (codes "namespaces") remote >>= as_array) []))
unfolding merge_state
merge_state-union as_f32 now w remote j = (
  lookup-merge_missing deployment_from _ _ w.deployments j,
  lookup-merge_missing configmap_from _ _ w.configmaps j,
  contains-merge_namespaces _ w.namespaces j,
)
