-- ===== src/Rbac/Tests.antt =====
-- Runs of `check_rbac` on a world with one viewer role, and the theorems at that world.
use royak.Prelude.{◌≡◌, refl, ◌↔◌, true, false, [], ◌∷◌, codes, text_eq, any, is_empty, lookup}
use royak.World.Cluster.{RbacRole}
use royak.World.State.{DesiredWorld, new_world}
use royak.Rbac.{star, check_rbac}
use royak.Rbac.Laws.{Granted, check_rbac_iff}

abbrev viewer : RbacRole
viewer = record {
  name = codes "viewer";
  rules = record { resources = star ∷ []; verbs = codes "get" ∷ []; namespaces = star ∷ [] } ∷ [];
}

abbrev viewed : DesiredWorld
viewed = record new_world { rbac_roles = (codes "viewer", viewer) ∷ [] }

viewer_may_get :
    check_rbac viewed (codes "viewer") (codes "pods") (codes "get") (codes "default") ≡ true
unfolding check_rbac any is_empty lookup text_eq
viewer_may_get = refl

viewer_may_not_delete :
    check_rbac viewed (codes "viewer") (codes "pods") (codes "delete") (codes "default") ≡ false
unfolding check_rbac any is_empty lookup text_eq
viewer_may_not_delete = refl

check_rbac_iff_example :
    (check_rbac viewed (codes "viewer") (codes "pods") (codes "get") (codes "default") ≡ true)
    ↔ Granted viewed (codes "viewer") (codes "pods") (codes "get") (codes "default")
check_rbac_iff_example =
    check_rbac_iff viewed (codes "viewer") (codes "pods") (codes "get") (codes "default")
