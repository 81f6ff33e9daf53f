-- ===== src/Apply/Storage/Order.antt =====
-- The volume that a claim gets depends on the order in which the map of volumes is iterated.
use royak.Apply.Base.{needs}
use royak.Apply.Storage.{apply_claim, store_claim, first_fit, bind_claim, access_mode_of}
use royak.Prelude.{
  Map, lookup, keys, lookup-insert_self, Text, codes, text_eq_iff, text_eq_refl, ◌>>=◌, ◌≡◌, ap,
  ◌≢◌, Option, some, [], ◌∷◌, arith,
}
use royak.World.Manifest.{Resource}
use royak.World.Services.{StoredPv, PvStatus}
use royak.World.State.{DesiredWorld}
use royak.World.Yaml.{Yaml, text_at}

-- A volume that a claim with this specification may take.
pub record IsOnOffer (spec : Yaml) (pv : StoredPv) : Type 0 where
  pub free : pv.status ≡ PvStatus.available
  pub of_class : pv.storage_class ≡ text_at (codes "storageClassName" ∷ []) (codes "local") spec
  pub of_mode : pv.access_mode ≡ access_mode_of spec

-- The volume that a claim is bound to in a world.
unfoldable pub bound_volume : DesiredWorld → Text → Option Text
bound_volume w name = lookup name w.pvcs >>= λ c. c.bound_pv

-- Where the map of volumes is iterated from a volume on offer, the claim takes that one.
takes_first :
    (w : DesiredWorld) (r : Resource) (spec : Yaml) (p : Text) (a : StoredPv) (m : Map StoredPv)
    → r.spec ≡ some spec
    → IsOnOffer spec a
    → bound_volume (apply_claim (record w { pvs = (p, a) ∷ m }) r).world r.metadata.name ≡ some p
unfolding apply_claim store_claim first_fit bind_claim bound_volume keys lookup needs
takes_first w r spec p a m e offer =
    let class = text_at (codes "storageClassName" ∷ []) (codes "local") spec in
    let found : first_fit class (access_mode_of spec) ((p, a) ∷ m) (p ∷ keys m) ≡ some p = ground (
      arith,
      offer.free,
      offer.of_class,
      offer.of_mode,
      text_eq_refl p,
      text_eq_refl class,
      text_eq_refl (access_mode_of spec),
    ) in
    rw e (rw found (ap (λ o. o >>= λ c. c.bound_pv) (lookup-insert_self r.metadata.name _ w.pvcs)))

-- Two worlds that differ only in the order in which they iterate the same two volumes on offer bind
-- the same claim to different ones.
pub apply_claim-order :
    (w : DesiredWorld) (r : Resource) (spec : Yaml) (p q : Text) (a b : StoredPv) (m : Map StoredPv)
    → r.spec ≡ some spec
    → p ≢ q
    → IsOnOffer spec a
    → IsOnOffer spec b
    → let one = record w { pvs = (p, a) ∷ (q, b) ∷ m } in
      let other = record w { pvs = (q, b) ∷ (p, a) ∷ m } in
      ((k : Text) → lookup k one.pvs ≡ lookup k other.pvs)
      × (bound_volume (apply_claim one r).world r.metadata.name ≡ some p)
      × (bound_volume (apply_claim other r).world r.metadata.name ≡ some q)
unfolding lookup
apply_claim-order w r spec p q a b m e differ of_a of_b = (
  same_map,
  takes_first w r spec p a ((q, b) ∷ m) e of_a,
  takes_first w r spec q b ((p, a) ∷ m) e of_b,
)
  where
    same_map : (k : Text) → lookup k ((p, a) ∷ (q, b) ∷ m) ≡ lookup k ((q, b) ∷ (p, a) ∷ m)
    same_map k = ground (arith, text_eq_iff p k, text_eq_iff q k)
