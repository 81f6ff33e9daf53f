-- ===== src/Apply/Storage/Binding.antt =====
-- Every bound claim has a volume that is bound to it.
use royak.World.Yaml.{Yaml}
use royak.World.Manifest.{Resource}
use royak.Prelude.{
  Bool-cases, Option-cases, Map, lookup, insert, keys, lookup-insert, lookup-modify,
  lookup-insert_self, Text, text_eq, text_eq_sound, text_eq_iff, ◌≡◌, refl, sym, ap, ◌∙◌, subst,
  inl, inr, true, Option, none, some, List, [], ◌∷◌, arith,
}
use royak.Apply.Base.{failed, no_spec, needs, Effect}
use royak.Apply.Storage.{
  store_claim, apply_claim, fits, bind_to, is_available, first_fit, provision, auto_name,
  bind_claim,
}
use royak.World.Services.{StoredPv, StoredPvc, StoredStorageClass, PvStatus}
use royak.World.State.{DesiredWorld}

-- The volume `p` is bound to the claim.
pub record IsHeld (pvs : Map StoredPv) (claim p : Text) : Type 0 where
  pub volume : StoredPv
  pub stored : lookup p pvs ≡ some volume
  pub is_bound : volume.status ≡ PvStatus.bound
  pub by_claim : volume.bound_to ≡ some claim

pub record AreBound (w : DesiredWorld) : Type 0 where
  pub holds :
      (claim p : Text) (c : StoredPvc)
      → lookup claim w.pvcs ≡ some c
      → c.bound_pv ≡ some p
      → IsHeld w.pvs claim p

-- The name of the next volume of each storage class is free.
abbrev pub NamesFree : DesiredWorld → Type 0
NamesFree w =
    (k : Text) (sc : StoredStorageClass)
    → lookup k w.storage_classes ≡ some sc
    → lookup (auto_name sc) w.pvs ≡ none

record IsFree (pvs : Map StoredPv) (p : Text) : Type 0 where
  volume : StoredPv
  stored : lookup p pvs ≡ some volume
  is_free : volume.status ≡ PvStatus.available

fits-available :
    (sc am : Text) (pv : StoredPv) → fits sc am pv ≡ true → pv.status ≡ PvStatus.available
fits-available sc am pv h = of_status pv.status (ground arith)
  where
    of_status : (s : PvStatus) → is_available s ≡ true → s ≡ PvStatus.available
    of_status PvStatus.available y = refl
    of_status PvStatus.bound y = absurd (cc y)
    of_status PvStatus.released y = absurd (cc y)

first_fit-IsFree :
    (sc am : Text) (pvs : Map StoredPv) (ks : List Text) (p : Text)
    → first_fit sc am pvs ks ≡ some p
    → IsFree pvs p
unfolding first_fit
first_fit-IsFree sc am pvs [] p h = absurd (cc h)
first_fit-IsFree sc am pvs (k ∷ ks) p h = elim (Option-cases (lookup k pvs)) [
  | inl e ↦ first_fit-IsFree sc am pvs ks p (ground arith)
  | inr (pv, e) ↦ elim (Bool-cases (fits sc am pv)) [
    | inl y ↦ record { volume = pv; stored = ground arith; is_free = fits-available sc am pv y }
    | inr n ↦ first_fit-IsFree sc am pvs ks p (ground arith)
  ]
]

-- What a step does to the volumes: the claim holds what it got, and all others keep theirs.
record Binds (w : DesiredWorld) (claim : Text) (got : Option Text × DesiredWorld × List Effect)
    : Type 0 where
  gained : (p : Text) → got.0 ≡ some p → IsHeld got.1.pvs claim p
  kept : (other p : Text) → IsHeld w.pvs other p → IsHeld got.1.pvs other p

insert-keeps :
    (k p : Text) (x v : StoredPv) (pvs : Map StoredPv)
    → lookup k pvs ≡ none
    → lookup p pvs ≡ some v
    → lookup p (insert k x pvs) ≡ some v
insert-keeps k p x v pvs free h = ground (arith, lookup-insert k p x pvs, text_eq_iff k p)

some-inj : {p q : Text} → some p ≡ some q → p ≡ q
some-inj h = cc h

provision-Binds :
    (w : DesiredWorld) (claim ns k size am : Text) (o : Option StoredStorageClass)
    → ((sc : StoredStorageClass) → o ≡ some sc → lookup (auto_name sc) w.pvs ≡ none)
    → Binds w claim (provision w claim ns k size am o)
unfolding provision
provision-Binds w claim ns k size am none free = record {
  gained = λ p h. absurd (cc h);
  kept = λ other p h. h;
}
provision-Binds w claim ns k size am (some sc) free = record {
  gained = λ p h.
      subst (λ q. IsHeld (provision w claim ns k size am (some sc)).1.pvs claim q) (some-inj h)
        (record {
          volume = _;
          stored = lookup-insert_self (auto_name sc) _ w.pvs;
          is_bound = refl;
          by_claim = refl;
        });
  kept = λ other p h. record {
    volume = h.volume;
    stored = insert-keeps (auto_name sc) p _ h.volume w.pvs (free sc refl) h.stored;
    is_bound = h.is_bound;
    by_claim = h.by_claim;
  };
}

bind_claim-Binds :
    (w : DesiredWorld) (claim ns k size am : Text) (o : Option Text)
    → ((p : Text) → o ≡ some p → IsFree w.pvs p)
    → NamesFree w
    → Binds w claim (bind_claim w claim ns k size am o)
unfolding bind_claim
bind_claim-Binds w claim ns k size am none found free =
    provision-Binds w claim ns k size am (lookup k w.storage_classes) (free k)
bind_claim-Binds w claim ns k size am (some q) found free = record {
  gained = λ p h. record {
    volume = bind_to claim (found q refl).volume;
    stored =
        ground
          (arith, lookup-modify q p (bind_to claim) w.pvs, text_eq_iff q p, (found q refl).stored);
    is_bound = refl;
    by_claim = refl;
  };
  kept = λ other p h. record {
    volume = h.volume;
    stored = ground (
      arith,
      lookup-modify q p (bind_to claim) w.pvs,
      text_eq_iff q p,
      (found q refl).stored,
      (found q refl).is_free,
      h.stored,
      h.is_bound,
    );
    is_bound = h.is_bound;
    by_claim = h.by_claim;
  };
}

stored-AreBound :
    (w : DesiredWorld) (claim : Text) (got : Option Text × DesiredWorld × List Effect)
    (c : StoredPvc)
    → AreBound w
    → Binds w claim got
    → c.bound_pv ≡ got.0
    → AreBound (record got.1 { pvcs = insert claim c w.pvcs })
stored-AreBound w claim got c inv b e = record {
  holds = λ other p d found bound. elim (Bool-cases (text_eq claim other)) [
    | inl y ↦
        (let stored : some c ≡ some d = ground (arith, lookup-insert claim other c w.pvcs) in
          let one : c ≡ d = cc stored in
          subst (λ o. IsHeld got.1.pvs o p) (text_eq_sound claim other y)
            (b.gained p (sym e ∙ ap (λ x. x.bound_pv) one ∙ bound)))
    | inr n ↦
        b.kept other p
          (inv.holds other p d (ground (arith, lookup-insert claim other c w.pvcs)) bound)
  ];
}

store_claim-AreBound :
    (w : DesiredWorld) (r : Resource) (spec : Yaml)
    → AreBound w
    → NamesFree w
    → AreBound (store_claim w r spec).world
unfolding store_claim
store_claim-AreBound w r spec inv free =
    stored-AreBound w r.metadata.name _ _ inv
      (bind_claim-Binds w r.metadata.name _ _ _ _ _ (first_fit-IsFree _ _ w.pvs (keys w.pvs)) free)
      refl

-- A claim that is applied in a world where every bound claim has its volume, bound to it, leaves
-- such a world, if the name that each storage class gives to its next volume is not taken.
pub apply_claim-AreBound :
    (w : DesiredWorld) (r : Resource) → AreBound w → NamesFree w → AreBound (apply_claim w r).world
unfolding apply_claim needs failed
apply_claim-AreBound w r inv free = of_spec r.spec
  where
    of_spec : (o : Option Yaml) → AreBound (needs o no_spec w (store_claim w r)).world
    of_spec none = inv
    of_spec (some spec) = store_claim-AreBound w r spec inv free
