-- ===== src/Apply/Dispatch/Atomic/Base.antt =====
-- What an arm that changes nothing on an error is, for the ways an arm is composed.
use royak.Prelude.{
  if◌then◌else◌, Text, ◌≡◌, refl, subst, ◌⊎◌, inl, inr, Bool, true, false, Option, none, some,
}
use royak.Apply.Base.{Arm, Outcome, Applied, failed, done, needs}
use royak.Apply.Runs.{PanickingArm}
use royak.Apply.Dispatch.{sure}
use royak.World.Manifest.{Resource}
use royak.World.State.{DesiredWorld}

-- A result that is an error has the world from before.
abbrev pub Keeps : DesiredWorld → Applied → Type 0
Keeps w a = (e : Text) → a.outcome ≡ Outcome.err e → a.world ≡ w

pub record Atomic (arm : PanickingArm) : Type 0 where
  pub keeps : (w : DesiredWorld) (r : Resource) (a : Applied) → arm w r ≡ some a → Keeps w a

pub if-Atomic : {h k : PanickingArm} (b : Bool) → Atomic h → Atomic k → Atomic (if b then h else k)
if-Atomic true p q = p
if-Atomic false p q = q

pub sure-Atomic :
    (arm : Arm) → ((w : DesiredWorld) (r : Resource) → Keeps w (arm w r)) → Atomic (sure arm)
sure-Atomic arm h = record { keeps = λ w r a e. subst (Keeps w) (some-inj e) (h w r) }
  where
    some-inj : {a b : Applied} → some a ≡ some b → a ≡ b
    some-inj e = cc e

pub done-Keeps : (message : Text) (w w' : DesiredWorld) → Keeps w (done message w')
unfolding done
done-Keeps message w w' e h = absurd (cc h)

pub failed-Keeps : (message : Text) (w : DesiredWorld) → Keeps w (failed message w)
unfolding failed
failed-Keeps message w e h = refl

ok_ne_err : {m e : Text} → Outcome.ok m ≡ Outcome.err e → ⊥
ok_ne_err h = cc h

pub needs-Keeps {ℓ} :
    {A : Type ℓ} (o : Option A) (message : Text) (w : DesiredWorld) (k : A → Applied)
    → ((a : A) → Keeps w (k a))
    → Keeps w (needs o message w k)
unfolding needs
needs-Keeps none message w k h = failed-Keeps message w
needs-Keeps (some a) message w k h = h a

pub if-Keeps :
    (w : DesiredWorld) (b : Bool) (x y : Applied)
    → Keeps w x
    → Keeps w y
    → Keeps w (if b then x else y)
if-Keeps w true x y h k = h
if-Keeps w false x y h k = k

pub either-Keeps {ℓ κ} :
    {A : Type ℓ} {B : Type κ} (w : DesiredWorld) (x : A ⊎ B) (f : A → Applied) (g : B → Applied)
    → ((a : A) → Keeps w (f a))
    → ((b : B) → Keeps w (g b))
    → Keeps w (elim x [ inl a ↦ f a | inr b ↦ g b ])
either-Keeps w (inl a) f g h k = h a
either-Keeps w (inr b) f g h k = k b

-- An arm that keeps the world on an error, as the cases of the match need it.
abbrev pub KeepsArm : Arm → Type 0
KeepsArm arm = (w : DesiredWorld) (r : Resource) → Keeps w (arm w r)
