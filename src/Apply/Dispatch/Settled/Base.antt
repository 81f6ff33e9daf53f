-- ===== src/Apply/Dispatch/Settled/Base.antt =====
-- Steps of the world whose second run changes nothing.
use royak.Prelude.{
  if◌then◌else◌, ◌>>=◌, Map, insert, Text, text_eq_refl, contains, ◌≡◌, refl, sym, ap, ◌∙◌, subst,
  ◌⊎◌, inl, inr, Bool, true, false, Option, none, some, List, [], ◌∷◌, ◌++◌, arith,
}
use royak.Apply.Base.{Arm, Applied, failed, needs}
use royak.Apply.Settings.{set_config, kept, kept_some}
use royak.Apply.Runs.{PanickingArm}
use royak.Apply.Dispatch.{sure}
use royak.World.Manifest.{Resource, ClusterConfigSpec}
use royak.World.Cluster.{StoredConfig}
use royak.World.State.{DesiredWorld}

-- The second run of a step of the world changes nothing.
abbrev pub Twice : (DesiredWorld → Applied) → Type 0
Twice k = (w : DesiredWorld) → (k (k w).world).world ≡ (k w).world

pub record Settles (arm : PanickingArm) : Type 0 where
  pub again :
      (w : DesiredWorld) (r : Resource) (a b : Applied)
      → arm w r ≡ some a
      → arm a.world r ≡ some b
      → b.world ≡ a.world

pub if-Settles :
    {h k : PanickingArm} (b : Bool)
    → (b ≡ true → Settles h)
    → Settles k
    → Settles (if b then h else k)
if-Settles true p q = p refl
if-Settles false p q = q

pub some-inj : {a b : Applied} → some a ≡ some b → a ≡ b
some-inj e = cc e

pub sure-Settles : (arm : Arm) → ((r : Resource) → Twice (λ w. arm w r)) → Settles (sure arm)
sure-Settles arm h = record {
  again = λ w r a b e f.
      ap (λ x. x.world) (sym (some-inj f))
      ∙ subst (λ x. (arm x.world r).world ≡ x.world) (some-inj e) (h r w);
}

pub needs-Twice {ℓ} :
    {A : Type ℓ} (o : Option A) (message : DesiredWorld → Text) (k : DesiredWorld → A → Applied)
    → ((a : A) → Twice (λ w. k w a))
    → Twice (λ w. needs o (message w) w (k w))
unfolding needs failed
needs-Twice none message k h w = refl
needs-Twice (some a) message k h w = h a w

pub either-Twice {ℓ κ} :
    {A : Type ℓ} {B : Type κ} (x : A ⊎ B) (f : DesiredWorld → A → Applied)
    (g : DesiredWorld → B → Applied)
    → ((a : A) → Twice (λ w. f w a))
    → ((b : B) → Twice (λ w. g w b))
    → Twice (λ w. elim x [ inl a ↦ f w a | inr b ↦ g w b ])
either-Twice (inl a) f g h k w = h a w
either-Twice (inr b) f g h k w = k b w

pub insert-twice {ℓ} :
    {V : Type ℓ} (k : Text) (v : V) (m : Map V) → insert k v (insert k v m) ≡ insert k v m
unfolding insert
insert-twice k v [] = ground (arith, text_eq_refl k)
insert-twice k v ((j, u) ∷ m) = ground (arith, insert-twice k v m)

contains-push : (ss : List Text) (s : Text) → contains (ss ++ s ∷ []) s ≡ true
unfolding contains
contains-push [] s = ground (arith, text_eq_refl s)
contains-push (t ∷ ss) s = ground (arith, contains-push ss s)

pub push_new-twice :
    (ss : List Text) (s : Text)
    → let once = if contains ss s then ss else ss ++ s ∷ [] in
      (if contains once s then once else once ++ s ∷ []) ≡ once
push_new-twice ss s = ground (arith, contains-push ss s)

kept-twice {ℓ} : {A : Type ℓ} (o : Option A) (a : A) → kept o (kept o a) ≡ kept o a
kept-twice none a = refl
kept-twice (some x) a = refl

kept_some-twice {ℓ} : {A : Type ℓ} (o a : Option A) → kept_some o (kept_some o a) ≡ kept_some o a
kept_some-twice none a = refl
kept_some-twice (some x) a = refl

pub set_config-twice :
    (cfg : ClusterConfigSpec) (c : StoredConfig)
    → set_config cfg (set_config cfg c) ≡ set_config cfg c
unfolding set_config
set_config-twice cfg c = λ i. record {
  llm_host = kept-twice (cfg.llm >>= λ l. l.host) c.llm_host i;
  llm_model = kept-twice (cfg.llm >>= λ l. l.model) c.llm_model i;
  llm_temperature = kept-twice (cfg.llm >>= λ l. l.temperature) c.llm_temperature i;
  alert_webhook = kept_some-twice (cfg.alerts >>= λ a. a.webhook) c.alert_webhook i;
  alert_on_anomaly = kept-twice (cfg.alerts >>= λ a. a.on_anomaly) c.alert_on_anomaly i;
  alert_on_restart = kept-twice (cfg.alerts >>= λ a. a.on_restart) c.alert_on_restart i;
  alert_on_rollout = kept-twice (cfg.alerts >>= λ a. a.on_rollout) c.alert_on_rollout i;
  runtime = kept-twice cfg.runtime c.runtime i;
  pause_default_idle =
      kept-twice (cfg.pause >>= λ p. p.default_idle_seconds) c.pause_default_idle i;
  pause_enabled = kept-twice (cfg.pause >>= λ p. p.enabled) c.pause_enabled i;
  api_port = kept-twice (cfg.api >>= λ p. p) c.api_port i;
}
