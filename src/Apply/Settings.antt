-- ===== src/Apply/Settings.antt =====
-- src/reconcile.rs, `DesiredWorld::apply`: config maps, secrets, namespaces and the configuration.
use royak.Base64.{base64_decode}
use royak.World.Cluster.{StoredConfig}
use royak.World.Workloads.{StoredDeployment}
use royak.Prelude.{
  ◌==◌, if◌then◌else◌, unwrap_or, ◌>>=◌, decimal, length, any, Map, lookup, insert, Text, codes,
  text_eq, is_empty, contains, ℕ, inl, inr, Bool, true, false, not, ◌&&◌, Option, none, some, List,
  [], ◌∷◌, ◌++◌,
}
use royak.Apply.Base.{
  Arm, Readers, Effect, Outcome, done, failed, needs, namespace_of, no_spec, insert_all_new,
  entries_of, join,
}
use royak.World.Yaml.{Yaml, as_mapping}
use royak.World.Manifest.{Resource, ClusterConfigSpec, LlmConfig, AlertConfig, PauseConfig}

abbrev pub mapping_of : Option Yaml → Option (List (Yaml × Yaml))
mapping_of v = v >>= as_mapping

-- `old.data != data`
unfoldable pub covers : Map Text → Map Text → Bool
covers [] b = true
covers ((k, v) ∷ m) b = elim (lookup k b) [ none ↦ false | some w ↦ text_eq v w && covers m b ]

unfoldable pub same_values : Map Text → Map Text → Bool
unfolding covers
same_values a b = length a == length b && covers a b

-- The deployments of the namespace that take their environment from the config map.
unfoldable pub users_of : Text → Text → Map StoredDeployment → List Text
users_of config namespace [] = []
users_of config namespace ((dep_name, dep) ∷ m) =
    let rest = users_of config namespace m in
    if text_eq dep.namespace namespace
      && any (λ c. contains c.env_from_configmaps config) dep.containers
    then dep_name ∷ rest
    else rest

unfoldable pub restarts : List Text → List Effect
restarts [] = []
restarts (dep_name ∷ names) =
    Effect.restart_pods (codes "rk-" ++ dep_name ++ codes "-") ∷ restarts names

unfoldable pub config_entries : Resource → Map Text
config_entries r =
    insert_all_new (entries_of (mapping_of r.spec))
      (insert_all_new (entries_of (mapping_of r.values)) [])

abbrev arrow : Text
arrow = 226 ∷ 134 ∷ 146 ∷ []

unfoldable pub apply_config_map : Arm
apply_config_map w r =
    let name = r.metadata.name in
    let entries = config_entries r in
    let changed : Bool = elim (lookup name w.configmaps) [
      | none ↦ false
      | some old ↦ not (same_values old.values entries)
    ] in
    let after = record w {
      configmaps =
          insert name (record { name = name; namespace = namespace_of r; values = entries })
            w.configmaps;
    } in
    let restarted = users_of name (namespace_of r) w.deployments in
    let count = codes " (" ++ decimal (length entries) ++ codes " keys)" in
    record {
      outcome = Outcome.ok (
          if not changed
          then codes "configmap/" ++ name ++ codes " applied" ++ count
          else if is_empty restarted
          then codes "configmap/" ++ name ++ codes " updated" ++ count
          else codes "configmap/"
            ++ name
            ++ codes " updated "
            ++ arrow
            ++ codes " rolling restart: "
            ++ join (codes ", ") restarted);
      world = after;
      effects = if changed then restarts restarted else [];
    }

module _ (read : Readers) where
  unfoldable pub decoded : List (Text × Text) → List (Text × Text)
  decoded [] = []
  decoded ((k, v) ∷ es) = (k, unwrap_or (base64_decode read.from_utf8 v) v) ∷ decoded es

  unfoldable pub secret_entries : Resource → Map Text
  secret_entries r = insert_all_new (entries_of (mapping_of r.spec)) (
      insert_all_new (decoded (entries_of (mapping_of r.values)))
        (insert_all_new (entries_of (mapping_of r.string_data)) []))

  unfoldable pub apply_secret : Arm
  unfolding done
  apply_secret w r =
      let name = r.metadata.name in
      done
        (codes "secret/"
          ++ name
          ++ codes " applied ("
          ++ decimal (length (secret_entries r))
          ++ codes " keys)")
        (record w {
          secrets =
              insert name
                (record { name = name; namespace = namespace_of r; values = secret_entries r })
                w.secrets;
        })

unfoldable pub apply_namespace : Arm
unfolding done
apply_namespace w r =
    let name = r.metadata.name in
    done (codes "namespace/" ++ name ++ codes " created") (record w {
      namespaces = if contains w.namespaces name then w.namespaces else w.namespaces ++ name ∷ [];
    })

-- `if let Some(a) = opt { c.field = a }`
abbrev pub kept {ℓ} : {A : Type ℓ} → Option A → A → A
kept none old = old
kept (some a) old = a

abbrev pub kept_some {ℓ} : {A : Type ℓ} → Option A → Option A → Option A
kept_some none old = old
kept_some (some a) old = some a

unfoldable pub set_config : ClusterConfigSpec → StoredConfig → StoredConfig
set_config cfg c = record {
  llm_host = kept (cfg.llm >>= λ l. l.host) c.llm_host;
  llm_model = kept (cfg.llm >>= λ l. l.model) c.llm_model;
  llm_temperature = kept (cfg.llm >>= λ l. l.temperature) c.llm_temperature;
  alert_webhook = kept_some (cfg.alerts >>= λ a. a.webhook) c.alert_webhook;
  alert_on_anomaly = kept (cfg.alerts >>= λ a. a.on_anomaly) c.alert_on_anomaly;
  alert_on_restart = kept (cfg.alerts >>= λ a. a.on_restart) c.alert_on_restart;
  alert_on_rollout = kept (cfg.alerts >>= λ a. a.on_rollout) c.alert_on_rollout;
  runtime = kept cfg.runtime c.runtime;
  pause_default_idle = kept (cfg.pause >>= λ p. p.default_idle_seconds) c.pause_default_idle;
  pause_enabled = kept (cfg.pause >>= λ p. p.enabled) c.pause_enabled;
  api_port = kept (cfg.api >>= λ p. p) c.api_port;
}

-- `changes.push(format!(…))` for a field that is there
abbrev change {ℓ} : {A : Type ℓ} → Text → Option A → (A → Text) → List Text
change label none show = []
change label (some a) show = (label ++ show a) ∷ []

module _ (read : Readers) where
  unfoldable pub changes : ClusterConfigSpec → List Text
  changes cfg =
      of_llm cfg.llm
      ++ of_alerts cfg.alerts
      ++ change (codes "runtime=") cfg.runtime (λ r. r)
      ++ of_pause cfg.pause
      ++ of_api cfg.api
    where
      of_llm : Option LlmConfig → List Text
      of_llm none = []
      of_llm (some l) =
          change (codes "llm.host=") l.host (λ h. h)
          ++ change (codes "llm.model=") l.model (λ m. m)
          ++ change (codes "llm.temp=") l.temperature read.show_f32

      of_alerts : Option AlertConfig → List Text
      of_alerts none = []
      of_alerts (some a) = change (codes "alerts.webhook=") a.webhook (λ u. u)

      of_pause : Option PauseConfig → List Text
      of_pause none = []
      of_pause (some p) =
          change (codes "pause.idle=") p.default_idle_seconds (λ d. decimal d ++ codes "s")

      of_api : Option (Option ℕ) → List Text
      of_api none = []
      of_api (some p) = change (codes "api.port=") p decimal

  unfoldable pub apply_config : Arm
  unfolding needs failed done
  apply_config w r = needs r.spec no_spec w (λ spec. elim (read.config_spec spec) [
    | inl e ↦ failed (codes "Config parse error: " ++ e) w
    | inr cfg ↦
        done (codes "config applied (" ++ join (codes ", ") (changes cfg) ++ codes ")")
          (record w { config = set_config cfg w.config })
  ])
