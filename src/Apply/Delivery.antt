-- ===== src/Apply/Delivery.antt =====
-- src/reconcile.rs, `DesiredWorld::apply`: functions, repositories and pipelines.
use royak.World.Workloads.{FunctionState, StoredTrigger, StoredStage, StoredFunction}
use royak.Prelude.{
  if◌then◌else◌, is_some, unwrap_or, ◌>>=◌, decimal, parse_unsigned, length, insert, Text, codes,
  text_eq, ℕ, ◌+◌, ◌*◌, ◌%◌, ◌^◌, inl, inr, ◌||◌, Option, none, some, List, [], ◌∷◌, ◌++◌, map,
}
use royak.Apply.Base.{
  Arm, Readers, done, failed, needs, no_spec, env_of, somes, parse_u64, ends_with, trim_end_matches,
}
use royak.World.Manifest.{FunctionSpec, PipelineStage, PipelineTrigger, EnvVar}

unfoldable pub runtime_image : Option Text → Text
runtime_image none = codes "alpine:latest"
runtime_image (some r) =
    if text_eq r (codes "python3.12") || text_eq r (codes "python")
    then codes "python:3.12-alpine"
    else if text_eq r (codes "python3.11")
    then codes "python:3.11-alpine"
    else if text_eq r (codes "node20") || text_eq r (codes "node")
    then codes "node:20-alpine"
    else if text_eq r (codes "rust")
    then codes "rust:alpine"
    else if text_eq r (codes "go")
    then codes "golang:alpine"
    else r

unfoldable pub timeout_of : Text → Option ℕ
timeout_of t = parse_u64 (trim_end_matches (trim_end_matches t (codes "s")) (codes "m")) >>= λ v.
    some (if ends_with t (codes "m") then (v * 60) % 2 ^ 64 else v)

unfoldable pub memory_of : Text → Option ℕ
memory_of m =
    parse_unsigned (2 ^ 32) (trim_end_matches (trim_end_matches m (codes "Mi")) (codes "Gi"))
    >>= λ v. some (if ends_with m (codes "Gi") then (v * 1024) % 2 ^ 32 else v)

unfoldable pub function_command : FunctionSpec → Option (List Text)
function_command f = elim f.command [
  | some c ↦ some c
  | none ↦ f.handler >>= λ h. some (codes "sh" ∷ codes "-c" ∷ h ∷ [])
]

unfoldable pub function_from : Text → FunctionSpec → StoredFunction
unfolding function_command runtime_image timeout_of memory_of
function_from name f =
    let triggers = unwrap_or f.trigger [] in
    record {
      name = name;
      image = unwrap_or f.image (runtime_image f.runtime);
      command = function_command f;
      env = env_of f.env;
      http_triggers = somes (map (λ t. t.http) triggers);
      webhook_triggers = somes (map (λ t. t.webhook) triggers);
      schedule_triggers = somes (map (λ t. t.schedule) triggers);
      timeout_secs = unwrap_or (f.timeout >>= timeout_of) 30;
      memory_mb = unwrap_or (f.memory >>= memory_of) 128;
      code = f.code;
      container_id = none;
      invocations = 0;
      last_invoked = none;
      state = FunctionState.cold;
    }

unfoldable pub args_of : List EnvVar → List (Text × Text)
args_of [] = []
args_of (e ∷ es) =
    let rest = args_of es in elim e.value [ none ↦ rest | some v ↦ (e.name, v) ∷ rest ]

unfoldable pub stage_from : PipelineStage → StoredStage
unfolding args_of
stage_from s = record {
  name = s.name;
  image = s.image;
  command = s.command;
  action = s.action;
  file = s.file;
  context = s.context;
  dockerfile = s.dockerfile;
  tag = s.tag;
  build_args = args_of (unwrap_or s.args []);
  artifacts = unwrap_or s.artifacts [];
  depends_on = s.depends_on;
  env = env_of s.env;
  if_condition = s.if_condition;
  matrix_images = unwrap_or (s.matrix >>= λ m. m.image) [];
  matrix_envs = unwrap_or (s.matrix >>= λ m. m.env) [];
}

unfoldable pub trigger_from : PipelineTrigger → StoredTrigger
trigger_from t = record { trigger_type = t.trigger_type; path = t.path }

module _ (read : Readers) where
  unfoldable pub apply_function : Arm
  unfolding needs done failed
  apply_function w r = needs r.spec no_spec w (λ spec. elim (read.function_spec spec) [
    | inl e ↦ failed (codes "Function parse error: " ++ e) w
    | inr f ↦
        let name = r.metadata.name in
        let stored = function_from name f in
        done
          (codes "function/"
            ++ name
            ++ codes " deployed ("
            ++ stored.image
            ++ codes ", "
            ++ decimal (
                length stored.http_triggers
                + length stored.webhook_triggers
                + length stored.schedule_triggers)
            ++ codes " triggers, "
            ++ decimal stored.timeout_secs
            ++ codes "s timeout)")
          (record w { functions = insert name stored w.functions })
  ])

  unfoldable pub apply_repository : Arm
  unfolding needs done failed
  apply_repository w r = needs r.spec no_spec w (λ spec. elim (read.repository_spec spec) [
    | inl e ↦ failed (codes "Repository parse error: " ++ e) w
    | inr repo ↦
        let name = r.metadata.name in
        let branch = unwrap_or repo.branch (codes "main") in
        let source = unwrap_or repo.url (unwrap_or repo.path (codes "?")) in
        done
          (codes "repository/"
            ++ name
            ++ codes " registered ("
            ++ source
            ++ codes ":"
            ++ branch
            ++ codes ")"
            ++ (if is_some repo.pipeline then codes " (auto-trigger)" else []))
          (record w {
            repositories =
                insert name
                  (record {
                    name = name;
                    url = repo.url;
                    path = repo.path;
                    branch = branch;
                    secret_ref = repo.secret_ref;
                    pipeline = repo.pipeline;
                    last_commit = none;
                  })
                  w.repositories;
          })
  ])

  unfoldable pub apply_pipeline : Arm
  unfolding needs done failed
  apply_pipeline w r = needs r.spec no_spec w (λ spec. elim (read.pipeline_spec spec) [
    | inl e ↦ failed (codes "Pipeline parse error: " ++ e) w
    | inr p ↦
        let name = r.metadata.name in
        let triggers = map trigger_from (unwrap_or p.trigger []) in
        let stages = map stage_from p.stages in
        done
          (codes "pipeline/"
            ++ name
            ++ codes " defined ("
            ++ decimal (length stages)
            ++ codes " stages, "
            ++ decimal (length triggers)
            ++ codes " triggers)")
          (record w {
            pipelines =
                insert name (record { name = name; stages = stages; triggers = triggers })
                  w.pipelines;
          })
  ])
