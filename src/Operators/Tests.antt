-- ===== src/Operators/Tests.antt =====
-- A database that its operator provisions.
use royak.Prelude.{find, lookup, codes, text_eq, ◌-◌, ◌≡◌, refl, none, some, [], ◌∷◌}
use royak.Operators.{values, System, find_operator, first_missing}
use royak.Operators.Convergence.{three_rounds, reconcile_operators-converges}
use royak.World.Json.{Json}
use royak.World.Cluster.{Operator, OperatorComponent, CustomResource, CrStatus}
use royak.World.State.{DesiredWorld, new_world}

abbrev primary : OperatorComponent
primary = record {
  role = codes "primary";
  image = codes "postgres:16";
  replicas = 1;
  env = [];
  volumes = [];
  ports = [];
}

abbrev pg_operator : Operator
pg_operator = record {
  name = codes "pg-op";
  custom_kind = codes "PostgresCluster";
  provision = primary ∷ [];
  hooks = [];
  rules = [];
}

abbrev db : CustomResource
db = record {
  name = codes "db";
  kind = codes "PostgresCluster";
  namespace = codes "default";
  spec = Json.null;
  status = CrStatus.pending;
}

abbrev pg_world : DesiredWorld
pg_world = record new_world {
  operators = (codes "pg-op", pg_operator) ∷ [];
  custom_resources = (codes "db", db) ∷ [];
}

abbrev system : System
system = record { split_whitespace = λ s. s ∷ []; run = λ parts. []; to_uppercase = λ s. s }

reconcile_operators-converges_example :
    (lookup (codes "db") (three_rounds system pg_world).custom_resources
      ≡ some (record db { status = CrStatus.running }))
    × (first_missing (codes "db") (three_rounds system pg_world).deployments pg_operator.provision
        ≡ none)
unfolding lookup text_eq find_operator find royak.Prelude.values
reconcile_operators-converges_example =
    reconcile_operators-converges system pg_world (codes "db") db pg_operator refl refl refl
