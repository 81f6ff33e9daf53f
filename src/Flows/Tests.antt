-- ===== src/Flows/Tests.antt =====
-- A few flows.
use royak.Prelude.{length, drop, codes, ℕ, ◌-◌, ◌≤◌, ◌≡◌, [], ◌∷◌, arith}
use royak.Flows.{max_flows, FlowRecord, record_flow, snapshot}
use royak.Flows.Laws.{record_all, record_all-keeps, snapshot-record_flow}

abbrev flow : ℕ → FlowRecord
flow n = record {
  via = codes "mesh";
  source = codes "10.0.0.1:5000";
  dest = codes "web";
  port = 80;
  bytes_up = n;
  bytes_down = n;
  started = n;
  duration_ms = 1;
}

record_all-keeps_example :
    let fs = flow 1 ∷ flow 2 ∷ [] in
    (record_all [] fs ≡ drop (length fs - max_flows) fs) × (length (record_all [] fs) ≤ max_flows)
record_all-keeps_example = record_all-keeps (flow 1 ∷ flow 2 ∷ [])

snapshot-record_flow_example :
    snapshot (record_flow (flow 1 ∷ flow 2 ∷ []) (flow 3)) 2
    ≡ flow 3 ∷ snapshot (flow 1 ∷ flow 2 ∷ []) 1
snapshot-record_flow_example = snapshot-record_flow (flow 1 ∷ flow 2 ∷ []) (flow 3) 1 (omega arith)
