-- ===== src/Events.antt =====
-- src/reconcile.rs, `DesiredWorld::record_event`: the journal of cluster events. The time is an
-- argument, as the text that the source makes of it.
pub mod Laws
mod Tests
use royak.Prelude.{
  ltb, if◌then◌else◌, length, drop, any, Text, text_eq, ◌+◌, ◌%◌, ◌^◌, Bool, ◌&&◌, List, [], ◌∷◌,
  ◌++◌,
}
use royak.World.Cluster.{ClusterEvent}

abbrev pub is_about : Text → Text → ClusterEvent → Bool
is_about object reason e = text_eq e.object object && text_eq e.reason reason

-- `existing.count += 1`, on a u32, with the other two fields.
abbrev pub repeated : Text → Text → ClusterEvent → ClusterEvent
repeated now message e = record e {
  count = (e.count + 1) % 2 ^ 32;
  last_seen = now;
  message = message;
}

-- The first event about the object and reason is updated in place.
unfoldable pub repeat_first : Text → Text → Text → Text → List ClusterEvent → List ClusterEvent
repeat_first now object reason message [] = []
repeat_first now object reason message (e ∷ es) =
    let rest = repeat_first now object reason message es in
    if is_about object reason e then repeated now message e ∷ es else e ∷ rest

unfoldable pub record_event :
    Text → Text → Text → Text → Text → Text → List ClusterEvent → List ClusterEvent
record_event now kind object reason message event_type events =
    let event : ClusterEvent = record {
      kind = kind;
      object = object;
      reason = reason;
      message = message;
      event_type = event_type;
      count = 1;
      first_seen = now;
      last_seen = now;
    } in
    let pushed = events ++ event ∷ [] in
    if any (is_about object reason) events
    then repeat_first now object reason message events
    else if ltb 200 (length pushed)
    then drop 100 pushed
    else pushed
