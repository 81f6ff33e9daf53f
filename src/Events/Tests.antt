-- ===== src/Events/Tests.antt =====
-- Two events, one of them twice.
use royak.Prelude.{any, Text, codes, text_eq, ◌≡◌, refl, List, [], ◌∷◌, map, arith}
use royak.Events.{record_event, repeat_first}
use royak.Events.Laws.{IsDistinct, IsJournal, record_event-IsJournal}
use royak.World.Cluster.{ClusterEvent}

abbrev started : Text → List ClusterEvent → List ClusterEvent
started now events =
    record_event now (codes "Pod") (codes "web-1") (codes "Started") (codes "up") (codes "Normal")
      events

abbrev journal : List ClusterEvent
journal = started (codes "7") []

empty-IsJournal : IsJournal []
unfolding IsDistinct
empty-IsJournal = record { short = omega arith; distinct = tt }

record_event-IsJournal_example : IsJournal (started (codes "7") [])
record_event-IsJournal_example =
    record_event-IsJournal (codes "7") (codes "Pod") (codes "web-1") (codes "Started") (codes "up")
      (codes "Normal") [] empty-IsJournal

counted : map (λ e. e.count) (started (codes "9") journal) ≡ 2 ∷ []
unfolding record_event repeat_first any text_eq
counted = refl
