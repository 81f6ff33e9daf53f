-- ===== src/Hpa/Tests.antt =====
-- Decisions with whole numbers in place of floats, and the theorems at them.
use royak.Samples.{web_world}
use royak.Prelude.{some, ◌==◌, if◌then◌else◌, ◌*◌, ◌/◌, ◌≡◌, refl, none, [], ◌∷◌, arith, codes, ltb}
use royak.World.Workloads.{StoredHpa}
use royak.World.State.{DesiredWorld}
use royak.Hpa.{FloatOps, hpa_decision}
use royak.Hpa.Laws.{RatioGrows, IsScaling, hpa_decision-IsScaling}

-- A quotient is rounded to 2 where it is above 1, and to 1 elsewhere.
abbrev whole : FloatOps
whole = record {
  mul = λ x y. if y == 0x3f000000 then x / 2 else x * y;
  div = λ x y. if ltb y x then 2 else 1;
  lt = ltb;
  of_u32 = λ n. n;
  ceil_u32 = λ x. x;
}

whole-RatioGrows : RatioGrows whole
whole-RatioGrows = record {
  grows = λ current avg target small positive more. rw more (omega arith);
}

doubles : hpa_decision whole 3 140 70 1 10 100 60 ≡ some 6
unfolding hpa_decision
doubles = refl

cools_down : hpa_decision whole 3 140 70 1 10 59 60 ≡ none
unfolding hpa_decision
cools_down = refl

hpa_decision-IsScaling_example : IsScaling whole 3 140 70 1 10 100 60 6
unfolding hpa_decision
hpa_decision-IsScaling_example =
    hpa_decision-IsScaling whole 3 140 70 1 10 100 60 6 whole-RatioGrows (omega arith) refl refl

abbrev web_hpa : StoredHpa
web_hpa = record {
  name = codes "web";
  deployment = codes "web";
  min_replicas = 1;
  max_replicas = 10;
  target_cpu = 70;
  history = [];
  last_scaled = none;
}

abbrev loaded : DesiredWorld
loaded = record web_world { hpas = (codes "web", web_hpa) ∷ [] }
