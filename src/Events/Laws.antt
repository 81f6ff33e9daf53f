-- ===== src/Events/Laws.antt =====
-- The journal stays short and has one event for each object and reason.
use royak.Prelude.{
  ltb, if◌then◌else◌, not_ltb→le, Bool-cases, length, drop, any, length-append, length-drop, Text,
  text_eq_iff, ℕ, zero, suc, ◌≤◌, ◌≡◌, refl, ◌∙◌, inl, inr, Bool, false, ◌||◌, List, [], ◌∷◌, ◌++◌,
  arith,
}
use mathlib.Core.Option
use royak.Events.{is_about, repeat_first, record_event}
use royak.World.Cluster.{ClusterEvent}

-- No two events are about the same object and reason.
unfoldable pub IsDistinct : List ClusterEvent → Type 0
IsDistinct [] = Unit
IsDistinct (e ∷ es) = (any (is_about e.object e.reason) es ≡ false) × IsDistinct es

-- At most two hundred events, about different things.
pub record IsJournal (events : List ClusterEvent) : Type 0 where
  pub short : length events ≤ 200
  pub distinct : IsDistinct events

module _ (now object reason message : Text) where
  length-repeat_first :
      (es : List ClusterEvent) → length (repeat_first now object reason message es) ≡ length es
  unfolding repeat_first
  length-repeat_first [] = refl
  length-repeat_first (e ∷ es) = ground (arith, length-repeat_first es)

  any-repeat_first :
      (o r : Text) (es : List ClusterEvent)
      → any (is_about o r) (repeat_first now object reason message es) ≡ any (is_about o r) es
  unfolding repeat_first any
  any-repeat_first o r [] = refl
  any-repeat_first o r (e ∷ es) = ground (arith, any-repeat_first o r es)

  repeat_first-IsDistinct :
      (es : List ClusterEvent)
      → IsDistinct es
      → IsDistinct (repeat_first now object reason message es)
  unfolding repeat_first IsDistinct
  repeat_first-IsDistinct [] d = d
  repeat_first-IsDistinct (e ∷ es) d = elim (Bool-cases (is_about object reason e)) [
    | inl h ↦ rw h (d.0, d.1)
    | inr h ↦ rw h (any-repeat_first e.object e.reason es ∙ d.0, repeat_first-IsDistinct es d.1)
  ]

any-push :
    {A : Type 0} (p : A → Bool) (xs : List A) (x : A) → any p (xs ++ x ∷ []) ≡ any p xs || p x
unfolding any
any-push p [] x = ground arith
any-push p (y ∷ ys) x = ground (arith, any-push p ys x)

is_about_sym : (e f : ClusterEvent) → is_about e.object e.reason f ≡ is_about f.object f.reason e
is_about_sym e f = ground (
  arith,
  text_eq_iff f.object e.object,
  text_eq_iff e.object f.object,
  text_eq_iff f.reason e.reason,
  text_eq_iff e.reason f.reason,
)

push-IsDistinct :
    (es : List ClusterEvent) (e : ClusterEvent)
    → IsDistinct es
    → any (is_about e.object e.reason) es ≡ false
    → IsDistinct (es ++ e ∷ [])
unfolding IsDistinct any
push-IsDistinct [] e d h = (refl, tt)
push-IsDistinct (f ∷ fs) e d h = (
  ground (arith, any-push (is_about f.object f.reason) fs e, is_about_sym f e, d.0),
  push-IsDistinct fs e d.1 (ground arith),
)

drop-IsDistinct : (n : ℕ) (es : List ClusterEvent) → IsDistinct es → IsDistinct (drop n es)
unfolding IsDistinct
drop-IsDistinct zero es d = d
drop-IsDistinct (suc n) [] d = d
drop-IsDistinct (suc n) (e ∷ es) d = drop-IsDistinct n es d.1

shorten :
    (es : List ClusterEvent)
    → length es ≤ 201
    → IsDistinct es
    → IsJournal (if ltb 200 (length es) then drop 100 es else es)
shorten es l d = elim (Bool-cases (ltb 200 (length es))) [
  | inl e ↦
      rw e
        (record { short = ground (arith, length-drop 100 es); distinct = drop-IsDistinct 100 es d })
  | inr e ↦ rw e (record { short = not_ltb→le 200 (length es) e; distinct = d })
]

module _ (now kind object reason message event_type : Text) where
  abbrev pub event : ClusterEvent
  event = record {
    kind = kind;
    object = object;
    reason = reason;
    message = message;
    event_type = event_type;
    count = 1;
    first_seen = now;
    last_seen = now;
  }

  -- A journal of at most two hundred events, no two of them about the same object and reason, is
  -- one again after an event was recorded.
  pub record_event-IsJournal :
      (events : List ClusterEvent)
      → IsJournal events
      → IsJournal (record_event now kind object reason message event_type events)
  unfolding record_event
  record_event-IsJournal events j = elim (Bool-cases (any (is_about object reason) events)) [
    | inl e ↦ rw e (record {
      short = rw (length-repeat_first now object reason message events) j.short;
      distinct = repeat_first-IsDistinct now object reason message events j.distinct;
    })
    | inr e ↦ rw e (
        shorten (events ++ event ∷ []) (ground (arith, j.short, length-append events (event ∷ [])))
          (push-IsDistinct events event j.distinct e))
  ]
