-- ===== src/Raft/Machine.antt =====
-- What applying a batch of committed entries does to the Raft store and to the world.
use royak.Raft.{
  Entry, StoredMembership, NeuroStore, LogId, Payload, apply_to_state_machine, apply_entry,
  apply_payload, Manifests, Command, set_runtime, run_command, apply_command,
}
use royak.Prelude.{
  List, [], ◌∷◌, length, ap, arith, refl, ◌∙◌, ◌>>=◌, codes, Text, text_eq, ◌≡◌, refl, subst, false,
  Option, none, some, ◌++◌,
}
use royak.World.State.{DesiredWorld}

-- The id of the last entry of a batch, and the one from before for an empty batch.
unfoldable pub last_id :
    {Leader Membership : Type 0}
    → Option (LogId Leader)
    → List (Entry Leader Membership)
    → Option (LogId Leader)
last_id before [] = before
last_id before (e ∷ es) = last_id (some e.log_id) es

-- The membership that the last membership entry of a batch sets.
unfoldable pub last_members :
    {Leader Membership : Type 0}
    → StoredMembership Leader Membership
    → List (Entry Leader Membership)
    → StoredMembership Leader Membership
last_members before [] = before
last_members before (e ∷ es) = elim e.payload [
  | Payload.blank ↦ last_members before es
  | Payload.normal cmd ↦ last_members before es
  | Payload.membership members ↦
      last_members (record { log_id = some e.log_id; members = members }) es
]

-- The commands of a batch.
unfoldable pub commands_of :
    {Leader Membership : Type 0} → List (Entry Leader Membership) → List Command
commands_of [] = []
commands_of (e ∷ es) = elim e.payload [
  | Payload.blank ↦ commands_of es
  | Payload.normal cmd ↦ cmd ∷ commands_of es
  | Payload.membership members ↦ commands_of es
]

-- The world after some commands, one after the other.
unfoldable pub replayed : Manifests → DesiredWorld → List Command → Option DesiredWorld
replayed m w [] = some w
replayed m w (cmd ∷ cmds) = apply_command m w cmd >>= λ done. replayed m done.1 cmds

bind-some :
    {A B : Type 0} (o : Option A) (f : A → Option B) {b : B}
    → (o >>= f) ≡ some b
    → (a : A) × (o ≡ some a) × (f a ≡ some b)
bind-some none f e = absurd (cc e)
bind-some (some a) f e = (a, refl, e)

some-inj : {A : Type 0} {x y : A} → some x ≡ some y → x ≡ y
some-inj e = cc e

module _ {Leader Vote Membership : Type 0} (m : Manifests) where
  -- What a batch makes of the store, and how many responses it gives.
  pub record AppliedAll (s : NeuroStore Leader Vote Membership)
      (es : List (Entry Leader Membership)) (responses : List Text)
      (t : NeuroStore Leader Vote Membership) : Type 0 where
    pub each_answered : length responses ≡ length es
    pub at_last : t.last_applied ≡ last_id s.last_applied es
    pub at_members : t.last_membership ≡ last_members s.last_membership es
    pub at_world : replayed m s.world (commands_of es) ≡ some t.world
    pub same_log : t.log ≡ s.log
    pub same_vote : t.vote ≡ s.vote
    pub same_purged : t.last_purged ≡ s.last_purged

  -- One entry in front of a batch: `s1` is the store that it leaves.
  in_front :
      (s s1 : NeuroStore Leader Vote Membership) (e : Entry Leader Membership)
      (es : List (Entry Leader Membership)) (response : Text) (responses : List Text)
      (t : NeuroStore Leader Vote Membership)
      → s1.last_applied ≡ some e.log_id
      → last_members s1.last_membership es ≡ last_members s.last_membership (e ∷ es)
      → replayed m s.world (commands_of (e ∷ es)) ≡ replayed m s1.world (commands_of es)
      → s1.log ≡ s.log
      → s1.vote ≡ s.vote
      → s1.last_purged ≡ s.last_purged
      → AppliedAll s1 es responses t
      → AppliedAll s (e ∷ es) (response ∷ responses) t
  unfolding last_id
  in_front s s1 e es response responses t at members world log vote purged rest = record {
    each_answered = ground (arith, rest.each_answered);
    at_last = rest.at_last ∙ ap (λ o. last_id o es) at;
    at_members = rest.at_members ∙ members;
    at_world = world ∙ rest.at_world;
    same_log = rest.same_log ∙ log;
    same_vote = rest.same_vote ∙ vote;
    same_purged = rest.same_purged ∙ purged;
  }

  apply_payload-AppliedAll :
      (s : NeuroStore Leader Vote Membership) (id : LogId Leader) (payload : Payload Membership)
      (es : List (Entry Leader Membership)) (responses : List Text)
      (t : NeuroStore Leader Vote Membership) (done : Text × NeuroStore Leader Vote Membership)
      → apply_payload m s id payload ≡ some done
      → AppliedAll done.1 es responses t
      → AppliedAll s (record { log_id = id; payload = payload } ∷ es) (done.0 ∷ responses) t
  unfolding apply_payload last_members commands_of replayed
  apply_payload-AppliedAll s id Payload.blank es responses t done h =
      let e : Entry Leader Membership = record { log_id = id; payload = Payload.blank } in
      subst (λ d. AppliedAll d.1 es responses t → AppliedAll s (e ∷ es) (d.0 ∷ responses) t)
        (some-inj h) (in_front s _ e es [] responses t refl refl refl refl refl refl)
  apply_payload-AppliedAll s id (Payload.normal cmd) es responses t done h =
      let e : Entry Leader Membership = record { log_id = id; payload = Payload.normal cmd } in
      let (ran, e1, e2) = bind-some (apply_command m s.world cmd) _ h in
      subst (λ d. AppliedAll d.1 es responses t → AppliedAll s (e ∷ es) (d.0 ∷ responses) t)
        (some-inj e2)
        (in_front s _ e es ran.0 responses t refl refl
          (ap (λ o. o >>= λ d. replayed m d.1 (commands_of es)) e1) refl refl refl)
  apply_payload-AppliedAll s id (Payload.membership members) es responses t done h =
      let e : Entry Leader Membership = record {
        log_id = id;
        payload = Payload.membership members;
      } in
      subst (λ d. AppliedAll d.1 es responses t → AppliedAll s (e ∷ es) (d.0 ∷ responses) t)
        (some-inj h) (in_front s _ e es [] responses t refl refl refl refl refl refl)

  -- A batch that is applied without a panic gives one response for each entry, brings the world to
  -- where its commands alone lead one after the other, records the last entry as the last applied one
  -- and the last membership entry as the membership, and leaves the log, the vote and the purge mark
  -- as they are.
  pub apply_to_state_machine-AppliedAll :
      (s : NeuroStore Leader Vote Membership) (es : List (Entry Leader Membership))
      (done : List Text × NeuroStore Leader Vote Membership)
      → apply_to_state_machine m s es ≡ some done
      → AppliedAll s es done.0 done.1
  unfolding apply_to_state_machine apply_entry last_id last_members commands_of replayed
  apply_to_state_machine-AppliedAll s [] done h =
      subst (λ d. AppliedAll s [] d.0 d.1) (some-inj h)
        (record {
          each_answered = refl;
          at_last = refl;
          at_members = refl;
          at_world = refl;
          same_log = refl;
          same_vote = refl;
          same_purged = refl;
        })
  apply_to_state_machine-AppliedAll s (e ∷ es) done h =
      let (first, e1, h1) = bind-some (apply_entry m s e) _ h in
      let (rest, e2, h2) = bind-some (apply_to_state_machine m first.1 es) _ h1 in
      subst (λ d. AppliedAll s (e ∷ es) d.0 d.1) (some-inj h2)
        (apply_payload-AppliedAll s e.log_id e.payload es rest.0 rest.1 first e1
          (apply_to_state_machine-AppliedAll first.1 es rest e2))

-- Whatever command is applied without a panic, the runtime that the world is configured with is not
-- `docker` afterwards.
pub apply_command-runtime :
    (m : Manifests) (w : DesiredWorld) (cmd : Command) (done : Text × DesiredWorld)
    → apply_command m w cmd ≡ some done
    → text_eq done.1.config.runtime (codes "docker") ≡ false
unfolding apply_command text_eq
apply_command-runtime m w cmd done h = of_run (run_command m w cmd) h
  where
    of_run :
        (o : Option (Text × DesiredWorld))
        → (o >>= λ d. some (d.0, set_runtime (codes "raft:[raft] " ++ d.0) d.1)) ≡ some done
        → text_eq done.1.config.runtime (codes "docker") ≡ false
    of_run none e = absurd (cc e)
    of_run (some d) e =
        subst (λ r. text_eq r.1.config.runtime (codes "docker") ≡ false) (some-inj e) refl
