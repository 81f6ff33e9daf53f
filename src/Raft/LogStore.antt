-- ===== src/Raft/LogStore.antt =====
-- The log of the Raft store after any sequence of the operations that change it.
use royak.Prelude.{
  leb, ◌==◌, if◌then◌else◌, Option-cases, ℕ, ◌<◌, ◌≡◌, refl, sym, ap, ◌∙◌, ◌⊎◌, inl, inr, Option,
  none, some, List, [], ◌∷◌, arith,
}
use royak.Raft.Log.{
  Above, get_at-insert_at, get_at-drop_range, insert_at-Above, remove_keys-Above, last_value-some,
  last_value-none,
}
use royak.Raft.{
  LogId, Entry, NeuroStore, insert_at, get_at, last_value, StoredMembership, new_store,
  get_log_state, insert_entries, append_to_log, delete_conflict_logs_since, purge_logs_upto,
}
use royak.World.State.{DesiredWorld}

pub data LogOp (Leader Membership : Type 0) : Type 0 where
  append : List (Entry Leader Membership) → LogOp Leader Membership
  conflict : LogId Leader → LogOp Leader Membership
  purge : LogId Leader → LogOp Leader Membership

module _ {Leader Membership : Type 0} where
  -- The last of the entries that has an index.
  unfoldable pub entry_for : ℕ → List (Entry Leader Membership) → Option (Entry Leader Membership)
  entry_for j [] = none
  entry_for j (e ∷ es) = elim (entry_for j es) [
    | some f ↦ some f
    | none ↦ if e.log_id.index == j then some e else none
  ]

  -- What each operation makes of the entry at an index.
  unfoldable pub effect :
      LogOp Leader Membership
      → ℕ
      → Option (Entry Leader Membership)
      → Option (Entry Leader Membership)
  unfolding entry_for
  effect (LogOp.append es) j old = elim (entry_for j es) [ none ↦ old | some e ↦ some e ]
  effect (LogOp.conflict id) j old = if leb id.index j then none else old
  effect (LogOp.purge id) j old = if leb j id.index then none else old

  unfoldable pub effects :
      List (LogOp Leader Membership)
      → ℕ
      → Option (Entry Leader Membership)
      → Option (Entry Leader Membership)
  effects [] j old = old
  effects (op ∷ ops) j old = effects ops j (effect op j old)

  -- The log in order of its keys: `f` is what stands at each index, and `last` the id of the entry
  -- at the greatest one, or `purged` where there is none.
  pub record Holds (s_log : List (ℕ × Entry Leader Membership))
      (f : ℕ → Option (Entry Leader Membership)) (purged last : Option (LogId Leader))
      : Type 0 where
    pub at : (j : ℕ) → get_at j s_log ≡ f j
    pub last_id :
        (((j : ℕ) → f j ≡ none) × (last ≡ purged))
        ⊎ ((k : ℕ) × (e : Entry Leader Membership) × (f k ≡ some e)
            × ((j : ℕ) → k < j → f j ≡ none)
            × (last ≡ some e.log_id))

  insert_entries-Above :
      (es : List (Entry Leader Membership)) (log : List (ℕ × Entry Leader Membership))
      → Above 0 log
      → Above 0 (insert_entries es log)
  unfolding insert_entries
  insert_entries-Above [] log a = a
  insert_entries-Above (e ∷ es) log a =
      insert_entries-Above es (insert_at e.log_id.index e log)
        (insert_at-Above 0 e.log_id.index e log (omega arith) a)

  get_at-insert_entries :
      (es : List (Entry Leader Membership)) (log : List (ℕ × Entry Leader Membership)) (j : ℕ)
      → get_at j (insert_entries es log)
        ≡ elim (entry_for j es) [ none ↦ get_at j log | some e ↦ some e ]
  unfolding insert_entries entry_for
  get_at-insert_entries [] log j = refl
  get_at-insert_entries (e ∷ es) log j = ground (
    arith,
    get_at-insert_entries es (insert_at e.log_id.index e log) j,
    get_at-insert_at e.log_id.index j e log,
  )

module _ {Leader Vote Membership : Type 0} where
  unfoldable pub run_op :
      NeuroStore Leader Vote Membership
      → LogOp Leader Membership
      → NeuroStore Leader Vote Membership
  run_op s (LogOp.append es) = append_to_log s es
  run_op s (LogOp.conflict id) = delete_conflict_logs_since s id
  run_op s (LogOp.purge id) = purge_logs_upto s id

  unfoldable pub run_ops :
      NeuroStore Leader Vote Membership
      → List (LogOp Leader Membership)
      → NeuroStore Leader Vote Membership
  unfolding run_op
  run_ops s [] = s
  run_ops s (op ∷ ops) = run_ops (run_op s op) ops

  run_op-Above :
      (s : NeuroStore Leader Vote Membership) (op : LogOp Leader Membership)
      → Above 0 s.log
      → Above 0 (run_op s op).log
  unfolding run_op append_to_log delete_conflict_logs_since purge_logs_upto
  run_op-Above s (LogOp.append es) a = insert_entries-Above es s.log a
  run_op-Above s (LogOp.conflict id) a = remove_keys-Above 0 _ s.log a
  run_op-Above s (LogOp.purge id) a = remove_keys-Above 0 _ s.log a

  get_at-run_op :
      (s : NeuroStore Leader Vote Membership) (op : LogOp Leader Membership) (j : ℕ)
      → get_at j (run_op s op).log ≡ effect op j (get_at j s.log)
  unfolding run_op append_to_log delete_conflict_logs_since purge_logs_upto effect
  get_at-run_op s (LogOp.append es) j = get_at-insert_entries es s.log j
  get_at-run_op s (LogOp.conflict id) j = get_at-drop_range (leb id.index) s.log j
  get_at-run_op s (LogOp.purge id) j = get_at-drop_range (λ k. leb k id.index) s.log j

  run_ops-Above :
      (s : NeuroStore Leader Vote Membership) (ops : List (LogOp Leader Membership))
      → Above 0 s.log
      → Above 0 (run_ops s ops).log
  unfolding run_ops
  run_ops-Above s [] a = a
  run_ops-Above s (op ∷ ops) a = run_ops-Above (run_op s op) ops (run_op-Above s op a)

  get_at-run_ops :
      (s : NeuroStore Leader Vote Membership) (ops : List (LogOp Leader Membership)) (j : ℕ)
      → get_at j (run_ops s ops).log ≡ effects ops j (get_at j s.log)
  unfolding run_ops effects
  get_at-run_ops s [] j = refl
  get_at-run_ops s (op ∷ ops) j =
      get_at-run_ops (run_op s op) ops j ∙ ap (effects ops j) (get_at-run_op s op j)

  log-Holds :
      (s : NeuroStore Leader Vote Membership) (f : ℕ → Option (Entry Leader Membership))
      → Above 0 s.log
      → ((j : ℕ) → get_at j s.log ≡ f j)
      → Holds s.log f s.last_purged (get_log_state s).last_log_id
  unfolding get_log_state
  log-Holds s f a e = record {
    at = e;
    last_id = elim (Option-cases (last_value s.log)) [
      | inl h ↦ inl (λ j. sym (e j) ∙ last_value-none s.log j h, ground arith)
      | inr (v, h) ↦
          let (k, le, got, later) = last_value-some 0 s.log v a h in
          inr (k, v, sym (e k) ∙ got, λ j l. sym (e j) ∙ later j l, ground arith)
    ];
  }

module _ {Leader Membership : Type 0} (Vote : Type 0) where
  -- After any sequence of appends, conflict deletions and purges, the store holds at each index
  -- what the last operation that touches the index left there, and `get_log_state` gives the id of
  -- the entry at the greatest index, or the last purged id where the log is empty.
  pub run_ops-Holds :
      (no_members : StoredMembership Leader Membership) (world : DesiredWorld)
      (ops : List (LogOp Leader Membership))
      → let s = run_ops (new_store {Vote = Vote} no_members world) ops in
        Holds s.log (λ j. effects ops j none) s.last_purged (get_log_state s).last_log_id
  unfolding new_store Above get_at
  run_ops-Holds no_members world ops =
      let start = new_store {Vote = Vote} no_members world in
      log-Holds (run_ops start ops) (λ j. effects ops j none) (run_ops-Above start ops tt)
        (get_at-run_ops start ops)
