-- ===== src/Election/Idle.antt =====
-- A master that goes offline leaves its group idle (cluster_topology_offline_data_server,
-- server/cluster_topology.c).
use faststore.Prelude.{
  ℕ, eq→eqb, ◌≡◌, refl, ◌∙◌, ap, sym, subst, length, Bool, true, false, some, none, List, [], ◌∷◌,
  ◌++◌, append_assoc, arith,
}
use faststore.Election.{DataGroup, server_at}
use faststore.Election.Change.{
  Event, Outcome, election_push, notify, modify, with_master, with_status, set_ds_status_ex,
  downgrade_data_server, unset_master, offline_data_server, same_server, on_master_change,
  offline_others,
}
use faststore.Election.Offline.{
  Rests, IsIdle, unset_master-IsIdle, downgrade_data_server-Rests_self, server_at-modify,
}

downgrade_data_server-master :
    (g : DataGroup) (p : ℕ) (flag : Bool) → (downgrade_data_server g p flag).group.master ≡ g.master
unfolding downgrade_data_server set_ds_status_ex
downgrade_data_server-master g p flag = ground arith

set_ds_status_ex-is_master :
    (g : DataGroup) (p old new q : ℕ)
    → (server_at (set_ds_status_ex g p old new).group.data_servers q).is_master
      ≡ (server_at g.data_servers q).is_master
unfolding set_ds_status_ex
set_ds_status_ex-is_master g p old new q =
    ground (arith, server_at-modify (with_status new) p g.data_servers q)

downgrade_data_server-is_master :
    (g : DataGroup) (p : ℕ) (flag : Bool) (q : ℕ)
    → (server_at (downgrade_data_server g p flag).group.data_servers q).is_master
      ≡ (server_at g.data_servers q).is_master
unfolding downgrade_data_server
downgrade_data_server-is_master g p flag q = set_ds_status_ex-is_master g p _ _ q

-- The push to the queue of elections comes last.
unset_master_events :
    (leader : Bool) (g : DataGroup) (i : ℕ)
    → (before : List Event) × ((unset_master leader g i).1 ≡ before ++ election_push ∷ [])
unfolding unset_master
unset_master_events leader g i =
    (told.events ++ (offline_others i (length g.data_servers) 0 told.group).1, refl)
  where
    told : Outcome
    told = (on_master_change leader (record g { master = none }) (some i) none).0

regroup :
    (a b : Event) (xs ys : List Event) → xs ++ (ys ++ a ∷ []) ++ b ∷ [] ≡ (xs ++ ys) ++ a ∷ b ∷ []
regroup a b xs ys = simp append_assoc

module _ (leader : Bool) (g : DataGroup) (i : ℕ) where
  abbrev lowered : DataGroup
  lowered = (downgrade_data_server g i true).group

  abbrev cleared : DataGroup
  cleared = record lowered { data_servers = modify (with_master false) i lowered.data_servers }

  cleared-Rests : Rests cleared i
  cleared-Rests = ground (
    arith,
    server_at-modify (with_master false) i lowered.data_servers i,
    downgrade_data_server-Rests_self g i true,
  )

  same_server_self : same_server (some i) i ≡ true
  unfolding same_server
  same_server_self = eq→eqb i i refl

  -- Where the master is unset, the offline call is the downgrade and then unset_master.
  offline_data_server-unset :
      g.master ≡ some i
      → (server_at g.data_servers i).is_master ≡ true
      → offline_data_server leader g i true ≡ (
        (unset_master leader cleared i).0,
        (downgrade_data_server g i true).events
            ++ (unset_master leader cleared i).1
            ++ notify i ∷ [],
      )
  unfolding offline_data_server
  offline_data_server-unset m is = rw (offline_data_server, still_master, same) refl
    where
      still_master : (server_at lowered.data_servers i).is_master ≡ true
      still_master = downgrade_data_server-is_master g i true i ∙ is

      same : same_server lowered.master i ≡ true
      same =
          ap (λ m. same_server m i) (downgrade_data_server-master g i true ∙ m) ∙ same_server_self

  -- When the master of a group goes offline, the group has no master and no active data server any
  -- more, and the last events are the push of the group to the queue of elections and the notice.
  pub offline_master-IsIdle :
      g.master ≡ some i
      → (server_at g.data_servers i).is_master ≡ true
      → IsIdle (offline_data_server leader g i true).0
        × ((before : List Event) × ((offline_data_server leader g i true).1
              ≡ before ++ election_push ∷ notify i ∷ []))
  offline_master-IsIdle m is =
      let run = offline_data_server-unset m is in
      let last = unset_master_events leader cleared i in
      (
        subst IsIdle (sym (ap (λ x. x.0) run)) (unset_master-IsIdle leader cleared i cleared-Rests),
        (
          (downgrade_data_server g i true).events ++ last.0,
          ap (λ x. x.1) run
              ∙ ap (λ l. (downgrade_data_server g i true).events ++ l ++ notify i ∷ []) last.1
              ∙ regroup election_push (notify i) (downgrade_data_server g i true).events last.0,
        ),
      )
