-- ===== src/Election/Offline.antt =====
-- What a data group is like after its master has gone offline (server/cluster_topology.c).
use faststore.Prelude.{
  ℕ, zero, suc, ◌+◌, ◌≤◌, ◌<◌, ◌≡◌, ◌≢◌, refl, ◌⊎◌, inl, inr, Bool, false, ◌==◌, eq-or-ne,
  Option-cases, Option, some, none, List, [], ◌∷◌, length, All, sym, subst, ◌∙◌, arith,
}
use faststore.DataStatus.{ds_active, ds_offline, downgraded}
use faststore.Election.{DataServer, DataGroup, no_server, server_at}
use faststore.Election.Whole.{All-server_at}
use faststore.Election.Change.{
  modify, with_status, set_ds_status_ex, swap_report_ds_status, change_my_status,
  my_status_on_change, on_master_change, downgrade_data_server, offline_other, offline_others,
  unset_master,
}

module _ (f : DataServer → DataServer) where
  pub server_at-modify :
      (i : ℕ) (l : List DataServer) (q : ℕ)
      → (server_at (modify f i l) q ≡ server_at l q)
        ⊎ ((i ≡ q) × (server_at (modify f i l) q ≡ f (server_at l q)))
  unfolding server_at modify
  server_at-modify i [] q = inl refl
  server_at-modify zero (ds ∷ l) zero = inr (refl, refl)
  server_at-modify zero (ds ∷ l) (suc q) = inl refl
  server_at-modify (suc i) (ds ∷ l) zero = inl refl
  server_at-modify (suc i) (ds ∷ l) (suc q) = elim (server_at-modify i l q) [
    | inl e ↦ inl e
    | inr e ↦ inr (omega (arith, e), e.1)
  ]

  pub server_at-modify_same :
      (i : ℕ) (l : List DataServer) → i < length l → server_at (modify f i l) i ≡ f (server_at l i)
  unfolding server_at modify
  server_at-modify_same i [] h = absurd (omega arith)
  server_at-modify_same zero (ds ∷ l) h = refl
  server_at-modify_same (suc i) (ds ∷ l) h = server_at-modify_same i l (omega arith)

  pub length-modify : (i : ℕ) (l : List DataServer) → length (modify f i l) ≡ length l
  unfolding modify
  length-modify i [] = refl
  length-modify zero (ds ∷ l) = refl
  length-modify (suc i) (ds ∷ l) = omega (arith, length-modify i l)

past_end : (q : ℕ) (l : List DataServer) → (q < length l) ⊎ (server_at l q ≡ no_server)
unfolding server_at
past_end q [] = inr refl
past_end zero (ds ∷ l) = inl (omega arith)
past_end (suc q) (ds ∷ l) = elim (past_end q l) [ inl h ↦ inl (omega arith) | inr e ↦ inr e ]

-- The data server at the position is not active.
abbrev pub Rests : DataGroup → ℕ → Type 0
Rests g q = ((server_at g.data_servers q).status == ds_active) ≡ false

set_ds_status_ex-Rests :
    (g : DataGroup) (i old new q : ℕ)
    → (new == ds_active) ≡ false
    → Rests g q
    → Rests (set_ds_status_ex g i old new).group q
unfolding set_ds_status_ex
set_ds_status_ex-Rests g i old new q h r =
    ground (arith, server_at-modify (with_status new) i g.data_servers q)

length-set_ds_status_ex :
    (g : DataGroup) (i old new : ℕ)
    → length (set_ds_status_ex g i old new).group.data_servers ≡ length g.data_servers
unfolding set_ds_status_ex
length-set_ds_status_ex g i old new =
    ground (arith, length-modify (with_status new) i g.data_servers)

downgraded_rests : (flag : Bool) (old : ℕ) → (downgraded flag old == ds_active) ≡ false
unfolding downgraded
downgraded_rests flag old = ground arith

downgrade_data_server-Rests :
    (g : DataGroup) (p : ℕ) (flag : Bool) (q : ℕ)
    → Rests g q
    → Rests (downgrade_data_server g p flag).group q
unfolding downgrade_data_server
downgrade_data_server-Rests g p flag q r =
    set_ds_status_ex-Rests g p _ _ q (downgraded_rests flag (server_at g.data_servers p).status) r

-- The status of the server that is downgraded is not ACTIVE afterwards.
pub downgrade_data_server-Rests_self :
    (g : DataGroup) (p : ℕ) (flag : Bool) → Rests (downgrade_data_server g p flag).group p
unfolding downgrade_data_server set_ds_status_ex
downgrade_data_server-Rests_self g p flag = ground (
  arith,
  downgraded_rests flag (server_at g.data_servers p).status,
  server_at-modify_same (with_status (downgraded flag (server_at g.data_servers p).status)) p
      g.data_servers,
  past_end p g.data_servers,
)

length-downgrade_data_server :
    (g : DataGroup) (p : ℕ) (flag : Bool)
    → length (downgrade_data_server g p flag).group.data_servers ≡ length g.data_servers
unfolding downgrade_data_server
length-downgrade_data_server g p flag = length-set_ds_status_ex g p _ _

offline_other-Rests :
    (i p : ℕ) (g : DataGroup) (q : ℕ) → Rests g q → Rests (offline_other i p g).group q
unfolding offline_other
offline_other-Rests i p g q r = ground (arith, downgrade_data_server-Rests g p false q r)

offline_other-Rests_self : (i p : ℕ) (g : DataGroup) → p ≢ i → Rests (offline_other i p g).group p
unfolding offline_other
offline_other-Rests_self i p g n = ground (arith, downgrade_data_server-Rests_self g p false)

offline_others-Rests :
    (i k p : ℕ) (g : DataGroup) (q : ℕ)
    → Rests g q ⊎ ((p ≤ q) × (q < p + k) × (q ≢ i))
    → Rests (offline_others i k p g).0 q
unfolding offline_others
offline_others-Rests i zero p g q (inl r) = r
offline_others-Rests i zero p g q (inr h) = absurd (omega (arith, h))
offline_others-Rests i (suc k) p g q (inl r) =
    offline_others-Rests i k (suc p) (offline_other i p g).group q
      (inl (offline_other-Rests i p g q r))
offline_others-Rests i (suc k) p g q (inr h) = elim (eq-or-ne q p) [
  | inl e ↦ offline_others-Rests i k (suc p) (offline_other i p g).group q (
      inl (
        subst (Rests (offline_other i p g).group) (sym e)
          (offline_other-Rests_self i p g (λ c. h.2 (e ∙ c)))))
  | inr n ↦
      offline_others-Rests i k (suc p) (offline_other i p g).group q
        (inr (omega (arith, h, n), omega (arith, h, n), h.2))
]

-- Where there is no new master, my status is left or becomes OFFLINE.
change_my_status-Rests :
    (leader : Bool) (g : DataGroup) (my i q : ℕ)
    → Rests g q
    → Rests (change_my_status leader g my (my_status_on_change g my (some i) none)).group q
unfolding change_my_status my_status_on_change swap_report_ds_status
change_my_status-Rests leader g my i q r =
    ground
      (arith, set_ds_status_ex-Rests g my (server_at g.data_servers my).status ds_offline q refl r)

on_master_change-Rests :
    (leader : Bool) (g : DataGroup) (i q : ℕ)
    → Rests g q
    → Rests (on_master_change leader g (some i) none).0.group q
unfolding on_master_change
on_master_change-Rests leader g i q r = elim (Option-cases g.myself) [
  | inl none_here ↦ rw (on_master_change, none_here) r
  | inr (my, here) ↦ rw (on_master_change, here) (change_my_status-Rests leader g my i q r)
]

pub on_master_change-master :
    (leader : Bool) (g : DataGroup) (old new : Option ℕ)
    → (on_master_change leader g old new).0.group.master ≡ g.master
unfolding on_master_change change_my_status swap_report_ds_status set_ds_status_ex
on_master_change-master leader g none none = refl
on_master_change-master leader g none (some n) = ground arith
on_master_change-master leader g (some o) new = ground arith

length-change_my_status :
    (leader : Bool) (g : DataGroup) (my : ℕ) (new : Option ℕ)
    → length (change_my_status leader g my new).group.data_servers ≡ length g.data_servers
unfolding change_my_status swap_report_ds_status
length-change_my_status leader g my none = refl
length-change_my_status leader g my (some new) =
    ground (arith, length-set_ds_status_ex g my (server_at g.data_servers my).status new)

length-on_master_change :
    (leader : Bool) (g : DataGroup) (i : ℕ)
    → length (on_master_change leader g (some i) none).0.group.data_servers ≡ length g.data_servers
unfolding on_master_change
length-on_master_change leader g i = elim (Option-cases g.myself) [
  | inl none_here ↦ rw (on_master_change, none_here)
  | inr (my, here) ↦
      rw (on_master_change, here)
        (length-change_my_status leader g my (my_status_on_change g my (some i) none))
]

length-offline_other :
    (i p : ℕ) (g : DataGroup)
    → length (offline_other i p g).group.data_servers ≡ length g.data_servers
unfolding offline_other
length-offline_other i p g = ground (arith, length-downgrade_data_server g p false)

length-offline_others :
    (i k p : ℕ) (g : DataGroup)
    → length (offline_others i k p g).0.data_servers ≡ length g.data_servers
unfolding offline_others
length-offline_others i zero p g = refl
length-offline_others i (suc k) p g =
    length-offline_others i k (suc p) (offline_other i p g).group ∙ length-offline_other i p g

offline_others-master : (i k p : ℕ) (g : DataGroup) → (offline_others i k p g).0.master ≡ g.master
unfolding offline_others offline_other downgrade_data_server set_ds_status_ex
offline_others-master i zero p g = refl
offline_others-master i (suc k) p g =
    ground (arith, offline_others-master i k (suc p) (offline_other i p g).group)

-- A group without a master, in which no data server is active.
abbrev pub IsIdle : DataGroup → Type 0
IsIdle g = (g.master ≡ none) × All (λ d. (d.status == ds_active) ≡ false) g.data_servers

pub unset_master-IsIdle :
    (leader : Bool) (g : DataGroup) (i : ℕ) → Rests g i → IsIdle (unset_master leader g i).0
unfolding unset_master
unset_master-IsIdle leader g i r = (
  offline_others-master i (length g.data_servers) 0 told
      ∙ on_master_change-master leader cleared (some i) none,
  All-server_at _ (unset_master leader g i).0.data_servers (λ q h. elim (eq-or-ne q i) [
    | inl e ↦
        offline_others-Rests i (length g.data_servers) 0 told q
          (inl (subst (Rests told) (sym e) (on_master_change-Rests leader cleared i i r)))
    | inr n ↦
        offline_others-Rests i (length g.data_servers) 0 told q
          (inr (omega arith, omega (arith, h, lengths), n))
  ]),
)
  where
    cleared : DataGroup
    cleared = record g { master = none }

    told : DataGroup
    told = (on_master_change leader cleared (some i) none).0.group

    lengths :
        length (offline_others i (length g.data_servers) 0 told).0.data_servers
        ≡ length g.data_servers
    lengths =
        length-offline_others i (length g.data_servers) 0 told
        ∙ length-on_master_change leader cleared i
