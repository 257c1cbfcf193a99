-- ===== src/Leader/Office/Set.antt =====
-- What the operations on the leader leave behind (server/cluster_relationship.c).
use faststore.Prelude.{
  ℕ, ◌+◌, ◌<◌, ◌≡◌, ◌≢◌, refl, sym, ap, ◌∙◌, subst, ◌⊎◌, inl, inr, ◌==◌, eq→eqb, ne→eqb, eqb→eq,
  true, false, Bool-cases, Option, none, some, length, arith,
}
use faststore.Errno.{ebusy}
use faststore.Leader.Office.{
  Relationship, modify_server, set_flag, same_server, become_leader, change_leader, set_leader,
  unset_of, unset_leader, pre_set_of, pre_set_leader, commit_of, commit_leader,
}
use faststore.Leader.Office.Term.{
  FlagsOf, flag_at, FlagsOf-set_flag, LedBy, flagged, become_leader-flag_at, flag_at-flagged,
  change_leader-FlagsOf, flag_at-set_flag_other, length-modify_server, length-deactivate_others,
  length-clear_old_leader,
}

same_server→ : (o : Option ℕ) (k : ℕ) → same_server o k ≡ true → o ≡ some k
unfolding same_server
same_server→ none k h = absurd (ground arith)
same_server→ (some i) k h = ap some (eqb→eq i k h)

-- The leader is the new one, a server of the cluster, and exactly its flag is set.
abbrev pub Leads : ℕ → Relationship → Type 0
Leads new r = (r.leader ≡ some new) × LedBy (some new) r.servers

module _ (now new : ℕ) (r : Relationship) (w : new < length r.servers) where
  ne_of_eqb : (r.myself == new) ≡ false → r.myself ≢ new
  ne_of_eqb h q = ground (arith, eq→eqb r.myself new q)

  length-become_leader : length (become_leader now (flagged now new r w)).servers ≡ length r.servers
  unfolding become_leader
  length-become_leader =
      length-modify_server _ r.myself _
      ∙ length-deactivate_others now r.myself 0 (modify_server (set_flag true) new r.servers)
      ∙ length-modify_server (set_flag true) new r.servers

  length-change_leader :
      (s : Relationship) → length (change_leader new s).servers ≡ length s.servers
  unfolding change_leader
  length-change_leader s = length-clear_old_leader new 0 s.servers

  change_leader-Leads :
      (s : Relationship)
      → flag_at s.servers new ≡ true
      → length s.servers ≡ length r.servers
      → Leads new (change_leader new s)
  unfolding change_leader
  change_leader-Leads s h k =
      (refl, (omega (arith, length-change_leader s, k), change_leader-FlagsOf now new r w s h))

  -- After cluster_relationship_set_leader the new leader is the leader and exactly its flag is set.
  pub set_leader-Leads : LedBy r.leader r.servers → Leads new (set_leader now new r)
  unfolding set_leader
  set_leader-Leads led = elim (Bool-cases (same_server r.leader new)) [
    | inl same ↦ elim (Bool-cases (r.myself == new)) [
      | inl me ↦
          rw (set_leader, same, me)
            (
              r_leader same,
              (
                omega (arith, w, length-modify_server (set_flag true) new r.servers),
                flags_kept same,
              ),
            )
      | inr other ↦
          rw (set_leader, same, other)
            (
              r_leader same,
              (
                omega (arith, w, length-others),
                FlagsOf-set_flag new 0 (modify_server (set_flag true) new r.servers) false r.myself
                    (sym (ne→eqb (0 + r.myself) new (λ q. ne_of_eqb other (omega (arith, q)))))
                    (flags_kept same),
              ),
            )
    ]
    | inr changed ↦ elim (Bool-cases (r.myself == new)) [
      | inl me ↦
          rw (set_leader, changed, me)
            (change_leader-Leads (become_leader now (flagged now new r w))
              (become_leader-flag_at now new r w new ∙ flag_at-flagged now new r w)
              length-become_leader)
      | inr other ↦
          rw (set_leader, changed, other)
            (change_leader-Leads
              (record (flagged now new r w) {
                servers =
                    modify_server (set_flag false) r.myself
                      (modify_server (set_flag true) new r.servers);
              })
              (flag_at-set_flag_other false r.myself (modify_server (set_flag true) new r.servers)
                  new (ne_of_eqb other)
                ∙ flag_at-flagged now new r w)
              length-others)
    ]
  ]
    where
      length-others :
          length
            (modify_server (set_flag false) r.myself (modify_server (set_flag true) new r.servers))
          ≡ length r.servers
      length-others =
          length-modify_server (set_flag false) r.myself
            (modify_server (set_flag true) new r.servers)
          ∙ length-modify_server (set_flag true) new r.servers

      r_leader : same_server r.leader new ≡ true → r.leader ≡ some new
      r_leader q = same_server→ r.leader new q

      flags_kept :
          same_server r.leader new ≡ true
          → FlagsOf new 0 (modify_server (set_flag true) new r.servers)
      flags_kept q =
          FlagsOf-set_flag new 0 r.servers true new (sym (eq→eqb (0 + new) new (omega arith)))
            (subst (λ o. LedBy o r.servers) (r_leader q) led).1

-- What commit_leader may leave: the leader that was announced, or an error and the old leader.
abbrev pub Committed : ℕ → Relationship → Relationship × ℕ → Type 0
Committed k r (r', result) =
    ((r.next_leader ≡ some k) × (result ≡ 0) × Leads k r')
    ⊎ ((r.next_leader ≢ some k)
        × (result ≡ ebusy)
        × (r'.leader ≡ r.leader)
        × (r'.servers ≡ r.servers))

commit_of-Committed :
    (n : Option ℕ) (now k : ℕ) (r : Relationship)
    → r.next_leader ≡ n
    → k < length r.servers
    → LedBy r.leader r.servers
    → Committed k r (commit_of n now k r) × ((commit_of n now k r).0.next_leader ≡ none)
unfolding commit_of
commit_of-Committed none now k r e w led =
    (inr ((λ c. ground (arith, sym e ∙ c)), refl, refl, refl), e)
commit_of-Committed (some n) now k r e w led = elim (Bool-cases (n == k)) [
  | inl q ↦
      rw (commit_of, q)
        (inl (e ∙ ap some (eqb→eq n k q), refl, set_leader-Leads now k r w led), refl)
  | inr q ↦ rw (commit_of, q) (inr ((λ c. ground (arith, sym e ∙ c, q)), refl, refl, refl), refl)
]

-- A commit makes the announced server the leader, with exactly its flag set, and any other commit is
-- refused with EBUSY and changes neither the leader nor the servers; no server is announced after it.
pub commit_leader-Committed :
    (now k : ℕ) (r : Relationship)
    → k < length r.servers
    → LedBy r.leader r.servers
    → Committed k r (commit_leader now k r) × ((commit_leader now k r).0.next_leader ≡ none)
unfolding commit_leader
commit_leader-Committed now k r w led = commit_of-Committed r.next_leader now k r refl w led

-- A step of this server: an announcement, a commit, a leader learnt from the others, or none any more.
pub data Step : Relationship → Relationship → Type 0 where
  announces : (r : Relationship) (k : ℕ) → Step r (pre_set_leader k r).0
  commits : (r : Relationship) (now k : ℕ) → k < length r.servers → Step r (commit_leader now k r).0
  learns : (r : Relationship) (now k : ℕ) → k < length r.servers → Step r (set_leader now k r)
  unsets : (r : Relationship) → Step r (unset_leader r)

pub data Reach (r : Relationship) : Relationship → Type 0 where
  here : Reach r r
  next : {t u : Relationship} → Reach r t → Step t u → Reach r u

pre_set_of-LedBy :
    (n : Option ℕ) (k : ℕ) (r : Relationship)
    → LedBy r.leader r.servers
    → LedBy (pre_set_of n k r).0.leader (pre_set_of n k r).0.servers
unfolding pre_set_of
pre_set_of-LedBy none k r led = led
pre_set_of-LedBy (some n) k r led = elim (Bool-cases (n == k)) [
  | inl q ↦ rw (pre_set_of, q) led
  | inr q ↦ rw (pre_set_of, q) led
]

Leads-LedBy : (k : ℕ) (r : Relationship) → Leads k r → LedBy r.leader r.servers
Leads-LedBy k r h = subst (λ o. LedBy o r.servers) (sym h.0) h.1

commit_leader-LedBy :
    (now k : ℕ) (r : Relationship)
    → k < length r.servers
    → LedBy r.leader r.servers
    → LedBy (commit_leader now k r).0.leader (commit_leader now k r).0.servers
commit_leader-LedBy now k r w led = elim (commit_leader-Committed now k r w led).0 [
  | inl done ↦ Leads-LedBy k (commit_leader now k r).0 done.2
  | inr kept ↦
      subst (λ l. LedBy (commit_leader now k r).0.leader l) (sym kept.3)
        (subst (λ o. LedBy o r.servers) (sym kept.2) led)
]

unset_of-LedBy :
    (n : Option ℕ) (r : Relationship)
    → r.leader ≡ n
    → LedBy r.leader r.servers
    → LedBy (unset_of n r).leader (unset_of n r).servers
unfolding unset_of
unset_of-LedBy none r e led = led
unset_of-LedBy (some k) r e led = tt

Step-LedBy : {r t : Relationship} → Step r t → LedBy r.leader r.servers → LedBy t.leader t.servers
unfolding pre_set_leader unset_leader
Step-LedBy (announces r k) led = pre_set_of-LedBy r.next_leader k r led
Step-LedBy (commits r now k w) led = commit_leader-LedBy now k r w led
Step-LedBy (learns r now k w) led =
    Leads-LedBy k (set_leader now k r) (set_leader-Leads now k r w led)
Step-LedBy (unsets r) led = unset_of-LedBy r.leader r refl led

-- From a start without a leader on, whatever flags were read from the file, while there is a leader it
-- is one of the servers, and exactly its flag is set.
pub Reach-LedBy : (r t : Relationship) → r.leader ≡ none → Reach r t → LedBy t.leader t.servers
Reach-LedBy r t e here = subst (λ o. LedBy o r.servers) (sym e) tt
Reach-LedBy r t e (next path step) = Step-LedBy step (Reach-LedBy r _ e path)
