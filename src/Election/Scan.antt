-- ===== src/Election/Scan.antt =====
-- The scan of select_master (server/master_election.c) for the data version that a master must have:
-- it goes down the data_server_array, which is not in the order of the sorted pointers.
use faststore.Prelude.{
  ℕ, zero, suc, ◌+◌, ◌*◌, ◌%◌, ◌≤◌, ◌<◌, ◌≡◌, refl, ap, ◌∙◌, Bool, true, false, some, none, List,
  [], ◌∷◌, ◌==◌, ◌||◌, ltb, arith,
}
use faststore.Errno.{enoent}
use faststore.Election.{
  DataServer, DataGroup, Setting, Counters, no_counters, server_at, is_active, elect, count_servers,
  is_server_timedout, newest_timeout, active_version_down, choose_active, choose_newest,
  sort_ds_ptrs, last_ptr, select_master, server_active, server_offline, offline_wait_timeout,
  Answer,
}

active_version_down-none :
    (l : List DataServer) (n : ℕ)
    → ((i : ℕ) → i ≤ n → is_active (server_at l i) ≡ false)
    → active_version_down l n ≡ none
unfolding active_version_down
active_version_down-none l zero h = rw (h 0 (omega arith))
active_version_down-none l (suc n) h =
    rw (h (suc n) (omega arith)) (active_version_down-none l n (λ i q. h i (omega arith)))

-- Beyond a newest server that is not active and has timed out, no server is looked at.
choose_newest-enoent :
    (e : Setting) (g : DataGroup) (start : ℕ) (c : Counters) (n : ℕ)
    → ((i : ℕ) → i ≤ n → is_active (server_at g.data_servers i) ≡ false)
    → (is_server_timedout e
          (server_at g.data_servers n).cs
          start
          (newest_timeout (server_at g.data_servers n).cs.status c.timeout)
        ≡ true)
    → choose_newest e g start c n ≡ (enoent, none)
unfolding choose_newest choose_active
choose_newest-enoent e g start c n inactive late = rw (
  late,
  inactive n (omega arith),
  choose_active,
  active_version_down-none g.data_servers n inactive,
)

-- Where the newest server of the sorted pointers stands in the array.
abbrev pub newest_position : DataGroup → ℕ
newest_position g = last_ptr (sort_ds_ptrs g).ds_ptrs

module _ (e : Setting) (g : DataGroup) (start : ℕ) where
  -- Once no server is waited for, and the newest of the sorted pointers has timed out, an election
  -- ends with ENOENT and no master where no server from the head of the array to the newest one is
  -- active, however many are active behind it.
  pub elect-enoent :
      (c : Counters)
      → count_servers e start g.data_servers no_counters ≡ some c
      → 0 < c.active
      → c.waiting_report + c.waiting_online + c.waiting_offline ≡ 0
      → ((i : ℕ) → i ≤ newest_position g → is_active (server_at g.data_servers i) ≡ false)
      → (is_server_timedout e
            (server_at g.data_servers (newest_position g)).cs
            start
            (newest_timeout (server_at g.data_servers (newest_position g)).cs.status c.timeout)
          ≡ true)
      → (elect e g start).1 ≡ (enoent, none)
  unfolding elect sort_ds_ptrs
  elect-enoent c counted some_active none_waits inactive late =
      let ready : (c.active == 0 || ltb 0 (c.waiting_report + c.waiting_online + c.waiting_offline))
          ≡ false =
        ground arith in
      rw (elect, counted, ready)
        (choose_newest-enoent e (sort_ds_ptrs g) start c (newest_position g) inactive late)

-- Three servers of one group, of data versions a < b < c: the newest is offline, the others are active.
abbrev pub settled : ℕ → Setting
settled now = record {
  now = now;
  now_ms = now * 1000;
  i_am_leader = false;
  failover = true;
  strict = false;
  election_timeouts = 60;
}

abbrev pub data_server : ℕ → ℕ → ℕ → Bool → DataServer
data_server id version status preseted = record {
  cs = record { id = id; status = status; status_changed_time = 0; last_ping_time = 1100 };
  status = 0;
  version = version;
  is_preseted = preseted;
  is_master = false;
}

abbrev pub three : ℕ → ℕ → ℕ → ℕ → DataGroup
three a b c hash = record {
  hash_code = hash;
  start_time_ms = 1000000;
  retry_count = 1;
  data_servers =
      data_server 1 b server_active false
      ∷ data_server 2 a server_active false
      ∷ data_server 3 c server_offline true
      ∷ [];
  ds_ptrs = 0 ∷ 1 ∷ 2 ∷ [];
  myself = none;
  master = none;
}

abbrev begun : ℕ → ℕ → ℕ → ℕ → DataGroup
begun a b c hash = record (three a b c hash) { retry_count = 2 }

three_sorted :
    (a b c hash : ℕ)
    → a < b
    → b < c
    → sort_ds_ptrs (begun a b c hash) ≡ record (begun a b c hash) { ds_ptrs = 1 ∷ 0 ∷ 2 ∷ [] }
unfolding sort_ds_ptrs
three_sorted a b c hash h k = ground arith

abbrev both_active : Counters
both_active = record no_counters { active = 2; timeout = offline_wait_timeout }

abbrev after_sort : DataGroup → Answer
after_sort g = choose_newest (settled 1110) g 1000 both_active (last_ptr g.ds_ptrs)

three_reach_sort :
    (a b c hash : ℕ)
    → (select_master (settled 1110) (three a b c hash)).1
      ≡ after_sort (sort_ds_ptrs (begun a b c hash))
unfolding select_master
three_reach_sort a b c hash = refl

three_choose :
    (a b c hash : ℕ)
    → a < b
    → b < c
    → hash % 2 ≡ 1
    → after_sort (record (begun a b c hash) { ds_ptrs = 1 ∷ 0 ∷ 2 ∷ [] }) ≡ (0, some 1)
unfolding choose_newest last_ptr
three_choose a b c hash h k odd = ground arith

-- In a group of three servers with data versions b, a and c, a < b < c, of which the third is offline
-- and has been waited for, the policy that gives it up makes the second one master when the hash code
-- is odd, although the first one is active and has later data: the scan meets the second one first.
pub older_elected :
    (a b c hash : ℕ)
    → a < b
    → b < c
    → hash % 2 ≡ 1
    → (select_master (settled 1110) (three a b c hash)).1 ≡ (0, some 1)
older_elected a b c hash h k odd =
    three_reach_sort a b c hash
    ∙ ap after_sort (three_sorted a b c hash h k)
    ∙ three_choose a b c hash h k odd
