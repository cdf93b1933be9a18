-- ===== src/Cluster/Monitors.antt =====
-- monitorCluster over any number of changes of leadership.
use tinydfs_master.Base.{
  ℕ, suc, ◌+◌, ◌<◌, ◌≡◌, refl, sym, ap, ◌∙◌, Bool, true, false, not, ◌&&◌, Option, none, some, List,
  [], ◌∷◌, ◌==◌, ==-refl, nat_eq, if◌then◌else◌, contains, length, GoString, ok, arith, subst,
}
use tinydfs_master.Cluster.Leadership.{
  Observers, Leadership, Notice, become_leader, become_follower, monitor_cluster, monitor_all,
  still_running, initial_leadership,
}

-- Raft reports changes: the first value is `next`, and each other one differs from the one before.
abbrev pub Alternates : Bool → List Notice → Type 0
Alternates next [] = Unit {0}
Alternates next (notice ∷ notices) = (notice.is_leader ≡ next) × Alternates (not next) notices

abbrev pub times_leader : List Notice → ℕ
times_leader [] = 0
times_leader (notice ∷ notices) =
    if notice.is_leader then suc (times_leader notices) else times_leader notices

-- Whether the master leads after the notices.
abbrev pub leads_after : Bool → List Notice → Bool
leads_after leading [] = leading
leads_after leading (notice ∷ notices) = leads_after notice.is_leader notices

abbrev pub is_observer : Option ℕ → ℕ → Bool
is_observer none j = false
is_observer (some i) j = i == j

still_running-all :
    (cancelled monitors : List ℕ)
    → ((k : ℕ) → contains monitors k ≡ true → contains cancelled k ≡ false)
    → still_running cancelled monitors ≡ length monitors
unfolding still_running
still_running-all cancelled [] apart = refl
still_running-all cancelled (context ∷ monitors) apart =
    rw (still_running, apart context (ground (arith, ==-refl context)))
      (ap suc (still_running-all cancelled monitors λ k there. apart k (ground (arith, there))))

module _ {O : Type 0} (raft : Observers O) (own : GoString) where
  -- What has been started and stopped after `times` leaderships.
  record Led (leading : Bool) (times : ℕ) (l : Leadership O) : Type 0 where
    monitors_below : (k : ℕ) → contains l.monitors k ≡ true → k < l.next_context
    cancelled_below : (k : ℕ) → contains l.cancelled k ≡ true → k < l.next_context
    apart : (k : ℕ) → contains l.monitors k ≡ true → contains l.cancelled k ≡ false
    count : length l.monitors ≡ times
    has_observer : leading ≡ true → (i : ℕ) × (l.follower_state_observer ≡ some i)
    observed :
        (j : ℕ)
        → raft.registers l.observers j ≡ (leading && is_observer l.follower_state_observer j)

  lead :
      (notice : Notice) (times : ℕ) (l : Leadership O)
      → Led false times l
      → Led true (suc times) (become_leader raft own notice l)
  unfolding become_leader
  lead notice times l led = record {
    monitors_below = λ k there. ground (arith, led.monitors_below k);
    cancelled_below = λ k there. ground (arith, led.cancelled_below k);
    apart = λ k there. ground (arith, led.apart k, led.cancelled_below k);
    count = ap suc led.count;
    has_observer = λ _. (l.next_observer, refl);
    observed = λ j.
        ground
          (arith, raft.registers-register_observer l.next_observer j l.observers, led.observed j);
  }

  follow :
      (notice : Notice) (times i : ℕ) (l : Leadership O) (o : O)
      → l.follower_state_observer ≡ some i
      → ((j : ℕ) → raft.registers o j ≡ (if i == j then false else raft.registers l.observers j))
      → Led true times l
      → Led false times (become_follower raft own notice o l)
  unfolding become_follower
  follow notice times i l o here kept led = record {
    monitors_below = λ k there. ground (arith, led.monitors_below k);
    cancelled_below = λ k there. ground (arith, led.cancelled_below k);
    apart = λ k there. ground (arith, led.apart k, led.monitors_below k);
    count = led.count;
    has_observer = λ e. absurd (ground (arith, e));
    observed = λ j. ground (arith, here, kept j, led.observed j);
  }

  leader_round :
      (notice : Notice) (l : Leadership O)
      → notice.is_leader ≡ true
      → monitor_cluster raft own notice l ≡ ok (become_leader raft own notice l)
  unfolding monitor_cluster
  leader_round notice l leads = rw (leads, monitor_cluster) refl

  follower_round :
      (notice : Notice) (l : Leadership O) (o : O)
      → notice.is_leader ≡ false
      → raft.deregister_observer l.follower_state_observer l.observers ≡ ok o
      → monitor_cluster raft own notice l ≡ ok (become_follower raft own notice o l)
  unfolding monitor_cluster
  follower_round notice l o follows gone = rw (follows, monitor_cluster, gone) refl

  first_round :
      (notice : Notice) (notices : List Notice) (l l₁ l' : Leadership O)
      → monitor_cluster raft own notice l ≡ ok l₁
      → monitor_all raft own notices l₁ ≡ ok l'
      → monitor_all raft own (notice ∷ notices) l ≡ ok l'
  unfolding monitor_all
  first_round notice notices l l₁ l' first rest = rw (first, monitor_all) rest

  Led-as :
      (leading leading' : Bool) (times times' : ℕ) (l : Leadership O)
      → leading ≡ leading'
      → times ≡ times'
      → Led leading times l
      → Led leading' times' l
  Led-as leading leading' times times' l same_role same_times led =
      subst (λ b. Led b times' l) same_role (subst (λ n. Led leading n l) same_times led)

  monitor_all-Led :
      (leading : Bool) (times : ℕ) (notices : List Notice) (l : Leadership O)
      → Alternates (not leading) notices
      → Led leading times l
      → (l' : Leadership O) × (monitor_all raft own notices l ≡ ok l')
        × Led (leads_after leading notices) (times + times_leader notices) l'
  unfolding monitor_all
  monitor_all-Led leading times [] l alternates led =
      (l, refl, subst (λ n. Led leading n l) (omega arith) led)
  monitor_all-Led false times (notice ∷ notices) l (leads, alternates) led =
      let l₁ = become_leader raft own notice l in
      let (l', done, led') =
        monitor_all-Led true (suc times) notices l₁ alternates (lead notice times l led) in
      (
        l',
        first_round notice notices l l₁ l' (leader_round notice l leads) done,
        Led-as _ _ _ _ l' (ap (λ b. leads_after b notices) (sym leads)) (ground (arith, leads))
            led',
      )
  monitor_all-Led true times (notice ∷ notices) l (follows, alternates) led =
      let (i, here) = led.has_observer refl in
      let (o, gone, kept) = raft.deregister_observer-some i l.observers in
      let l₁ = become_follower raft own notice o l in
      let (l', done, led') =
        monitor_all-Led false times notices l₁ alternates
          (follow notice times i l o here kept led) in
      (
        l',
        first_round notice notices l l₁ l'
            (follower_round notice l o follows
              (ap (λ x. raft.deregister_observer x l.observers) here ∙ gone))
            done,
        Led-as _ _ _ _ l' (ap (λ b. leads_after b notices) (sym follows)) (ground (arith, follows))
            led',
      )

  initial-Led :
      (o : O) → ((j : ℕ) → raft.registers o j ≡ false) → Led false 0 (initial_leadership o)
  initial-Led o none_there = record {
    monitors_below = λ k there. absurd (ground (arith, there));
    cancelled_below = λ k there. absurd (ground (arith, there));
    apart = λ k there. refl;
    count = refl;
    has_observer = λ e. absurd (ground (arith, e));
    observed = none_there;
  }

  -- However often leadership changes, from a follower without observers on: monitorCluster handles
  -- every change. The monitors that it starts on becoming the leader go on forever, as many as
  -- there were leaderships, although it cancels a context on becoming a follower. Of the observers
  -- exactly that of the present leadership is registered while the master leads, and none while it
  -- follows.
  pub monitor_all-keeps_monitors :
      (notices : List Notice) (o : O)
      → ((j : ℕ) → raft.registers o j ≡ false)
      → Alternates true notices
      → (l : Leadership O) × (monitor_all raft own notices (initial_leadership o) ≡ ok l)
        × (still_running l.cancelled l.monitors ≡ times_leader notices)
        × ((j : ℕ)
            → raft.registers l.observers j
              ≡ (leads_after false notices && is_observer l.follower_state_observer j))
  monitor_all-keeps_monitors notices o none_there alternates =
      let (l, done, led) =
        monitor_all-Led false 0 notices (initial_leadership o) alternates
          (initial-Led o none_there) in
      (
        l,
        done,
        still_running-all l.cancelled l.monitors led.apart ∙ omega (arith, led.count),
        led.observed,
      )
