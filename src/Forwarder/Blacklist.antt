-- ===== src/Forwarder/Blacklist.antt =====
-- When a forwarder turns a target away: the failed targets over a history of calls.
use tls_tunnel.Prelude.{
  ℕ, ◌+◌, ◌%◌, ◌<◌, ◌≡◌, ◌↔◌, inl, inr, true, none, some, List, [], ◌∷◌, Str, arith, All, Any,
  Bool-cases, remove, lookup, lookup-insert, lookup-remove, nat_eq, list_eq, list_beq_iff,
  Option-cases, ap, if_both, leb, lookup-insert_self, lookup-empty, subst,
}
use tls_tunnel.Forwarder.Targets.{
  FailedTarget, FailedTargetManager, failed_target_timeout, is_blacklisted, entry_or_new,
  count_failure, record_failure, expired_targets, remove_all, cleanup_expired_targets, Call,
  failure, cleanup, perform, perform_all,
}

-- The calls failed the target at this time.
abbrev pub FailedAt : Str → List Call → ℕ → Type 0
FailedAt target calls time = Any (λ c. c ≡ failure target time) calls

abbrev pub Fails : Str → Call → Type 0
Fails target (failure other now) = other ≡ target
Fails target (cleanup now) = ⊥

lookup-remove_all :
    (target : Str) (names : List Str) (m : FailedTargetManager) (f : FailedTarget)
    → lookup target (remove_all names m) ≡ some f
    → lookup target m ≡ some f
lookup-remove_all target [] m f h = h
lookup-remove_all target (n ∷ names) m f h =
    ground (arith, lookup-remove_all target names (remove n m) f h, lookup-remove n target m)

module _ (target : Str) (Seen : ℕ → Type 0) where
  abbrev Reported : Call → Type 0
  Reported (failure other now) = other ≡ target → Seen now
  Reported (cleanup now) = Unit

  -- The time of the target's entry is one that was seen.
  abbrev Stamped : FailedTargetManager → Type 0
  Stamped m = (f : FailedTarget) → lookup target m ≡ some f → Seen f.blacklist_time

  count_failure-Seen :
      (now : ℕ) (f : FailedTarget)
      → Seen now
      → Seen f.blacklist_time
      → Seen (count_failure now f).blacklist_time
  unfolding count_failure
  count_failure-Seen now f s t = if_both Seen (leb 3 ((f.failure_count + 1) % 4294967296)) s t

  record_failure-Stamped :
      (m : FailedTargetManager) (other : Str) (now : ℕ)
      → (other ≡ target → Seen now)
      → Stamped m
      → Stamped (record_failure m other now)
  unfolding record_failure
  record_failure-Stamped m other now seen h f e = elim (Bool-cases (list_eq.same other target)) [
    | inl same ↦
        let here = (list_beq_iff other target).0 same in
        elim (Option-cases (lookup other m)) [
          | inl missing ↦
              let is : count_failure now (entry_or_new now none) ≡ f = ground (
                arith,
                e,
                missing,
                same,
                lookup-insert other target (count_failure now (entry_or_new now (lookup other m)))
                    m,
              ) in
              subst (λ (g : FailedTarget). Seen g.blacklist_time) is
                (count_failure-Seen now (entry_or_new now none) (seen here) (seen here))
          | inr (g, found) ↦
              let is : count_failure now g ≡ f = ground (
                arith,
                e,
                found,
                same,
                lookup-insert other target (count_failure now (entry_or_new now (lookup other m)))
                    m,
              ) in
              subst (λ (g : FailedTarget). Seen g.blacklist_time) is
                (count_failure-Seen now g (seen here)
                  (h g (subst (λ t. lookup t m ≡ some g) here found)))
        ]
    | inr other_one ↦ h f (
        ground (
          arith,
          e,
          other_one,
          lookup-insert other target (count_failure now (entry_or_new now (lookup other m))) m,
        ))
  ]

  perform-Stamped :
      (m : FailedTargetManager) (c : Call) → Reported c → Stamped m → Stamped (perform m c)
  unfolding perform cleanup_expired_targets
  perform-Stamped m (failure other now) seen h = record_failure-Stamped m other now seen h
  perform-Stamped m (cleanup now) seen h =
      λ f e. h f (lookup-remove_all target (expired_targets now m) m f e)

  perform_all-Stamped :
      (cs : List Call) (m : FailedTargetManager)
      → All Reported cs
      → Stamped m
      → Stamped (perform_all m cs)
  unfolding perform_all
  perform_all-Stamped [] m seen h = h
  perform_all-Stamped (c ∷ cs) m seen h =
      perform_all-Stamped cs (perform m c) seen.1 (perform-Stamped m c seen.0 h)

reported :
    (target : Str) (cs : List Call) (Seen : ℕ → Type 0)
    → ((now : ℕ) → FailedAt target cs now → Seen now)
    → All (Reported target Seen) cs
reported target [] Seen k = tt
reported target (failure other now ∷ cs) Seen k =
    ((λ e. k now (inl (ap (λ t. failure t now) e))), reported target cs Seen (λ t h. k t (inr h)))
reported target (cleanup now ∷ cs) Seen k = (tt, reported target cs Seen (λ t h. k t (inr h)))

-- A target is turned away only within half an hour of a failed connection to it.
pub is_blacklisted-FailedAt :
    (target : Str) (cs : List Call) (now : ℕ)
    → is_blacklisted (perform_all [] cs) target now ≡ true
    → (time : ℕ) × FailedAt target cs time × (now < time + failed_target_timeout)
unfolding is_blacklisted
is_blacklisted-FailedAt target cs now h = elim (Option-cases (lookup target (perform_all [] cs))) [
  | inl missing ↦ absurd (ground (arith, h, missing))
  | inr (f, found) ↦ (
    f.blacklist_time,
    perform_all-Stamped target (FailedAt target cs) cs []
        (reported target cs (FailedAt target cs) (λ t k. k))
        (λ f e. absurd (ground (arith, e, lookup-empty {V = FailedTarget} target))) f found,
    ground (arith, h, found),
  )
]

missing_after :
    (target : Str) (cs : List Call) (m : FailedTargetManager)
    → All (λ c. ¬ Fails target c) cs
    → lookup target m ≡ none
    → lookup target (perform_all m cs) ≡ none
unfolding perform_all perform record_failure cleanup_expired_targets
missing_after target [] m n h = h
missing_after target (failure other now ∷ cs) m n h = missing_after target cs _ n.1 (
    ground (
      arith,
      n.0,
      h,
      list_beq_iff other target,
      lookup-insert other target (count_failure now (entry_or_new now (lookup other m))) m,
    ))
missing_after target (cleanup now ∷ cs) m n h =
    missing_after target cs _ n.1
      (elim (Option-cases (lookup target (remove_all (expired_targets now m) m))) [
        | inl e ↦ e
        | inr (f, e) ↦ absurd (cc (h, lookup-remove_all target (expired_targets now m) m f e))
      ])

-- Already the first failed connection to a target, at `time`, turns it away for half an hour, and no longer.
pub first_failure-blacklists :
    (target : Str) (cs : List Call) (time now : ℕ)
    → All (λ c. ¬ Fails target c) cs
    → (is_blacklisted (record_failure (perform_all [] cs) target time) target now ≡ true)
      ↔ (now < time + failed_target_timeout)
unfolding is_blacklisted record_failure count_failure
first_failure-blacklists target cs time now n =
    let missing = missing_after target cs [] n (lookup-empty {V = FailedTarget} target) in
    rw (missing, lookup-insert_self) ((λ h. ground arith), (λ h. ground arith))
