-- ===== src/Protocol/Run.antt =====
-- The runs of an instance of nest/proto.c: no event breaks it, whatever came before.
use active_bgp_measurement.Base.{
  ◌||◌, ◌&&◌, not, ◌≡◌, refl, arith, Bool-cases, inl, inr, Bool, true, false, Res, ok, bug, fault,
  out_of_fuel, ◌>>=◌, if◌then◌else◌, List, [], ◌∷◌, subst,
}
use active_bgp_measurement.Protocol.{
  Proto, ProtoState, DownSched, unscheduled, pds_disable, pds_restart, is_up, is_happy, no_export,
  proto_schedule_feed, proto_schedule_flush_loop, proto_want_export_up, proto_feed_more,
  proto_graceful_restart_unlock,
}
use active_bgp_measurement.Protocol.Machine.{
  proto_init, proto_rethink_goal, proto_restart, proto_cmd_disable, proto_cmd_enable,
  proto_cmd_restart, proto_schedule_down, proto_shutdown_loop, proto_replace, proto_request_feeding,
  graceful_restart_done,
}
use active_bgp_measurement.Protocol.Notify.{legal, settled, Legal, notify_state-Legal}
use active_bgp_measurement.Protocol.Steps.{
  HookLaws, rethink-down, rethink_legal, Event, notify, disable, enable, restart, schedule_down,
  shutdown_loop, flush_loop, replace, request_feeding, graceful_done, feed, wait, unlock,
  other_flush, graceful, raised, step,
}
use active_bgp_measurement.Protocol.Safety.{flush_legal, restart_legal}

module _ (start shutdown : Proto → ProtoState) (laws : HookLaws start shutdown) where
  loop_legal :
      (p : Proto)
      → legal p ≡ true
      → settled p ≡ true
      → p.freed ≡ false
      → Legal (proto_shutdown_loop start shutdown 2 p)
  unfolding proto_shutdown_loop
  loop_legal p h k f = by_sched p.down_sched
    where
      by_sched :
          (s : DownSched)
          → Legal (elim s [
            | unscheduled ↦ ok p
            | pds_restart ↦ proto_restart start shutdown 2 (record p { disabled = true })
            | pds_disable ↦ proto_rethink_goal start shutdown 2 (record p { disabled = true })
          ])
      by_sched unscheduled = ground arith
      by_sched pds_restart =
          restart_legal start shutdown laws (record p { disabled = true }) h (ground arith) refl f
      by_sched pds_disable = rethink_legal start shutdown laws 0 (record p { disabled = true }) h

  -- For hooks that return the states that nest/protocol.h allows: from an instance that is legal and
  -- settled, every event that the daemon raises passes all assertions, does not use a freed instance,
  -- ends within two nested calls of proto_rethink_goal, and leaves the instance legal and settled.
  pub step-Legal :
      (p : Proto) (e : Event)
      → (legal p && settled p) ≡ true
      → raised p e ≡ true
      → Legal (step start shutdown p e)
  unfolding proto_cmd_disable proto_cmd_enable proto_cmd_restart proto_schedule_down proto_replace
      proto_request_feeding graceful_restart_done proto_feed_more proto_schedule_feed
      proto_want_export_up proto_graceful_restart_unlock proto_schedule_flush_loop
  step-Legal p (notify ps) g u =
      notify_state-Legal (proto_rethink_goal start shutdown 2) (rethink-down start shutdown laws 1)
        p ps (ground arith) (ground arith) (ground arith)
  step-Legal p disable g u = elim (Bool-cases p.disabled) [
    | inl y ↦ ground arith
    | inr n ↦
        rw (proto_cmd_disable, n)
          (rethink_legal start shutdown laws 0 (record p { disabled = true; down_code = 17 })
            (ground arith))
  ]
  step-Legal p enable g u = elim (Bool-cases p.disabled) [
    | inl y ↦
        rw (proto_cmd_enable, y)
          (rethink_legal start shutdown laws 0 (record p { disabled = false }) (ground arith))
    | inr n ↦ ground arith
  ]
  step-Legal p restart g u = elim (Bool-cases p.disabled) [
    | inl y ↦ ground arith
    | inr n ↦
        rw (proto_cmd_restart, n)
          (restart_legal start shutdown laws (record p { disabled = true; down_code = 18 })
            (ground arith) (ground arith) refl (ground arith))
  ]
  step-Legal p (schedule_down again code) g u = ground arith
  step-Legal p shutdown_loop g u = loop_legal p (ground arith) (ground arith) (ground arith)
  step-Legal p flush_loop g u = flush_legal start shutdown laws p (ground arith) (ground arith)
  step-Legal p (replace nc code) g u =
      rethink_legal start shutdown laws 0
        (record p { down_code = code; cf_new = nc; reconfiguring = true }) (ground arith)
  step-Legal p request_feeding g u = ground arith
  step-Legal p graceful_done g u = ground arith
  step-Legal p (feed done) g u = ground arith
  step-Legal p wait g u = ground arith
  step-Legal p unlock g u = ground arith
  step-Legal p other_flush g u = ground arith
  step-Legal p (graceful state locks) g u = ground arith

then_legal :
    (r : Res Proto) (f : Proto → Res Proto)
    → Legal r
    → ((q : Proto) → (legal q && settled q) ≡ true → Legal (f q))
    → Legal (r >>= f)
then_legal (ok q) f h g = g q h
then_legal bug f h g = h
then_legal fault f h g = h
then_legal out_of_fuel f h g = h

-- The events of a list, one after another; an event that the daemon does not raise is skipped.
module _ (start shutdown : Proto → ProtoState) where
  unfoldable pub run : Proto → List Event → Res Proto
  run p [] = ok p
  run p (e ∷ es) = if raised p e then (step start shutdown p e >>= (λ q. run q es)) else run p es

  -- The instances that the daemon reaches.
  pub data Reachable : Proto → Type 0 where
    -- protos_commit starts the new instances. Of the one before, only the variables of the file count.
    created :
        (old p : Proto) (disabled : Bool)
        → proto_rethink_goal start shutdown 2 (proto_init old disabled) ≡ ok p
        → Reachable p
    stepped :
        (p q : Proto) (e : Event)
        → Reachable p
        → raised p e ≡ true
        → step start shutdown p e ≡ ok q
        → Reachable q

module _ (start shutdown : Proto → ProtoState) (laws : HookLaws start shutdown) where
  from_legal :
      (es : List Event) (p : Proto)
      → (legal p && settled p) ≡ true
      → Legal (run start shutdown p es)
  unfolding run
  from_legal [] p g = g
  from_legal (e ∷ es) p g = elim (Bool-cases (raised p e)) [
    | inl y ↦ rw y (
        then_legal (step start shutdown p e) (λ q. run start shutdown q es)
          (step-Legal start shutdown laws p e g y) (λ q h. from_legal es q h))
    | inr n ↦ rw n (from_legal es p g)
  ]

  -- For hooks that return the states that nest/protocol.h allows: a new instance comes through every
  -- sequence of events, in which those that the daemon does not raise are skipped. No assertion
  -- fails, no freed instance is used, every event ends within two nested calls of proto_rethink_goal,
  -- and at the end the instance is legal and settled.
  pub run-Legal :
      (old : Proto) (disabled : Bool) (es : List Event)
      → Legal (
          proto_rethink_goal start shutdown 2 (proto_init old disabled)
          >>= (λ p. run start shutdown p es))
  unfolding proto_init
  run-Legal old disabled es =
      then_legal (proto_rethink_goal start shutdown 2 (proto_init old disabled))
        (λ p. run start shutdown p es)
        (rethink-down start shutdown laws 1 (proto_init old disabled) refl refl refl)
        (λ q h. from_legal es q h)

  Reachable-legal : (p : Proto) → Reachable start shutdown p → (legal p && settled p) ≡ true
  unfolding proto_init
  Reachable-legal p (created old _ disabled e) =
      subst Legal e (rethink-down start shutdown laws 1 (proto_init old disabled) refl refl refl)
  Reachable-legal q (stepped p _ e r u s) =
      subst Legal s (step-Legal start shutdown laws p e (Reachable-legal p r) u)

  -- For hooks that return the states that nest/protocol.h allows: an instance that the daemon reaches
  -- is fed with routes or gets them only while it is up, its core state is FS_HAPPY, and it is neither
  -- disabled nor to be replaced.
  pub export_up :
      (p : Proto)
      → Reachable start shutdown p
      → no_export p.export_state ≡ false
      → (is_up p.proto_state && is_happy p.core_state && not (p.disabled || p.reconfiguring)) ≡ true
  export_up p r x =
      let good : (legal p && settled p) ≡ true = Reachable-legal p r in ground (arith, good)
