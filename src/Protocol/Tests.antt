-- ===== src/Protocol/Tests.antt =====
-- The machines of proto.c at concrete instances.
use active_bgp_measurement.Base.{◌≡◌, refl, true, false, none, ok, bug, [], ◌∷◌, ◌>>=◌, ◌&&◌}
use active_bgp_measurement.Protocol.{
  Proto, ProtoState, ps_down, ps_start, ps_up, ps_stop, fs_hungry, fs_happy, es_down, es_feeding,
  unscheduled, grs_none, is_down, is_up, is_happy, is_hungry, proto_schedule_feed,
  proto_want_core_up, proto_want_export_up, proto_init_instance,
}
use active_bgp_measurement.Protocol.Machine.{
  notify_state, to_up, to_start, reach_goal, proto_init, proto_rethink_goal, proto_notify_state,
}
use active_bgp_measurement.Protocol.Notify.{Legal}
use active_bgp_measurement.Protocol.Steps.{
  HookLaws, notify, disable, restart, flush_loop, replace, schedule_down, shutdown_loop, step,
}
use active_bgp_measurement.Protocol.Run.{
  step-Legal, run, run-Legal, Reachable, created, stepped, export_up,
}
use active_bgp_measurement.Protocol.After.{After}
use active_bgp_measurement.Protocol.End.{disable_down, remove_down}

-- A protocol like BGP, which starts slowly and stops slowly.
abbrev start_slowly : Proto → ProtoState
start_slowly p = ps_start

abbrev stop_slowly : Proto → ProtoState
stop_slowly p = ps_stop

slowly : HookLaws start_slowly stop_slowly
slowly = record { started = λ p. refl; stopped = λ p. refl }

abbrev starting : Proto
starting = record {
  proto_state = ps_start;
  core_state = fs_hungry;
  export_state = es_down;
  disabled = false;
  reconfiguring = false;
  cf_new = none;
  refeeding = false;
  flushing = false;
  gr_recovery = false;
  gr_lock = false;
  gr_wait = false;
  down_sched = unscheduled;
  down_code = 0;
  pool = true;
  feed_initial = false;
  freed = false;
  allocation = 1;
  graceful_restart_state = grs_none;
  graceful_restart_locks = 0;
  gr_wait_over = false;
  flush_loop_state = false;
}

abbrev feeding : Proto
feeding = record starting {
  proto_state = ps_up;
  core_state = fs_happy;
  export_state = es_feeding;
  feed_initial = true;
}

-- The instance before, of which only the variables of the file count.
abbrev before : Proto
before = record starting { allocation = 0 }

created_starting :
    proto_rethink_goal start_slowly stop_slowly 2 (proto_init before false) ≡ ok starting
unfolding proto_rethink_goal proto_init reach_goal notify_state to_start proto_init_instance
created_starting = refl

notified_up : proto_notify_state start_slowly stop_slowly 2 starting ps_up ≡ ok feeding
unfolding notify_state to_up proto_want_core_up proto_want_export_up proto_schedule_feed
notified_up = refl

feeding-Reachable : Reachable start_slowly stop_slowly feeding
feeding-Reachable =
    stepped starting feeding (notify ps_up) (created before starting false created_starting) refl
      notified_up

step-Legal_example : Legal (step start_slowly stop_slowly feeding restart)
step-Legal_example = step-Legal start_slowly stop_slowly slowly feeding restart refl refl

run-Legal_example : Legal (
    proto_rethink_goal start_slowly stop_slowly 2 (proto_init before false) >>= (λ p.
      run start_slowly stop_slowly p
        (notify ps_up ∷ schedule_down true 3 ∷ shutdown_loop ∷ notify ps_down ∷ flush_loop ∷ [])))
run-Legal_example =
    run-Legal start_slowly stop_slowly slowly before false
      (notify ps_up ∷ schedule_down true 3 ∷ shutdown_loop ∷ notify ps_down ∷ flush_loop ∷ [])

export_up_example : (is_up ps_up && is_happy fs_happy && true) ≡ true
export_up_example = export_up start_slowly stop_slowly slowly feeding feeding-Reachable refl

disable_down_example :
    After
      (λ q. is_down q.proto_state && is_hungry q.core_state && q.disabled)
      (run start_slowly stop_slowly feeding
        (disable ∷ notify ps_down ∷ flush_loop ∷ flush_loop ∷ []))
disable_down_example = disable_down start_slowly stop_slowly slowly feeding refl refl refl refl

remove_down_example :
    After
      (λ q. q.freed)
      (run start_slowly stop_slowly feeding
        (replace none 20 ∷ notify ps_down ∷ flush_loop ∷ flush_loop ∷ []))
remove_down_example = remove_down start_slowly stop_slowly slowly feeding 20 refl refl

-- A protocol that notifies PS_UP while it stops trips an assertion.
stop_up :
    proto_notify_state start_slowly stop_slowly 2 (record starting { proto_state = ps_stop }) ps_up
    ≡ bug
unfolding notify_state to_up
stop_up = refl
