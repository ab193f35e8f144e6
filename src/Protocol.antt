-- ===== src/Protocol.antt =====
-- The state machines of a protocol instance, nest/proto.c: the protocol machine, the core machine and
-- the route export machine. Assertions are checked, as the daemon does when it is built for
-- debugging.
pub mod Machine
pub mod Notify
pub mod Steps
pub mod Safety
pub mod Run
pub mod After
pub mod Down
pub mod Wind
pub mod End
mod Tests
use active_bgp_measurement.Base.{
  ℕ, zero, suc, ◌-◌, ◌||◌, ◌&&◌, not, Bool, true, false, Option, none, some, Res, ok, bug, fault,
  out_of_fuel, ◌>>=◌, ◌==◌, if◌then◌else◌,
}

-- PS_DOWN, PS_START, PS_UP and PS_STOP
pub data ProtoState : Type 0 where
  ps_down ps_start ps_up ps_stop : ProtoState

-- FS_HUNGRY, FS_HAPPY and FS_FLUSHING; FS_FEEDING is obsolete and never set.
pub data CoreState : Type 0 where
  fs_hungry fs_happy fs_flushing : CoreState

-- ES_DOWN, ES_FEEDING and ES_READY
pub data ExportState : Type 0 where
  es_down es_feeding es_ready : ExportState

-- PDS_DISABLE and PDS_RESTART, or 0
pub data DownSched : Type 0 where
  unscheduled pds_disable pds_restart : DownSched

-- GRS_NONE, GRS_INIT, GRS_ACTIVE and GRS_DONE
pub data GracefulRestart : Type 0 where
  grs_none grs_init grs_active grs_done : GracefulRestart

-- `struct proto`, with the variables of proto.c that its machines share.
pub record Proto : Type 0 where
  pub proto_state : ProtoState
  pub core_state : CoreState
  pub export_state : ExportState
  pub disabled : Bool
  pub reconfiguring : Bool
  -- The configuration to switch to is there (none: the instance is removed), and is disabled.
  pub cf_new : Option Bool
  pub refeeding : Bool
  pub flushing : Bool
  pub gr_recovery : Bool
  pub gr_lock : Bool
  pub gr_wait : Bool
  pub down_sched : DownSched
  pub down_code : ℕ
  -- The pool is allocated.
  pub pool : Bool
  -- The hook of `attn` is proto_feed_initial.
  pub feed_initial : Bool
  -- The instance was freed.
  pub freed : Bool
  -- Which allocation the instance is.
  pub allocation : ℕ
  pub graceful_restart_state : GracefulRestart
  pub graceful_restart_locks : ℕ
  -- The timer of the graceful restart is set to fire at once.
  pub gr_wait_over : Bool
  pub flush_loop_state : Bool

abbrev pub is_down : ProtoState → Bool
is_down ps_down = true
is_down _ = false

abbrev pub is_start : ProtoState → Bool
is_start ps_start = true
is_start _ = false

abbrev pub is_up : ProtoState → Bool
is_up ps_up = true
is_up _ = false

abbrev pub is_stop : ProtoState → Bool
is_stop ps_stop = true
is_stop _ = false

abbrev pub is_hungry : CoreState → Bool
is_hungry fs_hungry = true
is_hungry _ = false

abbrev pub is_happy : CoreState → Bool
is_happy fs_happy = true
is_happy _ = false

abbrev pub is_flushing : CoreState → Bool
is_flushing fs_flushing = true
is_flushing _ = false

abbrev pub no_export : ExportState → Bool
no_export es_down = true
no_export _ = false

abbrev pub is_feeding : ExportState → Bool
is_feeding es_feeding = true
is_feeding _ = false

abbrev pub is_init : GracefulRestart → Bool
is_init grs_init = true
is_init _ = false

abbrev pub is_active : GracefulRestart → Bool
is_active grs_active = true
is_active _ = false

abbrev pub same_ps : ProtoState → ProtoState → Bool
same_ps ps_down q = is_down q
same_ps ps_start q = is_start q
same_ps ps_up q = is_up q
same_ps ps_stop q = is_stop q

-- `ASSERT`
abbrev pub assert : Bool → Proto → Res Proto
assert true p = ok p
assert false p = bug

-- `proto_init_instance`
unfoldable pub proto_init_instance : Proto → Proto
proto_init_instance p = record p {
  pool = true;
  gr_recovery = is_init p.graceful_restart_state || p.gr_recovery;
}

unfoldable pub proto_schedule_feed : Proto → Bool → Proto
proto_schedule_feed p initial = record p {
  export_state = es_feeding;
  refeeding = not initial;
  feed_initial = initial;
}

-- `done` is what rt_feed_baby answers.
unfoldable pub proto_feed_more : Proto → Bool → Proto
proto_feed_more p done =
    if not (is_feeding p.export_state)
    then p
    else (if done then record p { export_state = es_ready } else record p { feed_initial = false })

unfoldable pub proto_schedule_flush_loop : Proto → Proto
proto_schedule_flush_loop p =
    if p.flush_loop_state
    then p
    else record p { flush_loop_state = true; flushing = is_flushing p.core_state || p.flushing }

unfoldable pub proto_graceful_restart_lock : Proto → Res Proto
proto_graceful_restart_lock p =
    assert (is_init p.graceful_restart_state) p >>= (λ p. assert p.gr_recovery p) >>= (λ p. ok (
      if p.gr_lock
      then p
      else record p { gr_lock = true; graceful_restart_locks = suc p.graceful_restart_locks }))

unfoldable pub proto_graceful_restart_unlock : Proto → Proto
proto_graceful_restart_unlock p = if not p.gr_lock then p else record p {
  gr_lock = false;
  graceful_restart_locks = p.graceful_restart_locks - 1;
  gr_wait_over =
      (is_active p.graceful_restart_state && p.graceful_restart_locks - 1 == 0) || p.gr_wait_over;
}

unfoldable pub proto_want_core_up : Proto → Res Proto
proto_want_core_up p =
    assert (is_hungry p.core_state) p >>= (λ p. ok (record p { core_state = fs_happy }))

unfoldable pub proto_want_export_up : Proto → Res Proto
proto_want_export_up p =
    assert (is_happy p.core_state) p
    >>= (λ p. assert (no_export p.export_state) p)
    >>= (λ p. ok (proto_schedule_feed p true))

unfoldable pub proto_want_export_down : Proto → Res Proto
proto_want_export_down p =
    assert (not (no_export p.export_state)) p >>= (λ p. ok (record p { export_state = es_down }))

unfoldable pub proto_want_core_down : Proto → Res Proto
proto_want_core_down p =
    assert (is_happy p.core_state) p
    >>= (λ p. assert (no_export p.export_state) p)
    >>= (λ p. ok (proto_schedule_flush_loop (record p { core_state = fs_flushing })))

unfoldable pub proto_falling_down : Proto → Proto
proto_falling_down p =
    let p' = record p { gr_recovery = false; gr_wait = false } in
    if p'.gr_lock then proto_graceful_restart_unlock p' else p'
