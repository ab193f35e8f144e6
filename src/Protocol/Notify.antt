-- ===== src/Protocol/Notify.antt =====
-- What holds of an instance of nest/proto.c between two events.
use active_bgp_measurement.Base.{
  ◌||◌, ◌&&◌, not, ◌≡◌, refl, arith, Bool-cases, inl, inr, Bool, true, false, Res, ok,
}
use active_bgp_measurement.Protocol.{
  Proto, ProtoState, ps_down, ps_start, ps_up, ps_stop, CoreState, fs_hungry, fs_happy, fs_flushing,
  ExportState, es_down, is_down, is_start, is_up, is_stop, is_hungry, is_happy, is_flushing,
  no_export, same_ps, proto_schedule_feed, proto_schedule_flush_loop, proto_want_core_up,
  proto_want_export_up, proto_want_export_down, proto_want_core_down, proto_falling_down,
  proto_graceful_restart_unlock,
}
use active_bgp_measurement.Protocol.Machine.{to_start, to_up, to_stop, to_down, notify_state}

-- The states that the machines may be in together; `wait` is gr_wait.
abbrev pub together : ProtoState → CoreState → ExportState → Bool → Bool
together ps_down cs es wait = not (is_happy cs) && no_export es && not wait
together ps_start cs es wait = not (is_flushing cs) && no_export es
together ps_up cs es true = is_happy cs && no_export es
together ps_up cs es false = is_happy cs && not (no_export es)
together ps_stop cs es wait = not (is_happy cs) && no_export es && not wait

-- An instance marked for the flush loop is flushing, and while it is, the loop runs.
abbrev pub flushed : CoreState → Bool → Bool → Bool
flushed fs_flushing mark loop = loop
flushed _ mark loop = not mark

abbrev pub legal : Proto → Bool
legal p =
    together p.proto_state p.core_state p.export_state p.gr_wait
    && flushed p.core_state p.flushing p.flush_loop_state

-- An instance that is down and flushed is freed, or is meant to be down; one that starts or is up is
-- neither disabled nor to be replaced.
abbrev pub settled : Proto → Bool
settled p =
    (not (is_down p.proto_state && is_hungry p.core_state)
      || (p.freed || (p.disabled && not p.reconfiguring)))
    && (not (is_start p.proto_state || is_up p.proto_state) || not (p.disabled || p.reconfiguring))

-- The outcome of an event: no assertion fails, and the instance is legal and settled.
abbrev pub Legal : Res Proto → Type 0
Legal (ok p) = (legal p && settled p) ≡ true
Legal _ = true ≡ false

-- The transitions that a protocol may notify the core about (nest/protocol.h), besides those out of
-- PS_DOWN, for which the core asks.
abbrev pub allowed : ProtoState → ProtoState → Bool
allowed ps_down ps = is_down ps
allowed ps_stop ps = is_down ps || is_stop ps
allowed _ ps = true

pub to_start-Legal :
    (ps : ProtoState) (cs : CoreState) (es : ExportState) (p : Proto)
    → together ps cs es p.gr_wait ≡ true
    → flushed cs p.flushing p.flush_loop_state ≡ true
    → ((is_down ps && is_hungry cs) || is_up ps) ≡ true
    → (p.disabled || p.reconfiguring) ≡ false
    → Legal (
        to_start ps cs es (record p { proto_state = ps_start; core_state = cs; export_state = es }))
unfolding to_start proto_want_export_down
to_start-Legal ps cs es p h k a n = ground arith

pub to_up-Legal :
    (ps : ProtoState) (cs : CoreState) (es : ExportState) (p : Proto)
    → together ps cs es p.gr_wait ≡ true
    → flushed cs p.flushing p.flush_loop_state ≡ true
    → ((is_down ps && is_hungry cs) || is_start ps) ≡ true
    → (p.disabled || p.reconfiguring) ≡ false
    → Legal (to_up ps cs es (record p { proto_state = ps_up; core_state = cs; export_state = es }))
unfolding to_up proto_want_core_up proto_want_export_up proto_schedule_feed
to_up-Legal ps cs es p h k a n = ground arith

to_stop-Legal :
    (ps : ProtoState) (cs : CoreState) (es : ExportState) (p : Proto)
    → together ps cs es p.gr_wait ≡ true
    → flushed cs p.flushing p.flush_loop_state ≡ true
    → (is_start ps || is_up ps) ≡ true
    → Legal
        (to_stop ps cs es (record p { proto_state = ps_stop; core_state = cs; export_state = es }))
unfolding to_stop proto_want_export_down proto_want_core_down proto_falling_down
    proto_graceful_restart_unlock proto_schedule_flush_loop
to_stop-Legal ps cs es p h k a = ground arith

to_down-Legal :
    (fell : Proto → Res Proto)
    → ((q : Proto)
        → legal q ≡ true
        → is_down q.proto_state ≡ true
        → is_hungry q.core_state ≡ true
        → Legal (fell q))
    → (ps : ProtoState) (cs : CoreState) (es : ExportState) (p : Proto)
    → together ps cs es p.gr_wait ≡ true
    → flushed cs p.flushing p.flush_loop_state ≡ true
    → is_down ps ≡ false
    → Legal (
        to_down fell ps cs es
          (record p { proto_state = ps_down; core_state = cs; export_state = es }))
unfolding to_down proto_want_export_down proto_want_core_down proto_falling_down
    proto_graceful_restart_unlock proto_schedule_flush_loop
to_down-Legal fell fl ps fs_happy es p h k n = ground arith
to_down-Legal fell fl ps fs_flushing es p h k n = ground arith
to_down-Legal fell fl ps_down fs_hungry es p h k n = ground arith
to_down-Legal fell fl ps_up fs_hungry es p h k n = ground arith
to_down-Legal fell fl ps_stop fs_hungry es_down p h k n = fl _ (ground arith) refl refl
to_down-Legal fell fl ps_start fs_hungry es_down p h k n =
    fl _ (ground arith) (ground arith) (ground arith)
to_down-Legal fell fl ps_stop fs_hungry _ p h k n = ground arith
to_down-Legal fell fl ps_start fs_hungry _ p h k n = ground arith

-- Every notification that is allowed keeps an instance legal.
pub notify_state-Legal :
    (fell : Proto → Res Proto)
    → ((q : Proto)
        → legal q ≡ true
        → is_down q.proto_state ≡ true
        → is_hungry q.core_state ≡ true
        → Legal (fell q))
    → (p : Proto) (ps : ProtoState) → legal p ≡ true
    → settled p ≡ true
    → allowed p.proto_state ps ≡ true
    → Legal (notify_state fell p ps)
unfolding notify_state
notify_state-Legal fell fl p ps h k a = elim (Bool-cases (same_ps p.proto_state ps)) [
  | inl y ↦ rw (notify_state, y) (ground arith)
  | inr n ↦ rw (notify_state, n) (changed ps p fl h k a n)
]
  where
    changed :
        (ps : ProtoState) (p : Proto)
        → ((q : Proto)
            → legal q ≡ true
            → is_down q.proto_state ≡ true
            → is_hungry q.core_state ≡ true
            → Legal (fell q))
        → legal p ≡ true
        → settled p ≡ true
        → allowed p.proto_state ps ≡ true
        → same_ps p.proto_state ps ≡ false
        → let p' = record p { proto_state = ps } in
          Legal (elim ps [
            | ps_start ↦ to_start p.proto_state p.core_state p.export_state p'
            | ps_up ↦ to_up p.proto_state p.core_state p.export_state p'
            | ps_stop ↦ to_stop p.proto_state p.core_state p.export_state p'
            | ps_down ↦ to_down fell p.proto_state p.core_state p.export_state p'
          ])
    changed ps_start p fl h k a n =
        to_start-Legal p.proto_state p.core_state p.export_state p (ground arith) (ground arith)
          (ground arith) (ground arith)
    changed ps_up p fl h k a n =
        to_up-Legal p.proto_state p.core_state p.export_state p (ground arith) (ground arith)
          (ground arith) (ground arith)
    changed ps_stop p fl h k a n =
        to_stop-Legal p.proto_state p.core_state p.export_state p (ground arith) (ground arith)
          (ground arith)
    changed ps_down p fl h k a n =
        to_down-Legal fell fl p.proto_state p.core_state p.export_state p (ground arith)
          (ground arith) (ground arith)

-- An instance that starts or is up may be stopped or taken down, also when it is to be replaced.
pub stop_legal :
    (fell : Proto → Res Proto)
    → ((q : Proto)
        → legal q ≡ true
        → is_down q.proto_state ≡ true
        → is_hungry q.core_state ≡ true
        → Legal (fell q))
    → (p : Proto) (ps : ProtoState) → legal p ≡ true
    → (is_start p.proto_state || is_up p.proto_state) ≡ true
    → (is_stop ps || is_down ps) ≡ true
    → Legal (notify_state fell p ps)
unfolding notify_state
stop_legal fell fl p ps_stop h a s =
    let n : same_ps p.proto_state ps_stop ≡ false = ground arith in
    rw (notify_state, n)
      (to_stop-Legal p.proto_state p.core_state p.export_state p (ground arith) (ground arith) a)
stop_legal fell fl p ps_down h a s =
    let n : same_ps p.proto_state ps_down ≡ false = ground arith in
    rw (notify_state, n)
      (to_down-Legal fell fl p.proto_state p.core_state p.export_state p (ground arith)
        (ground arith) (ground arith))
stop_legal fell fl p ps_start h a s = ground arith
stop_legal fell fl p ps_up h a s = ground arith

-- An instance that is down and hungry may start.
pub start_legal :
    (fell : Proto → Res Proto) (p : Proto) (ps : ProtoState)
    → legal p ≡ true
    → is_down p.proto_state ≡ true
    → is_hungry p.core_state ≡ true
    → (p.disabled || p.reconfiguring) ≡ false
    → (is_start ps || is_up ps) ≡ true
    → Legal (notify_state fell p ps)
unfolding notify_state
start_legal fell p ps_start h d c r s =
    let n : same_ps p.proto_state ps_start ≡ false = ground arith in
    rw (notify_state, n)
      (to_start-Legal p.proto_state p.core_state p.export_state p (ground arith) (ground arith)
        (ground arith) r)
start_legal fell p ps_up h d c r s =
    let n : same_ps p.proto_state ps_up ≡ false = ground arith in
    rw (notify_state, n)
      (to_up-Legal p.proto_state p.core_state p.export_state p (ground arith) (ground arith)
        (ground arith) r)
start_legal fell p ps_down h d c r s = ground arith
start_legal fell p ps_stop h d c r s = ground arith
