-- ===== src/Protocol/Wind.antt =====
-- An instance of nest/proto.c that stops or is down, and is to stay down, ends its shutdown.
use active_bgp_measurement.Base.{◌≡◌, arith, Bool-cases, inl, inr, Bool, true, false, List, [], ◌∷◌}
use active_bgp_measurement.Protocol.{Proto, ProtoState, ps_down}
use active_bgp_measurement.Protocol.Steps.{HookLaws, Event, notify, flush_loop, raised}
use active_bgp_measurement.Protocol.Run.{run}
use active_bgp_measurement.Protocol.After.{After, skip_event, do_event}
use active_bgp_measurement.Protocol.Down.{
  winding, fallen, marked, ended, notify_fallen, flush_ended, flush_marked,
}

-- An instance that is removed, or one that is disabled.
module _ (removed : Bool) (start shutdown : Proto → ProtoState)
    (laws : HookLaws start shutdown) where
  freed_ended :
      (p : Proto) (es : List Event)
      → winding removed p ≡ true
      → p.freed ≡ true
      → After (ended removed) (run start shutdown p es)
  unfolding run
  freed_ended p [] w f = ground arith
  freed_ended p (e ∷ es) w f =
      skip_event start shutdown p e es (ended removed) (unraised e) (freed_ended p es w f)
    where
      unraised : (e : Event) → raised p e ≡ false
      unraised e = ground arith

  last_flush :
      (p : Proto)
      → marked removed p ≡ true
      → After (ended removed) (run start shutdown p (flush_loop ∷ []))
  unfolding run
  last_flush p m = elim (Bool-cases p.freed) [
    | inl y ↦ freed_ended p (flush_loop ∷ []) (ground arith) y
    | inr n ↦
        do_event start shutdown p flush_loop [] (ended removed) (ended removed) (ground arith)
          (flush_ended removed start shutdown laws p (ground arith) (ground arith)) (λ q e. e)
  ]

  both_flushes :
      (p : Proto)
      → fallen removed p ≡ true
      → After (ended removed) (run start shutdown p (flush_loop ∷ flush_loop ∷ []))
  both_flushes p m = elim (Bool-cases p.freed) [
    | inl y ↦ freed_ended p (flush_loop ∷ flush_loop ∷ []) (ground arith) y
    | inr n ↦
        do_event start shutdown p flush_loop (flush_loop ∷ []) (marked removed) (ended removed)
          (ground arith) (flush_marked removed start shutdown laws p m) last_flush
  ]

  -- The last notification and two rounds of the flush loop end the shutdown.
  pub wind_down :
      (p : Proto)
      → winding removed p ≡ true
      → After (ended removed) (run start shutdown p (notify ps_down ∷ flush_loop ∷ flush_loop ∷ []))
  wind_down p w = elim (Bool-cases p.freed) [
    | inl y ↦ freed_ended p (notify ps_down ∷ flush_loop ∷ flush_loop ∷ []) w y
    | inr n ↦
        do_event start shutdown p (notify ps_down) (flush_loop ∷ flush_loop ∷ []) (fallen removed)
          (ended removed) (ground arith) (notify_fallen removed start shutdown laws p w)
          both_flushes
  ]
