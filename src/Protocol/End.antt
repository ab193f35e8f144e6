-- ===== src/Protocol/End.antt =====
-- What ends an instance of nest/proto.c: the command that disables it, and its removal from the
-- configuration.
use active_bgp_measurement.Base.{
  ℕ, ◌&&◌, ◌≡◌, arith, Bool-cases, inl, inr, true, false, none, [], ◌∷◌,
}
use active_bgp_measurement.Protocol.{Proto, ProtoState, ps_down, is_down, is_hungry}
use active_bgp_measurement.Protocol.Machine.{proto_cmd_disable, proto_replace}
use active_bgp_measurement.Protocol.Notify.{legal, settled}
use active_bgp_measurement.Protocol.Steps.{HookLaws, notify, disable, flush_loop, replace}
use active_bgp_measurement.Protocol.Run.{run}
use active_bgp_measurement.Protocol.After.{After, After-mono, do_event}
use active_bgp_measurement.Protocol.Down.{winding, ended, rethink_winding}
use active_bgp_measurement.Protocol.Wind.{wind_down}

module _ (start shutdown : Proto → ProtoState) (laws : HookLaws start shutdown) where
  -- For hooks that return the states that nest/protocol.h allows, and an instance that is legal and
  -- settled, not freed and not to be replaced: when it is disabled by the command and then notifies
  -- that it is down, it is in PS_DOWN and FS_HUNGRY after two rounds of the flush loop, and disabled.
  pub disable_down :
      (p : Proto)
      → legal p ≡ true
      → settled p ≡ true
      → p.freed ≡ false
      → p.reconfiguring ≡ false
      → After
          (λ q. is_down q.proto_state && is_hungry q.core_state && q.disabled)
          (run start shutdown p (disable ∷ notify ps_down ∷ flush_loop ∷ flush_loop ∷ []))
  unfolding proto_cmd_disable
  disable_down p h k f r =
      After-mono (ended false) (λ q. is_down q.proto_state && is_hungry q.core_state && q.disabled)
        (λ q e. ground arith)
        (run start shutdown p (disable ∷ notify ps_down ∷ flush_loop ∷ flush_loop ∷ []))
        (do_event start shutdown p disable (notify ps_down ∷ flush_loop ∷ flush_loop ∷ [])
          (winding false) (ended false) (ground arith)
          (elim (Bool-cases p.disabled) [
            | inl y ↦ ground arith
            | inr n ↦
                rw (proto_cmd_disable, n)
                  (rethink_winding false start shutdown laws
                    (record p { disabled = true; down_code = 17 }) h (ground arith) f)
          ])
          (wind_down false start shutdown laws))

  -- For hooks that return the states that nest/protocol.h allows, and an instance that is legal and
  -- not freed: when it is removed from the configuration and then notifies that it is down, it is
  -- freed after two rounds of the flush loop at the latest.
  pub remove_down :
      (p : Proto) (code : ℕ)
      → legal p ≡ true
      → p.freed ≡ false
      → After
          (λ q. q.freed)
          (run start shutdown p (replace none code ∷ notify ps_down ∷ flush_loop ∷ flush_loop ∷ []))
  unfolding proto_replace
  remove_down p code h f =
      After-mono (ended true) (λ q. q.freed) (λ q e. ground arith)
        (run start shutdown p (replace none code ∷ notify ps_down ∷ flush_loop ∷ flush_loop ∷ []))
        (do_event start shutdown p (replace none code)
          (notify ps_down ∷ flush_loop ∷ flush_loop ∷ []) (winding true) (ended true) (ground arith)
          (rethink_winding true start shutdown laws
            (record p { down_code = code; cf_new = none; reconfiguring = true }) h (ground arith) f)
          (wind_down true start shutdown laws))
