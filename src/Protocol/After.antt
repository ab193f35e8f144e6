-- ===== src/Protocol/After.antt =====
-- What holds of an instance of nest/proto.c after an event that ends, and after a sequence of events.
use active_bgp_measurement.Base.{
  ◌≡◌, Bool, true, false, Res, ok, bug, fault, out_of_fuel, ◌>>=◌, List, ◌∷◌,
}
use active_bgp_measurement.Protocol.{Proto, ProtoState}
use active_bgp_measurement.Protocol.Steps.{Event, raised, step}
use active_bgp_measurement.Protocol.Run.{run}

abbrev pub After : (Proto → Bool) → Res Proto → Type 0
After test (ok p) = test p ≡ true
After _ _ = true ≡ false

After-bind :
    (s t : Proto → Bool) (r : Res Proto) (f : Proto → Res Proto)
    → After s r
    → ((q : Proto) → s q ≡ true → After t (f q))
    → After t (r >>= f)
After-bind s t (ok q) f h g = g q h
After-bind s t bug f h g = h
After-bind s t fault f h g = h
After-bind s t out_of_fuel f h g = h

pub After-mono :
    (s t : Proto → Bool)
    → ((q : Proto) → s q ≡ true → t q ≡ true)
    → (r : Res Proto) → After s r
    → After t r
After-mono s t f (ok q) h = f q h
After-mono s t f bug h = h
After-mono s t f fault h = h
After-mono s t f out_of_fuel h = h

-- The first event of a sequence.
module _ (start shutdown : Proto → ProtoState) where
  pub skip_event :
      (p : Proto) (e : Event) (es : List Event) (t : Proto → Bool)
      → raised p e ≡ false
      → After t (run start shutdown p es)
      → After t (run start shutdown p (e ∷ es))
  unfolding run
  skip_event p e es t f h = rw f h

  pub do_event :
      (p : Proto) (e : Event) (es : List Event) (s t : Proto → Bool)
      → raised p e ≡ true
      → After s (step start shutdown p e)
      → ((q : Proto) → s q ≡ true → After t (run start shutdown q es))
      → After t (run start shutdown p (e ∷ es))
  unfolding run
  do_event p e es s t u h g =
      rw u (After-bind s t (step start shutdown p e) (λ q. run start shutdown q es) h g)
