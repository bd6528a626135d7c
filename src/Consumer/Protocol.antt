-- ===== src/Consumer/Protocol.antt =====
-- What a processor may call on an input pin in one run: get or clear, once.
use parlevision.Base.{ℕ, ◌≡◌, refl, Bool, true, false, ◌&&◌, List, ◌∷◌, some, if◌then◌else◌, arith}
use parlevision.Connection.{Data}
use parlevision.Store.{Store, update}
use parlevision.Store.Monad.{ok, throws, throw_if, runtime_error}
use parlevision.Wiring.{is_connected}
use parlevision.Consumer.{pre, post, get_variant, clear}

module _ {V : Type 0} where
  get_variant-called :
      (q : ℕ) (s : Store V)
      → (s.inputs q).called ≡ true
      → get_variant q s ≡ (throws runtime_error, s)
  unfolding get_variant
  get_variant-called q s e = rw e

  clear-called :
      (q : ℕ) (s : Store V) → (s.inputs q).called ≡ true → clear q s ≡ (throws runtime_error, s)
  unfolding clear
  clear-called q s e = rw e

  post-called : (q : ℕ) (s : Store V) → (s.inputs q).called ≡ true → post q s ≡ (ok tt, s)
  unfolding post
  post-called q s e = rw e (silent (is_connected (s.inputs q)) (s.inputs q).synchronous)
    where
      silent : (a b : Bool) → throw_if {V = V} (a && b && false) runtime_error s ≡ (ok tt, s)
      silent true true = refl
      silent true false = refl
      silent false b = refl

  get_variant-marks : (q : ℕ) (s : Store V) → ((get_variant q s).1.inputs q).called ≡ true
  unfolding get_variant
  get_variant-marks q s = ground arith

  -- After a call of getVariant, whatever its outcome, a further getVariant or clear on the pin
  -- throws and changes nothing, and post does not throw.
  pub get_variant_once :
      (q : ℕ) (s : Store V)
      → let after = (get_variant q s).1 in
        (get_variant q after ≡ (throws runtime_error, after))
        × (clear q after ≡ (throws runtime_error, after))
        × (post q after ≡ (ok tt, after))
  get_variant_once q s =
      let marked = get_variant-marks q s in
      let after = (get_variant q s).1 in
      (get_variant-called q after marked, clear-called q after marked, post-called q after marked)

  -- The first getVariant of a run takes exactly the first item off the connection, and returns its
  -- payload, or throws if it is a null item. No other connection and no other pin changes.
  pub get_variant_takes_first :
      (q c : ℕ) (s : Store V) (d : Data V) (rest : List (Data V))
      → (s.inputs q).called ≡ false
      → (s.inputs q).connection ≡ some c
      → (s.connections c).queue ≡ d ∷ rest
      → get_variant q s ≡ (
        if d.is_null then throws runtime_error else ok d.payload,
        record s {
          inputs = update s.inputs q (record (s.inputs q) { called = true });
          connections = update s.connections c (record (s.connections c) { queue = rest });
        },
      )
  unfolding get_variant
  get_variant_takes_first q c s d rest fresh e f = ground arith

  -- Without get or clear since pre, post throws exactly on a connected synchronous pin.
  pub post_needs_get :
      (q : ℕ) (s : Store V)
      → (post q (pre q s).1).0 ≡ (
          if is_connected (s.inputs q) && (s.inputs q).synchronous
          then throws runtime_error
          else ok tt)
  unfolding pre post
  post_needs_get q s = ground arith
