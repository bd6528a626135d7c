-- ===== src/Store/Monad.antt =====
-- Calls that change the store, and may throw an exception or fail an assertion. The changes made
-- before an exception stay.
use parlevision.Base.{ℕ, Bool, true, false, List, Option, none, some, ◌≡◌, refl, arith}
use parlevision.Store.{Store, InputPin, OutputPin, PinConnection, Element, update}

-- plv::RuntimeError and the exceptions of PinConnection.
pub data Exception : Type 0 where
  runtime_error illegal_connection incompatible_type duplicate_connection : Exception

-- `aborted` is a failed assert, and a null pointer that is read through.
pub data Result (A : Type 0) : Type 0 where
  ok : A → Result A
  throws : Exception → Result A
  aborted : Result A

abbrev pub M : Type 0 → Type 0 → Type 0
M V A = Store V → Result A × Store V

module _ {V : Type 0} where
  abbrev pub bind_result : {A B : Type 0} → Result A → Store V → (A → M V B) → Result B × Store V
  bind_result (ok a) s f = f a s
  bind_result (throws e) s f = (throws e, s)
  bind_result aborted s f = (aborted, s)

  infixl 5 ◌>>=◌ ◌>>◌
  abbrev pub ◌>>=◌ : {A B : Type 0} → M V A → (A → M V B) → M V B
  ◌>>=◌ m f s = bind_result (m s).0 (m s).1 f

  abbrev pub ◌>>◌ : {B : Type 0} → M V (Unit {0}) → M V B → M V B
  m >> k = m >>= λ _. k

  abbrev pub pure : {A : Type 0} → A → M V A
  pure a s = (ok a, s)

  abbrev pub throw : {A : Type 0} → Exception → M V A
  throw e s = (throws e, s)

  abbrev pub abort : {A : Type 0} → M V A
  abort s = (aborted, s)

  abbrev pub assert : Bool → M V (Unit {0})
  assert true s = (ok tt, s)
  assert false s = (aborted, s)

  -- The statement `if( b ) throw e;`
  abbrev pub throw_if : Bool → Exception → M V (Unit {0})
  throw_if true e s = (throws e, s)
  throw_if false e s = (ok tt, s)

  abbrev pub when : Bool → M V (Unit {0}) → M V (Unit {0})
  when true m = m
  when false m = pure tt

  -- Dereference.
  abbrev pub pointed : Option ℕ → M V ℕ
  pointed none s = (aborted, s)
  pointed (some a) s = (ok a, s)

  abbrev pub the_input : ℕ → M V InputPin
  the_input a s = (ok (s.inputs a), s)

  abbrev pub the_output : ℕ → M V OutputPin
  the_output a s = (ok (s.outputs a), s)

  abbrev pub the_connection : ℕ → M V (PinConnection V)
  the_connection a s = (ok (s.connections a), s)

  abbrev pub the_element : ℕ → M V Element
  the_element a s = (ok (s.elements a), s)

  abbrev pub put_input : ℕ → InputPin → M V (Unit {0})
  put_input a p s = (ok tt, record s { inputs = update s.inputs a p })

  abbrev pub put_output : ℕ → OutputPin → M V (Unit {0})
  put_output a p s = (ok tt, record s { outputs = update s.outputs a p })

  abbrev pub put_connection : ℕ → PinConnection V → M V (Unit {0})
  put_connection a c s = (ok tt, record s { connections = update s.connections a c })

  abbrev pub put_element : ℕ → Element → M V (Unit {0})
  put_element a e s = (ok tt, record s { elements = update s.elements a e })

  -- A loop over a list of addresses.
  abbrev pub for_each : List ℕ → (ℕ → M V (Unit {0})) → M V (Unit {0})
  for_each List.[] body = pure tt
  for_each (List.◌∷◌ a rest) body = body a >> for_each rest body

  -- A sequence of two calls succeeds only if the first does.
  pub split_ok :
      (m k : M V (Unit {0})) (s : Store V)
      → ((m >> k) s).0 ≡ ok tt
      → ((m s).0 ≡ ok tt) × ((m >> k) s ≡ k (m s).1)
  split_ok m k s h = go (m s).0 refl
    where
      go : (r : Result (Unit {0})) → (m s).0 ≡ r → ((m s).0 ≡ ok tt) × ((m >> k) s ≡ k (m s).1)
      go (ok u) e = (e, ground arith)
      go (throws x) e = absurd (ground arith)
      go aborted e = absurd (ground arith)
