-- ===== src/Connection/Fifo.antt =====
-- A connection hands its items over in the order in which they came, each once.
use parlevision.Base.{
  ℕ, ◌≡◌, refl, ap, ◌∙◌, true, List, [], ◌∷◌, ◌++◌, append-nil, append_assoc, Option, none, some,
  ◌==◌, arith, any, all, not, Bool-cases, inl, inr, Option-cases,
}
use parlevision.Connection.{Data, get, push, fastforward, has_data_items}

-- What the two ends of a connection call on it.
pub data Call (V : Type 0) : Type 0 where
  puts : Data V → Call V
  gets : Call V

module _ {V : Type 0} where
  -- A history of calls on a queue: the items handed over and the queue at the end, or `none` if
  -- some call of get threw.
  unfoldable pub run : List (Call V) → List (Data V) → Option (List (Data V) × List (Data V))
  run [] queue = some ([], queue)
  run (puts d ∷ calls) queue = run calls (push queue d)
  run (gets ∷ calls) queue = elim (get queue) [
    | none ↦ none
    | some (d, rest) ↦ elim (run calls rest) [
      | none ↦ none
      | some (out, left) ↦ some (d ∷ out, left)
    ]
  ]

  abbrev pub inputs_of : List (Call V) → List (Data V)
  inputs_of [] = []
  inputs_of (puts d ∷ calls) = d ∷ inputs_of calls
  inputs_of (gets ∷ calls) = inputs_of calls

  -- In every history of put and get calls in which no get throws, the items handed over, followed
  -- by those still queued, are the items queued at the start followed by those put, in this order.
  pub run_fifo :
      (calls : List (Call V)) (queue out left : List (Data V))
      → run calls queue ≡ some (out, left)
      → out ++ left ≡ queue ++ inputs_of calls
  unfolding run push get
  run_fifo [] queue out left e = ground (arith, append-nil queue)
  run_fifo (puts d ∷ calls) queue out left e =
      run_fifo calls (push queue d) out left e ∙ append_assoc queue (d ∷ []) (inputs_of calls)
  run_fifo (gets ∷ calls) [] out left e = cc
  run_fifo (gets ∷ calls) (d ∷ rest) out left e = elim (Option-cases (run calls rest)) [
    | inl f ↦ ground arith
    | inr ((o, l), f) ↦ ground (arith, run_fifo calls rest o l f)
  ]

  -- fastforward drops exactly the items before the first one with the serial, and reports whether
  -- there is one; without one it empties the queue.
  pub fastforward_lem :
      (target : ℕ) (queue : List (Data V))
      → (dropped : List (Data V)) × (queue ≡ dropped ++ (fastforward target queue).1)
        × (all (λ d. not (d.serial == target)) dropped ≡ true)
        × ((fastforward target queue).0 ≡ any (λ d. d.serial == target) queue)
        × ((fastforward target queue).0 ≡ has_data_items (fastforward target queue).1)
  unfolding fastforward has_data_items
  fastforward_lem target [] = ([], refl, refl, refl, refl)
  fastforward_lem target (d ∷ queue) = elim (Bool-cases (d.serial == target)) [
    | inl e ↦ rw (e, fastforward) ([], refl, refl, refl, refl)
    | inr e ↦
        let (dropped, p, q, r, s) = fastforward_lem target queue in
        rw (e, fastforward) (d ∷ dropped, ap (◌∷◌ d) p, rw e q, r, s)
  ]
