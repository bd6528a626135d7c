-- ===== src/Delivery/Rounds.antt =====
-- One processing run of an element, seen from one of its output pins.
use parlevision.Base.{
  ℕ, ◌≡◌, ◌≤◌, refl, Bool, true, false, not, occurrences, ◌||◌, ◌&&◌, List, [], ◌∷◌, ◌++◌, Option,
  none, some, ◌==◌, if◌then◌else◌, arith, contains, is_empty,
}
use parlevision.Connection.{Data, null_data, data_of}
use parlevision.Store.{Store, update}
use parlevision.Delivery.{put, pre, put_variant, put_null, post}
use parlevision.Store.Monad.{M, ok, ◌>>◌, for_each, pure, when, split_ok}
use parlevision.Delivery.Spread.{
  synchronous_of, Spread, put-Spread, put_null-Spread, SameEnds, synchronous_of-SameEnds,
  for_each-Spread,
}

module _ {V : Type 0} where
  -- What an element does with an output pin in one run: pre, at most one put, post.
  pub offer : ℕ → ℕ → Option V → M V (Unit {0})
  offer p serial none = pure tt
  offer p serial (some v) = put_variant p serial v

  unfoldable pub round : ℕ → ℕ → Option V → M V (Unit {0})
  unfolding offer
  round p serial value = do pre p; offer p serial value; post p

  abbrev pub item_of : ℕ → Option V → Data V
  item_of serial none = null_data serial
  item_of serial (some v) = data_of serial v

  abbrev pub is_put : Option V → Bool
  is_put none = false
  is_put (some v) = true

  abbrev marked : ℕ → Store V → Store V
  marked p s = record s { outputs = update s.outputs p (record (s.outputs p) { called = true }) }

  put_variant-eq :
      (p serial : ℕ) (v : V) (s : Store V)
      → (s.outputs p).called ≡ false
      → put_variant p serial v s
        ≡ for_each (s.outputs p).connections (λ c. put c (data_of serial v)) (marked p s)
  unfolding put_variant
  put_variant-eq p serial v s fresh = rw fresh

  post-eq :
      (p serial : ℕ) (s : Store V)
      → (s.outputs p).called ≡ false
      → (s.elements (s.outputs p).owner).serial ≡ serial
      → post p s ≡ for_each (s.outputs p).connections (put_null serial) s
  unfolding post
  post-eq p serial s fresh e = rw (fresh, e) (unless_empty (s.outputs p).connections)
    where
      unless_empty :
          (cs : List ℕ)
          → when (not (is_empty cs) && true) (for_each cs (put_null serial)) s
            ≡ for_each cs (put_null serial) s
      unless_empty [] = refl
      unless_empty (c ∷ cs) = refl

  put_variant-Spread :
      (p serial : ℕ) (v : V) (s : Store V)
      → ((x : ℕ) → occurrences x (s.outputs p).connections ≤ 1)
      → (s.outputs p).called ≡ false
      → (put_variant p serial v s).0 ≡ ok tt
      → Spread
          (λ x. contains x (s.outputs p).connections && true)
          (data_of serial v)
          (marked p s)
          (put_variant p serial v s).1
  put_variant-Spread p serial v s once fresh h =
      let same = put_variant-eq p serial v s fresh in
      rw same (
        for_each-Spread (λ c. put c (data_of serial v)) (λ c. true) (data_of serial v) (marked p s)
          (λ c t i k. put-Spread c (data_of serial v) t) (s.outputs p).connections (marked p s)
          (record { inputs = refl; consumers = λ x. refl }) once (rw same at h))

  post-Spread :
      (p serial : ℕ) (s : Store V)
      → ((x : ℕ) → occurrences x (s.outputs p).connections ≤ 1)
      → (s.outputs p).called ≡ false
      → (s.elements (s.outputs p).owner).serial ≡ serial
      → (post p s).0 ≡ ok tt
      → Spread
          (λ x. contains x (s.outputs p).connections && synchronous_of s x)
          (null_data serial)
          s
          (post p s).1
  post-Spread p serial s once fresh e h =
      let same = post-eq p serial s fresh e in
      rw same (
        for_each-Spread (put_null serial) (synchronous_of s) (null_data serial) s
          (λ c t i k. as_before c t i (put_null-Spread serial c t k)) (s.outputs p).connections s
          (record { inputs = refl; consumers = λ x. refl }) once (rw same at h))
    where
      as_before :
          (c : ℕ) (t : Store V)
          → SameEnds s t
          → Spread (λ x. synchronous_of t c && c == x) (null_data serial) t (put_null serial c t).1
          → Spread (λ x. synchronous_of s c && c == x) (null_data serial) t (put_null serial c t).1
      as_before c t i k = rw (synchronous_of-SameEnds i c) at k

  abbrev cleared : ℕ → Store V → Store V
  cleared p s = record s { outputs = update s.outputs p (record (s.outputs p) { called = false }) }

  -- After a put nothing is left for post to do.
  post-called : (p : ℕ) (s : Store V) → (s.outputs p).called ≡ true → post p s ≡ (ok tt, s)
  unfolding post
  post-called p s h = rw h (nothing (is_empty (s.outputs p).connections))
    where
      nothing :
          (b : Bool)
          → when
              (not b && false)
              (for_each
                (s.outputs p).connections
                (put_null (s.elements (s.outputs p).owner).serial))
              s
            ≡ (ok tt, s)
      nothing true = refl
      nothing false = refl

  -- A run of an element that puts at most one item on an output pin, with the serial of the run,
  -- and that fails nowhere: each connection to a synchronous input pin gets exactly one item more,
  -- the one that was put or a null item with the serial of the run; each connection to an
  -- asynchronous pin gets the item that was put, and nothing if none was; all other connections
  -- keep their queues.
  pub round_delivers_once :
      (p serial : ℕ) (value : Option V) (s : Store V)
      → ((x : ℕ) → occurrences x (s.outputs p).connections ≤ 1)
      → (s.elements (s.outputs p).owner).serial ≡ serial
      → (round p serial value s).0 ≡ ok tt
      → (x : ℕ)
      → ((round p serial value s).1.connections x).queue ≡ (
          if contains x (s.outputs p).connections && (is_put value || synchronous_of s x)
          then (s.connections x).queue ++ item_of serial value ∷ []
          else (s.connections x).queue)
  unfolding round pre
  round_delivers_once p serial none s once e h x =
      let after_pre = cleared p s in
      let sent =
        post-Spread p serial after_pre (λ y. ground (arith, once y)) (ground arith) (ground arith)
          h in
      ground (arith, sent.connections x)
  round_delivers_once p serial (some v) s once e h x =
      let after_pre = cleared p s in
      let (first, rest) = split_ok (put_variant p serial v) (post p) after_pre h in
      let sent =
        put_variant-Spread p serial v after_pre (λ y. ground (arith, once y)) (ground arith)
          first in
      let silent =
        post-called p (put_variant p serial v after_pre).1 (rw sent.outputs (ground arith)) in
      rw (rest, silent) (ground (arith, sent.connections x))
