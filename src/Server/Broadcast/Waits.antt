-- ===== src/Server/Broadcast/Waits.antt =====
-- When the element of src/plvtcpserver/TCPServerProcessor.cpp waits.
use parlevision.Base.{
  ℕ, zero, suc, ◌≡◌, refl, subst, sym, ap, ◌∙◌, Bool, true, false, ◌||◌, List, [], ◌∷◌, ◌++◌,
  Option, none, some, inl, inr, ltb, get_elem?, set, any, arith, Bool-cases, Option-cases,
}
use parlevision.Server.{ServerConnection, queue_frame, send_data, ack_frame}
use parlevision.Server.Broadcast.{
  ServerProcessor, waiting_on_client, on_connection, remove_at, Event, incoming, queue, send, ack,
  gone, max_in_queue, max_in_flight, be_lossless, is_changed, step, run, set_max_frames_in_queue,
  set_max_frames_in_flight, incoming_connection, disconnected, server_thread_stalled, set_lossless,
  with_lossless, with_max_frames_in_flight, new_connection, new_server_processor, told_in_flight,
  told_lossless, delivery, deliver,
}

abbrev pub is_waiting : ServerConnection → Bool
is_waiting c = c.waiting

pub some-same : (s t : ServerProcessor) → some s ≡ some t → s ≡ t
some-same s t h = ap (λ o. elim o [ none ↦ s | some x ↦ x ]) h

-- Whether a step takes away a connection that waits.
abbrev pub is_loss : Event → ServerProcessor → Bool
is_loss incoming s = false
is_loss (queue i answers serial bytes) s = false
is_loss (send i answers) s = false
is_loss (ack i serial) s = false
is_loss (gone i) s = elim (get_elem? s.connections i) [ none ↦ false | some c ↦ c.waiting ]
is_loss (max_in_queue max) s = false
is_loss (max_in_flight max) s = false
is_loss (be_lossless lossless) s = false
is_loss (told_in_flight i max) s = false
is_loss (told_lossless i lossless) s = false
is_loss delivery s = false

-- Whether a run does.
unfoldable pub has_loss : List Event → ServerProcessor → Bool
has_loss [] s = false
has_loss (e ∷ events) s =
    is_loss e s || (elim (step e s) [ none ↦ false | some t ↦ has_loss events t ])

-- What m_waiting is when all signals are delivered.
abbrev pub lastly : Bool → List Bool → Bool
lastly waiting [] = waiting
lastly waiting (signal ∷ later) = lastly signal later

-- Somebody waits if the element does so in the end.
abbrev WaitsForOne : ServerProcessor → Type 0
WaitsForOne s = lastly s.waiting s.signals ≡ true → any is_waiting s.connections ≡ true

lastly-append :
    (waiting : Bool) (signals : List Bool) (b : Bool) → lastly waiting (signals ++ b ∷ []) ≡ b
lastly-append waiting [] b = refl
lastly-append waiting (signal ∷ later) b = lastly-append signal later b

any-set :
    (cs : List ServerConnection) (i : ℕ) (c d : ServerConnection)
    → get_elem? cs i ≡ some c
    → d.waiting ≡ true
    → any is_waiting (set cs i d) ≡ true
any-set [] i c d h w = absurd (ground (arith, h))
any-set (e ∷ cs) zero c d h w = ground (arith, w)
any-set (e ∷ cs) (suc i) c d h w = ground (arith, any-set cs i c d h w)

any-set_same :
    (cs : List ServerConnection) (i : ℕ) (c d : ServerConnection)
    → get_elem? cs i ≡ some c
    → c.waiting ≡ d.waiting
    → any is_waiting (set cs i d) ≡ any is_waiting cs
any-set_same [] i c d h w = refl
any-set_same (e ∷ cs) zero c d h w =
    let found : e ≡ c = ap (λ o. elim o [ none ↦ e | some x ↦ x ]) h in
    let same : e.waiting ≡ d.waiting = ap is_waiting found ∙ w in
    ap (λ b. b || any is_waiting cs) (sym same)
any-set_same (e ∷ cs) (suc i) c d h w = ap (λ b. e.waiting || b) (any-set_same cs i c d h w)

any-append :
    (cs ds : List ServerConnection) → any is_waiting cs ≡ true → any is_waiting (cs ++ ds) ≡ true
any-append [] ds h = absurd (ground (arith, h))
any-append (e ∷ cs) ds h = ground (arith, h, any-append cs ds)

any-remove_at :
    (cs : List ServerConnection) (i : ℕ)
    → (elim (get_elem? cs i) [ none ↦ false | some c ↦ c.waiting ]) ≡ false
    → any is_waiting cs ≡ true
    → any is_waiting (remove_at i cs) ≡ true
any-remove_at [] i g h = h
any-remove_at (e ∷ cs) zero g h = ground (arith, g, h)
any-remove_at (e ∷ cs) (suc i) g h = ground (arith, h, any-remove_at cs i g)

on_connection-WaitsForOne :
    (i : ℕ) (call : ServerConnection → Option ServerConnection) (s t : ServerProcessor)
    → on_connection i call s ≡ some t
    → WaitsForOne s
    → WaitsForOne t
unfolding on_connection waiting_on_client server_thread_stalled
on_connection-WaitsForOne i call s t h waits = elim (Option-cases (get_elem? s.connections i)) [
  | inl e ↦
      let nothing : on_connection i call s ≡ none = rw (on_connection, e) refl in
      absurd (ground (arith, sym h ∙ nothing))
  | inr (c, e) ↦ elim (Option-cases (call c)) [
    | inl f ↦
        let nothing : on_connection i call s ≡ none = rw (on_connection, e, f) refl in
        absurd (ground (arith, sym h ∙ nothing))
    | inr (d, f) ↦
        let u = waiting_on_client c d (record s { connections = set s.connections i d }) in
        let result : on_connection i call s ≡ some u = rw (on_connection, e, f) refl in
        subst WaitsForOne (some-same u t (sym result ∙ h)) (told c d e)
  ]
]
  where
    told :
        (c d : ServerConnection)
        → get_elem? s.connections i ≡ some c
        → WaitsForOne (waiting_on_client c d (record s { connections = set s.connections i d }))
    told c d e = elim (Bool-cases (is_changed c.waiting d.waiting)) [
      | inl g ↦ rw g (λ w.
          any-set s.connections i c d e (sym (lastly-append s.waiting s.signals d.waiting) ∙ w))
      | inr g ↦
          let kept : c.waiting ≡ d.waiting = ground (arith, g) in
          rw g (λ w. any-set_same s.connections i c d e kept ∙ waits w)
    ]

deliver-WaitsForOne : (s : ServerProcessor) → WaitsForOne s → WaitsForOne (deliver s)
unfolding deliver server_thread_stalled
deliver-WaitsForOne s waits = go s.signals refl
  where
    go : (signals : List Bool) → s.signals ≡ signals → WaitsForOne (deliver s)
    go [] e = rw e (λ w. waits (rw e w))
    go (signal ∷ later) e = rw e (λ w. waits (rw e w))

step-WaitsForOne :
    (e : Event) (s t : ServerProcessor)
    → step e s ≡ some t
    → is_loss e s ≡ false
    → WaitsForOne s
    → WaitsForOne t
unfolding step incoming_connection disconnected set_max_frames_in_queue set_max_frames_in_flight
    set_lossless
step-WaitsForOne incoming s t h g waits =
    subst WaitsForOne (some-same (incoming_connection s) t h)
      (λ w. any-append s.connections (new_connection s ∷ []) (waits w))
step-WaitsForOne (queue i answers serial bytes) s t h g waits =
    on_connection-WaitsForOne i (queue_frame answers serial bytes) s t h waits
step-WaitsForOne (send i answers) s t h g waits =
    on_connection-WaitsForOne i (send_data answers) s t h waits
step-WaitsForOne (ack i serial) s t h g waits =
    on_connection-WaitsForOne i (λ c. some (ack_frame serial c)) s t h waits
step-WaitsForOne (gone i) s t h g waits =
    subst WaitsForOne (some-same (disconnected i s) t h)
      (λ w. any-remove_at s.connections i g (waits w))
step-WaitsForOne (max_in_queue max) s t h g waits =
    subst WaitsForOne (some-same (set_max_frames_in_queue max s) t h)
      (elim (Bool-cases (ltb 0 max)) [ inl e ↦ rw e waits | inr e ↦ rw e waits ])
step-WaitsForOne (max_in_flight max) s t h g waits =
    subst WaitsForOne (some-same (set_max_frames_in_flight max s) t h)
      (elim (Bool-cases (ltb 0 max)) [ inl e ↦ rw e waits | inr e ↦ rw e waits ])
step-WaitsForOne (be_lossless lossless) s t h g waits =
    subst WaitsForOne (some-same (set_lossless lossless s) t h) waits
step-WaitsForOne (told_in_flight i max) s t h g waits =
    on_connection-WaitsForOne i (λ c. some (with_max_frames_in_flight max c)) s t h waits
step-WaitsForOne (told_lossless i lossless) s t h g waits =
    on_connection-WaitsForOne i (λ c. some (with_lossless lossless c)) s t h waits
step-WaitsForOne delivery s t h g waits =
    subst WaitsForOne (some-same (deliver s) t h) (deliver-WaitsForOne s waits)

run-WaitsForOne :
    (events : List Event) (s t : ServerProcessor)
    → run events s ≡ some t
    → has_loss events s ≡ false
    → WaitsForOne s
    → WaitsForOne t
unfolding run has_loss
run-WaitsForOne [] s t h g waits = subst WaitsForOne (some-same s t h) waits
run-WaitsForOne (e ∷ events) s t h g waits = elim (Option-cases (step e s)) [
  | inl f ↦
      let nothing : run (e ∷ events) s ≡ none = rw (run, f) refl in
      absurd (ground (arith, sym h ∙ nothing))
  | inr (u, f) ↦
      let unfolded : run (e ∷ events) s ≡ run events u = rw (run, f) refl in
      let next : run events u ≡ some t = sym unfolded ∙ h in
      let losses : has_loss (e ∷ events) s ≡ (is_loss e s || has_loss events u) =
        rw (has_loss, f) refl in
      let kept : is_loss e s ≡ false = ground (arith, g, losses) in
      let later : has_loss events u ≡ false = ground (arith, g, losses) in
      run-WaitsForOne events u t next later (step-WaitsForOne e s u f kept waits)
]

-- After any events on a new server element, whatever the order in which calls of connections and
-- deliveries of their signals come: if no signal waits for its delivery and m_waiting is set, then
-- one of the connections waits, unless one that waited has been disconnected on the way. And with
-- signals that wait, the same holds of the last of them in place of m_waiting.
pub run-is_waiting :
    (events : List Event) (t : ServerProcessor)
    → run events new_server_processor ≡ some t
    → has_loss events new_server_processor ≡ false
    → lastly t.waiting t.signals ≡ true
    → any is_waiting t.connections ≡ true
run-is_waiting events t h g busy =
    run-WaitsForOne events new_server_processor t h g (λ w. absurd (ground (arith, w))) busy
