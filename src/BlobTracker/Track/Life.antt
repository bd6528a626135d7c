-- ===== src/BlobTracker/Track/Life.antt =====
-- What holds all the life of a track: src/plvblobtracker/BlobTrack.cpp (addMeasurement,
-- notMatched).
use parlevision.Base.{
  ℕ, suc, ◌^◌, ◌≤◌, ◌<◌, ◌≡◌, refl, ◌∙◌, Bool, true, false, List, [], ◌∷◌, ◌++◌, Option, none, some,
  ltb, if◌then◌else◌, length, length-append, drop, max, arith,
}
use parlevision.BlobTracker.Overlap.{Blob}
use parlevision.BlobTracker.Track.{
  TrackState, BlobTrack, new_track, last, push, confirm, grow_old, add_measurement, not_matched,
}

-- What happens to a track in a frame.
pub data Event : Type 0 where
  measured : Blob → Event
  missed : ℕ → Event

pub live : List Event → BlobTrack → Option BlobTrack
unfolding not_matched add_measurement
live [] t = some t
live (Event.measured blob ∷ events) t = live events (add_measurement blob t)
live (Event.missed frame_number ∷ events) t = elim (not_matched frame_number t) [
  | none ↦ none
  | some u ↦ live events u
]

abbrev pub is_normal : TrackState → Bool
is_normal TrackState.normal = true
is_normal _ = false

-- A track with a birth threshold that is not zero, with its limits.
record Alive (limit route_limit : ℕ) (t : BlobTrack) : Type 0 where
  pub history_limit : t.history_size ≡ limit
  pub track_limit : t.track_size ≡ route_limit
  pub threshold : 0 < t.birth_threshold
  pub some_history : 0 < length t.history
  pub history_bound : length t.history ≤ max 2 limit
  pub track_bound : length t.track ≤ route_limit
  pub not_normal : is_normal t.state ≡ false

length-push {ℓ} :
    {A : Type ℓ} (limit : ℕ) (a : A) (xs : List A)
    → length (push limit a xs)
      ≡ (if ltb limit (suc (length xs)) then length xs else suc (length xs))
length-push {A = A} limit a xs = ground (arith, shorter xs, length-append xs (a ∷ []))
  where
    shorter : (ys : List A) → length (drop 1 (ys ++ a ∷ [])) ≡ length ys
    shorter [] = refl
    shorter (y ∷ ys) = length-append ys (a ∷ []) ∙ omega arith

pub last-some : (bs : List Blob) → 0 < length bs → (b : Blob) × (last bs ≡ some b)
last-some [] h = absurd (omega (arith, h))
last-some (b ∷ []) h = (b, refl)
last-some (b ∷ c ∷ bs) h = last-some (c ∷ bs) (omega arith)

confirm-not_normal :
    (threshold : ℕ) (s : TrackState)
    → 0 < threshold
    → is_normal s ≡ false
    → is_normal (confirm threshold 0 s) ≡ false
confirm-not_normal threshold TrackState.birth h k = ground (arith, h)
confirm-not_normal threshold TrackState.normal h k = k
confirm-not_normal threshold TrackState.lost h k = k
confirm-not_normal threshold TrackState.dead h k = k

add_measurement-Alive :
    (limit route_limit : ℕ) (blob : Blob) (t : BlobTrack)
    → Alive limit route_limit t
    → Alive limit route_limit (add_measurement blob t)
unfolding add_measurement
add_measurement-Alive limit route_limit blob t a = record {
  history_limit = a.history_limit;
  track_limit = a.track_limit;
  threshold = a.threshold;
  some_history = ground (arith, length-push t.history_size blob t.history, a.some_history);
  history_bound =
      ground (arith, length-push t.history_size blob t.history, a.history_bound, a.history_limit);
  track_bound =
      ground (arith, length-push t.track_size blob.cog t.track, a.track_bound, a.track_limit);
  not_normal = confirm-not_normal t.birth_threshold t.state a.threshold a.not_normal;
}

not_matched-Alive :
    (limit route_limit frame_number : ℕ) (t : BlobTrack)
    → Alive limit route_limit t
    → (u : BlobTrack) × (not_matched frame_number t ≡ some u) × Alive limit route_limit u
unfolding not_matched
not_matched-Alive limit route_limit frame_number t a =
    let (b, e) = last-some t.history a.some_history in
    (
      grow_old frame_number b t,
      ground (arith, e),
      record {
        history_limit = a.history_limit;
        track_limit = a.track_limit;
        threshold = a.threshold;
        some_history = a.some_history;
        history_bound = a.history_bound;
        track_bound = a.track_bound;
        not_normal = ground (arith, a.not_normal);
      },
    )

live-Alive :
    (limit route_limit : ℕ) (events : List Event) (t : BlobTrack)
    → Alive limit route_limit t
    → (u : BlobTrack) × (live events t ≡ some u) × Alive limit route_limit u
unfolding live
live-Alive limit route_limit [] t a = (t, refl, a)
live-Alive limit route_limit (Event.measured blob ∷ events) t a =
    live-Alive limit route_limit events (add_measurement blob t)
      (add_measurement-Alive limit route_limit blob t a)
live-Alive limit route_limit (Event.missed frame_number ∷ events) t a =
    let (u, e, b) = not_matched-Alive limit route_limit frame_number t a in
    let (v, f, c) = live-Alive limit route_limit events u b in (v, ground (arith, e, f), c)

-- A track of a new blob, with the default arguments of the constructor, however often it is
-- measured or missed: no assertion on an empty history fails, and it keeps between one and ten
-- blobs of history and at most 2 ^ 31 - 1 points of its route. It never reaches the normal state.
pub live-new_track :
    (events : List Event) (id : ℕ) (blob : Blob)
    → (t : BlobTrack) × (live events (new_track id blob) ≡ some t)
      × (0 < length t.history)
      × (length t.history ≤ 10)
      × (length t.track < 2 ^ 31)
      × (is_normal t.state ≡ false)
live-new_track events id blob =
    let (t, e, a) = live-Alive 10 2147483647 events (new_track id blob) (record {
      history_limit = refl;
      track_limit = refl;
      threshold = omega arith;
      some_history = omega arith;
      history_bound = omega arith;
      track_bound = omega arith;
      not_normal = refl;
    }) in
    (
      t,
      e,
      a.some_history,
      ground (arith, a.history_bound),
      ground (arith, a.track_bound),
      a.not_normal,
    )
