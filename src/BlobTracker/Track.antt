-- ===== src/BlobTracker/Track.antt =====
-- A track of a blob: src/plvblobtracker/BlobTrack.cpp (the constructor, addMeasurement,
-- notMatched, matches) and BlobTrackData of src/plvblobtracker/BlobTrack.h. Drawing, the speed and
-- the colour are left out.
pub mod Life
use parlevision.Base.{
  ℕ, zero, suc, ◌+◌, ◌-◌, ◌%◌, ◌^◌, ◌≤◌, ◌<◌, ◌≡◌, ◌≢◌, refl, ap, ◌∙◌, Bool, true, false, List, [],
  ◌∷◌, ◌++◌, Option, none, some, ◌==◌, ltb, leb, if◌then◌else◌, length, length-append, drop, max,
  arith, Bool-cases, inl, inr,
}
use parlevision.BlobTracker.Overlap.{Blob, matching_area}

-- PlvOpenCVBlobTrackState
pub data TrackState : Type 0 where
  birth : TrackState
  normal : TrackState
  lost : TrackState
  dead : TrackState

pub record BlobTrack : Type 0 where
  pub id : ℕ
  pub birth_threshold : ℕ
  pub birth_window : ℕ
  pub die_threshold : ℕ
  pub history_size : ℕ
  pub track_size : ℕ
  pub age : ℕ
  pub state : TrackState
  pub history : List Blob
  pub track : List (ℕ × ℕ)

-- The constructor with its default arguments. Both BlobTrackData and BlobTrack append the blob.
abbrev pub new_track : ℕ → Blob → BlobTrack
new_track id blob = record {
  id = id;
  birth_threshold = 3;
  birth_window = 10;
  die_threshold = 10;
  history_size = 10;
  track_size = 2147483647;
  age = 0;
  state = TrackState.birth;
  history = blob ∷ blob ∷ [];
  track = [];
}

-- QList::last; `none` is the assertion that fails on an empty list.
abbrev pub last : List Blob → Option Blob
last [] = none
last (b ∷ []) = some b
last (b ∷ c ∷ bs) = last (c ∷ bs)

-- Append an item, and remove the first one if there are more than the limit.
abbrev pub push {ℓ} : {A : Type ℓ} → ℕ → A → List A → List A
push limit a xs = if ltb limit (length (xs ++ a ∷ [])) then drop 1 (xs ++ a ∷ []) else xs ++ a ∷ []

-- The state of a track that has matched so many times in its birth window.
abbrev pub confirm : ℕ → ℕ → TrackState → TrackState
confirm birth_threshold count TrackState.birth =
    if leb birth_threshold count then TrackState.normal else TrackState.birth
confirm birth_threshold count other = other

-- BlobTrack::addMeasurement. The loop over the birth window has no body, so that count stays 0.
unfoldable pub add_measurement : Blob → BlobTrack → BlobTrack
add_measurement blob t =
    let count : ℕ = 0 in
    record t {
      age = (t.age + 1) % 2 ^ 32;
      history = push t.history_size blob t.history;
      track = push t.track_size blob.cog t.track;
      state = confirm t.birth_threshold count t.state;
    }

-- BlobTrack::notMatched, for the last blob of the history; unsigned numbers wrap around.
abbrev pub grow_old : (frame_number : ℕ) → Blob → BlobTrack → BlobTrack
grow_old frame_number blob t = record t {
  age = (t.age + 1) % 2 ^ 32;
  state =
      if ltb t.die_threshold ((frame_number + 2 ^ 32 - blob.frame_nr) % 2 ^ 32)
      then TrackState.dead
      else t.state;
}

unfoldable pub not_matched : (frame_number : ℕ) → BlobTrack → Option BlobTrack
not_matched frame_number t = elim (last t.history) [
  | none ↦ none
  | some blob ↦ some (grow_old frame_number blob t)
]

-- BlobTrack::matches, for the last blob of the history.
abbrev pub latest_score : Blob → TrackState → Option Blob → Option ℕ
latest_score blob TrackState.dead latest = some 0
latest_score blob _ none = none
latest_score blob _ (some latest) = some (matching_area blob latest)

unfoldable pub matches : Blob → BlobTrack → Option ℕ
unfolding matching_area
matches blob t = latest_score blob t.state (last t.history)
