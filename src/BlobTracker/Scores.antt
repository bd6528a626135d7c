-- ===== src/BlobTracker/Scores.antt =====
-- Tracks with a history: the calls of src/plvblobtracker/BlobTrack.cpp by
-- src/plvblobtracker/BlobTracker.cpp (matchBlobs) fail no assertion on them.
use parlevision.Base.{
  ℕ, ◌<◌, ◌≡◌, refl, ap, ◌∙◌, List, [], ◌∷◌, ◌++◌, some, length, length-append, arith, All,
}
use parlevision.BlobTracker.Overlap.{Blob}
use parlevision.BlobTracker.Track.{
  TrackState, BlobTrack, last, push, grow_old, not_matched, latest_score, matches,
}
use parlevision.BlobTracker.Track.Life.{last-some}
use parlevision.BlobTracker.{track_scores, all_scores}

-- Each track has a blob in its history.
abbrev pub HasHistories : List BlobTrack → Type 0
HasHistories tracks = All (λ t. 0 < length t.history) tracks

last-concat : (blob : Blob) (bs : List Blob) → last (bs ++ blob ∷ []) ≡ some blob
last-concat blob [] = refl
last-concat blob (b ∷ []) = refl
last-concat blob (b ∷ c ∷ bs) = last-concat blob (c ∷ bs)

pub last-push :
    (limit : ℕ) (blob : Blob) (bs : List Blob)
    → 0 < length bs
    → last (push limit blob bs) ≡ some blob
last-push limit blob [] h = absurd (omega (arith, h))
last-push limit blob (b ∷ bs) h = ground (arith, last-concat blob (b ∷ bs), last-concat blob bs)

pub length-push_positive :
    (limit : ℕ) (blob : Blob) (bs : List Blob) → 0 < length bs → 0 < length (push limit blob bs)
length-push_positive limit blob [] h = absurd (omega (arith, h))
length-push_positive limit blob (b ∷ bs) h = ground (arith, length-append bs (blob ∷ []))

matches-some :
    (blob : Blob) (t : BlobTrack)
    → 0 < length t.history
    → (score : ℕ) × (matches blob t ≡ some score)
unfolding matches
matches-some blob t h =
    let (latest, e) = last-some t.history h in
    let (score, f) = by_state t.state latest in (score, ap (latest_score blob t.state) e ∙ f)
  where
    by_state :
        (s : TrackState) (latest : Blob) → (n : ℕ) × (latest_score blob s (some latest) ≡ some n)
    by_state TrackState.dead latest = (0, refl)
    by_state TrackState.birth latest = (_, refl)
    by_state TrackState.normal latest = (_, refl)
    by_state TrackState.lost latest = (_, refl)

pub not_matched-keeps :
    (serial : ℕ) (t : BlobTrack)
    → 0 < length t.history
    → (u : BlobTrack) × (not_matched serial t ≡ some u) × (u.id ≡ t.id) × (0 < length u.history)
unfolding not_matched
not_matched-keeps serial t h =
    let (latest, e) = last-some t.history h in
    (grow_old serial latest t, ground (arith, e), refl, h)

track_scores-some :
    (t : BlobTrack) (blobs : List Blob)
    → 0 < length t.history
    → (row : List ℕ) × (track_scores t blobs ≡ some row)
unfolding track_scores
track_scores-some t [] h = ([], refl)
track_scores-some t (blob ∷ blobs) h =
    let (score, e) = matches-some blob t h in
    let (row, f) = track_scores-some t blobs h in (score ∷ row, ground (arith, e, f))

pub all_scores-some :
    (tracks : List BlobTrack) (blobs : List Blob)
    → HasHistories tracks
    → (rows : List (List ℕ)) × (all_scores tracks blobs ≡ some rows)
unfolding all_scores
all_scores-some [] blobs h = ([], refl)
all_scores-some (t ∷ tracks) blobs h =
    let (row, e) = track_scores-some t blobs h.0 in
    let (rows, f) = all_scores-some tracks blobs h.1 in (row ∷ rows, ground (arith, e, f))
