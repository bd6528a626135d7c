-- ===== src/BlobTracker/Examples.antt =====
-- Two tracks, of which the second one is dead, and three blobs. The solver matches each track with
-- the blob at its place.
use parlevision.Base.{
  ℕ, ◌+◌, ◌^◌, ◌≤◌, ◌<◌, ◌≡◌, refl, true, false, List, [], ◌∷◌, some, ◌==◌, if◌then◌else◌, length,
  arith, All,
}
use parlevision.BlobTracker.{ℤ, Matrix, BlobTracker, match_blobs}
use parlevision.BlobTracker.Overlap.{
  Rect, Blob, overlapping_area, is_in_area, overlapping_area-inside,
}
use parlevision.BlobTracker.Track.{TrackState, BlobTrack, new_track}
use parlevision.BlobTracker.Track.Life.{Event, live, is_normal, live-new_track}
use parlevision.BlobTracker.Matching.{IsLatest, ids}
use parlevision.BlobTracker.Frames.{Ascends, IsTracker, match_blobs-IsTracker, match_blobs-covers}

abbrev square : ℕ → Rect
square corner = record { x = corner; y = corner; width = 4; height = 3 }

abbrev blob_at : ℕ → ℕ → Blob
blob_at frame_nr corner = record {
  frame_nr = frame_nr;
  cog = (corner + 2, corner + 1);
  bounding_rect = square corner;
}

overlap_test :
    overlapping_area (square 5) (square 7) ≡ some (record { x = 7; y = 7; width = 2; height = 1 })
unfolding overlapping_area
overlap_test = refl

overlapping_area-inside_example : is_in_area (overlapping_area (square 5) (square 7)) 8 7 ≡ true
overlapping_area-inside_example = (overlapping_area-inside (square 5) (square 7)).0 8 7

abbrev diagonal : ℕ → Matrix → Matrix
diagonal n m row column = if row == column then some (ℤ.pos 0) else some (ℤ.negsuc 0)

abbrev tracker : BlobTracker
tracker = record {
  blob_tracks =
      new_track 1 (blob_at 3 5)
      ∷ record (new_track 4 (blob_at 3 20)) { state = TrackState.dead }
      ∷ [];
  id_counter = 6;
}

abbrev blobs : List Blob
blobs = blob_at 4 6 ∷ blob_at 4 40 ∷ blob_at 4 60 ∷ []

tracker-IsTracker : IsTracker tracker
tracker-IsTracker = record {
  histories = (omega arith, (omega arith, tt));
  numbered = (omega arith, (omega arith, omega arith));
}

match_blobs-IsTracker_example :
    (u : BlobTracker) × (new_ids : List ℕ) × (match_blobs diagonal 4 blobs tracker ≡ some u)
    × IsTracker u
    × (ids u.blob_tracks ≡ 1 ∷ 4 ∷ new_ids)
    × Ascends 6 new_ids u.id_counter
match_blobs-IsTracker_example =
    match_blobs-IsTracker diagonal 4 blobs tracker tracker-IsTracker (omega arith)

match_blobs-covers_example :
    (u : BlobTracker) × (match_blobs diagonal 4 blobs tracker ≡ some u)
    × All (λ blob. IsLatest blob u.blob_tracks) blobs
match_blobs-covers_example =
    match_blobs-covers diagonal 4 blobs tracker (omega arith, (omega arith, tt))

live-new_track_example :
    (t : BlobTrack) × (live
        (Event.measured (blob_at 4 6) ∷ Event.missed 5 ∷ Event.measured (blob_at 6 7) ∷ [])
        (new_track 1 (blob_at 3 5))
      ≡ some t)
    × (0 < length t.history)
    × (length t.history ≤ 10)
    × (length t.track < 2 ^ 31)
    × (is_normal t.state ≡ false)
live-new_track_example =
    live-new_track
      (Event.measured (blob_at 4 6) ∷ Event.missed 5 ∷ Event.measured (blob_at 6 7) ∷ []) 1
      (blob_at 3 5)
