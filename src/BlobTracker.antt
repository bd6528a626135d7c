-- ===== src/BlobTracker.antt =====
-- The tracking of blobs: src/plvblobtracker/BlobTracker.cpp (process, matchBlobs). The solver of
-- the assignment problem, src/plvblobtracker/munkres.cpp, is a copy of another project's and a
-- parameter. A track is only changed through the list of tracks that holds it, so that sharing
-- its data (QSharedDataPointer) does not show.
pub mod Overlap
pub mod Track
pub mod Scores
pub mod Matching
pub mod Frames
mod Examples
use parlevision.Base.{
  ℕ, zero, suc, ◌+◌, ◌-◌, ◌%◌, ◌^◌, Bool, true, false, not, List, [], ◌∷◌, ◌++◌, Option, none, some,
  ◌==◌, ltb, leb, if◌then◌else◌, length, set, replicate, get_elem?, get_or, max,
}
use parlevision.BlobTracker.Overlap.{Blob}
use parlevision.BlobTracker.Track.{BlobTrack, new_track, add_measurement, not_matched, matches}

pub data ℤ : Type 0 where
  pos : ℕ → ℤ
  negsuc : ℕ → ℤ

-- The cells of a Matrix<double>, where `none` is infinity and all other numbers are whole.
abbrev pub Matrix : Type 0
Matrix = (row column : ℕ) → Option ℤ

-- m_blobTracks and m_idCounter
pub record BlobTracker : Type 0 where
  pub blob_tracks : List BlobTrack
  pub id_counter : ℕ

-- The scores of a track for all blobs, and those of all tracks.
pub track_scores : BlobTrack → List Blob → Option (List ℕ)
track_scores t [] = some []
track_scores t (blob ∷ blobs) = elim (matches blob t) [
  | none ↦ none
  | some score ↦ elim (track_scores t blobs) [ none ↦ none | some rest ↦ some (score ∷ rest) ]
]

pub all_scores : List BlobTrack → List Blob → Option (List (List ℕ))
unfolding track_scores
all_scores [] blobs = some []
all_scores (t ∷ tracks) blobs = elim (track_scores t blobs) [
  | none ↦ none
  | some row ↦ elim (all_scores tracks blobs) [ none ↦ none | some rest ↦ some (row ∷ rest) ]
]

-- maxScore before 1 is taken off; 0 stands for the least double above 0.
pub max_score : List (List ℕ) → ℕ
max_score [] = 0
max_score ([] ∷ rows) = max_score rows
max_score ((score ∷ row) ∷ rows) = max score (max_row row (max_score rows))
  where
    max_row : List ℕ → ℕ → ℕ
    max_row [] n = n
    max_row (score ∷ row) n = max score (max_row row n)

-- (maxScore - 1.0) - score
pub cost : (maximum score : ℕ) → ℤ
cost maximum score =
    if ltb score maximum then ℤ.pos (maximum - suc score) else ℤ.negsuc (score - maximum)

pub cost_matrix : List (List ℕ) → Matrix
unfolding max_score cost
cost_matrix scores row column =
    let score = get_or (get_or scores row []) column 0 in
    if ltb 0 score then some (cost (max_score scores) score) else none

abbrev pub is_zero : Option ℤ → Bool
is_zero none = false
is_zero (some (ℤ.pos zero)) = true
is_zero (some (ℤ.pos (suc n))) = false
is_zero (some (ℤ.negsuc n)) = false

-- The last of the first columns with a zero in the row.
pub row_match : Matrix → (row columns : ℕ) → Option ℕ
row_match m row zero = none
row_match m row (suc column) =
    if is_zero (m row column) then some column else row_match m row column

-- The loop over the tracks from a row on, with matchedBlobs; `none` is an assertion that fails.
pub update_tracks :
    Matrix → ℕ → List Blob → ℕ → List BlobTrack → List Bool → Option (List BlobTrack × List Bool)
unfolding row_match
update_tracks m serial blobs row [] matched = some ([], matched)
update_tracks m serial blobs row (t ∷ tracks) matched = elim (row_match m row (length blobs)) [
  | none ↦
      let rest = update_tracks m serial blobs (suc row) tracks matched in
      elim (not_matched serial t) [
        | none ↦ none
        | some u ↦ elim rest [ none ↦ none | some (us, found) ↦ some (u ∷ us, found) ]
      ]
  | some column ↦
      let rest = update_tracks m serial blobs (suc row) tracks (set matched column true) in
      elim (get_elem? blobs column) [
        | none ↦ none
        | some blob ↦ elim rest [
          | none ↦ none
          | some (us, found) ↦ some (add_measurement blob t ∷ us, found)
        ]
      ]
]

-- The loop over the blobs that are not matched, with getNewId.
pub add_tracks : List Blob → List Bool → (id_counter : ℕ) → List BlobTrack × ℕ
add_tracks [] matched id_counter = ([], id_counter)
add_tracks (blob ∷ blobs) [] id_counter = ([], id_counter)
add_tracks (blob ∷ blobs) (true ∷ matched) id_counter = add_tracks blobs matched id_counter
add_tracks (blob ∷ blobs) (false ∷ matched) id_counter =
    let id = (id_counter + 1) % 2 ^ 32 in
    let (tracks, last_id) = add_tracks blobs matched id in (new_track id blob ∷ tracks, last_id)

-- BlobTracker::matchBlobs, for a solver of the assignment problem, which is given the size of the
-- matrix, and for the serial of the run. All blobs are valid.
pub match_blobs : (ℕ → Matrix → Matrix) → ℕ → List Blob → BlobTracker → Option BlobTracker
unfolding all_scores cost_matrix update_tracks add_tracks
match_blobs solve serial blobs b = elim (all_scores b.blob_tracks blobs) [
  | none ↦ none
  | some scores ↦
      let m = solve (max (length b.blob_tracks) (length blobs)) (cost_matrix scores) in
      elim (update_tracks m serial blobs 0 b.blob_tracks (replicate (length blobs) false)) [
        | none ↦ none
        | some (tracks, matched) ↦
            let (fresh, last_id) = add_tracks blobs matched b.id_counter in
            some (record { blob_tracks = tracks ++ fresh; id_counter = last_id })
      ]
]
