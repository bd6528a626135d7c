-- ===== src/BlobTracker/Matching.antt =====
-- What src/plvblobtracker/BlobTracker.cpp (matchBlobs) does with each blob and each track, whatever
-- the solver finds.
use parlevision.Base.{
  ℕ, zero, suc, ◌+◌, ◌%◌, ◌^◌, ◌<◌, ◌≡◌, refl, sym, ap, ◌∙◌, Bool, true, false, List, [], ◌∷◌, ◌++◌,
  some, ◌==◌, length, set, length-set, replicate, get_elem?, get_or, max, arith, Bool-cases,
  Option-cases, inl, inr, ◌⊎◌,
}
use parlevision.BlobTracker.Overlap.{Blob}
use parlevision.BlobTracker.Track.{BlobTrack, last, add_measurement}
use parlevision.BlobTracker.{
  Matrix, BlobTracker, is_zero, cost_matrix, row_match, update_tracks, add_tracks, match_blobs,
}
use parlevision.BlobTracker.Scores.{
  HasHistories, last-push, length-push_positive, not_matched-keeps, all_scores-some,
}

-- The last blob of some track.
abbrev pub IsLatest : Blob → List BlobTrack → Type 0
IsLatest blob [] = ⊥
IsLatest blob (t ∷ tracks) = (last t.history ≡ some blob) ⊎ IsLatest blob tracks

row_match-fits :
    (m : Matrix) (row columns column : ℕ) → row_match m row columns ≡ some column → column < columns
unfolding row_match
row_match-fits m row zero column e = absurd (ground arith)
row_match-fits m row (suc n) column e = elim (Bool-cases (is_zero (m row n))) [
  | inl y ↦ ground (arith, y, e)
  | inr z ↦ let rest = row_match-fits m row n column (ground (arith, z, e)) in omega (arith, rest)
]

get_elem-some :
    (blobs : List Blob) (place : ℕ)
    → place < length blobs
    → (blob : Blob) × (get_elem? blobs place ≡ some blob)
get_elem-some [] place h = absurd (omega (arith, h))
get_elem-some (b ∷ blobs) zero h = (b, refl)
get_elem-some (b ∷ blobs) (suc place) h = get_elem-some blobs place (omega (arith, h))

-- The identities of tracks, which keep their places.
abbrev pub ids : List BlobTrack → List ℕ
ids [] = []
ids (t ∷ tracks) = t.id ∷ ids tracks

-- What the loop over the tracks leaves.
pub record Updated (blobs : List Blob) (tracks us : List BlobTrack) (matched found : List Bool)
    : Type 0 where
  pub same_ids : ids us ≡ ids tracks
  pub histories : HasHistories us
  pub same_length : length found ≡ length matched
  pub latest :
      (place : ℕ) (blob : Blob)
      → get_elem? blobs place ≡ some blob
      → get_or found place false ≡ true
      → (get_or matched place false ≡ true) ⊎ IsLatest blob us

get_or-set :
    (marks : List Bool) (column place : ℕ)
    → (place == column) ≡ false
    → get_or (set marks column true) place false ≡ get_or marks place false
get_or-set [] column place h = refl
get_or-set (x ∷ marks) zero zero h = absurd (ground (arith, h))
get_or-set (x ∷ marks) zero (suc place) h = refl
get_or-set (x ∷ marks) (suc column) zero h = refl
get_or-set (x ∷ marks) (suc column) (suc place) h =
    get_or-set marks column place (ground (arith, h))

update_tracks-Updated :
    (m : Matrix) (serial : ℕ) (blobs : List Blob) (row : ℕ) (tracks : List BlobTrack)
    (matched : List Bool)
    → HasHistories tracks
    → (us : List BlobTrack) × (found : List Bool) × (update_tracks m serial blobs row tracks matched
        ≡ some (us, found))
      × Updated blobs tracks us matched found
unfolding update_tracks add_measurement
update_tracks-Updated m serial blobs row [] matched h = (
  [],
  matched,
  refl,
  record { same_ids = refl; histories = tt; same_length = refl; latest = λ place blob e f. inl f },
)
update_tracks-Updated m serial blobs row (t ∷ tracks) matched h =
    elim (Option-cases (row_match m row (length blobs))) [
      | inl no_match ↦
          let (us, found, e, rest) =
            update_tracks-Updated m serial blobs (suc row) tracks matched h.1 in
          let (u, f, same_id, history) = not_matched-keeps serial t h.0 in
          (
            u ∷ us,
            found,
            ground (arith, no_match, e, f),
            record {
              same_ids = (λ i. same_id i ∷ rest.same_ids i);
              histories = (history, rest.histories);
              same_length = rest.same_length;
              latest = λ place other_blob g k. elim (rest.latest place other_blob g k) [
                | inl before ↦ inl before
                | inr later ↦ inr (inr later)
              ];
            },
          )
      | inr (column, match) ↦
          let (us, found, e, rest) =
            update_tracks-Updated m serial blobs (suc row) tracks (set matched column true) h.1 in
          let (blob, f) =
            get_elem-some blobs column (row_match-fits m row (length blobs) column match) in
          (
            add_measurement blob t ∷ us,
            found,
            ground (arith, match, e, f),
            record {
              same_ids = ap (λ l. t.id ∷ l) rest.same_ids;
              histories = (length-push_positive t.history_size blob t.history h.0, rest.histories);
              same_length = rest.same_length ∙ length-set matched column true;
              latest = λ place other_blob g k. elim (rest.latest place other_blob g k) [
                | inr later ↦ inr (inr later)
                | inl marked ↦ elim (Bool-cases (place == column)) [
                  | inl y ↦
                      let same : place ≡ column = ground (arith, y) in
                      inr (
                        inl (
                          last-push t.history_size blob t.history h.0
                          ∙ sym f
                          ∙ ap (get_elem? blobs) (sym same)
                          ∙ g))
                  | inr other ↦ inl (sym (get_or-set matched column place other) ∙ marked)
                ]
              ];
            },
          )
    ]

-- What the loop over the blobs that are not matched leaves.
pub add_tracks-IsLatest :
    (blobs : List Blob) (found : List Bool) (id_counter place : ℕ) (blob : Blob)
    → length found ≡ length blobs
    → get_elem? blobs place ≡ some blob
    → get_or found place false ≡ false
    → IsLatest blob (add_tracks blobs found id_counter).0
unfolding add_tracks
add_tracks-IsLatest [] found c place blob h e f = absurd (ground arith)
add_tracks-IsLatest (b ∷ blobs) [] c place blob h e f = absurd (omega (arith, h))
add_tracks-IsLatest (b ∷ blobs) (true ∷ found) c zero blob h e f = absurd (ground (arith, f))
add_tracks-IsLatest (b ∷ blobs) (false ∷ found) c zero blob h e f = inl e
add_tracks-IsLatest (b ∷ blobs) (true ∷ found) c (suc place) blob h e f =
    add_tracks-IsLatest blobs found c place blob (omega (arith, h)) e f
add_tracks-IsLatest (b ∷ blobs) (false ∷ found) c (suc place) blob h e f =
    inr (add_tracks-IsLatest blobs found ((c + 1) % 2 ^ 32) place blob (omega (arith, h)) e f)

pub add_tracks-HasHistories :
    (blobs : List Blob) (found : List Bool) (id_counter : ℕ)
    → HasHistories (add_tracks blobs found id_counter).0
unfolding add_tracks
add_tracks-HasHistories [] found c = tt
add_tracks-HasHistories (b ∷ blobs) [] c = tt
add_tracks-HasHistories (b ∷ blobs) (true ∷ found) c = add_tracks-HasHistories blobs found c
add_tracks-HasHistories (b ∷ blobs) (false ∷ found) c =
    (omega arith, add_tracks-HasHistories blobs found ((c + 1) % 2 ^ 32))

-- matchBlobs, in its two parts.
pub match_blobs-some :
    (solve : ℕ → Matrix → Matrix) (serial : ℕ) (blobs : List Blob) (b : BlobTracker)
    → HasHistories b.blob_tracks
    → (us : List BlobTrack) × (found : List Bool) × Updated blobs b.blob_tracks us
        (replicate (length blobs) false)
        found
      × (match_blobs solve serial blobs b
          ≡ some (record {
            blob_tracks = us ++ (add_tracks blobs found b.id_counter).0;
            id_counter = (add_tracks blobs found b.id_counter).1;
          }))
unfolding match_blobs
match_blobs-some solve serial blobs b h =
    let (scores, e) = all_scores-some b.blob_tracks blobs h in
    let m = solve (max (length b.blob_tracks) (length blobs)) (cost_matrix scores) in
    let (us, found, f, updated) =
      update_tracks-Updated m serial blobs 0 b.blob_tracks (replicate (length blobs) false) h in
    (us, found, updated, ground (arith, e, f))
