-- ===== src/BlobTracker/Frames.antt =====
-- What a frame makes of the tracks: src/plvblobtracker/BlobTracker.cpp (matchBlobs).
use parlevision.Base.{
  ℕ, zero, suc, ◌+◌, ◌%◌, ◌^◌, ◌≤◌, ◌<◌, ◌≡◌, refl, ap, ◌∙◌, Bool, true, false, List, [], ◌∷◌, ◌++◌,
  some, length, length-replicate, replicate, get_elem?, get_or, arith, All, Bool-cases, inl, inr,
}
use parlevision.BlobTracker.Overlap.{Blob}
use parlevision.BlobTracker.Track.{BlobTrack}
use parlevision.BlobTracker.{Matrix, BlobTracker, add_tracks, match_blobs}
use parlevision.BlobTracker.Scores.{HasHistories}
use parlevision.BlobTracker.Matching.{
  IsLatest, ids, add_tracks-IsLatest, add_tracks-HasHistories, match_blobs-some,
}

-- The numbers ascend from above the first one up to the last one.
abbrev pub Ascends : ℕ → List ℕ → ℕ → Type 0
Ascends low [] high = low ≤ high
Ascends low (n ∷ ns) high = (low < n) × Ascends n ns high

Ascends-append :
    (low high top : ℕ) (ns ks : List ℕ)
    → Ascends low ns high
    → Ascends high ks top
    → Ascends low (ns ++ ks) top
Ascends-append low high top [] ks h k = weaken low high top ks h k
  where
    weaken :
        (low high top : ℕ) (ks : List ℕ) → low ≤ high → Ascends high ks top → Ascends low ks top
    weaken low high top [] h k = omega (arith, h, k)
    weaken low high top (n ∷ ks) h k = (omega (arith, h, k.0), k.1)
Ascends-append low high top (n ∷ ns) ks h k = (h.0, Ascends-append n high top ns ks h.1 k)

add_tracks-Ascends :
    (blobs : List Blob) (found : List Bool) (id_counter : ℕ)
    → id_counter + length blobs < 2 ^ 32
    → Ascends id_counter
        (ids (add_tracks blobs found id_counter).0)
        (add_tracks blobs found id_counter).1
unfolding add_tracks
add_tracks-Ascends [] found c h = omega arith
add_tracks-Ascends (b ∷ blobs) [] c h = omega arith
add_tracks-Ascends (b ∷ blobs) (true ∷ found) c h =
    add_tracks-Ascends blobs found c (omega (arith, h))
add_tracks-Ascends (b ∷ blobs) (false ∷ found) c h =
    let next : (c + 1) % 2 ^ 32 ≡ suc c = omega (arith, h) in
    rw next (omega arith, add_tracks-Ascends blobs found (suc c) (omega (arith, h)))

-- Each track has a blob in its history, and the identities of the tracks ascend and are not above
-- the counter.
pub record IsTracker (b : BlobTracker) : Type 0 where
  pub histories : HasHistories b.blob_tracks
  pub numbered : Ascends 0 (ids b.blob_tracks) b.id_counter

ids-append : (ts us : List BlobTrack) → ids (ts ++ us) ≡ ids ts ++ ids us
ids-append [] us = refl
ids-append (t ∷ ts) us = ap (λ l. t.id ∷ l) (ids-append ts us)

HasHistories-append :
    (ts us : List BlobTrack) → HasHistories ts → HasHistories us → HasHistories (ts ++ us)
HasHistories-append [] us h k = k
HasHistories-append (t ∷ ts) us h k = (h.0, HasHistories-append ts us h.1 k)

IsLatest-left : (blob : Blob) (ts us : List BlobTrack) → IsLatest blob ts → IsLatest blob (ts ++ us)
IsLatest-left blob [] us l = absurd l
IsLatest-left blob (t ∷ ts) us (inl e) = inl e
IsLatest-left blob (t ∷ ts) us (inr l) = inr (IsLatest-left blob ts us l)

IsLatest-right :
    (blob : Blob) (ts us : List BlobTrack) → IsLatest blob us → IsLatest blob (ts ++ us)
IsLatest-right blob [] us l = l
IsLatest-right blob (t ∷ ts) us l = inr (IsLatest-right blob ts us l)

-- matchBlobs, whatever the solver finds, while the counter of identities does not overflow: no
-- assertion fails, the tracks there were keep their places and identities, each new track has an
-- identity above all of them, no two tracks have the same, and each track still has a blob in its
-- history.
pub match_blobs-IsTracker :
    (solve : ℕ → Matrix → Matrix) (serial : ℕ) (blobs : List Blob) (b : BlobTracker)
    → IsTracker b
    → b.id_counter + length blobs < 2 ^ 32
    → (u : BlobTracker) × (new_ids : List ℕ) × (match_blobs solve serial blobs b ≡ some u)
      × IsTracker u
      × (ids u.blob_tracks ≡ ids b.blob_tracks ++ new_ids)
      × Ascends b.id_counter new_ids u.id_counter
match_blobs-IsTracker solve serial blobs b h room =
    let (us, found, updated, e) = match_blobs-some solve serial blobs b h.histories in
    let fresh = (add_tracks blobs found b.id_counter).0 in
    let last_id = (add_tracks blobs found b.id_counter).1 in
    let same : ids (us ++ fresh) ≡ ids b.blob_tracks ++ ids fresh =
      ids-append us fresh ∙ ap (λ l. l ++ ids fresh) updated.same_ids in
    let above = add_tracks-Ascends blobs found b.id_counter room in
    (
      record { blob_tracks = us ++ fresh; id_counter = last_id },
      ids fresh,
      e,
      record {
        histories =
            HasHistories-append us fresh updated.histories
              (add_tracks-HasHistories blobs found b.id_counter);
        numbered = rw same (
            Ascends-append 0 b.id_counter last_id (ids b.blob_tracks) (ids fresh) h.numbered above);
      },
      same,
      above,
    )

All-places :
    (P : Blob → Type 0) (blobs : List Blob)
    → ((place : ℕ) (blob : Blob) → get_elem? blobs place ≡ some blob → P blob)
    → All P blobs
All-places P [] h = tt
All-places P (b ∷ blobs) h = (h 0 b refl, All-places P blobs (λ place blob e. h (suc place) blob e))

no_mark : (n place : ℕ) → get_or (replicate n false) place false ≡ true → ⊥
no_mark zero place h = absurd (ground (arith, h))
no_mark (suc n) zero h = absurd (ground (arith, h))
no_mark (suc n) (suc place) h = no_mark n place h

-- matchBlobs, whatever the solver finds, when each track has a blob in its history: no assertion
-- fails, and each blob of the frame is afterwards the last one in the history of some track.
pub match_blobs-covers :
    (solve : ℕ → Matrix → Matrix) (serial : ℕ) (blobs : List Blob) (b : BlobTracker)
    → HasHistories b.blob_tracks
    → (u : BlobTracker) × (match_blobs solve serial blobs b ≡ some u)
      × All (λ blob. IsLatest blob u.blob_tracks) blobs
match_blobs-covers solve serial blobs b h =
    let (us, found, updated, e) = match_blobs-some solve serial blobs b h in
    let fresh = (add_tracks blobs found b.id_counter).0 in
    (
      _,
      e,
      All-places (λ blob. IsLatest blob (us ++ fresh)) blobs
          λ place blob at. elim (Bool-cases (get_or found place false)) [
            | inr new ↦ IsLatest-right blob us fresh (
                add_tracks-IsLatest blobs found b.id_counter place blob
                  (updated.same_length ∙ length-replicate (length blobs) false) at new)
            | inl marked ↦ elim (updated.latest place blob at marked) [
              | inl before ↦ absurd (no_mark (length blobs) place before)
              | inr measured ↦ IsLatest-left blob us fresh measured
            ]
          ],
    )
