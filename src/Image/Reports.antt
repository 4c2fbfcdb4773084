-- ===== src/Image/Reports.antt =====
-- What the tracks of ImageRecognition.cpp keep, and when a blob is reported.
use guillemot_core.Prelude.{
  ℕ, zero, suc, ◌+◌, ◌≤◌, ◌≡◌, refl, ap, ◌∙◌, arith, Bool, true, false, ◌&&◌, if◌then◌else◌, ◌==◌,
  List, [], ◌∷◌, ◌++◌, length, Bool-cases, inl, inr, get_elem?, leb→le, ◌<◌, length-append, none,
  some, ==_iff, subst, sym,
}
use mathlib.Core.List.{append_assoc}
use guillemot_core.Prelude.Float.{Floats}
use guillemot_core.Prelude.Node.{All, if-P_both}
use guillemot_core.Image.Tracks.{
  BlobAnalysis, BlobTrack, Tracking, erase, is_lost, erase_lost, update_blob_tracking, in_circle,
  track_in, track_blob, Event, blob_found, frame_done, track_event, track_run,
}

-- The tracks that were seen in the last frames, in their order.
abbrev pub still_seen : ℕ → List BlobTrack → List BlobTrack
still_seen cur_frame [] = []
still_seen cur_frame (t ∷ ts) =
    let rest = still_seen cur_frame ts in if is_lost cur_frame t then rest else t ∷ rest

get_elem?_middle :
    (xs : List BlobTrack) (t : BlobTrack) (ts : List BlobTrack)
    → get_elem? (xs ++ t ∷ ts) (length xs) ≡ some t
get_elem?_middle [] t ts = refl
get_elem?_middle (x ∷ xs) t ts = get_elem?_middle xs t ts

get_elem?_past : (xs : List BlobTrack) → get_elem? (xs ++ []) (length xs) ≡ none
get_elem?_past [] = refl
get_elem?_past (x ∷ xs) = get_elem?_past xs

erase_middle :
    (xs : List BlobTrack) (t : BlobTrack) (ts : List BlobTrack)
    → erase (length xs) (xs ++ t ∷ ts) ≡ xs ++ ts
erase_middle [] t ts = refl
erase_middle (x ∷ xs) t ts = ap (λ rest. x ∷ rest) (erase_middle xs t ts)

erase_lost_from :
    (n c : ℕ) (xs ts : List BlobTrack)
    → length ts ≤ n
    → erase_lost n c (length xs) (xs ++ ts) ≡ xs ++ still_seen c ts
unfolding erase_lost
erase_lost_from zero c xs [] h = refl
erase_lost_from zero c xs (t ∷ ts) h = absurd (omega arith)
erase_lost_from (suc n) c xs [] h = rw (erase_lost, get_elem?_past xs) refl
erase_lost_from (suc n) c xs (t ∷ ts) h =
    rw (erase_lost, get_elem?_middle xs t ts)
      (elim (Bool-cases (is_lost c t)) [
        | inl lost ↦ rw (lost, erase_middle xs t ts) (erase_lost_from n c xs ts (omega arith))
        | inr kept ↦ rw kept (
            subst (λ zs. erase_lost n c (suc (length xs)) zs ≡ xs ++ t ∷ still_seen c ts)
              (append_assoc xs (t ∷ []) ts)
              (subst (λ k. erase_lost n c k (xs ++ t ∷ [] ++ ts) ≡ xs ++ t ∷ still_seen c ts)
                (omega (arith, length-append xs (t ∷ [])))
                (erase_lost_from n c (xs ++ t ∷ []) ts (omega arith)
                  ∙ append_assoc xs (t ∷ []) (still_seen c ts))))
      ])

-- The loop that erases while it walks leaves exactly the tracks that were seen in the last three
-- frames, in their order.
pub update_blob_tracking_lem :
    (s : Tracking)
    → update_blob_tracking s
      ≡ record { track_blobs = still_seen s.cur_frame s.track_blobs; cur_frame = suc s.cur_frame }
unfolding update_blob_tracking
update_blob_tracking_lem s =
    ap (λ ts. record { track_blobs = ts; cur_frame = suc s.cur_frame })
      (erase_lost_from (length s.track_blobs) s.cur_frame [] s.track_blobs (omega arith))

abbrev pub one_if : Bool → ℕ
one_if true = 1
one_if false = 0

-- How often a blob of a type was found.
abbrev pub sightings : {F : Type 0} → ℕ → List (Event F) → ℕ
sightings type [] = 0
sightings type (blob_found a k ∷ es) = one_if (type == k) + sightings type es
sightings type (frame_done ∷ es) = sightings type es

-- No track has been met again as often as blobs of its type were found.
abbrev Ages : (ℕ → ℕ) → List BlobTrack → Type 0
Ages seen = All (λ t. t.lifetime < seen t.obj_type)

Ages-mono :
    {seen later : ℕ → ℕ} (ts : List BlobTrack)
    → ((k : ℕ) → seen k ≤ later k)
    → Ages seen ts
    → Ages later ts
Ages-mono [] le h = tt
Ages-mono (t ∷ ts) le (h, rest) = (omega (arith, h, le t.obj_type), Ages-mono ts le rest)

still_seen-Ages :
    (seen : ℕ → ℕ) (c : ℕ) (ts : List BlobTrack) → Ages seen ts → Ages seen (still_seen c ts)
still_seen-Ages seen c [] h = tt
still_seen-Ages seen c (t ∷ ts) (h, rest) =
    let kept = still_seen-Ages seen c ts rest in
    if-P_both (Ages seen) (is_lost c t) _ _ (λ _. kept) (λ _. (h, kept))

-- One more of a type.
abbrev more : ℕ → (ℕ → ℕ) → ℕ → ℕ
more type seen k = one_if (k == type) + seen k

one_if_same : (k : ℕ) → one_if (k == k) ≡ 1
one_if_same k = ground arith

both : (a b : Bool) → (a && b) ≡ true → a ≡ true
both true b h = refl
both false b h = h

module _ {F : Type 0} (f : Floats F) (sqrt : F → F) where
  -- What a step of the tracks gives: older tracks, and a report only where blobs were found before.
  Tracks : ℕ → (ℕ → ℕ) → List BlobTrack × Bool → Type 0
  Tracks type seen r = Ages (more type seen) r.0 × (r.1 ≡ true → 3 ≤ seen type)

  track_in-Tracks :
      (a : BlobAnalysis F) (type c : ℕ) (seen : ℕ → ℕ) (ts : List BlobTrack)
      → Ages seen ts
      → Tracks type seen (track_in f sqrt a type c ts)
  unfolding track_in Tracks
  track_in-Tracks a type c seen [] h =
      ((omega (arith, one_if_same type), tt), (λ e. absurd (ground arith)))
  track_in-Tracks a type c seen (t ∷ ts) (h, rest) =
      if-P_both (Tracks type seen) ((type == t.obj_type) && in_circle f sqrt a t) _ _
        (λ e.
          let same : type ≡ t.obj_type =
            (==_iff type t.obj_type).0 (both (type == t.obj_type) (in_circle f sqrt a t) e) in
          let older : suc t.lifetime ≤ seen type =
            subst (λ k. suc t.lifetime ≤ seen k) (sym same) h in
          (
            (
              subst (λ k. suc t.lifetime < one_if (k == type) + seen k) same
                  (omega (arith, one_if_same type, older)),
              Ages-mono ts (λ k. omega arith) rest,
            ),
            λ e. omega (arith, older, leb→le 3 (suc t.lifetime) e),
          ))
        (λ e.
          let later = track_in-Tracks a type c seen ts rest in
          ((omega (arith, h), later.0), later.1))

  track_run-Ages :
      (es : List (Event F)) (seen : ℕ → ℕ) (s : Tracking)
      → Ages seen s.track_blobs
      → Ages (λ k. sightings k es + seen k) (track_run f sqrt es s).track_blobs
  unfolding track_run track_event track_blob Tracks
  track_run-Ages [] seen s h = Ages-mono s.track_blobs (λ k. omega arith) h
  track_run-Ages (blob_found a type ∷ es) seen s h =
      Ages-mono _ (λ k. omega arith)
        (track_run-Ages es (more type seen) (track_blob f sqrt a type s).0
          (track_in-Tracks a type s.cur_frame seen s.track_blobs h).0)
  track_run-Ages (frame_done ∷ es) seen s h = track_run-Ages es seen (update_blob_tracking s) (
      subst (λ u. Ages seen u.track_blobs) (sym (update_blob_tracking_lem s))
        (still_seen-Ages seen s.cur_frame s.track_blobs h))

  -- From no tracks, whatever is found in whatever frames, a blob is reported only if three blobs of its
  -- type were found before it.
  pub reports_after_three :
      (es : List (Event F)) (a : BlobAnalysis F) (type : ℕ)
      → (track_blob f sqrt a type
          (track_run f sqrt es (record { track_blobs = []; cur_frame = 0 }))).1
        ≡ true
      → 3 ≤ sightings type es
  unfolding track_blob Tracks
  reports_after_three es a type reported =
      let s = track_run f sqrt es (record { track_blobs = []; cur_frame = 0 }) in
      let ages = track_run-Ages es (λ k. 0) (record { track_blobs = []; cur_frame = 0 }) tt in
      omega (
        arith,
        (track_in-Tracks a type s.cur_frame (λ k. sightings k es + 0) s.track_blobs ages).1
            reported,
      )
