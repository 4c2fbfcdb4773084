-- ===== src/Image/Tracks.antt =====
-- The tracks of ImageRecognition.cpp: a blob is reported when it has been found in the same place
-- often enough, and forgotten when it has not been seen for some frames.
use guillemot_core.Prelude.{
  ℕ, zero, suc, ◌+◌, Bool, false, ◌&&◌, if◌then◌else◌, ltb, leb, ◌==◌, List, [], ◌∷◌, length, none,
  some, get_elem?,
}
use guillemot_core.Prelude.Int.{ℤ, pos, ◌-ℤ◌, ◌*ℤ◌}
use guillemot_core.Prelude.Float.{Floats}

pub record BlobAnalysis (F : Type 0) : Type 0 where
  pub center_x : ℤ
  pub center_y : ℤ
  pub rotation : F
  pub width : ℕ
  pub height : ℕ
  pub size : ℕ

pub record BlobTrack : Type 0 where
  pub x : ℤ
  pub y : ℤ
  pub lifetime : ℕ
  pub last_seen : ℕ
  pub obj_type : ℕ

-- FRAME_MARGIN_OF_ERROR
abbrev pub margin : ℕ
margin = 3

-- vector::erase
abbrev pub erase : ℕ → List BlobTrack → List BlobTrack
erase i [] = []
erase zero (t ∷ ts) = ts
erase (suc i) (t ∷ ts) = t ∷ erase i ts

-- lastSeen < curFrame - FRAME_MARGIN_OF_ERROR
abbrev pub is_lost : ℕ → BlobTrack → Bool
is_lost cur_frame t = ltb (t.last_seen + margin) cur_frame

-- The loop of updateBlobTracking from index `i`, in so many rounds at most; after an erasure it takes
-- the same index again.
unfoldable pub erase_lost : ℕ → ℕ → ℕ → List BlobTrack → List BlobTrack
erase_lost zero cur_frame i tracks = tracks
erase_lost (suc n) cur_frame i tracks = elim (get_elem? tracks i) [
  | none ↦ tracks
  | some t ↦
      if is_lost cur_frame t
      then erase_lost n cur_frame i (erase i tracks)
      else erase_lost n cur_frame (suc i) tracks
]

-- The tracks and the number of the frame.
pub record Tracking : Type 0 where
  pub track_blobs : List BlobTrack
  pub cur_frame : ℕ

unfoldable pub update_blob_tracking : Tracking → Tracking
update_blob_tracking s = record {
  track_blobs = erase_lost (length s.track_blobs) s.cur_frame 0 s.track_blobs;
  cur_frame = suc s.cur_frame;
}

-- What genericCallback calls, in order: a blob of a type, or the end of a frame.
pub data Event (F : Type 0) : Type 0 where
  blob_found : BlobAnalysis F → ℕ → Event F
  frame_done : Event F

module _ {F : Type 0} (f : Floats F) (sqrt : F → F) where
  unfoldable pub in_circle : BlobAnalysis F → BlobTrack → Bool
  in_circle analysis track =
      let delta_x = analysis.center_x -ℤ track.x in
      let delta_y = analysis.center_y -ℤ track.y in
      f.le
        (sqrt (f.add (f.mul (f.of_int delta_x) (f.of_int delta_x)) (f.of_int (delta_y *ℤ delta_y))))
        (f.of_int (pos 200_000))

  -- The loop of trackBlob: the tracks, and whether the blob is to be reported.
  unfoldable pub track_in : BlobAnalysis F → ℕ → ℕ → List BlobTrack → List BlobTrack × Bool
  track_in analysis type cur_frame [] = (
    record {
      x = analysis.center_x;
      y = analysis.center_y;
      lifetime = 0;
      last_seen = cur_frame;
      obj_type = type;
    }
        ∷ [],
    false,
  )
  track_in analysis type cur_frame (t ∷ ts) =
      let later = track_in analysis type cur_frame ts in
      let seen = record t {
        x = analysis.center_x;
        y = analysis.center_y;
        last_seen = cur_frame;
        lifetime = suc t.lifetime;
      } in
      if (type == t.obj_type) && in_circle analysis t
      then (seen ∷ ts, leb margin seen.lifetime)
      else (t ∷ later.0, later.1)

  unfoldable pub track_blob : BlobAnalysis F → ℕ → Tracking → Tracking × Bool
  track_blob analysis type s =
      let r = track_in analysis type s.cur_frame s.track_blobs in
      (record s { track_blobs = r.0 }, r.1)

  unfoldable pub track_event : Event F → Tracking → Tracking
  track_event (blob_found analysis type) s = (track_blob analysis type s).0
  track_event frame_done s = update_blob_tracking s

  unfoldable pub track_run : List (Event F) → Tracking → Tracking
  track_run [] s = s
  track_run (e ∷ es) s = track_run es (track_event e s)
