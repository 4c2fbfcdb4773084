-- ===== src/Image/Tests.antt =====
-- Small images and tracks, and the witnesses of their theorems.
use guillemot_core.Prelude.{ℕ, ◌≤◌, ◌≡◌, refl, arith, true, false, List, [], ◌∷◌, replicate, length}
use guillemot_core.Prelude.Int.{ℤ, pos, negsuc, pos_part, ltb_ℤ, ◌+ℤ◌, ◌-ℤ◌, ◌*ℤ◌}
use guillemot_core.Prelude.Millionths.{quot, millionths}
use guillemot_core.Prelude.Run.{done}
use guillemot_core.Image.{Mat, Point, visit, visit_all, grow_blob, find_blob}
use guillemot_core.Image.Blobs.{count}
use guillemot_core.Prelude.Node.{All}
use guillemot_core.Image.Callback.{
  Object, Vision, analyze_blob, confidence_of, compute_confidence, min_confidence, blob_message,
  report_blobs,
}
use guillemot_core.Image.Published.{IsSure, Fits, report_blobs-IsSure}
use guillemot_core.Image.Reports.{sightings, update_blob_tracking_lem, reports_after_three}
use guillemot_core.Image.Recognition.{find_blobs}
use guillemot_core.Image.Search.{find_blobs_ends}
use guillemot_core.Image.Tracks.{
  BlobAnalysis, BlobTrack, Tracking, erase_lost, update_blob_tracking, in_circle, track_in,
  track_blob, Event, blob_found, frame_done, track_event, track_run,
}

-- Two rows of the object, 4 apart, in an image of one column.
abbrev stripe : Mat
stripe = record { rows = 6; cols = 1; pixels = 210 ∷ 0 ∷ 0 ∷ 0 ∷ 210 ∷ 210 ∷ [] }

find_blob-stripe :
    find_blob 3 stripe 0 0 210
    ≡ done (
      record { x = 0; y = 0 } ∷ record { x = 0; y = 4 } ∷ [],
      record { rows = 6; cols = 1; pixels = 0 ∷ 0 ∷ 0 ∷ 0 ∷ 0 ∷ 210 ∷ [] },
    )
unfolding find_blob grow_blob visit_all visit
find_blob-stripe = refl

abbrev unchanged : List (List Point) → List (List Point)
unchanged blobs = blobs

find_blobs_ends_example :
    (r : List (List Point) × Mat) × (find_blobs unchanged unchanged 4 stripe 0 2 210 ≡ done r)
    × (count 210 r.1.pixels ≤ 3)
find_blobs_ends_example =
    find_blobs_ends 210 (omega arith) 4 unchanged unchanged stripe 0 2 (omega arith)

abbrev track : ℕ → BlobTrack
track seen = record { x = pos 0; y = pos 0; lifetime = 0; last_seen = seen; obj_type = 1 }

abbrev some_tracks : Tracking
some_tracks = record { track_blobs = track 2 ∷ track 8 ∷ track 1 ∷ track 6 ∷ []; cur_frame = 9 }

update_blob_tracking_lem_example :
    update_blob_tracking some_tracks
    ≡ record { track_blobs = track 8 ∷ track 6 ∷ []; cur_frame = 10 }
update_blob_tracking_lem_example = update_blob_tracking_lem some_tracks

abbrev blob : BlobAnalysis ℤ
blob = record {
  center_x = pos 10;
  center_y = pos 20;
  rotation = pos 0;
  width = 30;
  height = 40;
  size = 70;
}

-- One frame with two blobs of a type, and one with another.
abbrev frames : List (Event ℤ)
frames = blob_found blob 1 ∷ blob_found blob 1 ∷ frame_done ∷ blob_found blob 1 ∷ frame_done ∷ []

abbrev same : ℤ → ℤ
same x = x

abbrev no_tracks : Tracking
no_tracks = record { track_blobs = []; cur_frame = 0 }

reported_fourth :
    (track_blob millionths same blob 1 (track_run millionths same frames no_tracks)).1 ≡ true
unfolding track_blob track_in track_run track_event update_blob_tracking erase_lost in_circle quot
    ◌+ℤ◌ ◌-ℤ◌ ◌*ℤ◌
reported_fourth = refl

reports_after_three_example : 3 ≤ sightings 1 frames
reports_after_three_example = reports_after_three millionths same frames blob 1 reported_fourth

-- A rectangle of 20 by 30 around whatever points.
abbrev vision : Vision ℤ
vision = record {
  min_area_rect = λ points. record {
    center_x = pos 0;
    center_y = pos 0;
    width = pos 20;
    height = pos 30;
    angle = pos 0;
  };
  to_int = same;
  to_unsigned = pos_part;
  sqrt = same;
  pi = pos 3_141_593;
  make_heap = unchanged;
  pop_heap = unchanged;
}

abbrev gate : Object
gate = record { flags = 1; camera = 0; max_blobs = 2; confidence_type = 0; enum_type = 1 }

one_not_above_one : ltb_ℤ (millionths.of_int (pos 1)) (millionths.of_int (pos 1)) ≡ false
unfolding ◌*ℤ◌
one_not_above_one = refl

one_above_minus_one : ltb_ℤ (millionths.of_int (pos 1)) (millionths.of_int (negsuc 0)) ≡ false
unfolding ◌*ℤ◌
one_above_minus_one = refl

one_above_minus_two : ltb_ℤ (millionths.of_int (pos 1)) (millionths.of_int (negsuc 1)) ≡ false
unfolding ◌*ℤ◌
one_above_minus_two = refl

-- A blob of as many points as its rectangle has, met for the fifth time.
abbrev blobs : List (List Point)
blobs = replicate 37 (record { x = 0; y = 0 }) ∷ []

abbrev met : Tracking
met = record { track_blobs = record (track 0) { lifetime = 3 } ∷ []; cur_frame = 1 }

report_blobs-gate : length (report_blobs millionths vision stripe gate blobs met).1 ≡ 1
unfolding report_blobs analyze_blob compute_confidence confidence_of min_confidence blob_message
    track_blob track_in in_circle quot ◌+ℤ◌ ◌-ℤ◌ ◌*ℤ◌
report_blobs-gate = refl

blobs_fit : Fits millionths vision (replicate 37 (record { x = 0; y = 0 }))
unfolding analyze_blob
blobs_fit = omega arith

report_blobs-IsSure_example :
    All (IsSure millionths vision gate) (report_blobs millionths vision stripe gate blobs met).1
    × (length (report_blobs millionths vision stripe gate blobs met).1 ≤ 1)
report_blobs-IsSure_example =
    report_blobs-IsSure millionths vision one_not_above_one one_above_minus_one one_above_minus_two
      stripe gate blobs met (blobs_fit, tt)
