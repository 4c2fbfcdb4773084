-- ===== src/Image/Callback.antt =====
-- genericCallback of ImageRecognition.cpp: what is measured of a blob, and which blobs are published.
-- The smallest rectangle around points is OpenCV's, and so are the rotation of the image and its hues.
-- The objects are those of which objectTracking holds, each with its tree.
use guillemot_core.Prelude.{
  ℕ, ◌+◌, ◌-◌, ◌*◌, ◌/◌, ◌%◌, ◌^◌, ◌&&◌, if◌then◌else◌, ltb, ◌==◌, List, [], ◌∷◌, ◌++◌, length,
}
use guillemot_core.Prelude.Int.{ℤ, pos, negsuc, ◌-ℤ◌, leb_ℤ, to_short}
use guillemot_core.Prelude.Float.{Floats}
use guillemot_core.Prelude.Run.{Run, done, ◌>>=◌}
use guillemot_core.Dlt.{Dlt}
use guillemot_core.Image.{Mat, Point}
use guillemot_core.Image.Recognition.{Hsv, obj_in_range, find_blobs}
use guillemot_core.Image.Tracks.{BlobAnalysis, Tracking, track_blob, update_blob_tracking}

pub record Object : Type 0 where
  pub flags : ℕ
  pub camera : ℕ
  pub max_blobs : ℕ
  pub confidence_type : ℕ
  pub enum_type : ℕ

pub record RotatedRect (F : Type 0) : Type 0 where
  pub center_x : F
  pub center_y : F
  pub width : F
  pub height : F
  pub angle : F

-- An int stored in an int16.
unfoldable pub to_int16 : ℤ → ℤ
to_int16 (pos n) = to_short (n % 2 ^ 16)
to_int16 (negsuc n) = to_short (2 ^ 16 - 1 - n % 2 ^ 16)

-- What is published: the centre is int16, and the width and the height are uint16.
pub record BlobMsg (F : Type 0) : Type 0 where
  pub enum_type : ℕ
  pub center_x : ℤ
  pub center_y : ℤ
  pub rotation : F
  pub width : ℕ
  pub height : ℕ
  pub confidence : F

-- What the code takes from OpenCV and from the conversions of C++.
pub record Vision (F : Type 0) : Type 0 where
  pub min_area_rect : List Point → RotatedRect F
  pub to_int : F → ℤ
  pub to_unsigned : F → ℕ
  pub sqrt : F → F
  pub pi : F
  pub make_heap : List (List Point) → List (List Point)
  pub pop_heap : List (List Point) → List (List Point)

module _ {F : Type 0} (f : Floats F) (v : Vision F) where
  open f use {lit, of_int, to_float, add, sub, mul, div, lt}

  -- The constructor of BlobAnalysis: the height is the longer side.
  unfoldable pub analyze_blob : List Point → BlobAnalysis F
  analyze_blob blob =
      let r = v.min_area_rect blob in
      let width = v.to_unsigned r.width in
      let height = v.to_unsigned r.height in
      let rotation = to_float (mul r.angle (div v.pi (lit (pos 180) 0))) in
      let swapped = ltb height width in
      record {
        center_x = v.to_int r.center_x;
        center_y = v.to_int r.center_y;
        rotation = if swapped then rotation else to_float (sub rotation (div v.pi (lit (pos 2) 0)));
        width = if swapped then height else width;
        height = if swapped then width else height;
        size = length blob;
      }

  unfoldable pub confidence_of : ℕ → ℤ → F
  confidence_of size expected_points =
      let confidence = div (of_int (pos size)) (of_int expected_points) in
      if leb_ℤ expected_points (pos 0)
      then of_int (negsuc 0)
      else if lt (of_int (pos 1)) confidence
      then of_int (pos 1)
      else confidence

  -- A rectangle, a circle, or an unknown type. (The products of the sizes are unsigned.)
  unfoldable pub compute_confidence : Object → BlobAnalysis F → F
  compute_confidence object a =
      if object.confidence_type == 0
      then confidence_of a.size (pos (a.width * a.height % 2 ^ 32 / 16))
      else if object.confidence_type == 1
      then confidence_of a.size (
          v.to_int
            (div (mul (mul v.pi (of_int (pos a.width))) (of_int (pos a.height))) (lit (pos 64) 0)))
      else of_int (negsuc 1)

  unfoldable pub min_confidence : Object → F
  min_confidence object = if object.enum_type == 3 then lit (pos 7) 1 else lit (pos 5) 1

  unfoldable pub blob_message : Mat → Object → BlobAnalysis F → F → BlobMsg F
  blob_message image object a confidence = record {
    enum_type = object.enum_type;
    center_x = to_int16 (a.center_x -ℤ pos (image.cols / 2));
    center_y = to_int16 (pos (image.rows / 2) -ℤ a.center_y);
    rotation =
        to_float (div (mul (add a.rotation (div v.pi (lit (pos 2) 0))) (lit (pos 180) 0)) v.pi);
    width = a.width % 2 ^ 16;
    height = a.height % 2 ^ 16;
    confidence = confidence;
  }

  -- The loop over the blobs of an object.
  unfoldable pub report_blobs :
      Mat → Object → List (List Point) → Tracking → Tracking × List (BlobMsg F)
  report_blobs image object [] s = (s, [])
  report_blobs image object (blob ∷ blobs) s =
      let a = analyze_blob blob in
      let confidence = compute_confidence object a in
      let confident = lt (min_confidence object) confidence in
      let tracked = track_blob f v.sqrt a object.enum_type s in
      let rest = report_blobs image object blobs (if confident then tracked.0 else s) in
      (
        rest.0,
        if confident && tracked.1 then blob_message image object a confidence ∷ rest.1 else rest.1,
      )

  -- The threshold of a camera, which has the size of its images, and the averages and the tracks that
  -- the cameras share.
  pub record View : Type 0 where
    pub threshold : Mat
    pub last : Hsv
    pub tracking : Tracking

  -- The object's colour in the image of a camera, and its blobs.
  unfoldable pub look_for :
      ℕ → ℕ → Mat → (ℕ → ℕ → Hsv) → ℕ → Object × Dlt → View → Run (View × List (BlobMsg F))
  look_for n camera image segmented offset o s = do
    let object = o.0
    (threshold, last) ← obj_in_range o.1 segmented s.threshold offset s.last
    let obj = if object.enum_type == 0 then 0 else object.enum_type * 10 + 200
    if (object.flags % 2 == 1) && (object.camera == camera)
        then (do
          (blobs, threshold) ←
              find_blobs v.make_heap v.pop_heap n threshold offset object.max_blobs obj
          let r = report_blobs image object blobs s.tracking
          done (record { threshold = threshold; last = last; tracking = r.0 }, r.1))
        else done (record s { threshold = threshold; last = last }, [])

  unfoldable pub generic_callback :
      ℕ → ℕ → Mat → (ℕ → ℕ → Hsv) → ℕ → List (Object × Dlt) → View → Run (View × List (BlobMsg F))
  generic_callback n camera image segmented offset [] s =
      done (record s { tracking = update_blob_tracking s.tracking }, [])
  generic_callback n camera image segmented offset (o ∷ os) s = do
    (s, ms) ← look_for n camera image segmented offset o s
    (s, later) ← generic_callback n camera image segmented offset os s
    done (s, ms ++ later)
