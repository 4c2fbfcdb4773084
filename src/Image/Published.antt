-- ===== src/Image/Published.antt =====
-- What genericCallback of ImageRecognition.cpp publishes of the blobs of an object.
use guillemot_core.Prelude.{
  ℕ, suc, ◌≤◌, ◌<◌, ◌%◌, ◌^◌, ◌≡◌, refl, arith, Bool, true, false, ◌&&◌, if◌then◌else◌, ◌==◌, List,
  [], ◌∷◌, length,
}
use guillemot_core.Prelude.Float.{Floats}
use guillemot_core.Prelude.Int.{ℤ, pos, negsuc, leb_ℤ, ◌≤ℤ◌, to_short}
use guillemot_core.Prelude.Node.{All, if-P_both}
use guillemot_core.Image.{Mat, Point}
use guillemot_core.Image.Callback.{
  Object, BlobMsg, Vision, to_int16, analyze_blob, confidence_of, compute_confidence,
  min_confidence, blob_message, report_blobs,
}
use guillemot_core.Image.Tracks.{BlobAnalysis, Tracking, track_blob}

both_are : (a b : Bool) → (a && b) ≡ true → a ≡ true
both_are true b h = refl
both_are false b h = h

module _ {F : Type 0} (f : Floats F) (v : Vision F) where
  -- A message about a blob of an object.
  pub record IsSure (object : Object) (m : BlobMsg F) : Type 0 where
    pub same_type : m.enum_type ≡ object.enum_type
    pub sure : f.lt (min_confidence f v object) m.confidence ≡ true
    pub at_most_one : f.lt (f.of_int (pos 1)) m.confidence ≡ false
    pub upright : m.width ≤ m.height
    pub in_range : m.height < 2 ^ 16
    pub center_x_range : (negsuc 32767 ≤ℤ m.center_x) × (m.center_x ≤ℤ pos 32767)
    pub center_y_range : (negsuc 32767 ≤ℤ m.center_y) × (m.center_y ≤ℤ pos 32767)

  -- The longer side fits in the message.
  abbrev pub Fits : List Point → Type 0
  Fits blob = (analyze_blob f v blob).height < 2 ^ 16

  to_int16_bounded : (z : ℤ) → (negsuc 32767 ≤ℤ to_int16 z) × (to_int16 z ≤ℤ pos 32767)
  unfolding to_int16 to_short
  to_int16_bounded (pos n) = (ground arith, ground arith)
  to_int16_bounded (negsuc n) = (ground arith, ground arith)

  narrowed : (w h : ℕ) → w ≤ h → h < 2 ^ 16 → w % 2 ^ 16 ≤ h % 2 ^ 16
  narrowed w h le lt = ground arith

  upright_lem : (blob : List Point) → (analyze_blob f v blob).width ≤ (analyze_blob f v blob).height
  unfolding analyze_blob
  upright_lem blob = ground arith

  module _ (irrefl : f.lt (f.of_int (pos 1)) (f.of_int (pos 1)) ≡ false)
      (minus_one : f.lt (f.of_int (pos 1)) (f.of_int (negsuc 0)) ≡ false)
      (minus_two : f.lt (f.of_int (pos 1)) (f.of_int (negsuc 1)) ≡ false) where
    abbrev AtMostOne : F → Type 0
    AtMostOne c = f.lt (f.of_int (pos 1)) c ≡ false

    confidence_of-AtMostOne :
        (size : ℕ) (expected : ℤ) → AtMostOne (confidence_of f v size expected)
    unfolding confidence_of
    confidence_of-AtMostOne size expected =
        if-P_both AtMostOne (leb_ℤ expected (pos 0)) _ _ (λ _. minus_one)
          (λ _. if-P_both AtMostOne _ _ _ (λ _. irrefl) (λ small. small))

    compute_confidence-AtMostOne :
        (object : Object) (a : BlobAnalysis F) → AtMostOne (compute_confidence f v object a)
    unfolding compute_confidence
    compute_confidence-AtMostOne object a =
        if-P_both AtMostOne (object.confidence_type == 0) _ _
          (λ _. confidence_of-AtMostOne a.size _)
          (λ _.
            if-P_both AtMostOne (object.confidence_type == 1) _ _
              (λ _. confidence_of-AtMostOne a.size _) (λ _. minus_two))

    -- Where 1, -1 and -2 are not above 1, and the sides of the blobs fit in 16 bits: whatever the
    -- tracks are, there are at most as many messages as blobs, and each has the type of the object, a
    -- confidence above the least for the object and not above 1, a height that is not below its width
    -- and is below 2 ^ 16, and the coordinates of its centre from -2 ^ 15 to 2 ^ 15 - 1.
    pub report_blobs-IsSure :
        (image : Mat) (object : Object) (blobs : List (List Point)) (s : Tracking)
        → All Fits blobs
        → All (IsSure object) (report_blobs f v image object blobs s).1
          × (length (report_blobs f v image object blobs s).1 ≤ length blobs)
    unfolding report_blobs blob_message
    report_blobs-IsSure image object [] s fits = (tt, omega arith)
    report_blobs-IsSure image object (blob ∷ blobs) s (fit, fits) =
        let a = analyze_blob f v blob in
        let confidence = compute_confidence f v object a in
        let confident = f.lt (min_confidence f v object) confidence in
        let tracked = track_blob f v.sqrt a object.enum_type s in
        let rest =
          report_blobs-IsSure image object blobs (if confident then tracked.0 else s) fits in
        if-P_both (λ ms. All (IsSure object) ms × (length ms ≤ suc (length blobs)))
          (confident && tracked.1) _ _
          (λ h. (
            (
              record {
                same_type = refl;
                sure = both_are confident (tracked.1) h;
                at_most_one = compute_confidence-AtMostOne object a;
                upright = narrowed a.width a.height (upright_lem blob) fit;
                in_range = omega arith;
                center_x_range = to_int16_bounded _;
                center_y_range = to_int16_bounded _;
              },
              rest.0,
            ),
            omega (arith, rest.1),
          ))
          (λ h. (rest.0, omega (arith, rest.1)))
