-- ===== src/Image/Search.antt =====
-- findBlobs of ImageRecognition.cpp: that the search through an image ends.
use guillemot_core.Prelude.{
  ℕ, ◌≤◌, ◌<◌, ◌≡◌, refl, arith, Bool-cases, ==_iff, inl, inr, List, [], ◌∷◌, ◌++◌, ◌==◌, length,
  leb, if◌then◌else◌,
}
use guillemot_core.Prelude.Run.{done}
use guillemot_core.Image.{Mat, Point, pixel}
use guillemot_core.Image.Blobs.{count, find_blob_ends}
use guillemot_core.Image.Recognition.{scan_blobs, grid_points, limit_blobs, find_blobs}

module _ (obj : ℕ) (positive : 0 < obj) (n : ℕ) where
  scan_blobs_ends :
      (ps : List Point) (all_blobs : List (List Point)) (image : Mat)
      → count obj image.pixels < n
      → (r : List (List Point) × Mat) × (scan_blobs n obj ps all_blobs image ≡ done r)
        × (count obj r.1.pixels ≤ count obj image.pixels)
  unfolding scan_blobs
  scan_blobs_ends [] all_blobs image enough = ((all_blobs, image), refl, omega arith)
  scan_blobs_ends (p ∷ ps) all_blobs image enough = elim (Bool-cases (pixel image p.y p.x == obj)) [
    | inl here ↦
        let b =
          find_blob_ends obj positive n image p.y p.x ((==_iff (pixel image p.y p.x) obj).0 here)
            enough in
        let r =
          scan_blobs_ends ps
            (if leb (if obj == 3 then 400 else 200) (length b.0)
              then all_blobs ++ b.0 ∷ []
              else all_blobs)
            b.1 (omega (arith, b.3, enough)) in
        (r.0, rw (scan_blobs, here, b.2) (r.1), omega (arith, r.2, b.3))
    | inr other ↦
        let r = scan_blobs_ends ps all_blobs image enough in
        (r.0, rw (scan_blobs, other) (r.1), r.2)
  ]

  -- For an object with a value above 0, with more rounds for each blob than the image has pixels of it,
  -- whatever the heap operations do, the search ends, and it adds no pixel to the object.
  pub find_blobs_ends :
      (make_heap pop_heap : List (List Point) → List (List Point)) (image : Mat)
      (offset max_blobs : ℕ)
      → count obj image.pixels < n
      → (r : List (List Point) × Mat) × (find_blobs make_heap pop_heap n image offset max_blobs obj
          ≡ done r)
        × (count obj r.1.pixels ≤ count obj image.pixels)
  unfolding find_blobs
  find_blobs_ends make_heap pop_heap image offset max_blobs enough =
      let s = scan_blobs_ends (grid_points image offset) [] image enough in
      ((limit_blobs make_heap pop_heap max_blobs (s.0.0), s.0.1), rw (s.1) refl, s.2)
