-- ===== src/Image.antt =====
-- rosWorkspace/SubImageRecognition/src/ImageRecognition.cpp: the blobs of an image, the tracks of
-- blobs from frame to frame, and what is published of them. What OpenCV makes of images stays outside.
use guillemot_core.Prelude.{
  ℕ, zero, suc, ◌+◌, ◌-◌, ◌*◌, Bool, ◌&&◌, if◌then◌else◌, ltb, leb, ◌==◌, List, [], ◌∷◌, ◌++◌,
  length, get_or, set, Option, none, some, get_elem?,
}
use guillemot_core.Prelude.Run.{Run, done, hang, ◌>>=◌}
pub mod Tracks
pub mod Blobs
pub mod Reports
pub mod Recognition
pub mod Callback
pub mod Search
pub mod Published
pub mod Tests

-- An 8-bit image, row after row.
pub record Mat : Type 0 where
  pub rows : ℕ
  pub cols : ℕ
  pub pixels : List ℕ

-- A point (x, y).
pub record Point : Type 0 where
  pub x : ℕ
  pub y : ℕ

abbrev pub place : Mat → ℕ → ℕ → ℕ
place image i j = i * image.cols + j

-- A pixel of the image; 0 beyond it, where the code never reads.
abbrev pub pixel : Mat → ℕ → ℕ → ℕ
pixel image i j = get_or image.pixels (place image i j) 0

abbrev pub mark : Mat → ℕ → ℕ → ℕ → Mat
mark image i j value = record image { pixels = set image.pixels (place image i j) value }

-- SAMPLE_SIZE
abbrev pub sample_size : ℕ
sample_size = 4

abbrev pub done_thresh : ℕ → ℕ
done_thresh obj = if obj == 1 then 255 else if obj == 3 then 255 else 0

-- One of the four tests: a neighbour that is in the image and of the object joins the blob.
unfoldable pub visit : ℕ → Bool → ℕ → ℕ → List Point × Mat → List Point × Mat
visit obj within i j s =
    if within && (pixel s.1 i j == obj)
    then (s.0 ++ record { x = j; y = i } ∷ [], mark s.1 i j (done_thresh obj))
    else s

unfoldable pub visit_all : ℕ → Point → List Point × Mat → List Point × Mat
visit_all obj p s0 =
    let i = p.y in
    let j = p.x in
    let s1 = visit obj (ltb (i + sample_size) s0.1.rows) (i + sample_size) j s0 in
    let s2 = visit obj (leb sample_size i) (i - sample_size) j s1 in
    let s3 = visit obj (ltb (j + sample_size) s2.1.cols) i (j + sample_size) s2 in
    visit obj (leb sample_size j) i (j - sample_size) s3

-- The loop over the blob, which grows as it is walked, in so many rounds at most.
unfoldable pub grow_blob : ℕ → ℕ → ℕ → List Point × Mat → Run (List Point × Mat)
grow_blob zero obj index s = hang
grow_blob (suc n) obj index s = elim (get_elem? s.0 index) [
  | none ↦ done s
  | some p ↦ grow_blob n obj (suc index) (visit_all obj p s)
]

unfoldable pub find_blob : ℕ → Mat → ℕ → ℕ → ℕ → Run (List Point × Mat)
find_blob n image i j obj =
    grow_blob n obj 0 (record { x = j; y = i } ∷ [], mark image i j (done_thresh obj))
