-- ===== src/Image/Recognition.antt =====
-- genericCallback of ImageRecognition.cpp and what it calls: an image is classified pixel by pixel,
-- its blobs are measured, and those that are met again are published. The images that are only shown
-- are left out.
use guillemot_core.Prelude.{
  ℕ, zero, suc, ◌+◌, ◌-◌, ◌/◌, ◌%◌, true, false, if◌then◌else◌, ltb, leb, ◌==◌, List, [], ◌∷◌, ◌++◌,
  length, get_or,
}
use guillemot_core.Prelude.Int.{ℤ, pos, negsuc, ◌*ℤ◌, ◌+ℤ◌, ◌==ℤ◌}
use guillemot_core.Prelude.Run.{Run, done, fault, ◌>>=◌}
use guillemot_core.Dlt.{Dlt, classify}
use guillemot_core.Image.{Mat, Point, pixel, mark, sample_size, find_blob}

-- `for (i = offset; i < bound; i += SAMPLE_SIZE)`: the values of i, `n` at most.
unfoldable pub steps : ℕ → ℕ → ℕ → List ℕ
steps zero i bound = []
steps (suc n) i bound =
    let rest = steps n (i + sample_size) bound in if ltb i bound then i ∷ rest else []

unfoldable pub row_points : ℕ → List ℕ → List Point
row_points i [] = []
row_points i (j ∷ js) = record { x = j; y = i } ∷ row_points i js

unfoldable pub grid : List ℕ → List ℕ → List Point
grid [] js = []
grid (i ∷ is) js = row_points i js ++ grid is js

-- The points of the two loops over an image, a row after the other.
unfoldable pub grid_points : Mat → ℕ → List Point
grid_points image offset =
    grid (steps image.rows offset image.rows) (steps image.cols offset image.cols)

-- The sums and the averages of hue, saturation and brightness.
pub record Hsv : Type 0 where
  pub hue : ℕ
  pub sat : ℕ
  pub bright : ℕ

unfoldable pub attributes : Hsv → Hsv → ℤ → ℤ
attributes last hsv i =
    if i ==ℤ pos 0
    then pos last.sat
    else if i ==ℤ pos 1
    then pos last.bright
    else if i ==ℤ pos 2
    then pos hsv.hue
    else if i ==ℤ pos 3
    then pos hsv.sat
    else pos hsv.bright

-- An int stored in a uint8_t.
abbrev pub to_uint8 : ℤ → ℕ
to_uint8 (pos n) = n % 256
to_uint8 (negsuc n) = 255 - n % 256

-- temp ? temp*10+200 : 0
unfoldable pub thresh_value : ℤ → ℕ
thresh_value temp = if temp ==ℤ pos 0 then 0 else to_uint8 (temp *ℤ pos 10 +ℤ pos 200)

unfoldable pub range_loop :
    Dlt → (ℕ → ℕ → Hsv) → Hsv → List Point → Mat → Hsv → ℕ → Run (Mat × Hsv × ℕ)
range_loop tree segmented last [] threshold sum count = done (threshold, sum, count)
range_loop tree segmented last (p ∷ ps) threshold sum count = do
  let hsv = segmented p.y p.x
  temp ← classify tree (record { i_attr = attributes last hsv; type = 0 })
  range_loop tree segmented last ps (mark threshold p.y p.x (thresh_value temp))
      (record {
        hue = sum.hue + hsv.hue;
        sat = sum.sat + hsv.sat;
        bright = sum.bright + hsv.bright;
      })
      (suc count)

-- The threshold and the averages; a division by zero where no point is looked at.
unfoldable pub obj_in_range : Dlt → (ℕ → ℕ → Hsv) → Mat → ℕ → Hsv → Run (Mat × Hsv)
obj_in_range tree segmented threshold offset last = do
  (threshold, sum, count) ←
      range_loop tree segmented last (grid_points threshold offset) threshold
        (record { hue = 0; sat = 0; bright = 0 }) 0
  if count == 0
      then fault
      else done (
        threshold,
        record { hue = sum.hue / count; sat = sum.sat / count; bright = sum.bright / count },
      )

-- The loops of findBlobs over the image.
unfoldable pub scan_blobs :
    ℕ → ℕ → List Point → List (List Point) → Mat → Run (List (List Point) × Mat)
scan_blobs n obj [] all_blobs image = done (all_blobs, image)
scan_blobs n obj (p ∷ ps) all_blobs image = elim (pixel image p.y p.x == obj) [
  | false ↦ scan_blobs n obj ps all_blobs image
  | true ↦ do
    (blob, image) ← find_blob n image p.y p.x obj
    scan_blobs n obj ps
        (if leb (if obj == 3 then 400 else 200) (length blob)
          then all_blobs ++ blob ∷ []
          else all_blobs)
        image
]

module _ (make_heap pop_heap : List (List Point) → List (List Point)) where
  abbrev front : List (List Point) → List Point
  front blobs = get_or blobs 0 []

  -- The loop that takes the biggest blobs, each pop from the same range.
  unfoldable pub take_biggest : ℕ → List (List Point) → List (List Point)
  take_biggest zero heap = []
  take_biggest (suc n) heap =
      let popped = pop_heap heap in
      let rest = take_biggest n popped in if ltb 1 (length heap) then front popped ∷ rest else []

  -- The biggest blobs, where there are too many.
  unfoldable pub limit_blobs : ℕ → List (List Point) → List (List Point)
  limit_blobs max_blobs all_blobs =
      let heap = make_heap all_blobs in
      if leb (length all_blobs) max_blobs
      then all_blobs
      else front heap ∷ take_biggest (max_blobs - 1) heap

  unfoldable pub find_blobs : ℕ → Mat → ℕ → ℕ → ℕ → Run (List (List Point) × Mat)
  find_blobs n image offset max_blobs obj = do
    (all_blobs, image) ← scan_blobs n obj (grid_points image offset) [] image
    done (limit_blobs max_blobs all_blobs, image)
