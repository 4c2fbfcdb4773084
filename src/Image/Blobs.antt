-- ===== src/Image/Blobs.antt =====
-- findBlob of ImageRecognition.cpp: that it ends, and what it takes from the image.
use guillemot_core.Prelude.{
  ℕ, zero, suc, ◌+◌, ◌≤◌, ◌<◌, ◌≡◌, ◌≢◌, refl, ◌∙◌, arith, Bool, true, false, ◌&&◌, if◌then◌else◌,
  ◌==◌, List, [], ◌∷◌, length, get_or, set, length-append, some, get_elem?, Option-cases, ==_iff,
  inl, inr,
}
use guillemot_core.Prelude.Run.{done}
use guillemot_core.Prelude.Node.{if-P_both}
use guillemot_core.Image.{
  Mat, Point, pixel, mark, place, done_thresh, visit, visit_all, grow_blob, find_blob,
}

-- How many pixels an object has.
abbrev pub count : ℕ → List ℕ → ℕ
count obj [] = 0
count obj (p ∷ ps) = if p == obj then suc (count obj ps) else count obj ps

count-set :
    (ps : List ℕ) (obj k v : ℕ)
    → 0 < obj
    → v ≢ obj
    → get_or ps k 0 ≡ obj
    → suc (count obj (set ps k v)) ≡ count obj ps
count-set [] obj k v pos ne h = absurd (omega arith)
count-set (p ∷ ps) obj zero v pos ne h = ground arith
count-set (p ∷ ps) obj (suc k) v pos ne h = ground (arith, count-set ps obj k v pos ne h)

done_thresh_other : (obj : ℕ) → 0 < obj → done_thresh obj ≢ obj
done_thresh_other obj h = ground arith

get_elem?_inside : (ps : List Point) (k : ℕ) (p : Point) → get_elem? ps k ≡ some p → k < length ps
get_elem?_inside [] k p h = absurd (ground arith)
get_elem?_inside (q ∷ ps) zero p h = omega arith
get_elem?_inside (q ∷ ps) (suc k) p h = omega (arith, get_elem?_inside ps k p h)

both_true : (a b : Bool) → (a && b) ≡ true → b ≡ true
both_true true b h = h
both_true false b h = absurd (ground arith)

module _ (obj : ℕ) (positive : 0 < obj) where
  -- The points of the blob and the pixels of the object that are left.
  abbrev weight : List Point × Mat → ℕ
  weight s = length s.0 + count obj s.1.pixels

  -- A test moves a pixel of the object to the blob, or does nothing.
  record Moves (s r : List Point × Mat) : Type 0 where
    same_weight : weight r ≡ weight s
    grows : length s.0 ≤ length r.0

  visit-Moves : (within : Bool) (i j : ℕ) (s : List Point × Mat) → Moves s (visit obj within i j s)
  unfolding visit
  visit-Moves within i j s =
      if-P_both (Moves s) (within && (pixel s.1 i j == obj)) _ s
        (λ h.
          let here : pixel s.1 i j ≡ obj =
            (==_iff (pixel s.1 i j) obj).0 (both_true within (pixel s.1 i j == obj) h) in
          let longer = length-append s.0 (record { x = j; y = i } ∷ []) in
          record {
            same_weight = omega (
              arith,
              longer,
              count-set s.1.pixels obj (place s.1 i j) (done_thresh obj) positive
                  (done_thresh_other obj positive) here,
            );
            grows = omega (arith, longer);
          })
        (λ h. record { same_weight = refl; grows = omega arith })

  Moves-trans : {a b c : List Point × Mat} → Moves a b → Moves b c → Moves a c
  Moves-trans g h = record {
    same_weight = h.same_weight ∙ g.same_weight;
    grows = omega (arith, g.grows, h.grows);
  }

  visit_all-Moves : (p : Point) (s : List Point × Mat) → Moves s (visit_all obj p s)
  unfolding visit_all
  visit_all-Moves p s =
      Moves-trans
        (Moves-trans (Moves-trans (visit-Moves _ _ _ s) (visit-Moves _ _ _ _))
          (visit-Moves _ _ _ _))
        (visit-Moves _ _ _ _)

  grow_blob_ends :
      (n index : ℕ) (s : List Point × Mat)
      → index ≤ length s.0
      → weight s < n + index
      → (r : List Point × Mat) × (grow_blob n obj index s ≡ done r) × (weight r ≡ weight s)
  unfolding grow_blob
  grow_blob_ends zero index s le lt = absurd (omega arith)
  grow_blob_ends (suc n) index s le lt = elim (Option-cases (get_elem? s.0 index)) [
    | inl h ↦ (s, rw (grow_blob, h) refl, refl)
    | inr (p, h) ↦
        let m = visit_all-Moves p s in
        let inside = get_elem?_inside s.0 index p h in
        let r =
          grow_blob_ends n (suc index) (visit_all obj p s) (omega (arith, m.grows, inside))
            (omega (arith, m.same_weight, lt)) in
        (r.0, rw (grow_blob, h) (r.1), r.2 ∙ m.same_weight)
  ]

  -- From a pixel of the object, and with more rounds than the object has pixels, the search for a blob
  -- ends, and each pixel that it takes from the object is one point of the blob.
  pub find_blob_ends :
      (n : ℕ) (image : Mat) (i j : ℕ)
      → pixel image i j ≡ obj
      → count obj image.pixels < n
      → (blob : List Point) × (left : Mat) × (find_blob n image i j obj ≡ done (blob, left))
        × (length blob + count obj left.pixels ≡ count obj image.pixels)
  unfolding find_blob
  find_blob_ends n image i j here enough =
      let taken =
        count-set image.pixels obj (place image i j) (done_thresh obj) positive
          (done_thresh_other obj positive) here in
      let r =
        grow_blob_ends n 0 (record { x = j; y = i } ∷ [], mark image i j (done_thresh obj))
          (omega arith) (omega (arith, taken)) in
      (r.0.0, r.0.1, r.1, omega (arith, r.2, taken))
