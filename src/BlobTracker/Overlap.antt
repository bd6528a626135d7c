-- ===== src/BlobTracker/Overlap.antt =====
-- Blobs and the area that two of them share: src/plvblobtracker/Blob.cpp (matchingArea,
-- overlappingAreaRect) and src/plvcore/Util.cpp (overlappingArea). Coordinates are those of pixels
-- in an image, so that they are not negative and no sum or product of them overflows an int.
use parlevision.Base.{
  ℕ, ◌+◌, ◌-◌, ◌*◌, ◌≡◌, refl, Bool, true, false, not, ◌&&◌, Option, none, some, ltb, leb,
  if◌then◌else◌, arith, ap, ◌∙◌, Bool-cases, inl, inr,
}

-- cv::Rect
pub record Rect : Type 0 where
  pub x : ℕ
  pub y : ℕ
  pub width : ℕ
  pub height : ℕ

-- frame_nr: frameNr. cog: the center of gravity. bounding_rect: boundingRect. What is computed
-- from the contour by OpenCV is given.
pub record Blob : Type 0 where
  pub frame_nr : ℕ
  pub cog : ℕ × ℕ
  pub bounding_rect : Rect

-- overlappingArea; `none` is the result 0.
unfoldable pub overlapping_area : Rect → Rect → Option Rect
overlapping_area a b =
    let a_right = a.x + a.width in
    let a_bottom = a.y + a.height in
    let b_right = b.x + b.width in
    let b_bottom = b.y + b.height in
    let left = if ltb b.x a.x then a.x else b.x in
    let top = if ltb b.y a.y then a.y else b.y in
    let right = if ltb a_right b_right then a_right else b_right in
    let bottom = if ltb a_bottom b_bottom then a_bottom else b_bottom in
    if not (ltb a.x b_right && ltb b.x a_right && ltb a.y b_bottom && ltb b.y a_bottom)
    then none
    else some (record { x = left; y = top; width = right - left; height = bottom - top })

-- Blob::matchingArea
unfoldable pub matching_area : Blob → Blob → ℕ
unfolding overlapping_area
matching_area blob other = elim (overlapping_area blob.bounding_rect other.bounding_rect) [
  | none ↦ 0
  | some area ↦ area.width * area.height
]

-- Whether a pixel lies in a part of an axis, and in a rectangle.
abbrev is_between : ℕ → ℕ → ℕ → Bool
is_between start size p = leb start p && ltb p (start + size)

abbrev pub is_inside : Rect → ℕ → ℕ → Bool
is_inside r px py = is_between r.x r.width px && is_between r.y r.height py

abbrev pub is_in_area : Option Rect → ℕ → ℕ → Bool
is_in_area none px py = false
is_in_area (some r) px py = is_inside r px py

-- One axis, on which the two parts overlap.
overlap_axis :
    (a v b w p : ℕ)
    → ltb a (b + w) ≡ true
    → ltb b (a + v) ≡ true
    → let start = if ltb b a then a else b in
      let end = if ltb (a + v) (b + w) then a + v else b + w in
      is_between start (end - start) p ≡ (is_between a v p && is_between b w p)
overlap_axis a v b w p h k = ground (arith, h, k)

no_overlap_axis :
    (a v b w p : ℕ)
    → (ltb a (b + w) && ltb b (a + v)) ≡ false
    → (is_between a v p && is_between b w p) ≡ false
no_overlap_axis a v b w p h = ground (arith, h)

-- The area of two rectangles that overlap on both axes.
abbrev shared_part : Rect → Rect → Rect
shared_part a b =
    let left = if ltb b.x a.x then a.x else b.x in
    let top = if ltb b.y a.y then a.y else b.y in
    let right = if ltb (a.x + a.width) (b.x + b.width) then a.x + a.width else b.x + b.width in
    let bottom = if ltb (a.y + a.height) (b.y + b.height) then a.y + a.height else b.y + b.height in
    record { x = left; y = top; width = right - left; height = bottom - top }

overlapping_area-shared_part :
    (a b : Rect)
    → (ltb a.x (b.x + b.width) && ltb b.x (a.x + a.width)) ≡ true
    → (ltb a.y (b.y + b.height) && ltb b.y (a.y + a.height)) ≡ true
    → overlapping_area a b ≡ some (shared_part a b)
unfolding overlapping_area
overlapping_area-shared_part a b h v =
    ap (λ c. if c then none else some (shared_part a b))
      (all_four (ltb a.x (b.x + b.width)) (ltb b.x (a.x + a.width)) (ltb a.y (b.y + b.height))
        (ltb b.y (a.y + a.height)) h v)
  where
    all_four : (p q r s : Bool) → (p && q) ≡ true → (r && s) ≡ true → not (p && q && r && s) ≡ false
    all_four p q r s h v = ground (arith, h, v)

interchange : (p q r s : Bool) → ((p && r) && (q && s)) ≡ ((p && q) && (r && s))
interchange true q true s = refl
interchange true true false s = refl
interchange true false false s = refl
interchange false q r s = refl

overlapping_area-pixels :
    (a b : Rect) (px py : ℕ)
    → is_in_area (overlapping_area a b) px py ≡ (is_inside a px py && is_inside b px py)
unfolding overlapping_area
overlapping_area-pixels a b px py =
    elim (Bool-cases (ltb a.x (b.x + b.width) && ltb b.x (a.x + a.width))) [
      | inr z ↦ ground (arith, z, no_overlap_axis a.x a.width b.x b.width px z)
      | inl h ↦ elim (Bool-cases (ltb a.y (b.y + b.height) && ltb b.y (a.y + a.height))) [
        | inr z ↦ ground (arith, z, h, no_overlap_axis a.y a.height b.y b.height py z)
        | inl v ↦
            ap (λ o. is_in_area o px py) (overlapping_area-shared_part a b h v)
            ∙ both _ _ (is_between a.x a.width px) (is_between a.y a.height py)
                (is_between b.x b.width px) (is_between b.y b.height py)
                (overlap_axis a.x a.width b.x b.width px (ground (arith, h)) (ground (arith, h)))
                (overlap_axis a.y a.height b.y b.height py (ground (arith, v)) (ground (arith, v)))
      ]
    ]
  where
    both : (m n p q r s : Bool) → m ≡ (p && r) → n ≡ (q && s) → (m && n) ≡ ((p && q) && (r && s))
    both m n p q r s e f = rw (e, f) (interchange p q r s)

-- A rectangle with pixels.
abbrev pub is_solid : Rect → Bool
is_solid r = ltb 0 r.width && ltb 0 r.height

abbrev pub is_solid_area : Option Rect → Bool
is_solid_area none = false
is_solid_area (some r) = is_solid r

abbrev pub is_given : Option Rect → Bool
is_given none = false
is_given (some r) = true

overlapping_area-is_solid :
    (a b : Rect)
    → (is_solid a && is_solid b && is_given (overlapping_area a b))
      ≡ (is_solid a && is_solid b && is_solid_area (overlapping_area a b))
unfolding overlapping_area
overlapping_area-is_solid a b = ground arith

-- overlappingArea finds exactly the pixels that lie in both rectangles: a pixel is in the area that
-- it gives, if it gives one, exactly if it is in both. If both rectangles have pixels, then it gives
-- an area exactly if it gives one with pixels, so none when the rectangles share no pixel.
pub overlapping_area-inside :
    (a b : Rect)
    → ((px py : ℕ)
        → is_in_area (overlapping_area a b) px py ≡ (is_inside a px py && is_inside b px py))
      × ((is_solid a && is_solid b && is_given (overlapping_area a b))
          ≡ (is_solid a && is_solid b && is_solid_area (overlapping_area a b)))
overlapping_area-inside a b = (overlapping_area-pixels a b, overlapping_area-is_solid a b)
