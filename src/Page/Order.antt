-- ===== src/Page/Order.antt =====
-- How buildPageLayout of budget/v1alpha1/page.go places the rows of any table, and of its own.
use native.Mathlib.Nat.{lt-div-mul-add, div-mul-le_self, mul-mod_left}
use apis.Prelude.{
  ℕ, ◌+◌, ◌-◌, ◌/◌, ◌%◌, ◌≤◌, ◌<◌, ◌≡◌, refl, ap, Bool, true, ◌&&◌, ◌||◌, List, [], ◌∷◌, ◌++◌,
  arith, ltb, leb, ◌==◌, all,
}
use apis.Page.Snapshot.{page_header_size, page_body_limit}
use apis.Page.Field.{PageField}
use apis.Page.Fields.{page_field_specs}
use apis.Page.Layout.{
  align_of, place, layout_from, end_from, build_page_layout, page_layout, page_body_end,
}

-- Each row begins at or after the end of the one before it, at the first multiple of its alignment.
abbrev pub IsPacked : ℕ → List PageField → Type 0
IsPacked lo [] = Unit {0}
IsPacked lo (f ∷ fs) =
    (lo ≤ f.offset)
    × (f.offset < lo + align_of f)
    × (f.offset % align_of f ≡ 0)
    × IsPacked (f.offset + f.size) fs

-- Each row begins at or after the end of the one before it.
abbrev pub IsLaidOut : ℕ → List PageField → Type 0
IsLaidOut lo [] = Unit {0}
IsLaidOut lo (f ∷ fs) = (lo ≤ f.offset) × IsLaidOut (f.offset + f.size) fs

align_of-pos : (f : PageField) → 0 < align_of f
unfolding align_of
align_of-pos f = ground arith

pub place_bounds :
    (off : ℕ) (f : PageField)
    → (off ≤ place off f) × (place off f < off + align_of f) × (place off f % align_of f ≡ 0)
unfolding place
place_bounds off f =
    let p = align_of-pos f in
    let up = lt-div-mul-add {a = off + align_of f - 1} p in
    let down = div-mul-le_self (off + align_of f - 1) (align_of f) in
    (omega arith, omega arith, mul-mod_left ((off + align_of f - 1) / align_of f) (align_of f))

-- Moving a row does not change its alignment.
align_of-moved : (o : ℕ) (f : PageField) → align_of (record f { offset = o }) ≡ align_of f
unfolding align_of
align_of-moved o f = refl

layout_from-IsPacked : (off : ℕ) (specs : List PageField) → IsPacked off (layout_from off specs)
unfolding layout_from align_of
layout_from-IsPacked off [] = tt
layout_from-IsPacked off (f ∷ specs) =
    let (lo, hi, aligned) = place_bounds off f in
    (lo, hi, aligned, layout_from-IsPacked (place off f + f.size) specs)

pub IsPacked-IsLaidOut : (lo : ℕ) (fs : List PageField) → IsPacked lo fs → IsLaidOut lo fs
IsPacked-IsLaidOut lo [] h = tt
IsPacked-IsLaidOut lo (f ∷ fs) h = (h.0, IsPacked-IsLaidOut (f.offset + f.size) fs h.3)

layout_from-append :
    (off : ℕ) (old new : List PageField)
    → layout_from off (old ++ new) ≡ layout_from off old ++ layout_from (end_from off old) new
unfolding layout_from end_from
layout_from-append off [] new = refl
layout_from-append off (f ∷ old) new =
    ap (λ rest. record f { offset = place off f } ∷ rest)
      (layout_from-append (place off f + f.size) old new)

end_from-append :
    (off : ℕ) (old new : List PageField)
    → end_from off (old ++ new) ≡ end_from (end_from off old) new
unfolding end_from
end_from-append off [] new = refl
end_from-append off (f ∷ old) new = end_from-append (place off f + f.size) old new

end_from-le : (off : ℕ) (specs : List PageField) → off ≤ end_from off specs
unfolding end_from
end_from-le off [] = omega arith
end_from-le off (f ∷ specs) =
    omega (arith, place_bounds off f, end_from-le (place off f + f.size) specs)

-- Appending rows to a table keeps every earlier row where it was, puts the new rows after them, and
-- never makes the body shorter: the layout of an older minor is a prefix of that of a newer one.
pub build_page_layout-append :
    (old new : List PageField)
    → ((build_page_layout (old ++ new)).0
        ≡ (build_page_layout old).0 ++ layout_from (build_page_layout old).1 new)
      × ((build_page_layout old).1 ≤ (build_page_layout (old ++ new)).1)
unfolding build_page_layout
build_page_layout-append old new = (
  layout_from-append 0 old new,
  omega (arith, end_from-append 0 old new, end_from-le (end_from 0 old) new),
)

pub page_layout-IsLaidOut : IsLaidOut 0 page_layout
unfolding page_layout
page_layout-IsLaidOut = IsPacked-IsLaidOut 0 page_layout (layout_from-IsPacked 0 page_field_specs)

-- A row after the header line lies in whole 8-byte words before page_body_end.
abbrev word_row : PageField → Bool
word_row f =
    ltb f.offset page_header_size
    || (f.offset % 8 == 0) && (f.size % 8 == 0) && leb (f.offset + f.size) page_body_end

pub page_layout-words : (all word_row page_layout ≡ true) × (page_body_end ≤ page_body_limit)
unfolding page_layout page_body_end
page_layout-words = (refl, omega arith)
