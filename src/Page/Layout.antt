-- ===== src/Page/Layout.antt =====
-- buildPageLayout, pageLayout, pageBodyEnd, pageOffset and pageBodySize of budget/v1alpha1/page.go.
use apis.Prelude.{
  ℕ, ◌+◌, ◌-◌, ◌*◌, ◌/◌, String, Option, none, some, List, [], ◌∷◌, if◌then◌else◌, ◌==◌, str_eq,
}
use apis.Page.Snapshot.{page_header_size}
use apis.Page.Field.{Kind, PageField}
use apis.Page.Fields.{page_field_specs}

-- The alignment of a row: its own, or the natural one of its kind.
unfoldable pub natural_align : Kind → ℕ
natural_align Kind.kind_u16 = 2
natural_align Kind.kind_u32 = 4
natural_align _ = 8

unfoldable pub align_of : PageField → ℕ
unfolding natural_align
align_of f = if f.align == 0 then natural_align f.kind else f.align

-- One round of the loop: the offset at which row f is put after off.
unfoldable pub place : ℕ → PageField → ℕ
unfolding align_of
place off f = (off + align_of f - 1) / align_of f * align_of f

unfoldable pub layout_from : ℕ → List PageField → List PageField
unfolding place
layout_from off [] = []
layout_from off (f ∷ specs) =
    let o = place off f in record f { offset = o } ∷ layout_from (o + f.size) specs

unfoldable pub end_from : ℕ → List PageField → ℕ
unfolding place
end_from off [] = off
end_from off (f ∷ specs) = end_from (place off f + f.size) specs

-- buildPageLayout
unfoldable pub build_page_layout : List PageField → List PageField × ℕ
unfolding layout_from end_from
build_page_layout specs = (layout_from 0 specs, end_from 0 specs)

unfoldable pub page_layout : List PageField
unfolding build_page_layout page_field_specs
page_layout = (build_page_layout page_field_specs).0

unfoldable pub page_body_end : ℕ
unfolding build_page_layout page_field_specs
page_body_end = (build_page_layout page_field_specs).1

-- pageOffset; `none` is its panic.
unfoldable pub offset_in : String → List PageField → Option ℕ
offset_in name [] = none
offset_in name (f ∷ fs) = if str_eq f.name name then some f.offset else offset_in name fs

unfoldable pub page_offset : String → Option ℕ
unfolding offset_in page_layout
page_offset name = offset_in name page_layout

unfoldable pub page_body_size : ℕ
unfolding page_body_end
page_body_size = page_body_end - page_header_size
