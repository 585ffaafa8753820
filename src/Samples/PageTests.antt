-- ===== src/Samples/PageTests.antt =====
-- The theorems on the page of budget/v1alpha1/page.go at concrete snapshots.
use apis.Prelude.{ℕ, ◌+◌, bytes_eq, ◌≡◌, refl, true, take, arith, get_or, if◌then◌else◌, ◌==◌}
use apis.Page.Layout.{page_body_size, page_offset}
use apis.Page.Encoded.{encode_page-node_name}
use apis.Page.Writer.{apply, fresh_writer, recognised, shrinks}
use apis.Page.Writer.Header.{store_list, resume_lem, minor_of, body_size_in}
use apis.Page.Writer.Rollback.{IsValidHeader, resume-IsValidHeader}
use apis.Samples.{snapshot, room, page_buffer_of, page_of-ok, newer_minor}

encode_page-node_name_example : page_buffer_of.at (232 + 5) ≡ get_or snapshot.node_name 5 0
unfolding page_offset
encode_page-node_name_example =
    encode_page-node_name room snapshot page_of-ok 232 5 refl (omega arith)

abbrev size_of_minor : ℕ → ℕ
size_of_minor m = if m == 2 then 3000 else page_body_size

newer_minor-IsValidHeader : IsValidHeader size_of_minor newer_minor
unfolding recognised minor_of body_size_in bytes_eq
newer_minor-IsValidHeader = record { known = refl; covers = omega arith }

resume-IsValidHeader_example :
    IsValidHeader size_of_minor (apply (take 6 (store_list true)) newer_minor)
unfolding recognised shrinks bytes_eq
resume-IsValidHeader_example =
    resume-IsValidHeader size_of_minor newer_minor fresh_writer 6 refl newer_minor-IsValidHeader
      (resume_lem newer_minor fresh_writer)
