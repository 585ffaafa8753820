-- ===== src/Page/Encoded.antt =====
-- What a successful EncodePage (budget/v1alpha1/page.go) leaves in its destination, and when it
-- succeeds.
use apis.Prelude.{
  ℕ, ◌+◌, ◌≤◌, ◌<◌, ◌≡◌, refl, ◌∙◌, ap, Bool, true, none, some, arith, ltb, leb, Bool-cases, inl,
  inr, all, get_elem?, get_or, length,
}
use apis.Page.Bytes.{Memory, zeroed}
use apis.Page.Snapshot.{PageSnapshot, page_size, page_node_name_bytes, max_page_node_name_bytes}
use apis.Page.Field.{Kind, PageField, row}
use apis.Page.Layout.{page_layout, page_offset}
use apis.Page.Order.{page_layout-IsLaidOut}
use apis.Page.Encode.{
  ok, err, >>=-eq-ok, Buffer, page_buffer, check_page_snapshot, put_fields, copy_page, encode_page,
}
use apis.Page.Writes.{row_fits, outside, put_fields-other}
use apis.Page.Written.{Written, put_fields-Written, Written-node_name}

pub page_layout-fits : all row_fits page_layout ≡ true
unfolding page_layout row_fits
page_layout-fits = refl

ends_in_page : PageField → Bool
ends_in_page f = leb (f.offset + f.size) page_size

name_field : PageField
unfolding page_layout
name_field = get_or page_layout 12 (row "" Kind.kind_bytes "" none)

name_row : get_elem? page_layout 12 ≡ some name_field
unfolding name_field
name_row = refl

name_row_shape :
    (name_field.name ≡ "nodeName")
    × (page_offset "nodeName" ≡ some name_field.offset)
    × (name_field.size ≡ page_node_name_bytes)
    × (name_field.offset + name_field.size ≤ page_size)
unfolding name_field page_offset
name_row_shape = (refl, refl, refl, omega arith)

-- A snapshot that passes the checks has a node name of at most 253 bytes.
check-length :
    (s : PageSnapshot)
    → check_page_snapshot s ≡ ok tt
    → length s.node_name ≤ max_page_node_name_bytes
unfolding check_page_snapshot
check-length s h = ground arith

-- The parts of a successful run.
record Run (dst : Buffer) (s : PageSnapshot) (out : Buffer) : Type 0 where
  room : page_size ≤ dst.len
  checked : check_page_snapshot s ≡ ok tt
  page : Memory
  filled : put_fields s page_layout zeroed ≡ ok page
  copied : out ≡ copy_page page dst

encode_page-Run :
    (dst : Buffer) (s : PageSnapshot) {out : Buffer} → encode_page dst s ≡ ok out → Run dst s out
unfolding encode_page
encode_page-Run dst s {out} e = elim (Bool-cases (ltb dst.len page_size)) [
  | inl short ↦ absurd (short_fails short)
  | inr long ↦
      let (_, checked, e1) = >>=-eq-ok (check_page_snapshot s) _ (rw (long, encode_page) at e) in
      let (page, filled, e2) = >>=-eq-ok (put_fields s page_layout zeroed) _ e1 in
      record { room = ground arith; checked = checked; page = page; filled = filled; copied = cc }
]
  where
    short_fails : ltb dst.len page_size ≡ true → ⊥
    short_fails h = let e' : err page_buffer ≡ ok out = rw (h, encode_page) at e in cc

module _ (dst : Buffer) (s : PageSnapshot) {out : Buffer}
    (encoded : encode_page dst s ≡ ok out) where
  run : Run dst s out
  run = encode_page-Run dst s encoded

  at-page : (i : ℕ) → i < page_size → out.at i ≡ run.page i
  unfolding copy_page
  at-page i lt = ap (λ (b : Buffer). b.at i) run.copied ∙ ground arith

  Written-out :
      (k : ℕ) {f : PageField} → get_elem? page_layout k ≡ some f → Written s f zeroed run.page
  Written-out k at =
      put_fields-Written s 0 page_layout k zeroed run.page page_layout-IsLaidOut page_layout-fits
        run.filled at

  -- After a successful EncodePage a byte of the page that lies in no row of the layout is zero.
  pub encode_page-zero : (i : ℕ) → i < page_size → outside page_layout i ≡ true → out.at i ≡ 0
  encode_page-zero i lt h =
      at-page i lt ∙ put_fields-other s page_layout zeroed run.page i page_layout-fits run.filled h

  -- A successful EncodePage keeps the destination's length and its bytes from PageSize on.
  pub encode_page-rest : (i : ℕ) → page_size ≤ i → (out.len ≡ dst.len) × (out.at i ≡ dst.at i)
  unfolding copy_page
  encode_page-rest i le =
      (ap (λ (b : Buffer). b.len) run.copied, ap (λ (b : Buffer). b.at i) run.copied ∙ ground arith)

  -- A successful EncodePage writes the node name at the start of the nodeName row, and zero bytes in
  -- the rest of its 256 bytes.
  pub encode_page-node_name :
      (o k : ℕ)
      → page_offset "nodeName" ≡ some o
      → k < page_node_name_bytes
      → out.at (o + k) ≡ get_or s.node_name k 0
  encode_page-node_name o k e lt =
      let (named, offset, size, room) = name_row_shape in
      let here : o ≡ name_field.offset = cc in
      let short : length s.node_name ≤ name_field.size =
        omega (arith, check-length s run.checked) in
      at-page (o + k) (omega arith)
      ∙ (ap (λ (j : ℕ). run.page (j + k)) here
          ∙ Written-node_name k (Written-out 12 name_row) named short (omega arith))
