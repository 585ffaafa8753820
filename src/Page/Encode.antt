-- ===== src/Page/Encode.antt =====
-- EncodePage and checkPageSnapshot of budget/v1alpha1/page.go. A destination is its length and the
-- byte at each offset.
use apis.Prelude.{
  ℕ, pos, not, ◌&&◌, ◌||◌, Option, none, some, List, [], ◌∷◌, String, if◌then◌else◌, ◌==◌, ltb,
  leb_ℤ, length, take, codes, str_eq, is_some,
}
pub use apis.Prelude.Outcomes.{Outcome, ok, err, ◌>>=◌, ◌>>◌, >>=-eq-ok}
use apis.Budget.Vocab.{platform_valid, level_valid}
use apis.Page.Bytes.{Memory, zeroed, put_le, put_bytes}
use apis.Page.Snapshot.{
  PageSnapshot, page_size, page_magic, max_page_signals, max_page_counters,
  max_page_node_name_bytes,
}
use apis.Page.Field.{Kind, PageField, PageGetter}
use apis.Page.Layout.{page_layout, page_body_size}

-- What ErrInvalidPageSnapshot is wrapped with.
pub data Fault : Type 0 where
  node_name_too_long node_name_empty writer_period platform_unknown level_unknown : Fault
  too_many_signals too_many_counters darwin_block linux_block : Fault
  cannot_carry : (name : String) → Fault

-- `no_getter` is the panic of a call of a nil getter.
pub data PageError : Type 0 where
  page_buffer : PageError
  invalid_page_snapshot : Fault → PageError
  page_writer_not_resumed : PageError
  no_getter : PageError

abbrev pub Result {ℓ} : Type ℓ → Type ℓ
Result A = Outcome PageError A

pub record Buffer : Type 0 where
  pub len : ℕ
  pub at : Memory

abbrev invalid : Fault → Result (Unit {0})
invalid f = err (invalid_page_snapshot f)

-- checkPageSnapshot: the first case that holds.
unfoldable pub check_page_snapshot : PageSnapshot → Result (Unit {0})
unfolding platform_valid level_valid
check_page_snapshot s =
    if ltb max_page_node_name_bytes (length s.node_name)
    then invalid node_name_too_long
    else if length s.node_name == 0
    then invalid node_name_empty
    else if leb_ℤ s.writer_period_seconds (pos 0)
    then invalid writer_period
    else if not (platform_valid s.platform)
    then invalid platform_unknown
    else if not (level_valid s.level)
    then invalid level_unknown
    else if ltb max_page_signals (length s.signals)
    then invalid too_many_signals
    else if ltb max_page_counters (length s.counters)
    then invalid too_many_counters
    else if str_eq s.platform "darwin" && not (is_some s.darwin)
    then invalid darwin_block
    else if str_eq s.platform "linux" && (not (is_some s.linux) || is_some s.darwin)
    then invalid linux_block
    else ok tt

-- The bytes that PutUint16, PutUint32 or PutUint64 writes for a row of this kind.
unfoldable pub width : Kind → ℕ
width Kind.kind_u16 = 2
width Kind.kind_u32 = 4
width _ = 8

unfoldable pub put_value : PageField → Option (Option ℕ) → Memory → Result Memory
unfolding put_le width
put_value f none page = err no_getter
put_value f (some none) page = err (invalid_page_snapshot (cannot_carry f.name))
put_value f (some (some v)) page = ok (put_le page f.offset (width f.kind) v)

abbrev pub answer : PageSnapshot → Option PageGetter → Option (Option ℕ)
answer s none = none
answer s (some get) = some (get s)

-- One round of the loop of EncodePage.
unfoldable pub put_field : PageSnapshot → PageField → Memory → Result Memory
unfolding put_bytes put_le put_value page_body_size
put_field s f page =
    if str_eq f.name "magic"
    then ok (put_bytes page f.offset (codes page_magic))
    else if str_eq f.name "nodeName"
    then ok (put_bytes page f.offset (take f.size s.node_name))
    else if str_eq f.name "bodySize"
    then ok (put_le page f.offset 4 page_body_size)
    else put_value f (answer s f.get) page

unfoldable pub put_fields : PageSnapshot → List PageField → Memory → Result Memory
unfolding put_field
put_fields s [] page = ok page
put_fields s (f ∷ fs) page = put_field s f page >>= λ next. put_fields s fs next

-- copy(dst, page[:])
unfoldable pub copy_page : Memory → Buffer → Buffer
copy_page page dst = record dst { at = λ i. if ltb i page_size then page i else dst.at i }

-- EncodePage
unfoldable pub encode_page : Buffer → PageSnapshot → Result Buffer
encode_page dst s =
    if ltb dst.len page_size
    then err page_buffer
    else do check_page_snapshot s; page ← put_fields s page_layout zeroed; ok (copy_page page dst)
