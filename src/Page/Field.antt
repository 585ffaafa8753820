-- ===== src/Page/Field.antt =====
-- One row of the layout table of budget/v1alpha1/page.go, and the closures of pageFieldSpecs that
-- build rows. A getter answers `none` where the source's answers false.
use apis.Prelude.{
  ℕ, ℤ, String, Bool, true, false, Option, none, some, if◌then◌else◌, ◌==◌, eqb_ℤ, uint64,
}
use apis.Page.Snapshot.{PageSnapshot, page_absent, page_absent_word}

pub data Kind : Type 0 where
  kind_bytes kind_u16 kind_u32 kind_u64 kind_i64 : Kind

abbrev pub PageGetter : Type 0
PageGetter = PageSnapshot → Option ℕ

pub record PageField : Type 0 where
  pub name : String
  pub offset : ℕ
  pub kind : Kind
  pub size : ℕ
  pub align : ℕ
  pub enum : String
  pub absent : Bool
  pub status : String
  pub get : Option PageGetter

abbrev pub const_get : ℕ → PageGetter
const_get v _ = some v

-- i64Word
unfoldable pub i64_word : Option ℤ → Option ℕ
i64_word none = some page_absent_word
i64_word (some v) = if eqb_ℤ v page_absent then none else some (uint64 v)

unfoldable pub bool_word : Bool → Option ℕ
bool_word b = some (if b then 1 else 0)

-- A row before `add`: no alignment, no enum, no size given.
abbrev pub row : String → Kind → String → Option PageGetter → PageField
row name kind status get = record {
  name = name;
  offset = 0;
  kind = kind;
  size = 0;
  align = 0;
  enum = "";
  absent = false;
  status = status;
  get = get;
}

-- `add`: a size left out is 8.
unfoldable pub add : PageField → PageField
add f = if f.size == 0 then record f { size = 8 } else f

-- The closures i64, opt and code.
unfoldable pub i64 : String → String → Bool → PageGetter → PageField
unfolding add
i64 name status absent get =
    add (record (row name Kind.kind_i64 status (some get)) { absent = absent })

unfoldable pub opt : String → String → (PageSnapshot → Option ℤ) → PageField
unfolding i64 i64_word
opt name status get = i64 name status true (λ s. i64_word (get s))

unfoldable pub enum_code : String → String → String → PageGetter → PageField
unfolding add
enum_code name status enum get =
    add (record (row name Kind.kind_u64 status (some get)) { enum = enum })
