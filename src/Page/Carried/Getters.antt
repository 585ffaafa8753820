-- ===== src/Page/Carried/Getters.antt =====
-- Rows by the kind of their getter (pageGetter of budget/v1alpha1/page.go).
use apis.Prelude.{ℤ, ◌≡◌, refl, Bool, true, Option, some, String, is_some}
use apis.Budget.Ladder.{IsNonNegative}
use apis.Page.Snapshot.{PageSnapshot}
use apis.Page.Field.{PageGetter, i64_word, opt, i64, add, row, Kind, enum_code, bool_word}
use apis.Page.Carried.Words.{Carries, Carries-get, i64_word-is_some}

pub opt-Carries :
    (s : PageSnapshot) (name status : String) (get : PageSnapshot → Option ℤ)
    → IsNonNegative (get s)
    → Carries s (opt name status get)
unfolding opt
opt-Carries s name status get h =
    Carries-get s (opt name status get) (λ t. i64_word (get t)) refl (i64_word-is_some (get s) h)

pub enum_code-Carries :
    (s : PageSnapshot) (name status enum : String) (get : PageGetter)
    → is_some (get s) ≡ true
    → Carries s (enum_code name status enum get)
unfolding enum_code
enum_code-Carries s name status enum get h =
    Carries-get s (enum_code name status enum get) get refl h

pub i64-Carries :
    (s : PageSnapshot) (name status : String) (absent : Bool) (get : PageGetter)
    → is_some (get s) ≡ true
    → Carries s (i64 name status absent get)
unfolding i64
i64-Carries s name status absent get h = Carries-get s (i64 name status absent get) get refl h

pub bool-Carries :
    (s : PageSnapshot) (name status : String) (get : PageSnapshot → Bool)
    → Carries s (record (add (row name Kind.kind_u64 status (some (λ t. bool_word (get t))))) {
      enum = "bool";
    })
unfolding add bool_word
bool-Carries s name status get =
    Carries-get s
      (record (add (row name Kind.kind_u64 status (some (λ t. bool_word (get t))))) {
        enum = "bool";
      })
      (λ t. bool_word (get t)) refl refl
