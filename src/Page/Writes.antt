-- ===== src/Page/Writes.antt =====
-- What the loop of EncodePage (budget/v1alpha1/page.go) writes for any table whose rows do not
-- overlap: each row's bytes are those of its own round, and no other byte changes.
use apis.Prelude.{
  ℕ, zero, suc, ◌≤◌, ◌≡◌, ◌∙◌, ap, Bool, true, false, not, ◌&&◌, List, [], ◌∷◌, Option, none, some,
  arith, leb, if◌then◌else◌, Bool-cases, inl, inr, all, length, take, codes, str_eq, is_some,
}
use apis.Page.Bytes.{Memory, within, put_le, put_bytes, put_le-other, put_bytes-other}
use apis.Page.Snapshot.{PageSnapshot, page_magic}
use apis.Page.Field.{PageField}
use apis.Page.Layout.{page_body_size}
use apis.Page.Encode.{Result, ok, >>=-eq-ok, width, put_value, answer, put_field, put_fields}

-- What the loop writes for a row stays inside the row, and there is a getter where one is called.
unfoldable pub row_fits : PageField → Bool
unfolding width
row_fits f =
    if str_eq f.name "magic"
    then leb (length (codes page_magic)) f.size
    else if str_eq f.name "nodeName"
    then true
    else if str_eq f.name "bodySize"
    then leb 4 f.size
    else leb (width f.kind) f.size && is_some f.get

-- A row that is written through its getter.
unfoldable pub is_word : PageField → Bool
is_word f =
    not (str_eq f.name "magic") && not (str_eq f.name "nodeName") && not (str_eq f.name "bodySize")

-- Offset i lies in no row.
abbrev pub outside : List PageField → ℕ → Bool
outside fs i = all (λ f. not (within f.offset f.size i)) fs

length-take-le {ℓ} : {A : Type ℓ} (n : ℕ) (xs : List A) → length (take n xs) ≤ n
length-take-le zero xs = omega arith
length-take-le (suc n) [] = omega arith
length-take-le (suc n) (x ∷ xs) = omega (arith, length-take-le n xs)

within-narrow : (off n k i : ℕ) → k ≤ n → within off n i ≡ false → within off k i ≡ false
within-narrow off n k i h e = ground arith

pub same_at : {m m' : Memory} (i : ℕ) → ◌≡◌ {A = Result Memory} (ok m) (ok m') → m' i ≡ m i
same_at {m} {m'} i e = let same : m' ≡ m = cc in ap (λ (f : Memory). f i) same

put_value-other :
    (f : PageField) (o : Option (Option ℕ)) (m m' : Memory) (i : ℕ)
    → leb (width f.kind) f.size ≡ true
    → put_value f o m ≡ ok m'
    → within f.offset f.size i ≡ false
    → m' i ≡ m i
unfolding put_value
put_value-other f none m m' i h e out = cc
put_value-other f (some none) m m' i h e out = cc
put_value-other f (some (some v)) m m' i h e out =
    same_at i e
    ∙ put_le-other m f.offset (width f.kind) v i
        (within-narrow f.offset f.size (width f.kind) i (ground arith) out)

-- The four ways of a round, by the row's name.
pub put_field_cases {ℓ} :
    (P : Bool → Bool → Result Memory → Type ℓ) (s : PageSnapshot) (f : PageField) (m : Memory)
    → P
        (leb (length (codes page_magic)) f.size)
        false
        (ok (put_bytes m f.offset (codes page_magic)))
    → P true false (ok (put_bytes m f.offset (take f.size s.node_name)))
    → P (leb 4 f.size) false (ok (put_le m f.offset 4 page_body_size))
    → P (leb (width f.kind) f.size && is_some f.get) true (put_value f (answer s f.get) m)
    → P (row_fits f) (is_word f) (put_field s f m)
unfolding put_field row_fits is_word
put_field_cases P s f m magic name size value = elim (Bool-cases (str_eq f.name "magic")) [
  | inl e ↦ rw e magic
  | inr e ↦ rw e (elim (Bool-cases (str_eq f.name "nodeName")) [
    | inl e ↦ rw e name
    | inr e ↦
        rw e
          (elim (Bool-cases (str_eq f.name "bodySize")) [ inl e ↦ rw e size | inr e ↦ rw e value ])
  ])
]

pub put_field-other :
    (s : PageSnapshot) (f : PageField) (m m' : Memory) (i : ℕ)
    → row_fits f ≡ true
    → put_field s f m ≡ ok m'
    → within f.offset f.size i ≡ false
    → m' i ≡ m i
put_field-other s f m m' i fits e out =
    put_field_cases (λ fits _ r. fits ≡ true → r ≡ ok m' → m' i ≡ m i) s f m
      (λ fits e.
        same_at i e ∙ put_bytes-other m f.offset (codes page_magic) i (narrow _ (ground arith)))
      (λ fits e.
        same_at i e
        ∙ put_bytes-other m f.offset (take f.size s.node_name) i
            (narrow _ (length-take-le f.size s.node_name)))
      (λ fits e. same_at i e ∙ put_le-other m f.offset 4 page_body_size i (narrow _ (ground arith)))
      (λ fits e. put_value-other f (answer s f.get) m m' i (ground arith) e out) fits e
  where
    narrow : (k : ℕ) → k ≤ f.size → within f.offset k i ≡ false
    narrow k h = within-narrow f.offset f.size k i h out

pub put_fields-other :
    (s : PageSnapshot) (fs : List PageField) (m m' : Memory) (i : ℕ)
    → all row_fits fs ≡ true
    → put_fields s fs m ≡ ok m'
    → outside fs i ≡ true
    → m' i ≡ m i
unfolding put_fields
put_fields-other s [] m m' i fits e out = same_at i e
put_fields-other s (f ∷ fs) m m' i fits e out =
    let (m1, here, later) = >>=-eq-ok (put_field s f m) (put_fields s fs) e in
    put_fields-other s fs m1 m' i (ground arith) later (ground arith)
    ∙ put_field-other s f m m1 i (ground arith) here (ground arith)
