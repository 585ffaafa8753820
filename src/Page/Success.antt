-- ===== src/Page/Success.antt =====
-- When EncodePage (budget/v1alpha1/page.go) succeeds, and what each of its errors means.
use apis.Prelude.{
  ℕ, suc, ◌≤◌, ◌<◌, ◌≡◌, refl, ◌∙◌, ap, Bool, true, false, not, ◌&&◌, ◌||◌, List, [], ◌∷◌, Option,
  none, some, arith, ltb, Bool-cases, inl, inr, all, get_elem?, is_some, ◌⊎◌,
}
use apis.Page.Bytes.{Memory, zeroed}
use apis.Page.Snapshot.{PageSnapshot, page_size}
use apis.Page.Field.{PageField, PageGetter}
use apis.Page.Layout.{page_layout}
use apis.Page.Encode.{
  PageError, Result, ok, err, ◌>>=◌, Buffer, page_buffer, invalid_page_snapshot, cannot_carry,
  check_page_snapshot, put_value, answer, put_field, put_fields, encode_page, copy_page,
}
use apis.Page.Writes.{is_word, row_fits, put_field_cases}
use apis.Page.Encoded.{page_layout-fits}

abbrev pub is_ok {ℓ} : {A : Type ℓ} → Result A → Bool
is_ok (ok _) = true
is_ok (err _) = false

abbrev pub answers : Option (Option ℕ) → Bool
answers (some (some _)) = true
answers _ = false

-- The row's getter, where it has one to call, answers a value.
unfoldable pub carries : PageSnapshot → PageField → Bool
unfolding is_word
carries s f = not (is_word f) || answers (answer s f.get)

-- Row f of the table refuses the snapshot's value.
abbrev pub Refuses : PageSnapshot → List PageField → PageError → Type 0
Refuses s fs e =
    (k : ℕ) × (f : PageField) × (get_elem? fs k ≡ some f)
    × (answer s f.get ≡ some none)
    × (e ≡ invalid_page_snapshot (cannot_carry f.name))

no_getter_there :
    {P : Type 0} (s : PageSnapshot) (get : Option PageGetter)
    → is_some get ≡ true
    → answer s get ≡ none
    → P
no_getter_there s none g a = absurd (cc)
no_getter_there s (some get) g a = absurd (cc)

put_value-err :
    (s : PageSnapshot) (f : PageField) (o : Option (Option ℕ)) (m : Memory) (e : PageError)
    → answer s f.get ≡ o
    → is_some f.get ≡ true
    → put_value f o m ≡ err e
    → (answer s f.get ≡ some none) × (e ≡ invalid_page_snapshot (cannot_carry f.name))
unfolding put_value
put_value-err s f none m e a g h = no_getter_there s f.get g a
put_value-err s f (some none) m e a g h = (a, cc)
put_value-err s f (some (some v)) m e a g h = cc

put_field-err :
    (s : PageSnapshot) (f : PageField) (m : Memory) (e : PageError)
    → row_fits f ≡ true
    → put_field s f m ≡ err e
    → (answer s f.get ≡ some none) × (e ≡ invalid_page_snapshot (cannot_carry f.name))
put_field-err s f m e fits h =
    put_field_cases
      (λ fits _ r.
        fits ≡ true
        → r ≡ err e
        → (answer s f.get ≡ some none) × (e ≡ invalid_page_snapshot (cannot_carry f.name)))
      s f m (λ _ h. cc) (λ _ h. cc) (λ _ h. cc)
      (λ fits h. put_value-err s f (answer s f.get) m e refl (ground arith) h) fits h

put_fields-err :
    (s : PageSnapshot) (fs : List PageField) (m : Memory) (e : PageError)
    → all row_fits fs ≡ true
    → put_fields s fs m ≡ err e
    → Refuses s fs e
unfolding put_fields
put_fields-err s [] m e fits h = cc
put_fields-err s (f ∷ fs) m e fits h =
    go (λ next. put_fields-err s fs next e (ground arith)) (put_field s f m) refl h
  where
    go :
        ((next : Memory) → put_fields s fs next ≡ err e → Refuses s fs e)
        → (r : Result Memory) → put_field s f m ≡ r
        → (r >>= λ next. put_fields s fs next) ≡ err e
        → Refuses s (f ∷ fs) e
    go ih (ok next) _ h = let (k, g, at, refused, e') = ih next h in (suc k, g, at, refused, e')
    go ih (err e') eq h =
        let same : put_field s f m ≡ err e = eq ∙ h in
        let (refused, e') = put_field-err s f m e (ground arith) same in (0, f, refl, refused, e')

-- An error of EncodePage is ErrPageBuffer exactly for a destination under PageSize bytes, else the
-- error of checkPageSnapshot, else names the row whose getter refuses the snapshot's value; a nil
-- getter is never called.
pub encode_page-err :
    (dst : Buffer) (s : PageSnapshot) (e : PageError)
    → encode_page dst s ≡ err e
    → ((dst.len < page_size) × (e ≡ page_buffer))
      ⊎ ((page_size ≤ dst.len)
          × ((check_page_snapshot s ≡ err e)
              ⊎ ((check_page_snapshot s ≡ ok tt) × Refuses s page_layout e)))
unfolding encode_page
encode_page-err dst s e h = elim (Bool-cases (ltb dst.len page_size)) [
  | inl short ↦
      let h' : err page_buffer ≡ err e = rw (short, encode_page) at h in inl (ground arith, cc)
  | inr long ↦
      inr (ground arith, checked (check_page_snapshot s) refl (rw (long, encode_page) at h))
]
  where
    filled :
        (r : Result Memory)
        → put_fields s page_layout zeroed ≡ r
        → (r >>= λ page. ok (copy_page page dst)) ≡ err e
        → Refuses s page_layout e
    filled (ok page) q h = cc
    filled (err e') q h =
        put_fields-err s page_layout zeroed e page_layout-fits
          (q ∙ (let same : e' ≡ e = cc in ap err same))

    checked :
        (r : Result (Unit {0}))
        → check_page_snapshot s ≡ r
        → (r >>= λ _. put_fields s page_layout zeroed >>= λ page. ok (copy_page page dst)) ≡ err e
        → (check_page_snapshot s ≡ err e)
          ⊎ ((check_page_snapshot s ≡ ok tt) × Refuses s page_layout e)
    checked (ok _) q h = inr (q, filled (put_fields s page_layout zeroed) refl h)
    checked (err e') q h = inl (q ∙ (let same : e' ≡ e = cc in ap err same))

put_value-carries :
    (s : PageSnapshot) (f : PageField) (o : Option (Option ℕ)) (m : Memory)
    → is_ok (put_value f o m) ≡ answers o
unfolding put_value
put_value-carries s f none m = refl
put_value-carries s f (some none) m = refl
put_value-carries s f (some (some v)) m = refl

put_field-carries :
    (s : PageSnapshot) (f : PageField) (m : Memory) → is_ok (put_field s f m) ≡ carries s f
unfolding carries
put_field-carries s f m =
    put_field_cases (λ _ word r. is_ok r ≡ (not word || answers (answer s f.get))) s f m refl refl
      refl (put_value-carries s f (answer s f.get) m)

put_fields-carries :
    (s : PageSnapshot) (fs : List PageField) (m : Memory)
    → is_ok (put_fields s fs m) ≡ all (carries s) fs
unfolding put_fields
put_fields-carries s [] m = refl
put_fields-carries s (f ∷ fs) m =
    go (λ next. put_fields-carries s fs next) (put_field s f m) (put_field-carries s f m)
  where
    go :
        ((next : Memory) → is_ok (put_fields s fs next) ≡ all (carries s) fs)
        → (r : Result Memory) → is_ok r ≡ carries s f
        → is_ok (r >>= λ next. put_fields s fs next) ≡ (carries s f && all (carries s) fs)
    go ih (ok next) h = rw (← h) (ih next)
    go ih (err e) h = rw (← h)

-- EncodePage succeeds exactly when the destination has room for a page, checkPageSnapshot passes
-- and every row's getter answers a value.
pub encode_page_succeeds :
    (dst : Buffer) (s : PageSnapshot)
    → is_ok (encode_page dst s) ≡ (
        not (ltb dst.len page_size)
        && (is_ok (check_page_snapshot s) && all (carries s) page_layout))
unfolding encode_page
encode_page_succeeds dst s = elim (Bool-cases (ltb dst.len page_size)) [
  | inl short ↦ rw short
  | inr long ↦ rw long (checked (check_page_snapshot s))
]
  where
    filled : (r : Result Memory) → is_ok (r >>= λ page. ok (copy_page page dst)) ≡ is_ok r
    filled (ok page) = refl
    filled (err e) = refl

    checked :
        (r : Result (Unit {0}))
        → is_ok (r >>= λ _. put_fields s page_layout zeroed >>= λ page. ok (copy_page page dst))
          ≡ (is_ok r && all (carries s) page_layout)
    checked (ok _) =
        filled (put_fields s page_layout zeroed) ∙ put_fields-carries s page_layout zeroed
    checked (err e) = refl
