-- ===== src/Page/Carried/Valid.antt =====
-- EncodePage (budget/v1alpha1/page.go) of the snapshot of an accepted observation.
use apis.Prelude.{
  ℕ, suc, ◌+◌, ℤ, pos, ◌≤◌, ◌<◌, ◌≡◌, refl, ap, ◌∙◌, Bool, true, false, not, ◌&&◌, ◌||◌, List, [],
  ◌∷◌, Bytes, All, all, is_some, str_eq, arith, Bool-cases, inl, inr, ◌<ℤ◌, ltb, length, map,
  str_eq_iff,
}
use apis.Prelude.Outcomes.{ok}
use apis.Budget.Observation.{NodeBudgetObservation}
use apis.Budget.Validate.{validate_observation}
use apis.Budget.Validate.Facts.{IsObservation, validate_observation-IsObservation}
use apis.Page.Snapshot.{PageSnapshot, page_size, max_page_node_name_bytes}
use apis.Page.Mirror.{new_page_snapshot, page_band_counters}
use apis.Page.Field.{PageField}
use apis.Page.Fields.{page_field_specs}
use apis.Page.Layout.{layout_from, page_layout, place}
use apis.Page.Encode.{Buffer, encode_page, check_page_snapshot}
use apis.Page.Success.{is_ok, carries, encode_page_succeeds}
use apis.Page.Carried.Words.{Carries}
use apis.Page.Carried.Rows.{all_rows}

carries-layout_from :
    (s : PageSnapshot) (off : ℕ) (specs : List PageField)
    → all (carries s) (layout_from off specs) ≡ all (carries s) specs
unfolding layout_from carries
carries-layout_from s off [] = refl
carries-layout_from s off (f ∷ specs) =
    ap (λ b. carries s f && b) (carries-layout_from s (place off f + f.size) specs)

all-of-All :
    (s : PageSnapshot) (fs : List PageField) → All (Carries s) fs → all (carries s) fs ≡ true
all-of-All s [] h = refl
all-of-All s (f ∷ fs) h = let rest = all-of-All s fs h.1 in rw (h.0, rest) refl

length-map {ℓ κ} :
    {A : Type ℓ} {B : Type κ} (f : A → B) (xs : List A) → length (map f xs) ≡ length xs
length-map f [] = refl
length-map f (x ∷ xs) = ap suc (length-map f xs)

module _ (name : Bytes) (period : ℤ) (o : NodeBudgetObservation) (is : IsObservation o) where
  -- A linux observation has the linux block and no darwin block.
  linux_block : (str_eq o.platform "linux" && (not (is_some o.linux) || is_some o.darwin)) ≡ false
  linux_block = elim (Bool-cases (str_eq o.platform "linux")) [
    | inr other ↦ rw other refl
    | inl linux ↦
        let apart : str_eq o.platform "darwin" ≡ false =
          ap (λ p. str_eq p "darwin") ((str_eq_iff o.platform "linux").0 linux) in
        ground (arith, apart, is.one_block, is.its_block)
  ]

  darwin_block : (str_eq o.platform "darwin" && not (is_some o.darwin)) ≡ false
  darwin_block = ground (arith, is.its_block)

  snapshot-ok :
      0 < length name
      → length name ≤ max_page_node_name_bytes
      → pos 0 <ℤ period
      → is_ok (check_page_snapshot (new_page_snapshot name period o)) ≡ true
  unfolding new_page_snapshot check_page_snapshot
  snapshot-ok some_name short positive = ground (
    arith,
    is.known_platform,
    is.known_level,
    is.few_signals,
    is.few_bands,
    length-map page_band_counters o.counters,
    darwin_block,
    linux_block,
  )

layout-carries :
    (s : PageSnapshot) → All (Carries s) page_field_specs → all (carries s) page_layout ≡ true
unfolding page_layout
layout-carries s h = carries-layout_from s 0 page_field_specs ∙ all-of-All s page_field_specs h

all_three : (a b c : Bool) → a ≡ false → b ≡ true → c ≡ true → (not a && (b && c)) ≡ true
all_three a b c h k l = ground arith

not_short : (n : ℕ) → page_size ≤ n → ltb n page_size ≡ false
not_short n h = ground arith

-- If NodeBudgetObservation.Validate accepts an observation, the node's name has 1 to 253 bytes and
-- the writer's period is positive, then EncodePage of its snapshot into a buffer of a page or more
-- succeeds.
pub validate_observation-encode_page :
    (dst : Buffer) (name : Bytes) (period : ℤ) (o : NodeBudgetObservation)
    → validate_observation o ≡ ok tt
    → page_size ≤ dst.len
    → 0 < length name
    → length name ≤ max_page_node_name_bytes
    → pos 0 <ℤ period
    → is_ok (encode_page dst (new_page_snapshot name period o)) ≡ true
validate_observation-encode_page dst name period o valid room some_name short positive =
    let s = new_page_snapshot name period o in
    encode_page_succeeds dst s
    ∙ all_three (ltb dst.len page_size) (is_ok (check_page_snapshot s))
        (all (carries s) page_layout) (not_short dst.len room)
        (snapshot-ok name period o (validate_observation-IsObservation o valid) some_name short
          positive)
        (layout-carries s (all_rows name period o valid))
